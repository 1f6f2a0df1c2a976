-- ===== src/WireGuard/ManagedRoutes.antt =====
-- `syncWireGuardManagedRoute` of service/wireguard.go: the routing rules that the panel keeps for an
-- endpoint, as rows of a table. The database fails nowhere here.
use Prim.Native.String.{◌++◌ as concat}
use s_ui_next.JsonValue.{
  Value, Object, get, map_value, list_value, string_value, strings_value, bool_value,
}
use s_ui_next.WireGuard.ExportText.{decimal}
use s_ui_next.WireGuard.Roles.{has_any}
use s_ui_next.WireGuard.{WireGuardError, bad_json}
use s_ui_next.Prelude.{
  ℕ, suc, String, comparable_string, ◌==◌, false, not, ◌&&◌, List, [], ◌∷◌, keep, Option, none,
  some, if◌then◌else◌, Result, ok, err,
}

-- A row; its two lists stand for their JSON texts.
pub record ManagedRule : Type 0 where
  pub managed_key : String
  pub endpoint_tag : String
  pub ipv4_cidr : String
  pub ipv6_cidr : String
  pub cidrs : List String
  pub inbound_tags : List String

pub record Endpoint : Type 0 where
  pub type : String
  pub tag : String
  pub options : Option Object

-- `Where("managed_key = ?").Assign(rule).FirstOrCreate`: the first row of the key gets the fields of
-- the rule that are not empty, or the rule is a new row.
abbrev text_or : String → String → String
text_or new old = if new == "" then old else new

abbrev assign_rule : ManagedRule → ManagedRule → ManagedRule
assign_rule rule row = record {
  managed_key = rule.managed_key;
  endpoint_tag = text_or rule.endpoint_tag row.endpoint_tag;
  ipv4_cidr = text_or rule.ipv4_cidr row.ipv4_cidr;
  ipv6_cidr = text_or rule.ipv6_cidr row.ipv6_cidr;
  cidrs = if has_any rule.cidrs then rule.cidrs else row.cidrs;
  inbound_tags = if has_any rule.inbound_tags then rule.inbound_tags else row.inbound_tags;
}

unfoldable pub put_rule : ManagedRule → List ManagedRule → List ManagedRule
put_rule rule [] = rule ∷ []
put_rule rule (row ∷ rows) =
    if row.managed_key == rule.managed_key
    then assign_rule rule row ∷ rows
    else row ∷ put_rule rule rows

unfoldable pub delete_rules : String → List ManagedRule → List ManagedRule
delete_rules tag rows = keep (λ row. not (row.endpoint_tag == tag)) rows

-- Forwarding between the peers of an endpoint.
unfoldable pub put_forwarding : String → Object → List ManagedRule → List ManagedRule
unfolding put_rule
put_forwarding tag options rows =
    if bool_value (get "hub_peer_forwarding_enabled" options)
      (bool_value (get "peer_to_peer_enabled" options) false)
    then put_rule
        (record {
          managed_key = concat "wireguard-hub-forwarding:" tag;
          endpoint_tag = tag;
          ipv4_cidr = string_value (get "tunnel_ipv4_cidr" options);
          ipv6_cidr = string_value (get "tunnel_ipv6_cidr" options);
          cidrs = [];
          inbound_tags = [];
        })
        rows
    else rows

-- The rule of a site gateway, where the peer is one and names sites.
unfoldable pub gateway_rule : String → ℕ → Object → Option ManagedRule
gateway_rule tag index peer =
    let cidrs = strings_value (get "remote_site_cidrs" peer) in
    let inbounds = strings_value (get "route_inbounds" peer) in
    if string_value (get "peer_role" peer) == "site_gateway" && has_any cidrs
    then some (record {
      managed_key = concat "wireguard-site-gateway:" (concat tag (concat ":" (decimal index)));
      endpoint_tag = tag;
      ipv4_cidr = "";
      ipv6_cidr = "";
      cidrs = cidrs;
      inbound_tags = if has_any inbounds then inbounds else tag ∷ [];
    })
    else none

abbrev rule_of : String → ℕ → Option Object → Option ManagedRule
rule_of tag index none = none
rule_of tag index (some peer) = gateway_rule tag index peer

abbrev put_if_any : Option ManagedRule → List ManagedRule → List ManagedRule
put_if_any none rows = rows
put_if_any (some rule) rows = put_rule rule rows

unfoldable pub put_gateways : String → ℕ → List Value → List ManagedRule → List ManagedRule
unfolding gateway_rule put_rule
put_gateways tag index [] rows = rows
put_gateways tag index (raw ∷ rest) rows =
    put_gateways tag (suc index) rest (put_if_any (rule_of tag index (map_value raw)) rows)

unfoldable pub sync_managed_route :
    Option Endpoint → List ManagedRule → Result WireGuardError (List ManagedRule)
unfolding delete_rules put_forwarding put_gateways
sync_managed_route none rows = ok rows
sync_managed_route (some endpoint) rows =
    if endpoint.type == "wireguard"
    then elim endpoint.options [
      | none ↦ err bad_json
      | some options ↦ ok (
          put_gateways endpoint.tag 0 (list_value (get "peers" options))
            (put_forwarding endpoint.tag options (delete_rules endpoint.tag rows)))
    ]
    else ok (delete_rules endpoint.tag rows)
