-- ===== src/WireGuard/Client.antt =====
-- The end of the loop body of `normalizeAndValidateWireGuard` (service/wireguard.go): the client
-- configuration of a peer whose key the panel has made.
use s_ui_next.GoMap.{insert}
use s_ui_next.JsonValue.{
  Object, json_string, json_bool, get, string_value, strings_value, bool_value, interface_strings,
}
use s_ui_next.NetIp.{Addr, Prefix, same_addr, is_host}
use s_ui_next.WireGuard.{
  Net, PeerError, refuse, parse_prefix, invalid_prefix, full_tunnel_required, no_family,
  unsupported_client_preset, client_allowed_required, host_routes_required, points_back,
  client_allowed_empty,
}
use s_ui_next.WireGuard.Peer.{Server}
use s_ui_next.WireGuard.Roles.{has_any}
use s_ui_next.Prelude.{
  String, comparable_string, ◌==◌, Bool, false, not, ◌&&◌, ◌||◌, List, [], ◌∷◌, ◌++◌, any, Option,
  none, some, nat_eq, if◌then◌else◌, Result, ok, ◌>>=◌,
}

abbrev pub is_client_preset : String → Bool
is_client_preset preset =
    preset == "virtual_network"
    || (preset == "single_peer" || (preset == "custom" || preset == "full_tunnel"))

abbrev pub is_included : Bool → Bool → Addr → Bool
is_included include4 include6 a = if a.is6 then include6 else include4

-- The peer with its choice of families and its preset.
abbrev pub set_client : Bool → Bool → String → Object → Object
set_client include4 include6 preset peer =
    let chosen =
      insert "include_ipv6" (json_bool include6)
        (insert "include_ipv4" (json_bool include4) peer) in
    if string_value (get "client_route_preset" peer) == ""
    then insert "client_route_preset" (json_string preset) chosen
    else chosen

module _ (net : Net) where
  open net use {parse, print}

  abbrev pub has_addr : Addr → Option Prefix → Bool
  has_addr a none = false
  has_addr a (some p) = same_addr p.addr a

  -- Whether an address is among the peer's own.
  abbrev pub is_own : List String → Addr → Bool
  is_own assigned a = any (λ value. has_addr a (parse value)) assigned

  abbrev pub tunnel_text : Bool → Option Prefix → List String
  tunnel_text wanted none = []
  tunnel_text wanted (some tunnel) = if wanted then print tunnel ∷ [] else []

  -- The allowed addresses before the filter: the peer's, the server's default, or its networks.
  unfoldable pub client_allowed : Server → Bool → Bool → Object → List String
  client_allowed server include4 include6 peer =
      let own = strings_value (get "client_allowed_ips" peer) in
      if has_any own
      then own
      else if has_any server.default_client_allowed
      then server.default_client_allowed
      else tunnel_text include4 server.tunnel4 ++ tunnel_text include6 server.tunnel6

  unfoldable pub filter_client :
      String → Bool → Bool → List String → List String → Result PeerError (List String)
  filter_client preset include4 include6 assigned [] = ok []
  filter_client preset include4 include6 assigned (value ∷ values) = do
    p ← parse_prefix net invalid_prefix value
    wanted ← refuse (nat_eq p.bits 0 && not (preset == "full_tunnel")) full_tunnel_required
    host ← refuse (preset == "single_peer" && not (is_host p)) host_routes_required
    away ← refuse (preset == "single_peer" && is_own assigned p.addr) points_back
    rest ← filter_client preset include4 include6 assigned values
    ok (if is_included include4 include6 p.addr then print p ∷ rest else rest)

  unfoldable pub check_client :
      Server → String → List String → List String → Object → Result PeerError Object
  unfolding client_allowed
  check_client server role assigned local peer = do
    let include4 =
        bool_value (get "include_ipv4" peer) (not (string_value (get "assigned_ipv4" peer) == ""))
    let include6 =
        bool_value (get "include_ipv6" peer) (not (string_value (get "assigned_ipv6" peer) == ""))
    family ← refuse (not include4 && not include6) no_family
    let given = string_value (get "client_route_preset" peer)
    let preset = if given == "" then "virtual_network" else given
    known ← refuse (not (is_client_preset preset)) unsupported_client_preset
    let base = client_allowed server include4 include6 peer
    some_base ← refuse (not (has_any base)) client_allowed_required
    allowed ←
        filter_client preset include4 include6 assigned
          (if role == "site_gateway" then base ++ local else base)
    some_allowed ← refuse (not (has_any allowed)) client_allowed_empty
    ok (
        insert "client_allowed_ips" (interface_strings allowed)
          (set_client include4 include6 preset peer))
