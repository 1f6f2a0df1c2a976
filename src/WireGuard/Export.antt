-- ===== src/WireGuard/Export.antt =====
-- `ExportWireGuardPeer` of service/wireguard.go: the client configuration of a peer of a stored
-- endpoint. The row of the database is an argument: its tag, its options and its `ext`.
use Prim.Native.String.{◌++◌ as concat}
use s_ui_next.GoText.{join}
use s_ui_next.JsonValue.{
  Value, Object, get, map_value, list_value, string_value, strings_value, bool_value, int_value,
}
use s_ui_next.NetIp.{Prefix, is_host}
use s_ui_next.WireGuard.Client.{is_included}
use s_ui_next.WireGuard.Roles.{has_any}
use s_ui_next.WireGuard.{Net, refuse, required}
use s_ui_next.Prelude.Int.{pos, pos_part, ltb_ℤ}
use s_ui_next.Prelude.{
  ℕ, suc, String, comparable_string, comparable_nat, ◌==◌, Bool, true, false, not, ◌&&◌, ◌||◌, List,
  [], ◌∷◌, ◌++◌, any, keep, get_elem?, Option, none, some, if◌then◌else◌, Result, ok, err, ◌>>=◌,
}
use s_ui_next.WireGuard.ExportText.{
  decimal, host_port, file_name, base_from, legacy_key, first_text, first_list, line_if,
  number_line, first_number,
}

pub record WireGuardExport : Type 0 where
  pub name : String
  pub filename : String
  pub config : String

pub data ExportError : Type 0 where
  bad_options peer_not_found peer_invalid client_key_unavailable export_disabled : ExportError
  server_key_unavailable endpoint_unset addresses_unset : ExportError

module _ (net : Net) where
  open net use {parse, print, is_key, public_key}

  abbrev added_if {ℓ} : {A : Type ℓ} → Bool → A → List A → List A
  added_if b a rest = if b then a ∷ rest else rest

  abbrev address_text : Bool → Bool → Bool → Option Prefix → List String → List String
  address_text only_hosts include4 include6 none rest = rest
  address_text only_hosts include4 include6 (some p) rest =
      added_if ((not only_hosts || is_host p) && is_included include4 include6 p.addr) (print p)
        rest

  -- The texts that are addresses of a wanted family, printed again.
  unfoldable pub address_texts : Bool → Bool → Bool → List String → List String
  address_texts only_hosts include4 include6 [] = []
  address_texts only_hosts include4 include6 (value ∷ values) =
      address_text only_hosts include4 include6 (parse value)
        (address_texts only_hosts include4 include6 values)

  unfoldable pub client_addresses : Bool → Bool → Object → List String
  unfolding address_texts
  client_addresses include4 include6 peer =
      first_list
        (address_texts false include4 include6 (
          keep (λ s. not (s == ""))
            (string_value (get "assigned_ipv4" peer)
              ∷ string_value (get "assigned_ipv6" peer)
              ∷ [])))
        (address_texts true include4 include6 (
          strings_value (get "runtime_allowed_ips" peer) ++ strings_value (get "allowed_ips" peer)))

  unfoldable pub once_each : List String → List String → List String
  once_each seen [] = []
  once_each seen (value ∷ values) = elim (any (λ s. s == value) seen) [
    | true ↦ once_each seen values
    | false ↦ value ∷ once_each (value ∷ seen) values
  ]

  -- The addresses that the client sends through the tunnel, each once.
  unfoldable pub client_routes : Bool → Bool → Object → Object → List String
  unfolding address_texts once_each
  client_routes include4 include6 root peer =
      let given =
        first_list (strings_value (get "client_allowed_ips" peer))
          (strings_value (get "default_client_allowed_ips" root)) in
      let networks =
        keep (λ s. not (s == ""))
          (string_value (get "tunnel_ipv4_cidr" root)
            ∷ string_value (get "tunnel_ipv6_cidr" root)
            ∷ []) in
      let local =
        if string_value (get "peer_role" peer) == "site_gateway"
        then strings_value (get "local_site_cidrs" peer)
        else [] in
      once_each [] (address_texts false include4 include6 (first_list given networks ++ local))

  unfoldable pub server_key : Object → Object → Result ExportError String
  server_key root ext =
      let stored = string_value (get "public_key" ext) in
      let private = string_value (get "private_key" root) in
      if not (stored == "")
      then ok stored
      else if is_key private
      then ok (public_key private)
      else err server_key_unavailable

  unfoldable pub client_dns : Object → Object → Object → List String
  client_dns root ext peer =
      first_list (strings_value (get "client_dns" peer))
        (first_list (strings_value (get "default_client_dns" root)) (strings_value (get "dns" ext)))

  -- The text of the configuration.
  unfoldable pub config_text :
      Object → Object → Object → String → String → List String → List String → String → ℕ → String
  unfolding client_dns host_port
  config_text root ext peer client_key key addresses routes host port = join "" (
      concat "[Interface]\nPrivateKey = " (concat client_key "\n")
      ∷ concat "Address = " (concat (join ", " addresses) "\n")
      ∷ line_if "DNS = " (join ", " (client_dns root ext peer))
      ∷ number_line "MTU = " (
          first_number (int_value (get "client_mtu" peer))
            (int_value (get "default_client_mtu" root)))
      ∷ concat "\n[Peer]\nPublicKey = " (concat key "\n")
      ∷ line_if "PresharedKey = " (string_value (get "pre_shared_key" peer))
      ∷ concat "AllowedIPs = " (concat (join ", " routes) "\n")
      ∷ concat "Endpoint = " (concat (host_port host port) "\n")
      ∷ number_line "PersistentKeepalive = " (
          first_number (int_value (get "client_keepalive" peer))
            (int_value (get "default_client_keepalive" root)))
      ∷ [])

  abbrev peer_present : Option Value → Result ExportError Object
  peer_present none = err peer_not_found
  peer_present (some v) = required peer_invalid (map_value v)

  unfoldable pub export_peer :
      String → Option Object → Object → ℕ → Result ExportError WireGuardExport
  unfolding server_key
  export_peer tag options ext index = do
    root ← required bad_options options
    peer ← peer_present (get_elem? (list_value (get "peers" root)) index)
    let client_key =
        first_text (string_value (get "client_private_key" peer))
          (legacy_key (string_value (get "public_key" peer)) (list_value (get "keys" ext)))
    made ← refuse (client_key == "") client_key_unavailable
    let host = string_value (get "advertised_endpoint_host" root)
    let port = int_value (get "advertised_endpoint_port" root)
    enabled ←
        refuse (not (bool_value (get "client_export_enabled" root) (not (host == ""))))
          export_disabled
    key ← server_key root ext
    reachable ← refuse (host == "" || (ltb_ℤ port (pos 1) || ltb_ℤ (pos 65535) port)) endpoint_unset
    let include4 = bool_value (get "include_ipv4" peer) true
    let include6 = bool_value (get "include_ipv6" peer) true
    let addresses = client_addresses include4 include6 peer
    let routes = client_routes include4 include6 root peer
    usable ← refuse (not (has_any addresses) || not (has_any routes)) addresses_unset
    let name = first_text (string_value (get "name" peer)) (concat "Peer " (decimal (suc index)))
    let path = concat tag (concat "_" (concat (file_name name) ".conf"))
    ok (record {
      name = name;
      filename = base_from path path;
      config = config_text root ext peer client_key key addresses routes host (pos_part port);
    })
