-- ===== src/WireGuard/Server.antt =====
-- `normalizeAndValidateWireGuard` of service/wireguard.go: a peer, the loop over the peers, and the
-- endpoint as a whole.
use s_ui_next.GoMap.{insert, has_key}
use s_ui_next.JsonValue.{
  Value, Object, json_bool, json_number, get, map_value, list_value, string_value, strings_value,
  bool_value, int_value, array, object,
}
use s_ui_next.NetIp.{Addr, Prefix, same_addr, is_host}
use s_ui_next.WireGuard.Client.{check_client}
use s_ui_next.WireGuard.Peer.{
  Server, Seen, nothing_seen, is_outside, check_endpoint, check_keys, key_mode, set_key_mode,
  assigned_candidates, assign,
}
use s_ui_next.WireGuard.Roles.{has_any, peer_role, remote_mode, normalize_peer_role}
use s_ui_next.WireGuard.Routes.{check_sites, local_sites, set_sites, check_runtime}
use s_ui_next.WireGuard.{
  Net, PeerError, WireGuardError, schema_version, refuse, required, parse_prefix, validate_tunnel,
  at_peer, not_an_object, assigned_required, tag_required, private_key_required,
  invalid_private_key, address_required, invalid_address, outside_tunnel, duplicate_address,
  invalid_port, export_host_required, export_port_required, peers_required, bad_json,
}
use s_ui_next.Prelude.Int.{ℤ, pos, ltb_ℤ}
use s_ui_next.Prelude.{
  ℕ, suc, String, comparable_string, ◌==◌, Bool, true, false, not, ◌&&◌, ◌||◌, List, [], ◌∷◌, map,
  any, Option, none, some, if◌then◌else◌, Result, ok, err, ◌>>=◌,
}

-- `peer %d` of the messages counts from one.
abbrev pub numbered {ℓ} : {A : Type ℓ} → ℕ → Result PeerError A → Result WireGuardError A
numbered index (ok a) = ok a
numbered index (err e) = err (at_peer (suc index) e)

-- Whether an endpoint is checked at all.
unfoldable pub is_current : Object → Bool
is_current root =
    string_value (get "type" root) == "wireguard"
    && not (ltb_ℤ (int_value (get "wireguard_schema" root)) (pos 2))

module _ (net : Net) where
  open net use {print, is_key, public_key}

  -- The client part, which a peer with a key of its own skips.
  unfoldable pub finish_peer :
      Server → String → String → List String → List String → Object → Result PeerError Object
  finish_peer server mode role assigned local peer = elim (mode == "generated_client") [
    | true ↦ check_client net server role assigned local peer
    | false ↦ ok peer
  ]

  -- Role, endpoint and keys of a peer: its role, its key mode and the peer.
  unfoldable pub identify :
      Server → ℕ → Object → Seen → Result PeerError (String × String × Object × Seen)
  identify server index given seen = do
    let role = peer_role given
    placed ← check_endpoint role (remote_mode given) (normalize_peer_role given)
    keyed ← check_keys net server index placed seen
    let mode = key_mode net role placed
    named ← set_key_mode net mode placed
    ok (role, mode, named, keyed)

  -- Its addresses and remote sites: the peer, and both as texts.
  unfoldable pub place :
      Server
      → String
      → String
      → Object
      → Seen
      → Result PeerError (Object × List String × List String × Seen)
  place server role mode named seen = do
    let candidates = assigned_candidates net named
    some_assigned ←
        refuse (mode == "generated_client" && not (has_any candidates)) assigned_required
    (addressed, own, taken) ← assign net server candidates named [] seen.assigned
    (remote, sited) ← check_sites net server role addressed (record seen { assigned = taken })
    ok (addressed, map print own, map print remote, sited)

  -- Its local sites, its runtime routes and its client part.
  unfoldable pub route :
      Server
      → ℕ
      → String
      → String
      → List String
      → List String
      → Object
      → Seen
      → Result PeerError (Object × Seen)
  route server index role mode own remote peer seen = do
    local ← local_sites net (strings_value (get "local_site_cidrs" peer))
    (routed, last) ←
        check_runtime net index role own remote (set_sites net server role remote local peer) seen
    finished ← finish_peer server mode role own local routed
    ok (finished, last)

  -- The body of the loop.
  unfoldable pub check_peer : Server → ℕ → Value → Seen → Result PeerError (Object × Seen)
  check_peer server index value seen = do
    given ← required not_an_object (map_value value)
    (role, mode, named, keyed) ← identify server index given seen
    (addressed, own, remote, sited) ← place server role mode named keyed
    route server index role mode own remote addressed sited

  unfoldable pub check_peers :
      Server → ℕ → List Value → Seen → Result WireGuardError (List Value × Seen)
  check_peers server index [] seen = ok ([], seen)
  check_peers server index (value ∷ values) seen = do
    (peer, next) ← numbered index (check_peer server index value seen)
    (rest, last) ← check_peers server (suc index) values next
    ok (object peer ∷ rest, last)

  unfoldable pub optional_tunnel : Bool → String → Result WireGuardError (Option Prefix)
  optional_tunnel ipv6 value = elim (value == "") [
    | true ↦ ok none
    | false ↦ do p ← validate_tunnel net ipv6 value; ok (some p)
  ]

  -- The loop over the addresses of the endpoint.
  unfoldable pub take_addresses :
      Option Prefix → Option Prefix → List String → List Addr → Result WireGuardError (List Addr)
  take_addresses tunnel4 tunnel6 [] taken = ok taken
  take_addresses tunnel4 tunnel6 (value ∷ values) taken = do
    p ← parse_prefix net invalid_address value
    host ← refuse (not (is_host p)) invalid_address
    inside ← refuse (is_outside (if p.addr.is6 then tunnel6 else tunnel4) p.addr) outside_tunnel
    once ← refuse (any (same_addr p.addr) taken) duplicate_address
    take_addresses tunnel4 tunnel6 values (p.addr ∷ taken)

  unfoldable pub own_key : Object → Result WireGuardError String
  own_key root = do
    let key = string_value (get "private_key" root)
    given ← refuse (key == "") private_key_required
    valid ← refuse (not (is_key key)) invalid_private_key
    ok (public_key key)

  abbrev pub is_port : ℤ → Bool
  is_port n = ltb_ℤ (pos 0) n && not (ltb_ℤ (pos 65535) n)

  unfoldable pub check_export : Object → Result WireGuardError Object
  check_export root = do
    let host = string_value (get "advertised_endpoint_host" root)
    let port = int_value (get "advertised_endpoint_port" root)
    let enabled =
        bool_value (get "client_export_enabled" root) (not (host == "") || ltb_ℤ (pos 0) port)
    named ← refuse (enabled && host == "") export_host_required
    usable ← refuse (enabled && not (is_port port)) export_port_required
    ok (insert "client_export_enabled" (json_bool enabled) root)

  -- Forwarding between peers, under its new name and its old one.
  unfoldable pub set_forwarding : Object → Object
  set_forwarding root =
      let old = bool_value (get "peer_to_peer_enabled" root) false in
      let new =
        if has_key "hub_peer_forwarding_enabled" root
        then root
        else insert "hub_peer_forwarding_enabled" (json_bool old) root in
      insert "peer_to_peer_enabled"
        (json_bool (bool_value (get "hub_peer_forwarding_enabled" new) old)) new

  abbrev pub server_of : Object → String → Option Prefix → Option Prefix → List Addr → Server
  server_of root key tunnel4 tunnel6 addresses = record {
    tag = string_value (get "tag" root);
    public_key = key;
    tunnel4 = tunnel4;
    tunnel6 = tunnel6;
    addresses = addresses;
    default_client_allowed = strings_value (get "default_client_allowed_ips" root);
  }

  -- What is checked of the server: what the loop needs of it, and the endpoint with its flags.
  unfoldable pub check_server : Object → Result WireGuardError (Server × Object)
  check_server given = do
    let root = insert "wireguard_schema" (json_number (pos schema_version)) given
    named ← refuse (string_value (get "tag" root) == "") tag_required
    key ← own_key root
    tunnel4 ← optional_tunnel false (string_value (get "tunnel_ipv4_cidr" root))
    tunnel6 ← optional_tunnel true (string_value (get "tunnel_ipv6_cidr" root))
    let values = strings_value (get "address" root)
    some_values ← refuse (not (has_any values)) address_required
    addresses ← take_addresses tunnel4 tunnel6 values []
    let port = int_value (get "listen_port" root)
    listening ← refuse (ltb_ℤ port (pos 0) || ltb_ℤ (pos 65535) port) invalid_port
    exported ← check_export root
    ok (server_of root key tunnel4 tunnel6 addresses, set_forwarding exported)

  -- What is done to an endpoint of the current schema, with what the loop has seen at its end.
  unfoldable pub validate_endpoint : Object → Result WireGuardError (Object × Seen)
  validate_endpoint given = do
    (server, root) ← check_server given
    let values = list_value (get "peers" root)
    some_peers ← refuse (not (has_any values)) peers_required
    (peers, last) ← check_peers server 0 values nothing_seen
    ok (insert "peers" (array peers) root, last)

  -- Anything but a WireGuard endpoint of schema 2 or later is passed through.
  unfoldable pub normalize_and_validate : Option Object → Result WireGuardError Object
  normalize_and_validate none = err bad_json
  normalize_and_validate (some root) = elim (is_current root) [
    | true ↦ do (checked, last) ← validate_endpoint root; ok checked
    | false ↦ ok root
  ]
