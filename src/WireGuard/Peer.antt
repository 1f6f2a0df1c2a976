-- ===== src/WireGuard/Peer.antt =====
-- The loop body of `normalizeAndValidateWireGuard` (service/wireguard.go) up to the assigned
-- addresses: endpoint, keys and addresses of one peer.
use s_ui_next.GoMap.{GoMap, insert, delete, lookup}
use s_ui_next.JsonValue.{
  Object, json_string, get, string_value, strings_value, int_value, bool_value,
}
use s_ui_next.NetIp.{Addr, Prefix, same_addr, contains, overlaps, is_host}
use s_ui_next.WireGuard.{
  Net, PeerError, is_redacted_secret, refuse, parse_prefix, unsupported_role, unsupported_mode,
  static_remote_required, public_key_required, invalid_public_key, own_public_key,
  duplicate_public_key, invalid_psk, unsupported_key_mode, invalid_prefix, host_mask_required,
  server_address, family_twice, outside_network, overlaps_peer,
}
use s_ui_next.Prelude.Int.{pos, ltb_ℤ}
use s_ui_next.Prelude.{
  ℕ, String, comparable_string, ◌==◌, Bool, true, false, not, ◌&&◌, ◌||◌, List, [], ◌∷◌, ◌++◌, any,
  keep, Option, none, some, if◌then◌else◌, Result, ok, ◌>>=◌,
}

-- What the loop knows of the server.
pub record Server : Type 0 where
  pub tag : String
  pub public_key : String
  pub tunnel4 : Option Prefix
  pub tunnel6 : Option Prefix
  pub addresses : List Addr
  pub default_client_allowed : List String

-- What the loop has seen of the peers before.
pub record Seen : Type 0 where
  pub assigned : List Prefix
  pub runtime : List (Prefix × ℕ)
  pub remote_sites : List Prefix
  pub keys : GoMap String ℕ

abbrev pub nothing_seen : Seen
nothing_seen = record { assigned = []; runtime = []; remote_sites = []; keys = [] }

abbrev pub tunnel_of : Server → Bool → Option Prefix
tunnel_of server true = server.tunnel6
tunnel_of server false = server.tunnel4

-- Outside the network of its family, where that is set.
abbrev pub is_outside : Option Prefix → Addr → Bool
is_outside none a = false
is_outside (some tunnel) a = not (contains tunnel a)

-- Role, mode and remote endpoint; a dynamic peer loses its address and port.
unfoldable pub check_endpoint : String → String → Object → Result PeerError Object
check_endpoint role mode peer = do
  known_role ←
      refuse (not (role == "client" || (role == "fixed_node" || role == "site_gateway")))
        unsupported_role
  known_mode ← refuse (not (mode == "dynamic" || mode == "static")) unsupported_mode
  remote ←
      refuse
        (not (mode == "dynamic")
          && (string_value (get "static_remote_address" peer) == ""
              || ltb_ℤ (int_value (get "static_remote_port" peer)) (pos 1)))
        static_remote_required
  port ←
      refuse (ltb_ℤ (pos 65535) (int_value (get "static_remote_port" peer))) static_remote_required
  ok (if mode == "dynamic" then delete "port" (delete "address" peer) else peer)

abbrev pub is_seen : Option ℕ → Bool
is_seen none = false
is_seen (some i) = true

module _ (net : Net) where
  open net use {is_key, parse, print}

  -- The public key, which is stored as seen, and the pre-shared key.
  unfoldable pub check_keys : Server → ℕ → Object → Seen → Result PeerError Seen
  check_keys server index peer seen = do
    let key = string_value (get "public_key" peer)
    given ← refuse (key == "") public_key_required
    valid ← refuse (not (is_key key)) invalid_public_key
    other ← refuse (key == server.public_key) own_public_key
    new ← refuse (is_seen (lookup key seen.keys)) duplicate_public_key
    let psk = string_value (get "pre_shared_key" peer)
    usable ←
        refuse (not (psk == "") && (not (is_redacted_secret psk) && not (is_key psk))) invalid_psk
    ok (record seen { keys = insert key index seen.keys })

  unfoldable pub key_mode : String → Object → String
  key_mode role peer =
      let given = string_value (get "peer_key_mode" peer) in
      if given == ""
      then (if not (string_value (get "client_private_key" peer) == "")
            || (bool_value (get "client_private_key_set" peer) false || role == "client")
          then "generated_client"
          else "existing_peer")
      else given

  -- The peer with its key mode, without the private keys of an existing peer.
  unfoldable pub set_key_mode : String → Object → Result PeerError Object
  set_key_mode mode peer = do
    known ←
        refuse (not (mode == "generated_client" || mode == "existing_peer")) unsupported_key_mode
    let named = insert "peer_key_mode" (json_string mode) peer
    ok (
        if mode == "existing_peer"
        then delete "client_private_key_set" (delete "client_private_key" named)
        else named)

  -- The candidate of a family that an old list of allowed addresses gives, after the ones before.
  abbrev pub better : Bool → String → Option Prefix → String
  better ipv6 found none = found
  better ipv6 found (some p) =
      if is_host p && (found == "" && (if p.addr.is6 then ipv6 else not ipv6))
      then print p
      else found

  unfoldable pub first_host : Bool → String → List String → String
  first_host ipv6 found [] = found
  first_host ipv6 found (value ∷ values) = first_host ipv6 (better ipv6 found (parse value)) values

  unfoldable pub assigned_candidates : Object → List String
  unfolding first_host
  assigned_candidates peer =
      let ipv4 = string_value (get "assigned_ipv4" peer) in
      let ipv6 = string_value (get "assigned_ipv6" peer) in
      let legacy =
        strings_value (get "server_allowed_ips" peer) ++ strings_value (get "allowed_ips" peer) in
      keep (λ s. not (s == ""))
        (if ipv4 == "" && ipv6 == ""
          then first_host false "" legacy ∷ first_host true "" legacy ∷ []
          else ipv4 ∷ ipv6 ∷ [])

  abbrev pub family_key : Bool → String
  family_key true = "assigned_ipv6"
  family_key false = "assigned_ipv4"

  -- The tests on one assigned address, with those of the peer before it.
  unfoldable pub check_assigned :
      Server → List Prefix → List Prefix → Prefix → Result PeerError (Unit {0})
  check_assigned server own others p = do
    host ← refuse (not (is_host p)) host_mask_required
    free ← refuse (any (same_addr p.addr) server.addresses) server_address
    once ← refuse (any (λ q. if q.addr.is6 then p.addr.is6 else not p.addr.is6) own) family_twice
    inside ← refuse (is_outside (tunnel_of server p.addr.is6) p.addr) outside_network
    refuse (any (λ q. overlaps q p) others) overlaps_peer

  -- The loop over the assigned addresses: the peer with them written out, the addresses, and all that
  -- are taken.
  unfoldable pub assign :
      Server
      → List String
      → Object
      → List Prefix
      → List Prefix
      → Result PeerError (Object × List Prefix × List Prefix)
  assign server [] peer own taken = ok (peer, own, taken)
  assign server (value ∷ values) peer own taken = do
    p ← parse_prefix net invalid_prefix value
    free ← check_assigned server own taken p
    assign server values (insert (family_key p.addr.is6) (json_string (print p)) peer)
        (own ++ p ∷ []) (p ∷ taken)
