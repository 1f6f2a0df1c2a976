-- ===== src/WireGuard/Routes.antt =====
-- The loop body of `normalizeAndValidateWireGuard` (service/wireguard.go) from the sites of a gateway
-- to the routes that the running endpoint gives to a peer.
use s_ui_next.GoMap.{insert, delete}
use s_ui_next.JsonValue.{Object, json_string, get, string_value, strings_value, interface_strings}
use s_ui_next.NetIp.{Prefix, masked, contains, overlaps}
use s_ui_next.WireGuard.{
  Net, PeerError, refuse, parse_prefix, validate_site_cidr, invalid_prefix, remote_sites_required,
  remote_sites_refused, overlaps_network, overlaps_site, sites_not_in_runtime,
  unsupported_runtime_preset, runtime_required, full_tunnel_required, overlaps_runtime,
  site_not_covered,
}
use s_ui_next.WireGuard.Peer.{Server, Seen}
use s_ui_next.WireGuard.Roles.{has_any}
use s_ui_next.WireGuard.Sets.{same_string_set}
use s_ui_next.Prelude.{
  ℕ, String, comparable_string, ◌==◌, Bool, true, false, not, ◌&&◌, ◌||◌, List, [], ◌∷◌, ◌++◌, any,
  Option, none, some, leb, nat_eq, if◌then◌else◌, Result, ok, err, ◌>>=◌,
}

abbrev pub overlaps_tunnel : Option Prefix → Prefix → Bool
overlaps_tunnel none p = false
overlaps_tunnel (some tunnel) p = overlaps p tunnel

-- The key of a list that is only written where it is not empty.
abbrev pub insert_if_any : String → List String → Object → Object
insert_if_any key [] peer = peer
insert_if_any key (s ∷ ss) peer = insert key (interface_strings (s ∷ ss)) peer

abbrev pub is_default_route : Option Prefix → Bool
is_default_route none = false
is_default_route (some p) = nat_eq p.bits 0

module _ (net : Net) where
  open net use {parse, print}

  -- The loop over the remote sites: their prefixes, and all that are taken.
  unfoldable pub take_sites :
      Server → List String → List Prefix → Result PeerError (List Prefix × List Prefix)
  take_sites server [] taken = ok ([], taken)
  take_sites server (value ∷ values) taken = do
    p ← validate_site_cidr net value
    outside ←
        refuse (overlaps_tunnel server.tunnel4 p || overlaps_tunnel server.tunnel6 p)
          overlaps_network
    free ← refuse (any (λ q. overlaps q p) taken) overlaps_site
    (rest, all_taken) ← take_sites server values (p ∷ taken)
    ok (p ∷ rest, all_taken)

  unfoldable pub local_sites : List String → Result PeerError (List String)
  local_sites [] = ok []
  local_sites (value ∷ values) = do
    p ← validate_site_cidr net value
    rest ← local_sites values
    ok (print p ∷ rest)

  -- The remote sites with the role's two rules.
  unfoldable pub check_sites :
      Server → String → Object → Seen → Result PeerError (List Prefix × Seen)
  check_sites server role peer seen = do
    let sites = strings_value (get "remote_site_cidrs" peer)
    given ← refuse (role == "site_gateway" && not (has_any sites)) remote_sites_required
    allowed ← refuse (not (role == "site_gateway") && has_any sites) remote_sites_refused
    (own, taken) ← take_sites server sites seen.remote_sites
    ok (own, record seen { remote_sites = taken })

  -- The peer with its sites and inbounds, or without them where it is no gateway.
  unfoldable pub set_sites : Server → String → List String → List String → Object → Object
  set_sites server role remote local peer =
      let named =
        insert_if_any "local_site_cidrs" local (insert_if_any "remote_site_cidrs" remote peer) in
      let inbounds = strings_value (get "route_inbounds" named) in
      if role == "site_gateway"
      then insert "route_inbounds"
          (interface_strings (if has_any inbounds then inbounds else server.tag ∷ [])) named
      else delete "local_site_cidrs" (delete "route_inbounds" named)

  abbrev legacy_allowed : Object → List String
  legacy_allowed peer =
      strings_value (get "server_allowed_ips" peer) ++ strings_value (get "allowed_ips" peer)

  unfoldable pub runtime_preset : String → List String → List String → Object → String
  runtime_preset role assigned remote peer =
      let given = string_value (get "runtime_route_preset" peer) in
      let allowed = strings_value (get "runtime_allowed_ips" peer) in
      let candidates = if has_any allowed then allowed else legacy_allowed peer in
      if not (given == "")
      then given
      else if not (has_any candidates) || same_string_set candidates assigned
      then "peer_addresses"
      else if role == "site_gateway" && has_any remote
      then "remote_networks"
      else if any (λ value. is_default_route (parse value)) candidates
      then "full_tunnel"
      else "custom"

  -- The switch on the preset: the texts of the allowed addresses.
  unfoldable pub runtime_allowed :
      String → String → List String → List String → Object → Result PeerError (List String)
  runtime_allowed preset role assigned remote peer =
      let allowed = strings_value (get "runtime_allowed_ips" peer) in
      if preset == "peer_addresses"
      then (if role == "site_gateway" then err sites_not_in_runtime else ok assigned)
      else if preset == "remote_networks"
      then ok (assigned ++ remote)
      else if preset == "full_tunnel"
      then ok (if has_any allowed then allowed else "0.0.0.0/0" ∷ "::/0" ∷ [])
      else if preset == "custom"
      then ok (if has_any allowed then allowed else legacy_allowed peer)
      else err unsupported_runtime_preset

  abbrev pub is_foreign : ℕ → Prefix → Prefix × ℕ → Bool
  is_foreign index p (q, owner) = not (nat_eq owner index) && overlaps q p

  -- The loop over the runtime addresses: the texts that are stored (each once), and the owned prefixes.
  unfoldable pub take_runtime :
      String
      → ℕ
      → List String
      → List String
      → List (Prefix × ℕ)
      → Result PeerError (List String × List (Prefix × ℕ))
  take_runtime preset index [] stored taken = ok (stored, taken)
  take_runtime preset index (value ∷ values) stored taken = do
    given ← parse_prefix net invalid_prefix value
    let p = masked given
    wanted ← refuse (nat_eq p.bits 0 && not (preset == "full_tunnel")) full_tunnel_required
    free ← refuse (any (is_foreign index p) taken) overlaps_runtime
    elim (any (λ s. s == print p) stored) [
      | true ↦ take_runtime preset index values stored taken
      | false ↦ take_runtime preset index values (stored ++ print p ∷ []) ((p, index) ∷ taken)
    ]

  abbrev pub covers : Option Prefix → Option Prefix → Bool
  covers (some runtime) (some remote) = leb runtime.bits remote.bits && contains runtime remote.addr
  covers _ _ = false

  unfoldable pub check_covered : List String → List String → Result PeerError (Unit {0})
  check_covered stored [] = ok tt
  check_covered stored (remote ∷ rest) = do
    covered ←
        refuse (not (any (λ runtime. covers (parse runtime) (parse remote)) stored))
          site_not_covered
    check_covered stored rest

  -- The peer with its preset and runtime addresses.
  unfoldable pub set_runtime : String → List String → Object → Object
  set_runtime preset stored peer = insert "allowed_ips" (interface_strings stored) (
      insert "server_allowed_ips" (interface_strings stored) (
        insert "runtime_allowed_ips" (interface_strings stored)
          (insert "runtime_route_preset" (json_string preset) peer)))

  unfoldable pub check_runtime :
      ℕ → String → List String → List String → Object → Seen → Result PeerError (Object × Seen)
  check_runtime index role assigned remote peer seen = do
    let preset = runtime_preset role assigned remote peer
    allowed ← runtime_allowed preset role assigned remote peer
    some_allowed ← refuse (not (has_any allowed)) runtime_required
    (stored, taken) ← take_runtime preset index allowed [] seen.runtime
    covered ← check_covered stored (if role == "site_gateway" then remote else [])
    ok (set_runtime preset stored peer, record seen { runtime = taken })
