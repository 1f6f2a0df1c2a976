-- ===== src/WireGuard/KeySteps.antt =====
-- How the loop over the peers (service/wireguard.go) reads and keeps the public key of a peer.
use s_ui_next.GoMap.{lookup, insert, delete}
use s_ui_next.JsonValue.{Object, json_string, get, string_value, strings_value, interface_strings}
use s_ui_next.JsonValue.Laws.{get-insert, get-delete}
use s_ui_next.NetIp.{Prefix}
use s_ui_next.WireGuard.{
  Net, refuse, parse_prefix, is_redacted_secret, invalid_prefix, public_key_required,
  invalid_public_key, own_public_key, duplicate_public_key, invalid_psk,
}
use s_ui_next.WireGuard.Peer.{
  Server, Seen, check_endpoint, is_seen, check_keys, set_key_mode, check_assigned, family_key,
  assign,
}
use s_ui_next.WireGuard.Roles.{has_any, peer_role, remote_mode, mode_of_role, normalize_peer_role}
use s_ui_next.WireGuard.Routes.{insert_if_any, set_sites, set_runtime}
use s_ui_next.WireGuard.Steps.{refuse-ok}
use s_ui_next.Prelude.{
  ok-inj, ℕ, ◌≡◌, ◌∙◌, refl, sym, ap, arith, String, comparable_string, ◌==◌, Bool, true, false,
  not, ◌&&◌, List, [], ◌∷◌, Option, none, some, Bool-cases, inl, inr, if◌then◌else◌, ok, bind-ok,
}

abbrev pub HasSameKey : Object → Object → Type 0
HasSameKey a b = get "public_key" a ≡ get "public_key" b

pub normalize_peer_role-HasSameKey : (peer : Object) → HasSameKey (normalize_peer_role peer) peer
unfolding normalize_peer_role
normalize_peer_role-HasSameKey peer =
    let role = json_string (peer_role peer) in
    let mode = json_string (remote_mode peer) in
    get-insert "peer_mode" "public_key" (json_string (mode_of_role (peer_role peer)))
      (insert "remote_endpoint_mode" mode (insert "peer_role" role peer))
    ∙ (get-insert "remote_endpoint_mode" "public_key" mode (insert "peer_role" role peer)
        ∙ get-insert "peer_role" "public_key" role peer)

pub check_endpoint-HasSameKey :
    (role mode : String) (peer out : Object)
    → check_endpoint role mode peer ≡ ok out
    → HasSameKey out peer
unfolding check_endpoint
check_endpoint-HasSameKey role mode peer out e = ground (
  arith,
  get-delete "port" "public_key" (delete "address" peer),
  get-delete "address" "public_key" peer,
)

insert_if_any-HasSameKey :
    (key : String) (values : List String) (peer : Object)
    → (key == "public_key") ≡ false
    → HasSameKey (insert_if_any key values peer) peer
insert_if_any-HasSameKey key [] peer h = refl
insert_if_any-HasSameKey key (v ∷ vs) peer h =
    get-insert key "public_key" (interface_strings (v ∷ vs)) peer ∙ rw h refl

module _ (net : Net) where
  open net use {is_key}

  pub record KeyStep (server : Server) (index : ℕ) (seen next : Seen) (peer : Object) : Type 0 where
    pub key : String
    pub key_lem : string_value (get "public_key" peer) ≡ key
    pub other_lem : (key == server.public_key) ≡ false
    pub new_lem : lookup key seen.keys ≡ none
    pub next_lem : next ≡ record seen { keys = insert key index seen.keys }

  not_seen : (o : Option ℕ) → is_seen o ≡ false → o ≡ none
  not_seen none h = refl
  not_seen (some i) h = cc

  pub check_keys-step :
      (server : Server) (index : ℕ) (peer : Object) (seen next : Seen)
      → check_keys net server index peer seen ≡ ok next
      → KeyStep server index seen next peer
  unfolding check_keys
  check_keys-step server index peer seen next e =
      let key = string_value (get "public_key" peer) in
      let psk = string_value (get "pre_shared_key" peer) in
      let (u, q, e1) = bind-ok (refuse (key == "") public_key_required) _ e in
      let (v, q1, e2) = bind-ok (refuse (not (is_key key)) invalid_public_key) _ e1 in
      let (w, q2, e3) = bind-ok (refuse (key == server.public_key) own_public_key) _ e2 in
      let (x, q3, e4) =
        bind-ok (refuse (is_seen (lookup key seen.keys)) duplicate_public_key) _ e3 in
      let (y, q4, e5) =
        bind-ok
          (refuse (not (psk == "") && (not (is_redacted_secret psk) && not (is_key psk)))
            invalid_psk)
          _ e4 in
      record {
        key = key;
        key_lem = refl;
        other_lem = refuse-ok (key == server.public_key) _ q2;
        new_lem = not_seen (lookup key seen.keys) (refuse-ok (is_seen (lookup key seen.keys)) _ q3);
        next_lem = sym (ok-inj e5);
      }

  pub set_key_mode-HasSameKey :
      (mode : String) (peer out : Object)
      → set_key_mode net mode peer ≡ ok out
      → HasSameKey out peer
  unfolding set_key_mode
  set_key_mode-HasSameKey mode peer out e =
      let named = insert "peer_key_mode" (json_string mode) peer in
      ground (
        arith,
        get-delete "client_private_key_set" "public_key" (delete "client_private_key" named),
        get-delete "client_private_key" "public_key" named,
        get-insert "peer_key_mode" "public_key" (json_string mode) peer,
      )

  family_key-other : (ipv6 : Bool) → (family_key net ipv6 == "public_key") ≡ false
  family_key-other true = refl
  family_key-other false = refl

  pub assign-HasSameKey :
      (server : Server) (values : List String) (peer : Object) (own taken : List Prefix)
      (r : Object × List Prefix × List Prefix)
      → assign net server values peer own taken ≡ ok r
      → HasSameKey (r.0) peer
  unfolding assign
  assign-HasSameKey server [] peer own taken r e =
      sym (ap (λ (x : Object × List Prefix × List Prefix). get "public_key" (x.0)) (ok-inj e))
  assign-HasSameKey server (value ∷ values) peer own taken r e =
      let (p, q, e1) = bind-ok (parse_prefix net invalid_prefix value) _ e in
      let (u, q1, e2) = bind-ok (check_assigned net server own taken p) _ e1 in
      let written = json_string (net.print p) in
      assign-HasSameKey server values _ _ _ r e2
      ∙ (get-insert (family_key net p.addr.is6) "public_key" written peer
          ∙ rw (family_key-other p.addr.is6) refl)

  pub set_sites-HasSameKey :
      (server : Server) (role : String) (remote local : List String) (peer : Object)
      → HasSameKey (set_sites net server role remote local peer) peer
  unfolding set_sites
  set_sites-HasSameKey server role remote local peer =
      let first = insert_if_any "remote_site_cidrs" remote peer in
      let named = insert_if_any "local_site_cidrs" local first in
      let inbounds = strings_value (get "route_inbounds" named) in
      let kept =
        insert_if_any-HasSameKey "local_site_cidrs" local first refl
        ∙ insert_if_any-HasSameKey "remote_site_cidrs" remote peer refl in
      elim (Bool-cases (role == "site_gateway")) [
        | inl y ↦ rw y (
            get-insert "route_inbounds" "public_key"
              (interface_strings (if has_any inbounds then inbounds else server.tag ∷ [])) named
            ∙ kept)
        | inr n ↦ rw n (
            get-delete "local_site_cidrs" "public_key" (delete "route_inbounds" named)
            ∙ (get-delete "route_inbounds" "public_key" named ∙ kept))
      ]

  pub set_runtime-HasSameKey :
      (preset : String) (stored : List String) (peer : Object)
      → HasSameKey (set_runtime net preset stored peer) peer
  unfolding set_runtime
  set_runtime-HasSameKey preset stored peer =
      let texts = interface_strings stored in
      let first = insert "runtime_route_preset" (json_string preset) peer in
      let second = insert "runtime_allowed_ips" texts first in
      get-insert "allowed_ips" "public_key" texts (insert "server_allowed_ips" texts second)
      ∙ (get-insert "server_allowed_ips" "public_key" texts second
          ∙ (get-insert "runtime_allowed_ips" "public_key" texts first
              ∙ get-insert "runtime_route_preset" "public_key" (json_string preset) peer))
