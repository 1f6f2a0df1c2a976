-- ===== src/WireGuard/Endpoint.antt =====
-- `normalizeAndValidateWireGuard` (service/wireguard.go) as a whole: of an endpoint that it accepts,
-- the routes and the keys of different peers.
use mathlib.Core.List.{Memᴰ}
use mathlib.Core.Option.{some-injective}
use mathlib.Core.Path.{subst}
use s_ui_next.GoMap.{GoMap, lookup, insert}
use s_ui_next.JsonValue.{
  Value, Object, json_number, get, entries, list_value, string_value, strings_value, int_value,
  array, interface_strings,
}
use s_ui_next.JsonValue.Laws.{list_value-array, get-insert}
use s_ui_next.NetIp.{Prefix, overlaps}
use s_ui_next.WireGuard.{
  Net, schema_version, refuse, tag_required, private_key_required, invalid_private_key,
  address_required, invalid_port, peers_required,
}
use s_ui_next.WireGuard.Peer.{Server, Seen, nothing_seen}
use s_ui_next.WireGuard.Roles.{has_any}
use s_ui_next.WireGuard.Server.{
  optional_tunnel, take_addresses, own_key, check_export, check_server, check_peers,
  validate_endpoint, is_current, normalize_and_validate,
}
use s_ui_next.WireGuard.Loop.{AllFrom-get_elem}
use s_ui_next.WireGuard.Disjoint.{IsApart, Routes, check_peers-Routes, check_peers-IsDisjoint}
use s_ui_next.WireGuard.Accepted.{IsApart-overlaps, key_of, Keyed, check_peers-Keyed}
use s_ui_next.Prelude.Int.{pos, ltb_ℤ}
use s_ui_next.Prelude.{
  ok-inj, ℕ, ◌+◌, ◌≡◌, ◌∙◌, sym, ap, arith, String, comparable_string, str_iff, ◌==◌, true, false,
  not, ◌||◌, List, [], map, All, All-mono, some, get_elem?, nat_eq, Bool-cases, inl, inr, ok,
  bind-elim,
}

lookup_apart :
    (k l : String) (i j : ℕ) (keys : GoMap String ℕ)
    → nat_eq i j ≡ false
    → lookup k keys ≡ some (i + 0)
    → lookup l keys ≡ some (j + 0)
    → (k == l) ≡ false
lookup_apart k l i j keys n p q = elim (Bool-cases (k == l)) [
  | inl y ↦
      let same : i + 0 ≡ j + 0 =
        some-injective (i + 0) (j + 0)
          (sym p ∙ (ap (λ (x : String). lookup x keys) ((str_iff k l).0 y) ∙ q)) in
      absurd (ground arith)
  | inr d ↦ d
]

module _ (net : Net) where
  open net use {print, is_key, public_key}

  -- The loop of an accepted endpoint.
  pub record Checked (root out : Object) (last : Seen) : Type 0 where
    pub server : Server
    pub server_lem : server.public_key ≡ public_key (string_value (get "private_key" root))
    pub values : List Value
    pub peers : List Value
    pub peers_lem : check_peers net server 0 values nothing_seen ≡ ok (peers, last)
    pub out_lem : list_value (get "peers" out) ≡ peers

  own_key-public :
      (root : Object) (key : String)
      → own_key net root ≡ ok key
      → key ≡ public_key (string_value (get "private_key" root))
  unfolding own_key
  own_key-public root key e =
      let private = string_value (get "private_key" root) in
      bind-elim (refuse (private == "") private_key_required) _ e (λ u q e1.
        bind-elim (refuse (not (is_key private)) invalid_private_key) _ e1
          (λ v q1 e2. sym (ok-inj e2)))

  check_server-public :
      (given : Object) (r : Server × Object)
      → check_server net given ≡ ok r
      → (r.0).public_key ≡ public_key (string_value (get "private_key" given))
  unfolding check_server
  check_server-public given r e =
      let root = insert "wireguard_schema" (json_number (pos schema_version)) given in
      let values = strings_value (get "address" root) in
      let port = int_value (get "listen_port" root) in
      bind-elim (refuse (string_value (get "tag" root) == "") tag_required) _ e (λ u q e1.
        bind-elim (own_key net root) _ e1 (λ key q1 e2.
          bind-elim (optional_tunnel net false (string_value (get "tunnel_ipv4_cidr" root))) _ e2
            (λ tunnel4 q2 e3.
              bind-elim (optional_tunnel net true (string_value (get "tunnel_ipv6_cidr" root))) _ e3
                (λ tunnel6 q3 e4.
                  bind-elim (refuse (not (has_any values)) address_required) _ e4 (λ v q4 e5.
                    bind-elim (take_addresses net tunnel4 tunnel6 values []) _ e5
                      (λ addresses q5 e6.
                        bind-elim
                          (refuse (ltb_ℤ port (pos 0) || ltb_ℤ (pos 65535) port) invalid_port) _ e6
                          (λ w q6 e7. bind-elim (check_export net root) _ e7 (λ exported q7 e8.
                            ap (λ (x : Server × Object). (x.0).public_key) (sym (ok-inj e8))
                            ∙ (own_key-public root key q1
                                ∙ ap (λ v. public_key (string_value v))
                                    (get-insert "wireguard_schema" "private_key"
                                      (json_number (pos schema_version)) given))))))))))

  validate_endpoint-Checked :
      (root : Object) (r : Object × Seen)
      → validate_endpoint net root ≡ ok r
      → Checked root (r.0) (r.1)
  unfolding validate_endpoint
  validate_endpoint-Checked root r e = bind-elim (check_server net root) _ e (λ start q e1.
      let values = list_value (get "peers" (start.1)) in
      bind-elim (refuse (not (has_any values)) peers_required) _ e1 (λ u q1 e2.
        bind-elim (check_peers net (start.0) 0 values nothing_seen) _ e2 (λ looped q2 e3.
          subst (λ (x : Object × Seen). Checked root (x.0) (x.1)) (ok-inj e3)
            (record {
              server = start.0;
              server_lem = check_server-public root start q;
              values = values;
              peers = looped.0;
              peers_lem = q2;
              out_lem =
                  ap list_value (get-insert "peers" "peers" (array (looped.0)) (start.1))
                  ∙ list_value-array (looped.0);
            }))))

  accepted-Checked :
      (root out : Object)
      → is_current root ≡ true
      → normalize_and_validate net (some root) ≡ ok out
      → (last : Seen) × Checked root out last
  unfolding normalize_and_validate
  accepted-Checked root out c e =
      let checked = rw (c, normalize_and_validate) at e in
      bind-elim (validate_endpoint net root) _ checked (λ r q e1.
        (r.1, subst (λ x. Checked root x (r.1)) (ok-inj e1) (validate_endpoint-Checked root r q)))

  abbrev pub peers_of : Object → List Value
  peers_of root = list_value (get "peers" root)

  -- The routes of two peers, as prefixes, and that none of the one overlaps one of the other.
  abbrev pub HasApartRoutes : Value → Value → Type 0
  HasApartRoutes v w =
      (ps : List Prefix) × (qs : List Prefix) × (get "runtime_allowed_ips" (entries v)
        ≡ interface_strings (map print ps))
      × (get "runtime_allowed_ips" (entries w) ≡ interface_strings (map print qs))
      × All (λ p. All (λ q. overlaps p q ≡ false) qs) ps

  owned_apart :
      (taken : List (Prefix × ℕ)) (i j : ℕ) (ps qs : List Prefix)
      → IsApart net taken
      → nat_eq i j ≡ false
      → All (λ p. Memᴰ (p, i) taken) ps
      → All (λ q. Memᴰ (q, j) taken) qs
      → All (λ p. All (λ q. overlaps p q ≡ false) qs) ps
  owned_apart taken i j ps qs h n all_p all_q =
      All-mono (λ p. Memᴰ (p, i) taken) (λ p. All (λ q. overlaps p q ≡ false) qs)
        (λ p m.
          All-mono (λ q. Memᴰ (q, j) taken) (λ q. overlaps p q ≡ false)
            (λ q k. IsApart-overlaps net taken p q i j h m k n) qs all_q)
        ps all_p

  -- Two different peers of an accepted WireGuard endpoint of the current schema (an older one passes
  -- unchecked) have runtime routes that are the printed forms of two lists of prefixes, and no prefix of the one list overlaps one of the other.
  pub accepted-HasApartRoutes :
      (root out : Object) (i j : ℕ) (v w : Value)
      → is_current root ≡ true
      → normalize_and_validate net (some root) ≡ ok out
      → nat_eq i j ≡ false
      → get_elem? (peers_of out) i ≡ some v
      → get_elem? (peers_of out) j ≡ some w
      → HasApartRoutes v w
  accepted-HasApartRoutes root out i j v w c e n ei ej =
      let (last, k) = accepted-Checked root out c e in
      let (more, all) =
        check_peers-Routes net k.server 0 k.values nothing_seen (k.peers, last) k.peers_lem in
      let apart =
        (check_peers-IsDisjoint net k.server 0 k.values nothing_seen (k.peers, last) k.peers_lem
          (tt, tt, tt)).2 in
      let Q = λ (n : ℕ) (x : Value). Routes net n last.runtime x in
      let (stored, q, (ps, same, own)) =
        AllFrom-get_elem Q 0 i k.peers v all (subst (λ x. get_elem? x i ≡ some v) k.out_lem ei) in
      let (stored2, q2, (qs, same2, own2)) =
        AllFrom-get_elem Q 0 j k.peers w all (subst (λ x. get_elem? x j ≡ some w) k.out_lem ej) in
      (
        ps,
        qs,
        q ∙ ap interface_strings same,
        q2 ∙ ap interface_strings same2,
        owned_apart last.runtime (i + 0) (j + 0) ps qs apart (ground arith) own own2,
      )

  -- Two different peers of an accepted WireGuard endpoint of the current schema (an older one passes
  -- unchecked) have different public keys, and the first has not the public key of the endpoint's own private key.
  pub accepted-keys :
      (root out : Object) (i j : ℕ) (v w : Value)
      → is_current root ≡ true
      → normalize_and_validate net (some root) ≡ ok out
      → nat_eq i j ≡ false
      → get_elem? (peers_of out) i ≡ some v
      → get_elem? (peers_of out) j ≡ some w
      → ((key_of net v == key_of net w) ≡ false)
        × ((key_of net v == public_key (string_value (get "private_key" root))) ≡ false)
  accepted-keys root out i j v w c e n ei ej =
      let (last, k) = accepted-Checked root out c e in
      let (more, all) =
        check_peers-Keyed net k.server 0 k.values nothing_seen (k.peers, last) k.peers_lem in
      let Q = Keyed net k.server last in
      let (at_v, other) =
        AllFrom-get_elem Q 0 i k.peers v all (subst (λ x. get_elem? x i ≡ some v) k.out_lem ei) in
      let (at_w, other2) =
        AllFrom-get_elem Q 0 j k.peers w all (subst (λ x. get_elem? x j ≡ some w) k.out_lem ej) in
      (
        lookup_apart (key_of net v) (key_of net w) i j last.keys n at_v at_w,
        subst (λ (x : String). (key_of net v == x) ≡ false) k.server_lem other,
      )
