-- ===== src/WireGuard/Accepted.antt =====
-- What holds of the peers of an endpoint that `normalizeAndValidateWireGuard` (service/wireguard.go)
-- has accepted.
use mathlib.Core.List.{Memᴰ}
use mathlib.Core.List.Memᴰ.{head, tail}
use mathlib.Core.Path.{subst}
use s_ui_next.GoMap.{GoMap, lookup}
use s_ui_next.GoMap.Laws.{lookup-insert}
use s_ui_next.JsonValue.{Value, Object, get, entries, string_value, object}
use s_ui_next.JsonValue.Laws.{entries-object}
use s_ui_next.NetIp.{Prefix, overlaps}
use s_ui_next.NetIp.Laws.{overlaps_comm}
use s_ui_next.WireGuard.{Net}
use s_ui_next.WireGuard.Peer.{Server, Seen}
use s_ui_next.WireGuard.Routes.{is_foreign}
use s_ui_next.WireGuard.Server.{check_peer, check_peers}
use s_ui_next.WireGuard.Loop.{AllFrom, check_peers-gives}
use s_ui_next.WireGuard.Turn.{check_peer-Turn}
use s_ui_next.WireGuard.Disjoint.{IsApart, next_keys}
use s_ui_next.Prelude.{
  ℕ, ◌≡◌, ◌∙◌, refl, sym, ap, arith, String, comparable_string, str_iff, ◌==◌, Bool, true, false,
  not, ◌&&◌, List, [], ◌∷◌, any, none, some, nat_eq, Bool-cases, inl, inr, if◌then◌else◌, ok,
}

any-Memᴰ {ℓ} :
    {A : Type ℓ} (f : A → Bool) (xs : List A) (x : A) → any f xs ≡ false → Memᴰ x xs → f x ≡ false
any-Memᴰ f [] x h m = elim m [ ]
any-Memᴰ f (y ∷ xs) x h (head e) = subst (λ z. f z ≡ false) (sym e) (ground arith)
any-Memᴰ f (y ∷ xs) x h (tail m) = any-Memᴰ f xs x (ground arith) m

module _ (net : Net) where
  open net use {print}

  not_foreign :
      (p q : Prefix) (i j : ℕ)
      → nat_eq i j ≡ false
      → is_foreign net i p (q, j) ≡ false
      → overlaps p q ≡ false
  not_foreign p q i j n f =
      let here : overlaps q p ≡ false = go (nat_eq j i) (overlaps q p) (ground arith) f in
      overlaps_comm p q ∙ here
    where
      go : (b c : Bool) → b ≡ false → not b && c ≡ false → c ≡ false
      go false c h k = k
      go true c h k = cc

  pub IsApart-overlaps :
      (xs : List (Prefix × ℕ)) (p q : Prefix) (i j : ℕ)
      → IsApart net xs
      → Memᴰ (p, i) xs
      → Memᴰ (q, j) xs
      → nat_eq i j ≡ false
      → overlaps p q ≡ false
  IsApart-overlaps [] p q i j h m k n = elim m [ ]
  IsApart-overlaps (x ∷ xs) p q i j h (head e) (head f) n =
      let same : i ≡ j = ap (λ (y : Prefix × ℕ). y.1) (e ∙ sym f) in
      absurd (ground (arith, same, n))
  IsApart-overlaps (x ∷ xs) p q i j h (head e) (tail m) n = not_foreign p q i j n (
      any-Memᴰ (is_foreign net i p) xs (q, j)
        (subst (λ (y : Prefix × ℕ). any (is_foreign net (y.1) (y.0)) xs ≡ false) (sym e) (h.0)) m)
  IsApart-overlaps (x ∷ xs) p q i j h (tail m) (head f) n =
      overlaps_comm p q
      ∙ not_foreign q p j i (ground arith) (
          any-Memᴰ (is_foreign net j q) xs (p, i)
            (subst (λ (y : Prefix × ℕ). any (is_foreign net (y.1) (y.0)) xs ≡ false) (sym f) (h.0))
            m)
  IsApart-overlaps (x ∷ xs) p q i j h (tail m) (tail k) n = IsApart-overlaps xs p q i j (h.1) m k n

  -- The public key of a peer as it stands in the endpoint.
  abbrev pub key_of : Value → String
  key_of v = string_value (get "public_key" (entries v))

  -- The key is in the map of the loop under the index of the peer, and is not that of the server.
  abbrev pub Keyed : Server → Seen → ℕ → Value → Type 0
  Keyed server seen index v =
      (lookup (key_of v) seen.keys ≡ some index) × ((key_of v == server.public_key) ≡ false)

  abbrev pub KeepsKeys : Seen → Seen → Type 0
  KeepsKeys a b = (key : String) (i : ℕ) → lookup key a.keys ≡ some i → lookup key b.keys ≡ some i

  still :
      (key read : String) (index i : ℕ) (keys : GoMap String ℕ)
      → lookup key keys ≡ none
      → lookup read keys ≡ some i
      → (if key == read then some index else lookup read keys) ≡ some i
  still key read index i keys new h = elim (Bool-cases (key == read)) [
    | inl y ↦ let same : key ≡ read = (str_iff key read).0 y in cc
    | inr n ↦ rw n h
  ]

  check_peer-Keyed :
      (server : Server) (index : ℕ) (value : Value) (seen : Seen) (r : Object × Seen)
      → check_peer net server index value seen ≡ ok r
      → KeepsKeys seen (r.1) × Keyed server (r.1) index (object (r.0))
  check_peer-Keyed server index value seen r e =
      let t = check_peer-Turn net server index value seen r e in
      let key = t.keys.key in
      let same : key_of (object (r.0)) ≡ key =
        ap (λ m. string_value (get "public_key" m)) (entries-object (r.0))
        ∙ (ap string_value (t.routed.out_lem ∙ t.placed.peer_lem) ∙ t.keys.key_lem) in
      let written : (read : String)
          → lookup read (r.1).keys ≡ (if key == read then some index else lookup read seen.keys) =
        λ read. ap (lookup read) (next_keys net t) ∙ lookup-insert key read index seen.keys in
      (
        λ read i h. written read ∙ still key read index i seen.keys t.keys.new_lem h,
        (
          subst (λ (k : String). lookup k (r.1).keys ≡ some index) (sym same)
              (written key ∙ rw ((str_iff key key).1 refl) refl),
          subst (λ (k : String). (k == server.public_key) ≡ false) (sym same) t.keys.other_lem,
        ),
      )

  pub check_peers-Keyed :
      (server : Server) (index : ℕ) (values : List Value) (seen : Seen) (r : List Value × Seen)
      → check_peers net server index values seen ≡ ok r
      → KeepsKeys seen (r.1) × AllFrom (Keyed server (r.1)) index (r.0)
  check_peers-Keyed server =
      check_peers-gives net server KeepsKeys (Keyed server) (λ s key i h. h)
        (λ a b c f g key i h. g key i (f key i h)) (λ a b i v f h. (f (key_of v) i (h.0), h.1))
        (check_peer-Keyed server)
