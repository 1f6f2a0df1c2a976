-- ===== src/WireGuard/Disjoint.antt =====
-- What the loop over the peers (service/wireguard.go) keeps apart: assigned addresses, remote sites,
-- the runtime routes of different peers, and public keys.
use mathlib.Core.List.{Memᴰ}
use mathlib.Core.List.Memᴰ.{head, tail}
use mathlib.Core.Path.{subst}
use s_ui_next.GoMap.{insert}
use s_ui_next.JsonValue.{Value, Object, get, entries, object, interface_strings}
use s_ui_next.JsonValue.Laws.{entries-object}
use s_ui_next.NetIp.{Prefix, overlaps}
use s_ui_next.WireGuard.{Net}
use s_ui_next.WireGuard.Peer.{Server, Seen}
use s_ui_next.WireGuard.Routes.{is_foreign, take_runtime}
use s_ui_next.WireGuard.Server.{check_peer, check_peers}
use s_ui_next.WireGuard.Steps.{IsKept, take_sites-keeps, assign-keeps, take_runtime-keeps}
use s_ui_next.WireGuard.Loop.{AllFrom, check_peers-keeps, check_peers-gives}
use s_ui_next.WireGuard.Turn.{Turn, check_peer-Turn}
use s_ui_next.Prelude.{
  ℕ, ◌≡◌, ◌∙◌, refl, sym, ap, String, comparable_string, false, List, [], ◌∷◌, ◌++◌, map, any, All,
  All-append, All-mono, ok,
}

-- Prefixes of which no two overlap.
abbrev pub IsSeparate : List Prefix → Type 0
IsSeparate [] = Unit
IsSeparate (p ∷ ps) = (any (λ q. overlaps q p) ps ≡ false) × IsSeparate ps

module _ (net : Net) where
  open net use {print}

  -- Routes of which no two of different owners overlap.
  abbrev pub IsApart : List (Prefix × ℕ) → Type 0
  IsApart [] = Unit
  IsApart (x ∷ xs) = (any (is_foreign net (x.1) (x.0)) xs ≡ false) × IsApart xs

  abbrev pub IsDisjoint : Seen → Type 0
  IsDisjoint seen = IsSeparate seen.assigned × IsSeparate seen.remote_sites × IsApart seen.runtime

  abbrev pub IsOwned : ℕ → List (Prefix × ℕ) → List String → Type 0
  IsOwned index taken stored =
      (ps : List Prefix) × (stored ≡ map print ps) × All (λ p. Memᴰ (p, index) taken) ps

  abbrev pub Has : Prefix × ℕ → List (Prefix × ℕ) → Type 0
  Has x taken = Memᴰ x taken

  grow : IsKept IsSeparate
  grow p taken free h = (free, h)

  module _ {server : Server} {index : ℕ} {seen : Seen} {out : Object} {next : Seen}
      (t : Turn net server index seen out next) where
    next_assigned : next.assigned ≡ t.placed.assigned.2
    next_assigned =
        ap (λ (n : Seen). n.assigned) t.routed.next_lem
        ∙ ap (λ (n : Seen). n.assigned) t.placed.next_lem

    next_sites : next.remote_sites ≡ t.placed.sites.1
    next_sites =
        ap (λ (n : Seen). n.remote_sites) t.routed.next_lem
        ∙ ap (λ (n : Seen). n.remote_sites) t.placed.next_lem

    sited_runtime : t.sited.runtime ≡ seen.runtime
    sited_runtime =
        ap (λ (n : Seen). n.runtime) t.placed.next_lem
        ∙ ap (λ (n : Seen). n.runtime) t.keys.next_lem

    pub next_keys : next.keys ≡ insert t.keys.key index seen.keys
    next_keys =
        ap (λ (n : Seen). n.keys) t.routed.next_lem
        ∙ (ap (λ (n : Seen). n.keys) t.placed.next_lem ∙ ap (λ (n : Seen). n.keys) t.keys.next_lem)

  pub check_peer-IsDisjoint :
      (server : Server) (index : ℕ) (value : Value) (seen : Seen) (r : Object × Seen)
      → check_peer net server index value seen ≡ ok r
      → IsDisjoint seen
      → IsDisjoint (r.1)
  check_peer-IsDisjoint server index value seen r e (h, k, l) =
      let t = check_peer-Turn net server index value seen r e in
      (
        subst IsSeparate (sym (next_assigned t)) (
            assign-keeps net IsSeparate grow server t.placed.candidates t.named [] t.keyed.assigned
              t.placed.assigned t.placed.assigned_lem
              (subst IsSeparate (sym (ap (λ (n : Seen). n.assigned) t.keys.next_lem)) h)),
        subst IsSeparate (sym (next_sites t)) (
            take_sites-keeps net IsSeparate grow server t.placed.values t.keyed.remote_sites
              t.placed.sites t.placed.sites_lem
              (subst IsSeparate (sym (ap (λ (n : Seen). n.remote_sites) t.keys.next_lem)) k)),
        take_runtime-keeps net t.routed.preset index (λ s. IsApart)
            (λ p stored taken free h. (free, h)) t.routed.allowed [] t.sited.runtime
            (t.routed.stored, (r.1).runtime) t.routed.taken_lem
            (subst IsApart (sym (sited_runtime t)) l),
      )

  map-append-one :
      (ps : List Prefix) (p : Prefix) → map print ps ++ print p ∷ [] ≡ map print (ps ++ p ∷ [])
  map-append-one [] p = refl
  map-append-one (q ∷ ps) p = ap (◌∷◌ (print q)) (map-append-one ps p)

  take_runtime-IsOwned :
      (preset : String) (index : ℕ) (values : List String) (taken : List (Prefix × ℕ))
      (r : List String × List (Prefix × ℕ))
      → take_runtime net preset index values [] taken ≡ ok r
      → IsOwned index (r.1) (r.0)
  take_runtime-IsOwned preset index values taken r e =
      take_runtime-keeps net preset index (λ s t. IsOwned index t s)
        (λ p stored taken free h. (
          h.0 ++ p ∷ [],
          ap (λ (s : List String). s ++ print p ∷ []) (h.1) ∙ map-append-one (h.0) p,
          All-append (λ q. Memᴰ (q, index) ((p, index) ∷ taken)) (h.0) (p ∷ [])
              (All-mono (λ q. Memᴰ (q, index) taken) (λ q. Memᴰ (q, index) ((p, index) ∷ taken))
                (λ q m. tail m) (h.0) (h.2))
              (head refl, tt),
        ))
        values [] taken r e ([], refl, tt)

  -- The routes of a peer, as they stand in it.
  abbrev pub Routes : ℕ → List (Prefix × ℕ) → Value → Type 0
  Routes index taken v =
      (stored : List String) × (get "runtime_allowed_ips" (entries v) ≡ interface_strings stored)
      × IsOwned index taken stored

  abbrev pub Includes : List (Prefix × ℕ) → List (Prefix × ℕ) → Type 0
  Includes large small = (x : Prefix × ℕ) → Memᴰ x small → Memᴰ x large

  Routes-mono :
      (index : ℕ) (large small : List (Prefix × ℕ)) (v : Value)
      → Includes large small
      → Routes index small v
      → Routes index large v
  Routes-mono index large small v f (stored, q, (ps, same, all)) = (
    stored,
    q,
    (
      ps,
      same,
      All-mono (λ p. Memᴰ (p, index) small) (λ p. Memᴰ (p, index) large) (λ p. f (p, index)) ps all,
    ),
  )

  check_peer-Routes :
      (server : Server) (index : ℕ) (value : Value) (seen : Seen) (r : Object × Seen)
      → check_peer net server index value seen ≡ ok r
      → Includes (r.1).runtime seen.runtime × Routes index (r.1).runtime (object (r.0))
  check_peer-Routes server index value seen r e =
      let t = check_peer-Turn net server index value seen r e in
      let more : Includes (r.1).runtime t.sited.runtime = λ x m.
        take_runtime-keeps net t.routed.preset index (λ s taken. Memᴰ x taken)
          (λ p stored taken free h. tail h) t.routed.allowed [] t.sited.runtime
          (t.routed.stored, (r.1).runtime) t.routed.taken_lem m in
      (
        subst (Includes (r.1).runtime) (sited_runtime t) more,
        (
          t.routed.stored,
          ap (get "runtime_allowed_ips") (entries-object (r.0)) ∙ t.routed.stored_lem,
          take_runtime-IsOwned t.routed.preset index t.routed.allowed t.sited.runtime
              (t.routed.stored, (r.1).runtime) t.routed.taken_lem,
        ),
      )

  pub check_peers-Routes :
      (server : Server) (index : ℕ) (values : List Value) (seen : Seen) (r : List Value × Seen)
      → check_peers net server index values seen ≡ ok r
      → Includes (r.1).runtime seen.runtime × AllFrom (λ i v. Routes i (r.1).runtime v) index (r.0)
  check_peers-Routes server =
      check_peers-gives net server (λ a b. Includes b.runtime a.runtime)
        (λ s i v. Routes i s.runtime v) (λ s x m. m) (λ a b c f g x m. g x (f x m))
        (λ a b i v f h. Routes-mono i b.runtime a.runtime v f h) (check_peer-Routes server)

  -- The three lists stay free of overlaps.
  pub check_peers-IsDisjoint :
      (server : Server) (index : ℕ) (values : List Value) (seen : Seen) (r : List Value × Seen)
      → check_peers net server index values seen ≡ ok r
      → IsDisjoint seen
      → IsDisjoint (r.1)
  check_peers-IsDisjoint server =
      check_peers-keeps net server IsDisjoint (check_peer-IsDisjoint server)
