-- ===== src/WireGuard/Loop.antt =====
-- The loop over the peers (service/wireguard.go): what every turn keeps, and what every peer that it
-- writes has at the end.
use mathlib.Core.Option.{some-injective}
use mathlib.Core.Path.{subst}
use s_ui_next.JsonValue.{Value, Object, object}
use s_ui_next.WireGuard.{Net}
use s_ui_next.WireGuard.Peer.{Server, Seen}
use s_ui_next.WireGuard.Server.{numbered, check_peer, check_peers}
use s_ui_next.WireGuard.Steps.{numbered-ok}
use s_ui_next.Prelude.{
  ok-inj, ℕ, zero, suc, ◌+◌, ◌≡◌, arith, List, [], ◌∷◌, some, get_elem?, ok, bind-elim,
}

-- A property of each value, which may name its index.
abbrev pub AllFrom {ℓ} : {A : Type ℓ} → (ℕ → A → Type 0) → ℕ → List A → Type 0
AllFrom Q index [] = Unit
AllFrom Q index (v ∷ vs) = Q index v × AllFrom Q (suc index) vs

pub AllFrom-get_elem {ℓ} :
    {A : Type ℓ} (Q : ℕ → A → Type 0) (index i : ℕ) (vs : List A) (v : A)
    → AllFrom Q index vs
    → get_elem? vs i ≡ some v
    → Q (i + index) v
AllFrom-get_elem Q index i [] v h e = cc
AllFrom-get_elem Q index zero (w ∷ vs) v h e =
    subst (λ n. Q n v) (omega arith) (subst (Q index) (some-injective w v e) (h.0))
AllFrom-get_elem Q index (suc i) (w ∷ vs) v h e =
    subst (λ n. Q n v) (omega arith) (AllFrom-get_elem Q (suc index) i vs v (h.1) e)

module _ (net : Net) (server : Server) where
  pub check_peers-keeps :
      (P : Seen → Type 0)
      → ((index : ℕ) (value : Value) (seen : Seen) (r : Object × Seen)
          → check_peer net server index value seen ≡ ok r
          → P seen
          → P (r.1))
      → (index : ℕ) (values : List Value) (seen : Seen) (r : List Value × Seen)
      → check_peers net server index values seen ≡ ok r
      → P seen
      → P (r.1)
  unfolding check_peers
  check_peers-keeps P step index [] seen r e h =
      subst (λ (x : List Value × Seen). P (x.1)) (ok-inj e) h
  check_peers-keeps P step index (value ∷ values) seen r e h =
      bind-elim (numbered index (check_peer net server index value seen)) _ e (λ first q e1.
        bind-elim (check_peers net server (suc index) values (first.1)) _ e1 (λ rest q1 e2.
          subst (λ (x : List Value × Seen). P (x.1)) (ok-inj e2)
            (check_peers-keeps P step (suc index) values (first.1) rest q1
              (step index value seen first (numbered-ok index _ q) h))))

  -- What a turn gives to the peer that it writes, and no later turn takes away.
  pub check_peers-gives :
      (Grows : Seen → Seen → Type 0) (Q : Seen → ℕ → Value → Type 0)
      → ((s : Seen) → Grows s s)
      → ((a b c : Seen) → Grows a b → Grows b c → Grows a c)
      → ((a b : Seen) (index : ℕ) (v : Value) → Grows a b → Q a index v → Q b index v)
      → ((index : ℕ) (value : Value) (seen : Seen) (r : Object × Seen)
          → check_peer net server index value seen ≡ ok r
          → Grows seen (r.1) × Q (r.1) index (object (r.0)))
      → (index : ℕ) (values : List Value) (seen : Seen) (r : List Value × Seen)
      → check_peers net server index values seen ≡ ok r
      → Grows seen (r.1) × AllFrom (Q (r.1)) index (r.0)
  unfolding check_peers
  check_peers-gives Grows Q same trans mono step index [] seen r e =
      subst (λ (x : List Value × Seen). Grows seen (x.1) × AllFrom (Q (x.1)) index (x.0)) (ok-inj e)
        (same seen, tt)
  check_peers-gives Grows Q same trans mono step index (value ∷ values) seen r e =
      bind-elim (numbered index (check_peer net server index value seen)) _ e (λ first q e1.
        bind-elim (check_peers net server (suc index) values (first.1)) _ e1 (λ rest q1 e2.
          let (more, here) = step index value seen first (numbered-ok index _ q) in
          let (later, all) =
            check_peers-gives Grows Q same trans mono step (suc index) values (first.1) rest q1 in
          subst (λ (x : List Value × Seen). Grows seen (x.1) × AllFrom (Q (x.1)) index (x.0))
            (ok-inj e2)
            (
              trans seen (first.1) (rest.1) more later,
              (mono (first.1) (rest.1) index (object (first.0)) later here, all),
            )))
