-- ===== src/WireGuard/Steps.antt =====
-- What the loop over the peers does to each list that it keeps: one step of a peer, taken apart.
use mathlib.Core.Path.{subst}
use s_ui_next.JsonValue.{Object}
use s_ui_next.NetIp.{Prefix, masked, overlaps}
use s_ui_next.WireGuard.{
  Net, PeerError, refuse, parse_prefix, validate_site_cidr, invalid_prefix, full_tunnel_required,
  overlaps_runtime, overlaps_network, overlaps_site,
}
use s_ui_next.WireGuard.Peer.{Server, check_assigned, assign}
use s_ui_next.WireGuard.Routes.{overlaps_tunnel, take_sites, is_foreign, take_runtime}
use s_ui_next.WireGuard.Server.{numbered}
use s_ui_next.Prelude.{
  ok-inj, ℕ, ◌≡◌, refl, ap, arith, String, comparable_string, ◌==◌, Bool, true, false, not, ◌&&◌,
  ◌||◌, List, [], ◌∷◌, ◌++◌, any, nat_eq, Bool-cases, inl, inr, Result, ok, err, bind-ok,
}

pub refuse-ok {ℓ} : {E : Type ℓ} (b : Bool) (e : E) {u : Unit {0}} → refuse b e ≡ ok u → b ≡ false
refuse-ok true e h = cc
refuse-ok false e h = refl

pub numbered-ok {ℓ} :
    {A : Type ℓ} (index : ℕ) (r : Result PeerError A) {a : A} → numbered index r ≡ ok a → r ≡ ok a
numbered-ok index (ok a) h = ap ok (ok-inj h)
numbered-ok index (err e) h = cc

module _ (net : Net) (preset : String) (index : ℕ) where
  open net use {print}

  -- What every prefix that is taken keeps, the loop over the runtime addresses keeps.
  pub take_runtime-keeps {ℓ} :
      (P : List String → List (Prefix × ℕ) → Type ℓ)
      → ((p : Prefix) (stored : List String) (taken : List (Prefix × ℕ))
          → any (is_foreign net index p) taken ≡ false
          → P stored taken
          → P (stored ++ print p ∷ []) ((p, index) ∷ taken))
      → (values stored : List String) (taken : List (Prefix × ℕ))
        (r : List String × List (Prefix × ℕ))
      → take_runtime net preset index values stored taken ≡ ok r
      → P stored taken
      → P (r.0) (r.1)
  unfolding take_runtime
  take_runtime-keeps P step [] stored taken r e h = subst (λ x. P (x.0) (x.1)) (ok-inj e) h
  take_runtime-keeps P step (value ∷ values) stored taken r e h =
      let (given, q, e1) = bind-ok (parse_prefix net invalid_prefix value) _ e in
      let (u, q1, e2) =
        bind-ok
          (refuse (nat_eq (masked given).bits 0 && not (preset == "full_tunnel"))
            full_tunnel_required)
          _ e1 in
      let (v, q2, e3) =
        bind-ok (refuse (any (is_foreign net index (masked given)) taken) overlaps_runtime) _ e2 in
      let free = refuse-ok (any (is_foreign net index (masked given)) taken) _ q2 in
      elim (Bool-cases (any (λ s. s == print (masked given)) stored)) [
        | inl y ↦ take_runtime-keeps P step values stored taken r (rw y at e3) h
        | inr n ↦
            take_runtime-keeps P step values _ _ r (rw n at e3)
              (step (masked given) stored taken free h)
      ]

-- A list of prefixes grows by one that overlaps none of it.
abbrev pub IsKept {ℓ} : (List Prefix → Type ℓ) → Type ℓ
IsKept P =
    (p : Prefix) (taken : List Prefix)
    → any (λ q. overlaps q p) taken ≡ false
    → P taken
    → P (p ∷ taken)

module _ {ℓ} (net : Net) (P : List Prefix → Type ℓ) (step : IsKept P) (server : Server) where
  pub take_sites-keeps :
      (values : List String) (taken : List Prefix) (r : List Prefix × List Prefix)
      → take_sites net server values taken ≡ ok r
      → P taken
      → P (r.1)
  unfolding take_sites
  take_sites-keeps [] taken r e h = subst (λ x. P (x.1)) (ok-inj e) h
  take_sites-keeps (value ∷ values) taken r e h =
      let (p, q, e1) = bind-ok (validate_site_cidr net value) _ e in
      let (u, q1, e2) =
        bind-ok
          (refuse (overlaps_tunnel server.tunnel4 p || overlaps_tunnel server.tunnel6 p)
            overlaps_network)
          _ e1 in
      let (v, q2, e3) = bind-ok (refuse (any (λ q. overlaps q p) taken) overlaps_site) _ e2 in
      let (rest, q3, e4) = bind-ok (take_sites net server values (p ∷ taken)) _ e3 in
      let free = refuse-ok (any (λ q. overlaps q p) taken) _ q2 in
      subst (λ x. P (x.1)) (ok-inj e4)
        (take_sites-keeps values (p ∷ taken) rest q3 (step p taken free h))

  check_assigned-free :
      (own taken : List Prefix) (p : Prefix) {u : Unit {0}}
      → check_assigned net server own taken p ≡ ok u
      → any (λ q. overlaps q p) taken ≡ false
  unfolding check_assigned
  check_assigned-free own taken p e = ground arith

  pub assign-keeps :
      (values : List String) (peer : Object) (own taken : List Prefix)
      (r : Object × List Prefix × List Prefix)
      → assign net server values peer own taken ≡ ok r
      → P taken
      → P (r.2)
  unfolding assign
  assign-keeps [] peer own taken r e h = subst (λ x. P (x.2)) (ok-inj e) h
  assign-keeps (value ∷ values) peer own taken r e h =
      let (p, q, e1) = bind-ok (parse_prefix net invalid_prefix value) _ e in
      let (u, q1, e2) = bind-ok (check_assigned net server own taken p) _ e1 in
      assign-keeps values _ _ (p ∷ taken) r e2 (step p taken (check_assigned-free own taken p q1) h)
