-- ===== src/GoMap/Values.antt =====
-- A property of all values of a map, under reads, writes, deletes and filtering range loops.
use mathlib.Core.Path.{subst}
use s_ui_next.Prelude.{
  Bool, [], ◌∷◌, some, Comparable, ◌==◌, ◌≡◌, arith, All, keep, Bool-cases, inl, inr,
}
use s_ui_next.GoMap.{GoMap, lookup, insert, delete}

abbrev pub Values {ℓ κ μ} : {K : Type ℓ} {V : Type κ} → (V → Type μ) → GoMap K V → Type μ
Values P m = All (λ e. P e.1) m

module _ {ℓ κ μ} {K : Type ℓ} {V : Type κ} (P : V → Type μ) where
  pub keep-Values : (p : K × V → Bool) (m : GoMap K V) → Values P m → Values P (keep p m)
  keep-Values p [] h = tt
  keep-Values p (e ∷ m) h = elim (Bool-cases (p e)) [
    | inl y ↦ rw y (h.0, keep-Values p m h.1)
    | inr n ↦ rw n (keep-Values p m h.1)
  ]

module _ {ℓ κ μ} {K : Type ℓ} {V : Type κ} (P Q : V → Type μ) where
  pub Values-mono : ((v : V) → P v → Q v) → (m : GoMap K V) → Values P m → Values Q m
  Values-mono f [] h = tt
  Values-mono f (e ∷ m) h = (f e.1 h.0, Values-mono f m h.1)

module _ {ℓ κ μ} {K : Type ℓ} {V : Type κ} ⦃c : Comparable K⦄ (P : V → Type μ) where
  pub delete-Values : (k : K) (m : GoMap K V) → Values P m → Values P (delete k m)
  unfolding delete
  delete-Values k [] h = tt
  delete-Values k ((j, w) ∷ m) h = elim (Bool-cases (j == k)) [
    | inl y ↦ rw y (delete-Values k m h.1)
    | inr n ↦ rw n (h.0, delete-Values k m h.1)
  ]

  pub insert-Values : (k : K) (v : V) (m : GoMap K V) → P v → Values P m → Values P (insert k v m)
  unfolding insert
  insert-Values k v [] c h = (c, tt)
  insert-Values k v ((j, w) ∷ m) c h = elim (Bool-cases (j == k)) [
    | inl y ↦ rw y (c, h.1)
    | inr n ↦ rw n (h.0, insert-Values k v m c h.1)
  ]

  pub lookup-Values : (k : K) (m : GoMap K V) {v : V} → Values P m → lookup k m ≡ some v → P v
  unfolding lookup
  lookup-Values k [] h q = cc
  lookup-Values k ((j, w) ∷ m) {v} h q = elim (Bool-cases (j == k)) [
    | inl y ↦ let same : w ≡ v = ground arith in subst P same h.0
    | inr n ↦ lookup-Values k m h.1 (ground arith)
  ]
