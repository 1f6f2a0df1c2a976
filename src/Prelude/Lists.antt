-- ===== src/Prelude/Lists.antt =====
-- Lists measured by native numbers, predicates by recursion, and a filter that computes.
use Prim.Native.Nat.{ℕ, zero, suc, ◌+◌, ◌-◌, ◌≤◌, min}
use mathlib.Core.Bool.{Bool, true, false, ◌||◌}
use mathlib.Core.List.{List, [], ◌∷◌, ◌++◌, map}
use mathlib.Core.Logic.{inl, inr}
use mathlib.Core.Option.{Option, none, some}
use mathlib.Core.Path.{◌≡◌, refl, ap}
use native.Mathlib.Omega.{arith}
use s_ui_next.Prelude.Tests.{if◌then◌else◌, Bool-cases}

module _ {ℓ} {A : Type ℓ} where
  abbrev pub length : List A → ℕ
  length [] = 0
  length (x ∷ xs) = suc (length xs)

  abbrev pub get_elem? : List A → ℕ → Option A
  get_elem? [] i = none
  get_elem? (x ∷ xs) zero = some x
  get_elem? (x ∷ xs) (suc i) = get_elem? xs i

  abbrev pub take : ℕ → List A → List A
  take zero xs = []
  take (suc n) [] = []
  take (suc n) (x ∷ xs) = x ∷ take n xs

  abbrev pub drop : ℕ → List A → List A
  drop zero xs = xs
  drop (suc n) [] = []
  drop (suc n) (x ∷ xs) = drop n xs

  -- The elements that pass a Boolean test, in order.
  abbrev pub keep : (A → Bool) → List A → List A
  keep p [] = []
  keep p (x ∷ xs) = if p x then x ∷ keep p xs else keep p xs

  abbrev pub any : (A → Bool) → List A → Bool
  any p [] = false
  any p (x ∷ xs) = p x || any p xs

  pub length-append : (xs ys : List A) → length (xs ++ ys) ≡ length xs + length ys
  length-append [] ys = omega arith
  length-append (x ∷ xs) ys = omega (arith, length-append xs ys)

  pub length-take : (n : ℕ) (xs : List A) → length (take n xs) ≡ min n (length xs)
  length-take zero xs = omega arith
  length-take (suc n) [] = omega arith
  length-take (suc n) (x ∷ xs) = omega (arith, length-take n xs)

  pub length-drop : (n : ℕ) (xs : List A) → length (drop n xs) ≡ length xs - n
  length-drop zero xs = omega arith
  length-drop (suc n) [] = omega arith
  length-drop (suc n) (x ∷ xs) = omega (arith, length-drop n xs)

  pub take-append-drop : (n : ℕ) (xs : List A) → take n xs ++ drop n xs ≡ xs
  take-append-drop zero xs = refl
  take-append-drop (suc n) [] = refl
  take-append-drop (suc n) (x ∷ xs) = ap (◌∷◌ x) (take-append-drop n xs)

  pub length-keep-le : (p : A → Bool) (xs : List A) → length (keep p xs) ≤ length xs
  length-keep-le p [] = omega arith
  length-keep-le p (x ∷ xs) = ground (arith, length-keep-le p xs)

  pub keep-append : (p : A → Bool) (xs ys : List A) → keep p (xs ++ ys) ≡ keep p xs ++ keep p ys
  keep-append p [] ys = refl
  keep-append p (x ∷ xs) ys = ground (arith, keep-append p xs ys)

-- A predicate that holds of every element.
abbrev pub All {ℓ κ} : {A : Type ℓ} → (A → Type κ) → List A → Type κ
All P [] = Unit
All P (x ∷ xs) = P x × All P xs

module _ {ℓ} {A : Type ℓ} (p : A → Bool) where
  -- A filter that every element passes changes nothing.
  pub keep_of_All : (xs : List A) → All (λ x. p x ≡ true) xs → keep p xs ≡ xs
  keep_of_All [] h = refl
  keep_of_All (x ∷ xs) (y, h) = ground (arith, keep_of_All xs h)

  pub keep_of_none : (xs : List A) → All (λ x. p x ≡ false) xs → keep p xs ≡ []
  keep_of_none [] h = refl
  keep_of_none (x ∷ xs) (y, h) = ground (arith, keep_of_none xs h)

  pub All-keep : (xs : List A) → All (λ x. p x ≡ true) (keep p xs)
  All-keep [] = tt
  All-keep (x ∷ xs) = elim (Bool-cases (p x)) [
    | inl y ↦ rw y (y, All-keep xs)
    | inr n ↦ rw n (All-keep xs)
  ]

  pub keep_idem : (xs : List A) → keep p (keep p xs) ≡ keep p xs
  keep_idem xs = keep_of_All (keep p xs) (All-keep xs)

module _ {ℓ κ} {A : Type ℓ} {B : Type κ} where
  -- What holds of every image.
  pub All-map {μ} :
      (P : B → Type μ) (f : A → B) → ((x : A) → P (f x)) → (xs : List A) → All P (map f xs)
  All-map P f h [] = tt
  All-map P f h (x ∷ xs) = (h x, All-map P f h xs)

module _ {ℓ κ μ} {A : Type ℓ} {B : Type κ} where
  pub All-map_of {ν} :
      (P : A → Type μ) (Q : B → Type ν) (f : A → B)
      → ((x : A) → P x → Q (f x))
      → (xs : List A) → All P xs
      → All Q (map f xs)
  All-map_of P Q f h [] k = tt
  All-map_of P Q f h (x ∷ xs) (y, k) = (h x y, All-map_of P Q f h xs k)

module _ {ℓ κ} {A : Type ℓ} where
  pub All-keep_of : (P : A → Type κ) (p : A → Bool) (xs : List A) → All P xs → All P (keep p xs)
  All-keep_of P p [] h = tt
  All-keep_of P p (x ∷ xs) (y, h) = elim (Bool-cases (p x)) [
    | inl t ↦ rw t (y, All-keep_of P p xs h)
    | inr f ↦ rw f (All-keep_of P p xs h)
  ]

  pub All-append : (P : A → Type κ) (xs ys : List A) → All P xs → All P ys → All P (xs ++ ys)
  All-append P [] ys h k = k
  All-append P (x ∷ xs) ys (y, h) k = (y, All-append P xs ys h k)

  pub All-mono {μ} :
      (P : A → Type κ) (Q : A → Type μ)
      → ((x : A) → P x → Q x)
      → (xs : List A) → All P xs
      → All Q xs
  All-mono P Q f [] h = tt
  All-mono P Q f (x ∷ xs) (y, h) = (f x y, All-mono P Q f xs h)

pub map_cong {ℓ κ} :
    {A : Type ℓ} {B : Type κ} (f g : A → B)
    → ((x : A) → f x ≡ g x)
    → (xs : List A) → map f xs ≡ map g xs
map_cong f g h [] = refl
map_cong f g h (x ∷ xs) = λ i. h x i ∷ map_cong f g h xs i

pub map-map {ℓ κ μ} :
    {A : Type ℓ} {B : Type κ} {C : Type μ} (f : B → C) (g : A → B) (xs : List A)
    → map f (map g xs) ≡ map (λ x. f (g x)) xs
map-map f g [] = refl
map-map f g (x ∷ xs) = ap (◌∷◌ (f (g x))) (map-map f g xs)

pub map_id {ℓ} : {A : Type ℓ} (xs : List A) → map (λ x. x) xs ≡ xs
map_id [] = refl
map_id (x ∷ xs) = ap (◌∷◌ x) (map_id xs)
