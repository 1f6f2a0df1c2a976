-- ===== src/Prelude/EqClass.antt =====
-- Equality of map keys and enumerations as an interface: a Boolean test that decides the paths.
use Prim.Native.Nat.{ℕ}
use Prim.Native.String.{String}
use mathlib.Core.Bool.{Bool, true, false}
use mathlib.Core.Logic.{◌↔◌}
use mathlib.Core.Path.{◌≡◌}
use native.Mathlib.Omega.{arith}
use text.Mathlib.Text.{◌==◌ as str_eq}
use text.Mathlib.TextEquality.{eq_iff}
use s_ui_next.Prelude.Tests.{nat_eq, nat_eq_iff}

pub record Comparable {ℓ} (K : Type ℓ) : Type ℓ where
  pub same : K → K → Bool
  pub same_iff : (x y : K) → (same x y ≡ true) ↔ (x ≡ y)

-- Go's `==` at a type with an instance.
infix 50 ◌==◌
abbrev pub ◌==◌ {ℓ} : {K : Type ℓ} ⦃c : Comparable K⦄ → K → K → Bool
◌==◌ ⦃c⦄ x y = c.same x y

abbrev bool_same : Bool → Bool → Bool
bool_same true y = y
bool_same false true = false
bool_same false false = true

pub bool_same_iff : (x y : Bool) → (bool_same x y ≡ true) ↔ (x ≡ y)
bool_same_iff x y = ground arith

instance abbrev pub comparable_bool : Comparable Bool
comparable_bool = record { same = bool_same; same_iff = bool_same_iff }

instance abbrev pub comparable_nat : Comparable ℕ
comparable_nat = record { same = nat_eq; same_iff = nat_eq_iff }

instance abbrev pub comparable_string : Comparable String
comparable_string = record { same = str_eq; same_iff = eq_iff }

-- The equality of texts, as a lemma that the tactics take at two texts.
pub str_iff : (s t : String) → (str_eq s t ≡ true) ↔ (s ≡ t)
str_iff = eq_iff
