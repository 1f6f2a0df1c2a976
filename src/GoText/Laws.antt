-- ===== src/GoText/Laws.antt =====
-- `strings.TrimSpace` leaves a trimmed text as it is.
use Prim.Native.Char.{Char}
use s_ui_next.GoText.{is_space, trim_left, trim_right, cons_trimmed, trim_space}
use s_ui_next.Prelude.{String, false, ◌≡◌, ◌∙◌, refl, ap, Bool-cases, inl, inr}

-- A text that does not start with a space.
abbrev StartsClean : String → Type 0
StartsClean String.[] = Unit
StartsClean (String.◌∷◌ c s) = is_space c ≡ false

trim_left-StartsClean : (s : String) → StartsClean (trim_left s)
unfolding trim_left
trim_left-StartsClean String.[] = tt
trim_left-StartsClean (String.◌∷◌ c s) = elim (Bool-cases (is_space c)) [
  | inl y ↦ rw y (trim_left-StartsClean s)
  | inr n ↦ rw n n
]

trim_left-of_StartsClean : (s : String) → StartsClean s → trim_left s ≡ s
unfolding trim_left
trim_left-of_StartsClean String.[] h = refl
trim_left-of_StartsClean (String.◌∷◌ c s) h = rw h refl

cons_trimmed-StartsClean :
    (c : Char) (s : String) → is_space c ≡ false → StartsClean (cons_trimmed c s)
cons_trimmed-StartsClean c String.[] h = rw h h
cons_trimmed-StartsClean c (String.◌∷◌ d s) h = h

trim_right-StartsClean : (s : String) → StartsClean s → StartsClean (trim_right s)
unfolding trim_right
trim_right-StartsClean String.[] h = tt
trim_right-StartsClean (String.◌∷◌ c s) h = cons_trimmed-StartsClean c (trim_right s) h

trim_right-cons_trimmed :
    (c : Char) (s : String) → trim_right s ≡ s → trim_right (cons_trimmed c s) ≡ cons_trimmed c s
unfolding trim_right
trim_right-cons_trimmed c String.[] h = elim (Bool-cases (is_space c)) [
  | inl y ↦ rw y refl
  | inr n ↦ rw n (rw n refl)
]
trim_right-cons_trimmed c (String.◌∷◌ d s) h = ap (cons_trimmed c) h

trim_right_idem : (s : String) → trim_right (trim_right s) ≡ trim_right s
unfolding trim_right
trim_right_idem String.[] = refl
trim_right_idem (String.◌∷◌ c s) = trim_right-cons_trimmed c (trim_right s) (trim_right_idem s)

pub trim_space_idem : (s : String) → trim_space (trim_space s) ≡ trim_space s
trim_space_idem s =
    ap trim_right (
      trim_left-of_StartsClean (trim_space s)
        (trim_right-StartsClean (trim_left s) (trim_left-StartsClean s)))
    ∙ trim_right_idem (trim_left s)
