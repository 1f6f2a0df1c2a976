-- ===== src/GoText.antt =====
-- What the program uses of Go's `strings` package. The tables of `unicode` for letters of one case
-- are an argument: `to_lower`, `to_upper` and the representative that `EqualFold` compares.
pub mod Laws
pub mod Tests
use Prim.Native.Char.{Char, code}
use Prim.Native.String.{◌++◌ as concat}
use text.Mathlib.Text.{find?, starts_with}
use s_ui_next.Prelude.{
  ℕ, String, comparable_string, ◌==◌, Bool, true, false, ◌&&◌, ◌||◌, List, [], ◌∷◌, Option, none,
  some, leb, nat_eq, if◌then◌else◌,
}

pub record Unicode : Type 0 where
  pub lower : Char → Char
  pub upper : Char → Char
  pub fold : Char → Char

-- `unicode.IsSpace`
abbrev pub is_space : Char → Bool
is_space c =
    let n = code c in
    (leb 9 n && leb n 13)
    || (nat_eq n 32
        || (nat_eq n 133
            || (nat_eq n 160
                || (nat_eq n 5760
                    || ((leb 8192 n && leb n 8202)
                        || (nat_eq n 8232
                            || (nat_eq n 8233
                                || (nat_eq n 8239 || (nat_eq n 8287 || nat_eq n 12288)))))))))

unfoldable pub trim_left : String → String
trim_left String.[] = String.[]
trim_left (String.◌∷◌ c s) = let rest = trim_left s in if is_space c then rest else String.◌∷◌ c s

abbrev pub cons_trimmed : Char → String → String
cons_trimmed c String.[] = if is_space c then String.[] else String.◌∷◌ c String.[]
cons_trimmed c (String.◌∷◌ d s) = String.◌∷◌ c (String.◌∷◌ d s)

unfoldable pub trim_right : String → String
trim_right String.[] = String.[]
trim_right (String.◌∷◌ c s) = cons_trimmed c (trim_right s)

-- `strings.TrimSpace`
abbrev pub trim_space : String → String
trim_space s = trim_right (trim_left s)

unfoldable pub map_chars : (Char → Char) → String → String
map_chars f String.[] = String.[]
map_chars f (String.◌∷◌ c s) = String.◌∷◌ (f c) (map_chars f s)

-- `strings.Contains`
unfoldable pub contains : String → String → Bool
contains s sub = elim (find? s sub) [ none ↦ false | some i ↦ true ]

-- `strings.Join`
unfoldable pub join : String → List String → String
join separator [] = ""
join separator (s ∷ []) = s
join separator (s ∷ t ∷ rest) = concat s (concat separator (join separator (t ∷ rest)))

module _ (unicode : Unicode) where
  open unicode use {lower, upper, fold}

  -- `strings.ToLower`, `strings.ToUpper` and `strings.EqualFold`
  abbrev pub to_lower : String → String
  to_lower s = map_chars lower s

  abbrev pub to_upper : String → String
  to_upper s = map_chars upper s

  abbrev pub equal_fold : String → String → Bool
  equal_fold s t = map_chars fold s == map_chars fold t
