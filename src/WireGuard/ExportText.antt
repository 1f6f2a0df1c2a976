-- ===== src/WireGuard/ExportText.antt =====
-- The texts of the client configuration that service/wireguard.go exports: numbers, host and port,
-- file names, and lines that are left out where they are empty.
use Prim.Native.Char.{Char, code}
use Prim.Native.String.{◌++◌ as concat}
use s_ui_next.GoText.{contains}
use s_ui_next.JsonValue.{Value, get, map_value, string_value}
use s_ui_next.WireGuard.Roles.{has_any}
use s_ui_next.Prelude.Int.{ℤ, pos, pos_part, ltb_ℤ}
use s_ui_next.Prelude.{
  ℕ, zero, suc, ◌/◌, ◌%◌, String, comparable_string, comparable_nat, ◌==◌, Bool, true, false, ◌||◌,
  List, [], ◌∷◌, get_elem?, none, some, ltb, if◌then◌else◌,
}

abbrev digit_text : ℕ → String
digit_text n =
    elim (get_elem? {A = String} ("0" ∷ "1" ∷ "2" ∷ "3" ∷ "4" ∷ "5" ∷ "6" ∷ "7" ∷ "8" ∷ "9" ∷ [])
      n) [ none ↦ "" | some s ↦ s ]

-- A number in decimals; `suc n` steps are enough for `n`.
unfoldable pub decimal_of : ℕ → ℕ → String
decimal_of zero n = ""
decimal_of (suc fuel) n = elim (ltb n 10) [
  | true ↦ digit_text n
  | false ↦ concat (decimal_of fuel (n / 10)) (digit_text (n % 10))
]

abbrev pub decimal : ℕ → String
decimal n = decimal_of (suc n) n

-- `strings.Trim(s, "[]")`
abbrev is_bracket : Char → Bool
is_bracket c = code c == 91 || code c == 93

unfoldable pub trim_left_brackets : String → String
trim_left_brackets String.[] = ""
trim_left_brackets (String.◌∷◌ c s) =
    let rest = trim_left_brackets s in if is_bracket c then rest else String.◌∷◌ c s

abbrev cons_unbracketed : Char → String → String
cons_unbracketed c String.[] = if is_bracket c then "" else String.◌∷◌ c String.[]
cons_unbracketed c (String.◌∷◌ d s) = String.◌∷◌ c (String.◌∷◌ d s)

unfoldable pub trim_right_brackets : String → String
trim_right_brackets String.[] = ""
trim_right_brackets (String.◌∷◌ c s) = cons_unbracketed c (trim_right_brackets s)

-- `net.JoinHostPort` of the host without its brackets.
unfoldable pub host_port : String → ℕ → String
unfolding trim_left_brackets trim_right_brackets
host_port host port =
    let bare = trim_right_brackets (trim_left_brackets host) in
    let named =
      if contains bare ":" || contains bare "%" then concat "[" (concat bare "]") else bare in
    concat named (concat ":" (decimal port))

-- The name in a file name: `/`, `\` and spaces are underscores.
abbrev file_char : Char → String → String
file_char c s =
    if code c == 47 || (code c == 92 || code c == 32) then concat "_" s else String.◌∷◌ c s

unfoldable pub file_name : String → String
file_name String.[] = ""
file_name (String.◌∷◌ c s) = file_char c (file_name s)

-- `filepath.Base` of a path that does not end with a slash: what follows the last slash.
unfoldable pub base_from : String → String → String
base_from kept String.[] = kept
base_from kept (String.◌∷◌ c s) = if code c == 47 then base_from s s else base_from kept s

-- The private key of the old keys under a public key.
unfoldable pub legacy_key : String → List Value → String
legacy_key public [] = ""
legacy_key public (raw ∷ rest) =
    let later = legacy_key public rest in
    elim (map_value raw) [
      | none ↦ later
      | some key ↦
          if string_value (get "public_key" key) == public
          then string_value (get "private_key" key)
          else later
    ]

abbrev pub first_text : String → String → String
first_text first second = if first == "" then second else first

abbrev pub first_list : List String → List String → List String
first_list first second = if has_any first then first else second

-- A line that is left out where its text is empty.
abbrev pub line_if : String → String → String
line_if name value = if value == "" then "" else concat name (concat value "\n")

abbrev pub number_line : String → ℤ → String
number_line name n =
    if ltb_ℤ (pos 0) n then concat name (concat (decimal (pos_part n)) "\n") else ""

abbrev pub first_number : ℤ → ℤ → ℤ
first_number (pos zero) second = second
first_number first second = first
