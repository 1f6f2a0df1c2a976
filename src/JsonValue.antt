-- ===== src/JsonValue.antt =====
-- What `json.Unmarshal` leaves in an `interface{}`, and how service/wireguard.go reads it. Of a number
-- the model keeps what `int(float64)` gives, all that the program reads of it.
pub mod Laws
pub mod Tests
use Prim.Native.Char.{Char, code}
use s_ui_next.GoMap.{GoMap, lookup}
use s_ui_next.GoText.{trim_space}
use s_ui_next.Prelude.Int.{ℤ, pos, negsuc, sub_ℕ}
use s_ui_next.Prelude.{
  ℕ, zero, suc, ◌+◌, ◌*◌, ◌-◌, String, comparable_string, comparable_nat, ◌==◌, Bool, true, false,
  not, ◌&&◌, ◌||◌, List, [], ◌∷◌, map, Option, none, some, keep, leb, ltb, if◌then◌else◌,
}

mutual
  pub data Value : Type 0 where
    json_null : Value
    json_bool : Bool → Value
    json_number : ℤ → Value
    json_string : String → Value
    json_array : Items → Value
    json_object : Fields → Value

  pub data Items : Type 0 where
    nil : Items
    cons : Value → Items → Items

  pub data Fields : Type 0 where
    end : Fields
    field : String → Value → Fields → Fields

abbrev pub Object : Type 0
Object = GoMap String Value

unfoldable pub items_list : Items → List Value
items_list nil = []
items_list (cons v vs) = v ∷ items_list vs

unfoldable pub of_list : List Value → Items
of_list [] = nil
of_list (v ∷ vs) = cons v (of_list vs)

unfoldable pub fields_map : Fields → Object
fields_map end = []
fields_map (field k v fs) = (k, v) ∷ fields_map fs

unfoldable pub of_map : Object → Fields
of_map [] = end
of_map ((k, v) ∷ m) = field k v (of_map m)

abbrev pub array : List Value → Value
array vs = json_array (of_list vs)

abbrev pub object : Object → Value
object m = json_object (of_map m)

abbrev pub or_null : Option Value → Value
or_null none = json_null
or_null (some v) = v

-- `m[key]`, where a missing key gives nil.
unfoldable pub get : String → Object → Value
get key m = or_null (lookup key m)

-- `mapValue`: none is the nil map.
unfoldable pub map_value : Value → Option Object
unfolding fields_map
map_value (json_object fs) = some (fields_map fs)
map_value _ = none

-- The entries of what `mapValue` gives: none of a nil map.
unfoldable pub entries : Value → Object
unfolding fields_map
entries (json_object fs) = fields_map fs
entries _ = []

unfoldable pub list_value : Value → List Value
unfolding items_list
list_value (json_array vs) = items_list vs
list_value _ = []

unfoldable pub string_value : Value → String
string_value (json_string s) = trim_space s
string_value _ = ""

unfoldable pub bool_value : Value → Bool → Bool
bool_value (json_bool b) fallback = b
bool_value _ fallback = fallback

abbrev pub digit_of : Char → Option ℕ
digit_of c = let n = code c in if leb 48 n && leb n 57 then some (n - 48) else none

-- The number of a text of digits, read from the left.
unfoldable pub digits_value : ℕ → String → Option ℕ
digits_value acc String.[] = some acc
digits_value acc (String.◌∷◌ c s) = elim (digit_of c) [
  | none ↦ none
  | some d ↦ digits_value (acc * 10 + d) s
]

abbrev unsigned : String → Option ℕ
unsigned String.[] = none
unsigned (String.◌∷◌ c s) = digits_value 0 (String.◌∷◌ c s)

abbrev int_max : ℕ
int_max = 9223372036854775807

-- `strconv.Atoi` without its error: a number that is too large becomes the nearest `int`.
abbrev positive_int : Option ℕ → ℤ
positive_int none = pos 0
positive_int (some n) = pos (if leb n int_max then n else int_max)

abbrev negative_int : Option ℕ → ℤ
negative_int none = pos 0
negative_int (some n) = sub_ℕ 0 (if leb n (suc int_max) then n else suc int_max)

unfoldable pub atoi : String → ℤ
unfolding digits_value
atoi String.[] = pos 0
atoi (String.◌∷◌ c s) =
    if code c == 45
    then negative_int (unsigned s)
    else if code c == 43
    then positive_int (unsigned s)
    else positive_int (unsigned (String.◌∷◌ c s))

unfoldable pub int_value : Value → ℤ
unfolding atoi
int_value (json_number n) = n
int_value (json_string s) = atoi s
int_value _ = pos 0

-- Puts a character before the first part.
abbrev pub onto_first : Char → List String → List String
onto_first c [] = String.◌∷◌ c String.[] ∷ []
onto_first c (part ∷ parts) = String.◌∷◌ c part ∷ parts

-- `strings.Split(s, ",")`
unfoldable pub split_comma : String → List String
split_comma String.[] = "" ∷ []
split_comma (String.◌∷◌ c s) =
    let rest = split_comma s in if code c == 44 then "" ∷ rest else onto_first c rest

abbrev pub is_text : String → Bool
is_text s = not (s == "")

unfoldable pub strings_value : Value → List String
unfolding items_list string_value split_comma
strings_value (json_array vs) = keep is_text (map string_value (items_list vs))
strings_value (json_string s) =
    if trim_space s == "" then [] else keep is_text (map trim_space (split_comma (trim_space s)))
strings_value _ = []

-- `interfaceStrings`, as the value that it is stored as.
abbrev pub interface_strings : List String → Value
interface_strings values = array (map json_string values)
