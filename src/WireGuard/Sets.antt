-- ===== src/WireGuard/Sets.antt =====
-- `sameStringSet` of service/wireguard.go: lists that hold the same texts equally often.
use s_ui_next.GoMap.{GoMap, lookup, insert}
use s_ui_next.GoText.{trim_space}
use s_ui_next.Prelude.{
  ℕ, suc, ◌-◌, String, comparable_string, Bool, true, false, List, [], ◌∷◌, none, some, length,
  nat_eq, if◌then◌else◌,
}

-- `values[key]` of a map of counts.
unfoldable pub count_at : String → GoMap String ℕ → ℕ
count_at key values = elim (lookup key values) [ none ↦ 0 | some n ↦ n ]

unfoldable pub count_all : List String → GoMap String ℕ → GoMap String ℕ
count_all [] values = values
count_all (value ∷ rest) values =
    let key = trim_space value in count_all rest (insert key (suc (count_at key values)) values)

unfoldable pub use_up : List String → GoMap String ℕ → Bool
use_up [] values = true
use_up (value ∷ rest) values =
    let key = trim_space value in
    let later = use_up rest (insert key (count_at key values - 1) values) in
    if nat_eq (count_at key values) 0 then false else later

unfoldable pub same_string_set : List String → List String → Bool
unfolding count_all use_up
same_string_set left right =
    if nat_eq (length left) (length right) then use_up right (count_all left []) else false
