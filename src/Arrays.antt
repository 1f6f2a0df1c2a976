-- ===== src/Arrays.antt =====
-- util/common/array.go: unions and differences of slices of `uint`. A set `map[uint]bool` is a map
-- that holds `true`; the slice that a range over it builds has the map's order.
pub mod Laws
pub mod Tests
use s_ui_next.GoMap.{GoMap, lookup, insert}
use s_ui_next.Prelude.{
  ℕ, comparable_nat, Bool, true, false, not, List, [], ◌∷◌, ◌++◌, Option, none, some, map,
  if◌then◌else◌,
}

-- `for _, v := range xs { m[v] = true }`
unfoldable pub mark_all : List ℕ → GoMap ℕ Bool → GoMap ℕ Bool
mark_all [] m = m
mark_all (x ∷ xs) m = mark_all xs (insert x true m)

-- `m[k]`, false where it is missing.
unfoldable pub is_marked : ℕ → GoMap ℕ Bool → Bool
is_marked k m = elim (lookup k m) [ none ↦ false | some b ↦ b ]

unfoldable pub union_uint_array : List ℕ → List ℕ → List ℕ
unfolding mark_all
union_uint_array a b = map (λ e. e.0) (mark_all b (mark_all a []))

-- `for _, item := range xs { if !set[item] { different = append(different, item) } }`
unfoldable pub append_unmarked : GoMap ℕ Bool → List ℕ → List ℕ → List ℕ
append_unmarked set [] different = different
append_unmarked set (item ∷ xs) different =
    append_unmarked set xs (if not (is_marked item set) then different ++ item ∷ [] else different)

unfoldable pub diff_uint_array : List ℕ → List ℕ → List ℕ
unfolding mark_all append_unmarked is_marked
diff_uint_array a b =
    let different = append_unmarked (mark_all a []) b [] in
    append_unmarked (mark_all b []) a different
