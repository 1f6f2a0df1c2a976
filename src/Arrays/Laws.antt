-- ===== src/Arrays/Laws.antt =====
-- What the unions and differences of util/common/array.go hold.
use s_ui_next.Arrays.{mark_all, is_marked, union_uint_array, append_unmarked, diff_uint_array}
use s_ui_next.GoMap.Laws.{lookup-insert, has_key-insert, insert-IsMap}
use s_ui_next.GoMap.{GoMap, lookup, insert, has_key, IsMap}
use s_ui_next.Prelude.{
  ℕ, suc, ◌+◌, comparable_nat, nat_eq, Bool, true, false, ◌||◌, List, [], ◌∷◌, ◌++◌, map,
  if◌then◌else◌, ◌≡◌, refl, arith, any, Bool-cases, inl, inr,
}

-- `item` is among the elements.
abbrev pub contains : ℕ → List ℕ → Bool
contains item xs = any (nat_eq item) xs

-- How often `item` stands in the slice.
abbrev pub count : ℕ → List ℕ → ℕ
count item [] = 0
count item (x ∷ xs) = if nat_eq item x then suc (count item xs) else count item xs

has_key-mark_all :
    (k : ℕ) (xs : List ℕ) (m : GoMap ℕ Bool)
    → has_key k (mark_all xs m) ≡ (contains k xs || has_key k m)
unfolding mark_all
has_key-mark_all k [] m = refl
has_key-mark_all k (x ∷ xs) m =
    ground (arith, has_key-mark_all k xs (insert x true m), has_key-insert x k true m)

is_marked-mark_all :
    (k : ℕ) (xs : List ℕ) (m : GoMap ℕ Bool)
    → is_marked k (mark_all xs m) ≡ (contains k xs || is_marked k m)
unfolding mark_all is_marked
is_marked-mark_all k [] m = refl
is_marked-mark_all k (x ∷ xs) m =
    ground (arith, is_marked-mark_all k xs (insert x true m), lookup-insert x k true m)

is_marked-nil : (k : ℕ) → is_marked k [] ≡ false
unfolding is_marked lookup
is_marked-nil k = refl

mark_all-IsMap : (xs : List ℕ) (m : GoMap ℕ Bool) → IsMap m → IsMap (mark_all xs m)
unfolding mark_all
mark_all-IsMap [] m h = h
mark_all-IsMap (x ∷ xs) m h = mark_all-IsMap xs (insert x true m) (insert-IsMap x true m h)

count-keys :
    (k : ℕ) (m : GoMap ℕ Bool)
    → IsMap m
    → count k (map (λ e. e.0) m) ≡ (if has_key k m then 1 else 0)
unfolding has_key
count-keys k [] h = refl
count-keys k ((j, v) ∷ m) (n, h) = ground (arith, count-keys k m h)

-- Every number that one of the slices holds stands in the union once, and no other does.
pub count-union_uint_array :
    (k : ℕ) (a b : List ℕ)
    → count k (union_uint_array a b) ≡ (if contains k a || contains k b then 1 else 0)
unfolding union_uint_array has_key
count-union_uint_array k a b = ground (
  arith,
  count-keys k (mark_all b (mark_all a [])) (mark_all-IsMap b _ (mark_all-IsMap a [] tt)),
  has_key-mark_all k b (mark_all a []),
  has_key-mark_all k a [],
)

count-append : (k : ℕ) (xs ys : List ℕ) → count k (xs ++ ys) ≡ count k xs + count k ys
count-append k [] ys = omega arith
count-append k (x ∷ xs) ys = ground (arith, count-append k xs ys)

count-append_unmarked :
    (k : ℕ) (set : GoMap ℕ Bool) (xs acc : List ℕ)
    → count k (append_unmarked set xs acc)
      ≡ count k acc + (if is_marked k set then 0 else count k xs)
unfolding append_unmarked
count-append_unmarked k set [] acc = ground arith
count-append_unmarked k set (x ∷ xs) acc = elim (Bool-cases (is_marked x set)) [
  | inl y ↦ rw y (ground (arith, count-append_unmarked k set xs acc))
  | inr n ↦
      rw n (
        ground (arith, count-append_unmarked k set xs (acc ++ x ∷ []), count-append k acc (x ∷ [])))
]

-- A number stands in the difference as often as in the one slice that holds it, and not at all
-- where both do or neither does.
pub count-diff_uint_array :
    (k : ℕ) (a b : List ℕ)
    → count k (diff_uint_array a b)
      ≡ (if contains k a then 0 else count k b) + (if contains k b then 0 else count k a)
unfolding diff_uint_array
count-diff_uint_array k a b =
    let set_a = mark_all a [] in
    let set_b = mark_all b [] in
    ground (
      arith,
      count-append_unmarked k set_b a (append_unmarked set_a b []),
      count-append_unmarked k set_a b [],
      is_marked-mark_all k a [],
      is_marked-mark_all k b [],
      is_marked-nil k,
    )
