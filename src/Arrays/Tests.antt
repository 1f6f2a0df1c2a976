-- ===== src/Arrays/Tests.antt =====
-- Runs of util/common/array.go, and its theorems at concrete slices.
use s_ui_next.Arrays.{union_uint_array, diff_uint_array}
use s_ui_next.GoMap.{lookup, insert}
use s_ui_next.Prelude.{◌≡◌, refl, [], ◌∷◌}

union_run : union_uint_array (3 ∷ 1 ∷ 3 ∷ []) (1 ∷ 5 ∷ []) ≡ 3 ∷ 1 ∷ 5 ∷ []
unfolding union_uint_array insert
union_run = refl

diff_run : diff_uint_array (1 ∷ 2 ∷ 3 ∷ []) (3 ∷ 4 ∷ []) ≡ 4 ∷ 1 ∷ 2 ∷ []
unfolding diff_uint_array insert lookup
diff_run = refl
