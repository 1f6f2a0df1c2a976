-- ===== src/GoText/Tests.antt =====
-- Runs of the text functions.
use s_ui_next.GoText.{trim_left, trim_right, trim_space, contains, join}
use s_ui_next.Prelude.{◌≡◌, refl, true, false, [], ◌∷◌}

trims : trim_space "  a b\n" ≡ "a b"
unfolding trim_left trim_right
trims = refl

finds : contains "connection from" "from" ≡ true
unfolding contains
finds = refl

misses : contains "connection" "from" ≡ false
unfolding contains
misses = refl

joins : join "/" ("a" ∷ "b" ∷ []) ≡ "a/b"
unfolding join
joins = refl
