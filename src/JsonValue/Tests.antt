-- ===== src/JsonValue/Tests.antt =====
-- Readings of JSON values.
use s_ui_next.GoText.{trim_left, trim_right}
use s_ui_next.JsonValue.{
  json_string, json_array, nil, cons, json_null, items_list, string_value, strings_value,
  split_comma, digits_value, atoi, int_value,
}
use s_ui_next.Prelude.Int.{pos, negsuc}
use s_ui_next.Prelude.{◌≡◌, refl, [], ◌∷◌}

program : Unit {0}
unfolding trim_left trim_right items_list string_value strings_value split_comma digits_value atoi
    int_value
program = tt

splits : strings_value (json_string " a, b,,c ") ≡ "a" ∷ "b" ∷ "c" ∷ []
unfolding program
splits = refl

lists : strings_value (json_array (cons (json_string " x") (cons json_null nil))) ≡ "x" ∷ []
unfolding program
lists = refl

reads : int_value (json_string "51820") ≡ pos 51820
unfolding program
reads = refl

reads_negative : int_value (json_string "-7") ≡ negsuc 6
unfolding program
reads_negative = refl

reads_nothing : int_value (json_string "1x") ≡ pos 0
unfolding program
reads_nothing = refl
