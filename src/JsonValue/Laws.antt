-- ===== src/JsonValue/Laws.antt =====
-- Values that are written and read back.
use s_ui_next.GoMap.{lookup, insert, delete}
use s_ui_next.GoMap.Laws.{lookup-insert, lookup-delete}
use s_ui_next.JsonValue.{
  Value, Object, or_null, entries, json_null, items_list, of_list, fields_map, of_map, get,
  map_value, list_value, array, object,
}
use s_ui_next.Prelude.{
  String, comparable_string, str_iff, ◌==◌, ◌≡◌, ◌∙◌, refl, Bool, true, false, ap, List, [], ◌∷◌,
  Option, none, some, if◌then◌else◌,
}

pub items_list-of_list : (vs : List Value) → items_list (of_list vs) ≡ vs
unfolding items_list of_list
items_list-of_list [] = refl
items_list-of_list (v ∷ vs) = ap (◌∷◌ v) (items_list-of_list vs)

pub fields_map-of_map : (m : Object) → fields_map (of_map m) ≡ m
unfolding fields_map of_map
fields_map-of_map [] = refl
fields_map-of_map ((k, v) ∷ m) = ap (◌∷◌ (k, v)) (fields_map-of_map m)

pub list_value-array : (vs : List Value) → list_value (array vs) ≡ vs
unfolding list_value
list_value-array vs = items_list-of_list vs

pub map_value-object : (m : Object) → map_value (object m) ≡ some m
unfolding map_value
map_value-object m = ap some (fields_map-of_map m)

or_null-if :
    (b : Bool) (o r : Option Value)
    → or_null (if b then o else r) ≡ (if b then or_null o else or_null r)
or_null-if true o r = refl
or_null-if false o r = refl

pub get-insert :
    (written read : String) (v : Value) (m : Object)
    → get read (insert written v m) ≡ (if written == read then v else get read m)
unfolding get
get-insert written read v m =
    ap or_null (lookup-insert written read v m)
    ∙ or_null-if (written == read) (some v) (lookup read m)

pub get-insert_other :
    (written key : String) (v : Value) (m : Object)
    → (written == key) ≡ false
    → get key (insert written v m) ≡ get key m
get-insert_other written key v m h = get-insert written key v m ∙ rw h refl

pub get-insert_here : (key : String) (v : Value) (m : Object) → get key (insert key v m) ≡ v
get-insert_here key v m = get-insert key key v m ∙ rw ((str_iff key key).1 refl) refl

pub get-delete :
    (deleted read : String) (m : Object)
    → get read (delete deleted m) ≡ (if deleted == read then json_null else get read m)
unfolding get
get-delete deleted read m =
    ap or_null (lookup-delete deleted read m) ∙ or_null-if (deleted == read) none (lookup read m)

pub entries-object : (m : Object) → entries (object m) ≡ m
unfolding entries
entries-object m = fields_map-of_map m

pub get-delete_here : (key : String) (m : Object) → get key (delete key m) ≡ json_null
get-delete_here key m = get-delete key key m ∙ rw ((str_iff key key).1 refl) refl
