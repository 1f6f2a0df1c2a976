-- ===== src/WireGuard/Redaction.antt =====
-- What `redactWireGuardSecrets` (service/wireguard.go) leaves of an endpoint.
use s_ui_next.GoMap.{lookup, insert, delete}
use s_ui_next.JsonValue.{
  items_list, Value, json_null, json_bool, json_number, json_string, json_array, json_object,
  Object, get, map_value, entries, list_value, string_value, array, object,
}
use s_ui_next.JsonValue.Laws.{
  get-insert_here, get-insert_other, get-delete_here, entries-object, list_value-array,
}
use s_ui_next.WireGuard.{redacted_secret}
use s_ui_next.WireGuard.Secrets.{
  set_redacted_secret, on_object, store_elements, on_elements, redact_peer, redact_ext, store_field,
  on_field, redact_secrets,
}
use s_ui_next.Prelude.{
  String, List, [], comparable_string, ◌==◌, Bool, true, false, ◌&&◌, ◌||◌, map, All, All-map,
  Option, none, some, Bool-cases, inl, inr, ◌≡◌, ◌∙◌, refl, ap, arith,
}
use s_ui_next.GoText.{trim_left, trim_right}

-- A text that shows nothing: empty, or the mark of a hidden secret.
abbrev pub is_hidden : String → Bool
is_hidden s = s == "" || s == redacted_secret

-- The text of a field.
abbrev pub text : String → Object → String
text key m = string_value (get key m)

pub redacted_text : string_value (json_string redacted_secret) ≡ redacted_secret
unfolding string_value trim_left trim_right
redacted_text = refl

module _ (key set_key : String) (m : Object) where
  pub set_redacted_secret-empty : (text key m == "") ≡ true → set_redacted_secret key set_key m ≡ m
  unfolding set_redacted_secret
  set_redacted_secret-empty h = rw h refl

  pub set_redacted_secret-text :
      (text key m == "") ≡ false → text key (set_redacted_secret key set_key m) ≡ redacted_secret
  unfolding set_redacted_secret
  set_redacted_secret-text h = rw h (
      ap string_value
        (get-insert_here key (json_string redacted_secret) (insert set_key (json_bool true) m))
      ∙ redacted_text)

  pub set_redacted_secret-other :
      (read : String)
      → (key == read) ≡ false
      → (set_key == read) ≡ false
      → get read (set_redacted_secret key set_key m) ≡ get read m
  unfolding set_redacted_secret
  set_redacted_secret-other read h k = elim (Bool-cases (text key m == "")) [
    | inl y ↦ rw y refl
    | inr n ↦ rw n (
        get-insert_other key read (json_string redacted_secret) (insert set_key (json_bool true) m)
          h
        ∙ get-insert_other set_key read (json_bool true) m k)
  ]

  pub set_redacted_secret-hidden : is_hidden (text key (set_redacted_secret key set_key m)) ≡ true
  set_redacted_secret-hidden = elim (Bool-cases (text key m == "")) [
    | inl y ↦ ap (λ x. is_hidden (text key x)) (set_redacted_secret-empty y) ∙ ground (arith, y)
    | inr n ↦ ap is_hidden (set_redacted_secret-text n)
  ]

-- The elements of a list that is changed in place.
module _ (key : String) (f : Value → Value) (m : Object) where
  store_elements-list :
      (v : Value)
      → get key m ≡ v
      → list_value (get key (store_elements key f m v)) ≡ map f (list_value v)
  unfolding list_value
  store_elements-list (json_array vs) e =
      ap list_value (get-insert_here key (array (map f (items_list vs))) m)
      ∙ list_value-array (map f (items_list vs))
  store_elements-list json_null e = ap list_value e
  store_elements-list (json_bool b) e = ap list_value e
  store_elements-list (json_number n) e = ap list_value e
  store_elements-list (json_string s) e = ap list_value e
  store_elements-list (json_object fs) e = ap list_value e

  pub on_elements-list : list_value (get key (on_elements key f m)) ≡ map f (list_value (get key m))
  unfolding on_elements
  on_elements-list = store_elements-list (get key m) refl

  store_elements-other :
      (v : Value) (read : String)
      → (key == read) ≡ false
      → get read (store_elements key f m v) ≡ get read m
  store_elements-other (json_array vs) read h =
      get-insert_other key read (array (map f (items_list vs))) m h
  store_elements-other json_null read h = refl
  store_elements-other (json_bool b) read h = refl
  store_elements-other (json_number n) read h = refl
  store_elements-other (json_string s) read h = refl
  store_elements-other (json_object fs) read h = refl

  pub on_elements-other :
      (read : String) → (key == read) ≡ false → get read (on_elements key f m) ≡ get read m
  unfolding on_elements
  on_elements-other read h = store_elements-other (get key m) read h

module _ (key : String) (f : Object → Object) (m : Object) where
  store_field-other :
      (o : Option Object) (read : String)
      → (key == read) ≡ false
      → get read (store_field key f m o) ≡ get read m
  store_field-other none read h = refl
  store_field-other (some inner) read h = get-insert_other key read (object (f inner)) m h

  pub on_field-other :
      (read : String) → (key == read) ≡ false → get read (on_field key f m) ≡ get read m
  unfolding on_field
  on_field-other read h = store_field-other (map_value (get key m)) read h

-- The peers of a redacted endpoint, and its own key.
pub redact_secrets-peers :
    (endpoint : Object)
    → list_value (get "peers" (redact_secrets endpoint))
      ≡ map (on_object redact_peer) (list_value (get "peers" endpoint))
unfolding redact_secrets
redact_secrets-peers endpoint =
    let own = set_redacted_secret "private_key" "private_key_set" endpoint in
    ap list_value (
      on_field-other "ext" redact_ext (on_elements "peers" (on_object redact_peer) own) "peers"
        refl)
    ∙ (on_elements-list "peers" (on_object redact_peer) own
        ∙ ap (λ v. map (on_object redact_peer) (list_value v))
            (set_redacted_secret-other "private_key" "private_key_set" endpoint "peers" refl refl))

pub redact_secrets-own :
    (endpoint : Object)
    → get "private_key" (redact_secrets endpoint)
      ≡ get "private_key" (set_redacted_secret "private_key" "private_key_set" endpoint)
unfolding redact_secrets
redact_secrets-own endpoint =
    let own = set_redacted_secret "private_key" "private_key_set" endpoint in
    on_field-other "ext" redact_ext (on_elements "peers" (on_object redact_peer) own) "private_key"
      refl
    ∙ on_elements-other "peers" (on_object redact_peer) own "private_key" refl

-- Whether a peer, if it is an object at all, shows no secret.
abbrev pub is_hidden_peer : Value → Bool
is_hidden_peer v =
    is_hidden (text "client_private_key" (entries v))
    && is_hidden (text "pre_shared_key" (entries v))

redact_peer-hidden : (peer : Object) → is_hidden_peer (object (redact_peer peer)) ≡ true
unfolding redact_peer
redact_peer-hidden peer =
    let first = set_redacted_secret "client_private_key" "client_private_key_set" peer in
    let psk = set_redacted_secret-hidden "pre_shared_key" "pre_shared_key_set" first in
    let client : is_hidden (text "client_private_key" (redact_peer peer)) ≡ true =
      ap (λ v. is_hidden (string_value v))
        (set_redacted_secret-other "pre_shared_key" "pre_shared_key_set" first "client_private_key"
          refl refl)
      ∙ set_redacted_secret-hidden "client_private_key" "client_private_key_set" peer in
    ap (λ m. is_hidden (text "client_private_key" m) && is_hidden (text "pre_shared_key" m))
      (entries-object (redact_peer peer))
    ∙ ground (arith, client, psk)

on_object-hidden : (v : Value) → is_hidden_peer (on_object redact_peer v) ≡ true
unfolding entries get lookup string_value
on_object-hidden (json_object fs) = redact_peer-hidden (entries (json_object fs))
on_object-hidden json_null = refl
on_object-hidden (json_bool b) = refl
on_object-hidden (json_number n) = refl
on_object-hidden (json_string s) = refl
on_object-hidden (json_array vs) = refl

-- What is left of the private key of one of the old keys of `ext`.
abbrev pub has_no_key : Value → Bool
has_no_key v = text "private_key" (entries v) == ""

on_object-no_key : (v : Value) → has_no_key (on_object (delete "private_key") v) ≡ true
unfolding entries get lookup string_value
on_object-no_key (json_object fs) =
    let kept = delete "private_key" (entries (json_object fs)) in
    ap (λ m. text "private_key" m == "") (entries-object kept)
    ∙ ap (λ v. string_value v == "") (get-delete_here "private_key" (entries (json_object fs)))
on_object-no_key json_null = refl
on_object-no_key (json_bool b) = refl
on_object-no_key (json_number n) = refl
on_object-no_key (json_string s) = refl
on_object-no_key (json_array vs) = refl

-- The old keys in what an endpoint has as its `ext`.
abbrev pub old_keys : Value → List Value
old_keys ext = list_value (get "keys" (entries ext))

redact_ext-keys :
    (ext : Object)
    → old_keys (object (redact_ext ext))
      ≡ map (on_object (delete "private_key")) (list_value (get "keys" ext))
unfolding redact_ext
redact_ext-keys ext =
    ap (λ m. list_value (get "keys" m))
      (entries-object (on_elements "keys" (on_object (delete "private_key")) ext))
    ∙ on_elements-list "keys" (on_object (delete "private_key")) ext

-- An `ext` that is no object has no keys.
no_ext : (v : Value) → map_value v ≡ none → old_keys v ≡ []
unfolding map_value entries get lookup list_value
no_ext (json_object fs) h = cc
no_ext json_null h = refl
no_ext (json_bool b) h = refl
no_ext (json_number n) h = refl
no_ext (json_string s) h = refl
no_ext (json_array vs) h = refl

store_field-no_key :
    (m : Object) (o : Option Object)
    → map_value (get "ext" m) ≡ o
    → All (λ v. has_no_key v ≡ true) (old_keys (get "ext" (store_field "ext" redact_ext m o)))
store_field-no_key m none e = rw (no_ext (get "ext" m) e) tt
store_field-no_key m (some ext) e =
    rw (get-insert_here "ext" (object (redact_ext ext)) m, redact_ext-keys ext)
      (All-map (λ v. has_no_key v ≡ true) (on_object (delete "private_key")) on_object-no_key
        (list_value (get "keys" ext)))

redact_secrets-no_key :
    (endpoint : Object)
    → All (λ v. has_no_key v ≡ true) (old_keys (get "ext" (redact_secrets endpoint)))
unfolding redact_secrets on_field
redact_secrets-no_key endpoint =
    let m =
      on_elements "peers" (on_object redact_peer)
        (set_redacted_secret "private_key" "private_key_set" endpoint) in
    store_field-no_key m (map_value (get "ext" m)) refl

-- A redacted endpoint shows no secret: its own private key, and the private and pre-shared keys of all
-- its peers, read as nothing or as the mark of a hidden secret, and the old keys of its `ext` have no
-- private key left.
pub redact_secrets-hidden :
    (endpoint : Object)
    → (is_hidden (text "private_key" (redact_secrets endpoint)) ≡ true)
      × All (λ v. is_hidden_peer v ≡ true) (list_value (get "peers" (redact_secrets endpoint)))
      × All (λ v. has_no_key v ≡ true) (old_keys (get "ext" (redact_secrets endpoint)))
redact_secrets-hidden endpoint = (
  ap (λ v. is_hidden (string_value v)) (redact_secrets-own endpoint)
      ∙ set_redacted_secret-hidden "private_key" "private_key_set" endpoint,
  rw (redact_secrets-peers endpoint) (
      All-map (λ v. is_hidden_peer v ≡ true) (on_object redact_peer) on_object-hidden
        (list_value (get "peers" endpoint))),
  redact_secrets-no_key endpoint,
)
