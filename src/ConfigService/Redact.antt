-- ===== src/ConfigService/Redact.antt =====
-- `redactChangeData` of service/config.go: the secrets of a change, at every depth of its value.
use s_ui_next.GoText.{Unicode, to_lower, contains}
use s_ui_next.JsonValue.{
  Value, json_null, json_bool, json_number, json_string, json_array, json_object, Items, nil, cons,
  Fields, end, field,
}
use s_ui_next.Prelude.{
  String, comparable_string, ◌==◌, Bool, true, false, ◌&&◌, List, [], ◌∷◌, Option, none, some, any,
  if◌then◌else◌, Bool-cases, inl, inr, ◌≡◌, refl,
}

abbrev secret_words : List String
secret_words = "private_key" ∷ "pre_shared_key" ∷ "preshared" ∷ "password" ∷ "secret" ∷ "token" ∷ []

abbrev pub is_mark : Value → Bool
is_mark (json_string s) = s == "[redacted]"
is_mark v = false

module _ (unicode : Unicode) where
  unfoldable pub is_secret_key : String → Bool
  is_secret_key key =
      let lower = to_lower unicode key in any (λ word. contains lower word) secret_words

  unfoldable mutual
    pub redact_value : Value → Value
    redact_value (json_object fs) = json_object (redact_fields fs)
    redact_value (json_array vs) = json_array (redact_items vs)
    redact_value json_null = json_null
    redact_value (json_bool b) = json_bool b
    redact_value (json_number n) = json_number n
    redact_value (json_string s) = json_string s

    pub redact_fields : Fields → Fields
    redact_fields end = end
    redact_fields (field key child rest) =
        field key (if is_secret_key key then json_string "[redacted]" else redact_value child)
          (redact_fields rest)

    pub redact_items : Items → Items
    redact_items nil = nil
    redact_items (cons v vs) = cons (redact_value v) (redact_items vs)

  abbrev printed : String → Option String → String
  printed raw none = raw
  printed raw (some text) = text

  abbrev redacted : String → (Value → Option String) → Option Value → String
  redacted raw marshal none = raw
  redacted raw marshal (some value) = printed raw (marshal (redact_value value))

  -- `redactChangeData`, with the reading and the printing of JSON: a text that is not JSON stays.
  unfoldable pub redact_change_data :
      (String → Option Value) → (Value → Option String) → String → String
  redact_change_data unmarshal marshal raw = redacted raw marshal (unmarshal raw)

  -- Whether every field of a secret name, at every depth, is the mark of a hidden secret.
  unfoldable mutual
    pub hides_secrets : Value → Bool
    hides_secrets (json_object fs) = fields_hide fs
    hides_secrets (json_array vs) = items_hide vs
    hides_secrets json_null = true
    hides_secrets (json_bool b) = true
    hides_secrets (json_number n) = true
    hides_secrets (json_string s) = true

    pub fields_hide : Fields → Bool
    fields_hide end = true
    fields_hide (field key child rest) =
        (if is_secret_key key then is_mark child else hides_secrets child) && fields_hide rest

    pub items_hide : Items → Bool
    items_hide nil = true
    items_hide (cons v vs) = hides_secrets v && items_hide vs

  mutual
    unfolding hides_secrets redact_value

    redact_hides_value : (v : Value) → hides_secrets (redact_value v) ≡ true
    redact_hides_value (json_object fs) = redact_fields-hide fs
    redact_hides_value (json_array vs) = redact_items-hide vs
    redact_hides_value json_null = refl
    redact_hides_value (json_bool b) = refl
    redact_hides_value (json_number n) = refl
    redact_hides_value (json_string s) = refl

    redact_fields-hide : (fs : Fields) → fields_hide (redact_fields fs) ≡ true
    redact_fields-hide end = refl
    redact_fields-hide (field key child rest) = elim (Bool-cases (is_secret_key key)) [
      | inl y ↦ rw y (redact_fields-hide rest)
      | inr n ↦ rw n (rw (redact_hides_value child) (redact_fields-hide rest))
    ]

    redact_items-hide : (vs : Items) → items_hide (redact_items vs) ≡ true
    redact_items-hide nil = refl
    redact_items-hide (cons v vs) = rw (redact_hides_value v) (redact_items-hide vs)

  -- A redacted change has the mark of a hidden secret in every field of a secret name, at every depth
  -- of its objects and lists.
  pub redact_value-hides : (v : Value) → hides_secrets (redact_value v) ≡ true
  redact_value-hides v = redact_hides_value v
