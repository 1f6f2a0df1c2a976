-- ===== src/WireGuard/SecretLaws.antt =====
-- `mergeWireGuardSecrets` after `redactWireGuardSecrets` (service/wireguard.go): the secrets come back.
use mathlib.Core.Option.{some-injective}
use mathlib.Core.Path.{subst}
use s_ui_next.GoMap.{GoMap, lookup, delete}
use s_ui_next.GoMap.Laws.{lookup-insert}
use s_ui_next.GoText.{trim_left, trim_right}
use s_ui_next.GoText.Laws.{trim_space_idem}
use s_ui_next.JsonValue.{
  Value, json_null, json_bool, json_number, json_string, json_array, json_object, Object, get,
  map_value, entries, string_value, bool_value, object,
}
use s_ui_next.JsonValue.Laws.{
  get-insert_here, get-insert_other, get-delete, get-delete_here, map_value-object, entries-object,
}
use s_ui_next.WireGuard.{redacted_secret, is_redacted_secret}
use s_ui_next.WireGuard.Redaction.{text}
use s_ui_next.WireGuard.Secrets.{
  value_explicitly_false, is_unchanged, text_at, collect_one, collect, Stored, old_text, restore,
  merge_client_key, merge_psk,
}
use s_ui_next.Prelude.{
  ℕ, zero, suc, String, comparable_string, str_iff, ◌==◌, Bool, true, false, ◌&&◌, ◌||◌, List, [],
  ◌∷◌, All, get_elem?, Option, some, Bool-cases, inl, inr, if◌then◌else◌, ◌≡◌, ◌∙◌, refl, sym, ap,
}

pub string_value-again : (v : Value) → string_value (json_string (string_value v)) ≡ string_value v
unfolding string_value trim_right trim_left
string_value-again (json_string s) = trim_space_idem s
string_value-again json_null = refl
string_value-again (json_bool b) = refl
string_value-again (json_number n) = refl
string_value-again (json_array vs) = refl
string_value-again (json_object fs) = refl

abbrev public_of : Value → String
public_of v = text "public_key" (entries v)

-- No two elements of the list have one public key.
abbrev pub HasDistinctKeys : List Value → Type 0
HasDistinctKeys [] = Unit
HasDistinctKeys (v ∷ vs) = All (λ w. (public_of w == public_of v) ≡ false) vs × HasDistinctKeys vs

module _ {ℓ} {V : Type ℓ} (passes : Object → Bool) (value : Object → V) where
  collect_one-other :
      (key : String) (v : Value) (found : GoMap String V)
      → (public_of v == key) ≡ false
      → lookup key (collect_one passes value found (map_value v)) ≡ lookup key found
  unfolding map_value entries
  collect_one-other key (json_object fs) found h =
      elim (Bool-cases (passes (entries (json_object fs)))) [
        | inl y ↦ rw y (
            lookup-insert (public_of (json_object fs)) key (value (entries (json_object fs))) found
            ∙ rw h refl)
        | inr n ↦ rw n refl
      ]
  collect_one-other key json_null found h = refl
  collect_one-other key (json_bool b) found h = refl
  collect_one-other key (json_number n) found h = refl
  collect_one-other key (json_string s) found h = refl
  collect_one-other key (json_array vs) found h = refl

  collect-other :
      (key : String) (vs : List Value) (found : GoMap String V)
      → All (λ v. (public_of v == key) ≡ false) vs
      → lookup key (collect passes value vs found) ≡ lookup key found
  unfolding collect
  collect-other key [] found h = refl
  collect-other key (v ∷ vs) found (h, hs) =
      collect-other key vs (collect_one passes value found (map_value v)) hs
      ∙ collect_one-other key v found h

  written :
      (peer : Object)
      → passes peer ≡ true
      → (found : GoMap String V)
      → lookup (text "public_key" peer) (collect_one passes value found (some peer))
        ≡ some (value peer)
  written peer t found =
      let key = text "public_key" peer in
      rw t (lookup-insert key key (value peer) found ∙ rw ((str_iff key key).1 refl) refl)

  -- What the loop finds under the key of an element that passes.
  pub collect-at :
      (vs : List Value) (found : GoMap String V) (i : ℕ) (peer : Object)
      → HasDistinctKeys vs
      → get_elem? vs i ≡ some (object peer)
      → passes peer ≡ true
      → lookup (text "public_key" peer) (collect passes value vs found) ≡ some (value peer)
  unfolding collect
  collect-at [] found i peer h e t = cc
  collect-at (v ∷ vs) found zero peer (h, hs) e t =
      let same = some-injective v (object peer) e in
      let key = text "public_key" peer in
      let same_key : public_of v ≡ key =
        ap public_of same ∙ ap (text "public_key") (entries-object peer) in
      collect-other key vs (collect_one passes value found (map_value v))
        (subst (λ (k : String). All (λ w. (public_of w == k) ≡ false) vs) same_key h)
      ∙ (ap (λ o. lookup key (collect_one passes value found o))
            (ap map_value same ∙ map_value-object peer)
          ∙ written peer t found)
  collect-at (v ∷ vs) found (suc i) peer (h, hs) e t =
      collect-at vs (collect_one passes value found (map_value v)) i peer hs e t

-- The merge of one peer, step by step.
pub restore-other :
    (key secret read : String) (m : Object)
    → (key == read) ≡ false
    → get read (restore key secret m) ≡ get read m
restore-other key secret read m h = elim (Bool-cases (secret == "")) [
  | inl y ↦ rw y refl
  | inr n ↦ rw n (get-insert_other key read (json_string secret) m h)
]

pub get-if :
    (b : Bool) (read : String) (x y m : Object)
    → get read x ≡ get read m
    → get read y ≡ get read m
    → get read (if b then x else y) ≡ get read m
get-if true read x y m h k = h
get-if false read x y m h k = k

module _ (stored : Stored) (old : Option Object) (m : Object) where
  pub merge_client_key-other :
      (read : String)
      → ("client_private_key" == read) ≡ false
      → get read (merge_client_key stored old m) ≡ get read m
  unfolding merge_client_key
  merge_client_key-other read h =
      let own = text "client_private_key" m in
      let secret = text_at (lookup (text "public_key" m) stored.secrets) in
      get-if (is_unchanged own) read
        (restore "client_private_key"
          (if secret == "" then old_text "client_private_key" old else secret) m)
        m m
        (restore-other "client_private_key"
          (if secret == "" then old_text "client_private_key" old else secret) read m h)
        refl

  pub merge_client_key-text :
      (peer : Object)
      → is_unchanged (text "client_private_key" m) ≡ true
      → lookup (text "public_key" m) stored.secrets ≡ some (text "client_private_key" peer)
      → (text "client_private_key" peer == "") ≡ false
      → text "client_private_key" (merge_client_key stored old m) ≡ text "client_private_key" peer
  unfolding merge_client_key
  merge_client_key-text peer u l n = rw u (
      rw l (
        rw n (
          rw n (
            ap string_value (
              get-insert_here "client_private_key" (json_string (text "client_private_key" peer)) m)
            ∙ string_value-again (get "client_private_key" peer)))))

module _ (old : Option Object) (m : Object) where
  pub merge_psk-other :
      (read : String) → ("pre_shared_key" == read) ≡ false → get read (merge_psk old m) ≡ get read m
  unfolding merge_psk
  merge_psk-other read h =
      let psk = text "pre_shared_key" m in
      let cleared =
        bool_value (get "pre_shared_key_clear" m) false
        || (psk == "" && value_explicitly_false (get "pre_shared_key_set" m)) in
      let restored = restore "pre_shared_key" (old_text "pre_shared_key" old) m in
      get-if cleared read (delete "pre_shared_key" m) (if is_unchanged psk then restored else m) m
        (get-delete "pre_shared_key" read m ∙ rw h refl)
        (get-if (is_unchanged psk) read restored m m
          (restore-other "pre_shared_key" (old_text "pre_shared_key" old) read m h) refl)

pub text-if :
    (b : Bool) (key : String) (x y : Object) (t : String)
    → text key x ≡ t
    → text key y ≡ t
    → text key (if b then x else y) ≡ t
text-if true key x y t h k = h
text-if false key x y t h k = k

text-delete : (key : String) (m : Object) → text key (delete key m) ≡ ""
unfolding string_value
text-delete key m = ap string_value (get-delete_here key m)

pub hidden_is_unchanged : is_unchanged redacted_secret ≡ true
unfolding is_redacted_secret trim_left trim_right
hidden_is_unchanged = refl

-- A pre-shared key that is not there stays away.
pub merge_psk-empty :
    (peer m : Object)
    → (text "pre_shared_key" peer == "") ≡ true
    → get "pre_shared_key" m ≡ get "pre_shared_key" peer
    → text "pre_shared_key" (merge_psk (some peer) m) ≡ text "pre_shared_key" peer
unfolding merge_psk
merge_psk-empty peer m y same =
    let psk = text "pre_shared_key" m in
    let stays = ap string_value same in
    let cleared =
      bool_value (get "pre_shared_key_clear" m) false
      || (psk == "" && value_explicitly_false (get "pre_shared_key_set" m)) in
    let restored = restore "pre_shared_key" (text "pre_shared_key" peer) m in
    let old = text "pre_shared_key" peer in
    let empty = (str_iff old "").0 y in
    text-if cleared "pre_shared_key" (delete "pre_shared_key" m)
      (if is_unchanged psk then restored else m) old (text-delete "pre_shared_key" m ∙ sym empty)
      (text-if (is_unchanged psk) "pre_shared_key" restored m old (rw y stays) stays)

-- One that was hidden comes back.
pub merge_psk-hidden :
    (peer m : Object)
    → (text "pre_shared_key" peer == "") ≡ false
    → text "pre_shared_key" m ≡ redacted_secret
    → bool_value (get "pre_shared_key_clear" m) false ≡ false
    → text "pre_shared_key" (merge_psk (some peer) m) ≡ text "pre_shared_key" peer
unfolding merge_psk
merge_psk-hidden peer m n h c = rw c (
    rw h (
      rw hidden_is_unchanged (
        rw n (
          ap string_value
            (get-insert_here "pre_shared_key" (json_string (text "pre_shared_key" peer)) m)
          ∙ string_value-again (get "pre_shared_key" peer)))))
