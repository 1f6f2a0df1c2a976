-- ===== src/WireGuard/Secrets.antt =====
-- `redactWireGuardSecrets` and `mergeWireGuardSecrets` of service/wireguard.go: how the secrets of an
-- endpoint are hidden from a reader, and put back into what the reader saves.
use s_ui_next.GoMap.{GoMap, insert, delete, lookup}
use s_ui_next.JsonValue.{
  items_list, Value, json_bool, json_string, json_array, json_object, Object, get, map_value,
  entries, list_value, string_value, bool_value, array, object,
}
use s_ui_next.WireGuard.{WireGuardError, bad_json, redacted_secret, is_redacted_secret}
use s_ui_next.Prelude.{
  ℕ, suc, String, comparable_string, ◌==◌, Bool, true, false, not, ◌&&◌, ◌||◌, List, [], ◌∷◌, map,
  Option, none, some, get_elem?, if◌then◌else◌, Result, ok, err,
}

unfoldable pub set_redacted_secret : String → String → Object → Object
set_redacted_secret key set_key container =
    if string_value (get key container) == ""
    then container
    else insert key (json_string redacted_secret) (insert set_key (json_bool true) container)

-- What a loop does to each element that is an object; an object is changed in place.
abbrev pub on_object : (Object → Object) → Value → Value
on_object f (json_object fs) = object (f (entries (json_object fs)))
on_object f v = v

-- The elements of a list under a key, changed in place.
abbrev pub store_elements : String → (Value → Value) → Object → Value → Object
store_elements key f m (json_array vs) = insert key (array (map f (items_list vs))) m
store_elements key f m v = m

unfoldable pub on_elements : String → (Value → Value) → Object → Object
on_elements key f m = store_elements key f m (get key m)

unfoldable pub redact_peer : Object → Object
redact_peer peer =
    set_redacted_secret "pre_shared_key" "pre_shared_key_set"
      (set_redacted_secret "client_private_key" "client_private_key_set" peer)

unfoldable pub redact_ext : Object → Object
redact_ext ext = on_elements "keys" (on_object (delete "private_key")) ext

abbrev pub store_field : String → (Object → Object) → Object → Option Object → Object
store_field key f m none = m
store_field key f m (some inner) = insert key (object (f inner)) m

unfoldable pub on_field : String → (Object → Object) → Object → Object
on_field key f m = store_field key f m (map_value (get key m))

unfoldable pub redact_secrets : Object → Object
unfolding redact_peer
redact_secrets endpoint = on_field "ext" redact_ext (
    on_elements "peers" (on_object redact_peer)
      (set_redacted_secret "private_key" "private_key_set" endpoint))

unfoldable pub value_explicitly_false : Value → Bool
value_explicitly_false (json_bool b) = not b
value_explicitly_false _ = false

-- A secret that the reader did not change: empty, or hidden.
abbrev pub is_unchanged : String → Bool
is_unchanged value = value == "" || is_redacted_secret value

-- `secrets[key]` of a map of texts.
abbrev pub text_at : Option String → String
text_at none = ""
text_at (some s) = s

-- A loop that puts something of each object that passes a test under its public key.
abbrev pub collect_one {ℓ} :
    {V : Type ℓ} → (Object → Bool) → (Object → V) → GoMap String V → Option Object → GoMap String V
collect_one passes value found none = found
collect_one passes value found (some x) =
    if passes x then insert (string_value (get "public_key" x)) (value x) found else found

unfoldable pub collect {ℓ} :
    {V : Type ℓ} → (Object → Bool) → (Object → V) → List Value → GoMap String V → GoMap String V
collect passes value [] found = found
collect passes value (raw ∷ rest) found =
    collect passes value rest (collect_one passes value found (map_value raw))

abbrev pub has_text : String → Object → Bool
has_text key m = not (string_value (get key m) == "")

-- The client keys of the old keys of `ext`.
unfoldable pub ext_secrets : List Value → GoMap String String
ext_secrets keys = collect (λ key. true) (λ key. string_value (get "private_key" key)) keys []

-- The client keys of the stored peers, over those.
unfoldable pub peer_secrets : List Value → GoMap String String → GoMap String String
peer_secrets peers secrets =
    collect (has_text "client_private_key") (λ peer. string_value (get "client_private_key" peer))
      peers secrets

unfoldable pub peers_by_public : List Value → GoMap String Object
peers_by_public peers = collect (has_text "public_key") (λ peer. peer) peers []

-- What the merge knows of the stored endpoint.
pub record Stored : Type 0 where
  pub secrets : GoMap String String
  pub by_public : GoMap String Object
  pub peers : List Value

abbrev pub peer_at : Option Value → Option Object
peer_at none = none
peer_at (some v) = map_value v

-- The stored peer of the same key, or of the same place.
unfoldable pub old_peer : Stored → ℕ → Object → Option Object
old_peer stored index peer = elim (lookup (string_value (get "public_key" peer)) stored.by_public) [
  | none ↦ peer_at (get_elem? stored.peers index)
  | some old ↦ some old
]

-- A text of the stored peer, empty where there is none.
abbrev pub old_text : String → Option Object → String
old_text key none = ""
old_text key (some old) = string_value (get key old)

abbrev pub restore : String → String → Object → Object
restore key secret peer = if secret == "" then peer else insert key (json_string secret) peer

unfoldable pub merge_client_key : Stored → Option Object → Object → Object
merge_client_key stored old peer =
    let secret = text_at (lookup (string_value (get "public_key" peer)) stored.secrets) in
    if is_unchanged (string_value (get "client_private_key" peer))
    then restore "client_private_key"
        (if secret == "" then old_text "client_private_key" old else secret) peer
    else peer

unfoldable pub merge_psk : Option Object → Object → Object
merge_psk old peer =
    let psk = string_value (get "pre_shared_key" peer) in
    if bool_value (get "pre_shared_key_clear" peer) false
      || (psk == "" && value_explicitly_false (get "pre_shared_key_set" peer))
    then delete "pre_shared_key" peer
    else if is_unchanged psk
    then restore "pre_shared_key" (old_text "pre_shared_key" old) peer
    else peer

unfoldable pub merge_peer : Stored → ℕ → Object → Object
merge_peer stored index peer =
    let old = old_peer stored index peer in
    delete "pre_shared_key_clear" (merge_psk old (merge_client_key stored old peer))

-- The loop over the peers with their indices.
unfoldable pub merge_peers : Stored → ℕ → List Value → List Value
merge_peers stored index [] = []
merge_peers stored index (raw ∷ rest) =
    on_object (merge_peer stored index) raw ∷ merge_peers stored (suc index) rest

abbrev pub store_peers : Stored → Object → Value → Object
store_peers stored m (json_array vs) =
    insert "peers" (array (merge_peers stored 0 (items_list vs))) m
store_peers stored m v = m

unfoldable pub stored_of : Object → Object → Stored
stored_of old ext = record {
  secrets = peer_secrets (list_value (get "peers" old)) (ext_secrets (list_value (get "keys" ext)));
  by_public = peers_by_public (list_value (get "peers" old));
  peers = list_value (get "peers" old);
}

unfoldable pub merge_own_key : Object → Object → Object
merge_own_key old root =
    if is_unchanged (string_value (get "private_key" root))
    then restore "private_key" (string_value (get "private_key" old)) root
    else root

-- The merge of a WireGuard endpoint with the options and the `ext` of the stored one.
unfoldable pub merge_secrets : Object → Object → Object → Object
merge_secrets root old ext =
    let own = merge_own_key old root in store_peers (stored_of old ext) own (get "peers" own)

-- What is merged and what is left alone: no JSON, another type, no stored endpoint, and one whose
-- options are no JSON.
unfoldable pub merge_wireguard_secrets :
    Option Object → Option (Option Object × Object) → Result WireGuardError Object
merge_wireguard_secrets none stored = err bad_json
merge_wireguard_secrets (some root) none = ok root
merge_wireguard_secrets (some root) (some (options, ext)) =
    if string_value (get "type" root) == "wireguard"
    then elim options [ none ↦ err bad_json | some old ↦ ok (merge_secrets root old ext) ]
    else ok root
