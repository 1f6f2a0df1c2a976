-- ===== src/WireGuard/RoundTrip.antt =====
-- An endpoint whose secrets were hidden and put back (service/wireguard.go).
use mathlib.Core.Option.{some-injective}
use s_ui_next.GoMap.{lookup}
use s_ui_next.JsonValue.{
  items_list, Value, json_null, json_bool, json_number, json_string, json_array, json_object,
  Object, get, list_value, string_value, bool_value, array, object,
}
use s_ui_next.JsonValue.Laws.{get-insert_here, get-insert_other, entries-object, list_value-array}
use s_ui_next.WireGuard.{redacted_secret}
use s_ui_next.WireGuard.Redaction.{
  text, set_redacted_secret-empty, set_redacted_secret-text, redact_secrets-peers,
  redact_secrets-own,
}
use s_ui_next.WireGuard.SecretLaws.{
  HasDistinctKeys, collect-at, restore-other, get-if, text-if, string_value-again,
  hidden_is_unchanged,
}
use s_ui_next.WireGuard.Secrets.{
  on_object, redact_peer, redact_secrets, is_unchanged, has_text, ext_secrets, peer_secrets,
  peers_by_public, Stored, restore, merge_peer, merge_peers, store_peers, stored_of, merge_own_key,
  merge_secrets,
}
use s_ui_next.Prelude.{
  ℕ, zero, suc, ◌+◌, String, comparable_string, ◌==◌, false, List, [], ◌∷◌, map, get_elem?, some,
  Bool-cases, inl, inr, ◌≡◌, ◌∙◌, refl, ap, arith,
}
use s_ui_next.WireGuard.PeerTrip.{redact_peer-other, Restored, merge_peer-Restored, old_peer-found}

-- The list of peers after the merge.
get_elem?-merge_peers :
    (stored : Stored) (f : Value → Value) (k i : ℕ) (vs : List Value) (v : Value)
    → get_elem? vs i ≡ some v
    → get_elem? (merge_peers stored k (map f vs)) i
      ≡ some (on_object (merge_peer stored (i + k)) (f v))
unfolding merge_peers
get_elem?-merge_peers stored f k i [] v e = cc
get_elem?-merge_peers stored f k zero (w ∷ vs) v e =
    let index : k ≡ 0 + k = omega arith in
    ap (λ n. some (on_object (merge_peer stored n) (f w))) index
    ∙ ap (λ x. some (on_object (merge_peer stored (0 + k)) (f x))) (some-injective w v e)
get_elem?-merge_peers stored f k (suc i) (w ∷ vs) v e =
    let index : i + suc k ≡ suc i + k = omega arith in
    get_elem?-merge_peers stored f (suc k) i vs v e
    ∙ ap (λ n. some (on_object (merge_peer stored n) (f v))) index

store_peers-list :
    (stored : Stored) (m : Object) (v : Value)
    → get "peers" m ≡ v
    → list_value (get "peers" (store_peers stored m v)) ≡ merge_peers stored 0 (list_value v)
unfolding list_value merge_peers
store_peers-list stored m (json_array vs) e =
    ap list_value (get-insert_here "peers" (array (merge_peers stored 0 (items_list vs))) m)
    ∙ list_value-array (merge_peers stored 0 (items_list vs))
store_peers-list stored m json_null e = ap list_value e
store_peers-list stored m (json_bool b) e = ap list_value e
store_peers-list stored m (json_number n) e = ap list_value e
store_peers-list stored m (json_string s) e = ap list_value e
store_peers-list stored m (json_object fs) e = ap list_value e

store_peers-other :
    (stored : Stored) (m : Object) (v : Value) (read : String)
    → ("peers" == read) ≡ false
    → get read (store_peers stored m v) ≡ get read m
store_peers-other stored m (json_array vs) read h =
    get-insert_other "peers" read (array (merge_peers stored 0 (items_list vs))) m h
store_peers-other stored m json_null read h = refl
store_peers-other stored m (json_bool b) read h = refl
store_peers-other stored m (json_number n) read h = refl
store_peers-other stored m (json_string s) read h = refl
store_peers-other stored m (json_object fs) read h = refl

module _ (old ext : Object) where
  abbrev pub merged : Object
  merged = merge_secrets (redact_secrets old) old ext

  own-other :
      (read : String)
      → ("private_key" == read) ≡ false
      → get read (merge_own_key old (redact_secrets old)) ≡ get read (redact_secrets old)
  unfolding merge_own_key
  own-other read h =
      let red = redact_secrets old in
      get-if (is_unchanged (text "private_key" red)) read
        (restore "private_key" (text "private_key" old) red) red red
        (restore-other "private_key" (text "private_key" old) read red h) refl

  own-private : text "private_key" (merge_own_key old (redact_secrets old)) ≡ text "private_key" old
  unfolding merge_own_key
  own-private =
      let red = redact_secrets old in
      let secret = text "private_key" old in
      let restored = restore "private_key" secret red in
      elim (Bool-cases (secret == "")) [
        | inl y ↦
            let stays : text "private_key" red ≡ secret = ap string_value (
              redact_secrets-own old
              ∙ ap (get "private_key")
                  (set_redacted_secret-empty "private_key" "private_key_set" old y)) in
            text-if (is_unchanged (text "private_key" red)) "private_key" restored red secret
              (rw y stays) stays
        | inr n ↦
            let hidden : text "private_key" red ≡ redacted_secret =
              ap string_value (redact_secrets-own old)
              ∙ set_redacted_secret-text "private_key" "private_key_set" old n in
            let back =
              ap string_value (get-insert_here "private_key" (json_string secret) red)
              ∙ string_value-again (get "private_key" old) in
            rw hidden (rw hidden_is_unchanged (rw n back))
      ]

  merged-peers :
      list_value (get "peers" merged)
      ≡ merge_peers
          (stored_of old ext)
          0
          (map (on_object redact_peer) (list_value (get "peers" old)))
  unfolding merge_secrets
  merged-peers =
      let kept = merge_own_key old (redact_secrets old) in
      store_peers-list (stored_of old ext) kept (get "peers" kept) refl
      ∙ ap (merge_peers (stored_of old ext) 0)
          (ap list_value (own-other "peers" refl) ∙ redact_secrets-peers old)

  merged-private : text "private_key" merged ≡ text "private_key" old
  unfolding merge_secrets
  merged-private =
      let kept = merge_own_key old (redact_secrets old) in
      ap string_value
        (store_peers-other (stored_of old ext) kept (get "peers" kept) "private_key" refl)
      ∙ own-private

  on_object-object : (f : Object → Object) (m : Object) → on_object f (object m) ≡ object (f m)
  on_object-object f m = ap (λ x. object (f x)) (entries-object m)

  -- A stored endpoint that is redacted, and merged with itself, has its own private key again, and
  -- each of its peers that has a public key no other peer has, a client key and no order to clear its
  -- pre-shared key has its client key and its pre-shared key again.
  pub merge_secrets-redact_secrets :
      (i : ℕ) (peer : Object)
      → HasDistinctKeys (list_value (get "peers" old))
      → get_elem? (list_value (get "peers" old)) i ≡ some (object peer)
      → (text "public_key" peer == "") ≡ false
      → (text "client_private_key" peer == "") ≡ false
      → bool_value (get "pre_shared_key_clear" peer) false ≡ false
      → (text "private_key" merged ≡ text "private_key" old)
        × (m : Object) × (get_elem? (list_value (get "peers" merged)) i ≡ some (object m))
        × Restored (stored_of old ext) peer m
  unfolding stored_of peer_secrets peers_by_public
  merge_secrets-redact_secrets i peer distinct e keyed made kept =
      let stored = stored_of old ext in
      let peers = list_value (get "peers" old) in
      let red = redact_peer peer in
      let secret : lookup (text "public_key" peer) stored.secrets
          ≡ some (text "client_private_key" peer) =
        collect-at (has_text "client_private_key") (λ p. string_value (get "client_private_key" p))
          peers (ext_secrets (list_value (get "keys" ext))) i peer distinct e
          (ground (arith, made)) in
      let found : lookup (text "public_key" peer) stored.by_public ≡ some peer =
        collect-at (has_text "public_key") (λ p. p) peers [] i peer distinct e
          (ground (arith, keyed)) in
      let same_key = redact_peer-other peer "public_key" refl refl refl refl in
      let old_found =
        old_peer-found stored (i + 0) red peer
          (ap (λ v. lookup (string_value v) stored.by_public) same_key ∙ found) in
      let place = get_elem?-merge_peers stored (on_object redact_peer) 0 i peers (object peer) e in
      (
        merged-private,
        merge_peer stored (i + 0) red,
        ap (λ vs. get_elem? vs i) merged-peers
            ∙ (place
                ∙ ap some (
                    ap (on_object (merge_peer stored (i + 0))) (on_object-object redact_peer peer)
                    ∙ on_object-object (merge_peer stored (i + 0)) red)),
        merge_peer-Restored stored peer (i + 0) old_found secret made kept,
      )
