-- ===== src/WireGuard/PeerTrip.antt =====
-- A peer whose secrets were hidden and put back (service/wireguard.go).
use mathlib.Core.Path.{subst}
use s_ui_next.GoMap.{lookup, delete}
use s_ui_next.JsonValue.{Object, get, string_value, bool_value}
use s_ui_next.JsonValue.Laws.{get-delete}
use s_ui_next.WireGuard.{redacted_secret}
use s_ui_next.WireGuard.Redaction.{
  text, set_redacted_secret-empty, set_redacted_secret-text, set_redacted_secret-other,
}
use s_ui_next.WireGuard.SecretLaws.{
  merge_client_key-other, merge_client_key-text, merge_psk-other, merge_psk-empty, merge_psk-hidden,
  hidden_is_unchanged,
}
use s_ui_next.WireGuard.Secrets.{
  set_redacted_secret, redact_peer, is_unchanged, Stored, old_peer, merge_client_key, merge_psk,
  merge_peer,
}
use s_ui_next.Prelude.{
  ℕ, String, comparable_string, ◌==◌, true, false, some, Bool-cases, inl, inr, ◌≡◌, ◌∙◌, refl, sym,
  ap,
}

module _ (peer : Object) where
  abbrev half : Object
  half = set_redacted_secret "client_private_key" "client_private_key_set" peer

  pub redact_peer-other :
      (read : String)
      → ("client_private_key" == read) ≡ false
      → ("client_private_key_set" == read) ≡ false
      → ("pre_shared_key" == read) ≡ false
      → ("pre_shared_key_set" == read) ≡ false
      → get read (redact_peer peer) ≡ get read peer
  unfolding redact_peer
  redact_peer-other read a b c d =
      set_redacted_secret-other "pre_shared_key" "pre_shared_key_set" half read c d
      ∙ set_redacted_secret-other "client_private_key" "client_private_key_set" peer read a b

  redact_peer-client :
      (text "client_private_key" peer == "") ≡ false
      → text "client_private_key" (redact_peer peer) ≡ redacted_secret
  unfolding redact_peer
  redact_peer-client n =
      ap string_value (
        set_redacted_secret-other "pre_shared_key" "pre_shared_key_set" half "client_private_key"
          refl refl)
      ∙ set_redacted_secret-text "client_private_key" "client_private_key_set" peer n

  half-psk : get "pre_shared_key" half ≡ get "pre_shared_key" peer
  half-psk =
      set_redacted_secret-other "client_private_key" "client_private_key_set" peer "pre_shared_key"
        refl refl

  redact_peer-psk_empty :
      (text "pre_shared_key" peer == "") ≡ true
      → get "pre_shared_key" (redact_peer peer) ≡ get "pre_shared_key" peer
  unfolding redact_peer
  redact_peer-psk_empty y =
      ap (get "pre_shared_key") (
        set_redacted_secret-empty "pre_shared_key" "pre_shared_key_set" half
          (ap (λ v. string_value v == "") half-psk ∙ y))
      ∙ half-psk

  redact_peer-psk_hidden :
      (text "pre_shared_key" peer == "") ≡ false
      → text "pre_shared_key" (redact_peer peer) ≡ redacted_secret
  unfolding redact_peer
  redact_peer-psk_hidden n =
      set_redacted_secret-text "pre_shared_key" "pre_shared_key_set" half
        (ap (λ v. string_value v == "") half-psk ∙ n)

-- One peer, where the stored endpoint is known to hold it.
module _ (stored : Stored) (peer : Object) where
  abbrev pub Restored : Object → Type 0
  Restored m =
      (text "client_private_key" m ≡ text "client_private_key" peer)
      × (text "pre_shared_key" m ≡ text "pre_shared_key" peer)

  pub merge_peer-Restored :
      (index : ℕ)
      → old_peer stored index (redact_peer peer) ≡ some peer
      → lookup (text "public_key" peer) stored.secrets ≡ some (text "client_private_key" peer)
      → (text "client_private_key" peer == "") ≡ false
      → bool_value (get "pre_shared_key_clear" peer) false ≡ false
      → Restored (merge_peer stored index (redact_peer peer))
  unfolding merge_peer
  merge_peer-Restored index o l n c =
      let red = redact_peer peer in
      let keyed = merge_client_key stored (some peer) red in
      let full = merge_psk (some peer) keyed in
      let key = redact_peer-other peer "public_key" refl refl refl refl in
      let clear = redact_peer-other peer "pre_shared_key_clear" refl refl refl refl in
      let psk_kept = merge_client_key-other stored (some peer) red "pre_shared_key" refl in
      let clear_kept : bool_value (get "pre_shared_key_clear" keyed) false ≡ false =
        ap (λ v. bool_value v false)
          (merge_client_key-other stored (some peer) red "pre_shared_key_clear" refl ∙ clear)
        ∙ c in
      let client : text "client_private_key" keyed ≡ text "client_private_key" peer =
        merge_client_key-text stored (some peer) red peer
          (ap is_unchanged (redact_peer-client peer n) ∙ hidden_is_unchanged)
          (ap (λ v. lookup (string_value v) stored.secrets) key ∙ l) n in
      let psk : text "pre_shared_key" full ≡ text "pre_shared_key" peer =
        elim (Bool-cases (text "pre_shared_key" peer == "")) [
          | inl y ↦ merge_psk-empty peer keyed y (psk_kept ∙ redact_peer-psk_empty peer y)
          | inr h ↦
              merge_psk-hidden peer keyed h
                (ap string_value psk_kept ∙ redact_peer-psk_hidden peer h) clear_kept
        ] in
      subst
        (λ old.
          Restored
            (delete "pre_shared_key_clear" (merge_psk old (merge_client_key stored old red))))
        (sym o)
        (
          ap string_value (
                get-delete "pre_shared_key_clear" "client_private_key" full
                ∙ merge_psk-other (some peer) keyed "client_private_key" refl)
              ∙ client,
          ap string_value (get-delete "pre_shared_key_clear" "pre_shared_key" full) ∙ psk,
        )

pub old_peer-found :
    (stored : Stored) (index : ℕ) (m peer : Object)
    → lookup (text "public_key" m) stored.by_public ≡ some peer
    → old_peer stored index m ≡ some peer
unfolding old_peer
old_peer-found stored index m peer h = rw (h, old_peer) refl
