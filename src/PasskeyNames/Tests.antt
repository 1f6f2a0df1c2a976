-- ===== src/PasskeyNames/Tests.antt =====
-- Names of service/passkey_name.go, and its theorem at one of them.
use s_ui_next.GoMap.{lookup}
use s_ui_next.GoText.{Unicode, trim_left, trim_right, map_chars}
use s_ui_next.PasskeyNames.{
  Credential, unknown_attachment, internal, hybrid, has_control, normalize_passkey_name,
  format_aaguid, scan_transports, platform_name, name_of_scan, fallback_passkey_name, provider_of,
  resolve_passkey_name,
}
use s_ui_next.PasskeyNames.Laws.{is_listable, resolve_passkey_name-listable}
use s_ui_next.Prelude.{◌≡◌, refl, true, [], ◌∷◌, some, ok}

program : Unit {0}
unfolding has_control normalize_passkey_name format_aaguid scan_transports platform_name
    name_of_scan fallback_passkey_name provider_of resolve_passkey_name trim_left trim_right
    map_chars lookup
program = tt

abbrev ascii : Unicode
ascii = record { lower = λ c. c; upper = λ c. c; fold = λ c. c }

abbrev bitwarden : Credential
bitwarden = record {
  aaguid =
      213 ∷ 72 ∷ 130 ∷ 110 ∷ 121 ∷ 180 ∷ 219 ∷ 64 ∷ 163 ∷ 216 ∷ 17 ∷ 17 ∷ 111 ∷ 126 ∷ 131 ∷ 73 ∷ [];
  attachment = unknown_attachment;
  transports = internal ∷ hybrid ∷ [];
}

named : resolve_passkey_name ascii (some bitwarden) "  " "windows" ≡ ok "Bitwarden"
unfolding program
named = refl

fallen_back :
    resolve_passkey_name ascii
      (some (record bitwarden { aaguid = []; transports = internal ∷ [] }))
      ""
      " ios "
    ≡ ok "iCloud Keychain"
unfolding program
fallen_back = refl

resolve_passkey_name-listable_example : is_listable "Bitwarden" ≡ true
resolve_passkey_name-listable_example =
    resolve_passkey_name-listable ascii (some bitwarden) "  " "windows" "Bitwarden" named
