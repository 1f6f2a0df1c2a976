-- ===== src/PasskeyNames.antt =====
-- service/passkey_name.go: the name under which a passkey is listed. A credential is what the
-- webauthn library tells of it; a text is valid UTF-8 by its type.
pub mod Laws
pub mod Tests
use Prim.Native.Char.{Char, code}
use Prim.Native.String.{◌++◌ as concat, count}
use s_ui_next.GoMap.{GoMap, lookup}
use s_ui_next.GoText.{Unicode, trim_space, to_lower}
use s_ui_next.Prelude.{
  ℕ, ◌/◌, ◌%◌, String, comparable_string, ◌==◌, Bool, true, false, not, ◌&&◌, ◌||◌, List, [], ◌∷◌,
  Option, none, some, take, drop, length, ltb, leb, nat_eq, if◌then◌else◌, Result, ok, err, ◌>>=◌,
}

abbrev pub max_passkey_name_runes : ℕ
max_passkey_name_runes = 80

abbrev pub passkey_provider_by_aaguid : GoMap String String
passkey_provider_by_aaguid =
    ("08987058-cadc-4b81-b6e1-30de50dcbe96", "Windows Hello")
    ∷ ("0ea242b4-43c4-4a1b-8b17-dd6d0b6baec6", "Keeper")
    ∷ ("50726f74-6f6e-5061-7373-50726f746f6e", "Proton Pass")
    ∷ ("531126d6-e717-415c-9320-3d9aa6981239", "Dashlane")
    ∷ ("53414d53-554e-4700-0000-000000000000", "Samsung Pass")
    ∷ ("6028b017-b1d4-4c02-b4b3-afcdafc96bb2", "Windows Hello")
    ∷ ("771b48fd-d3d4-4f74-9232-fc157ab0507a", "Microsoft Edge on macOS")
    ∷ ("9ddd1817-af5a-4672-a2b9-3e3dd95000a9", "Windows Hello")
    ∷ ("adce0002-35bc-c60a-648b-0b25f1f05503", "Chrome on macOS")
    ∷ ("b5397666-4885-aa6b-cebf-e52262a439a2", "Chromium")
    ∷ ("b84e4048-15dc-4dd0-8640-f4f60813c8af", "NordPass")
    ∷ ("bada5566-a7aa-401f-bd96-45619a55120d", "1Password")
    ∷ ("d548826e-79b4-db40-a3d8-11116f7e8349", "Bitwarden")
    ∷ ("dd4ec289-e01d-41c9-bb89-70fa845d4bf2", "iCloud Keychain (Managed)")
    ∷ ("ea9b8d66-4d01-1d21-3ce4-b6b48cb575d4", "Google Password Manager")
    ∷ ("f3809540-7f14-49c1-a8b3-8f813b225541", "Enpass")
    ∷ ("fbfc3007-154e-4ecc-8c0b-6e020557d7bd", "iCloud Keychain")
    ∷ ("fdb141b2-5d84-443e-8a35-4698c205a502", "KeePassXC")
    ∷ []

pub data Attachment : Type 0 where
  platform cross_platform unknown_attachment : Attachment

pub data Transport : Type 0 where
  usb nfc ble smart_card hybrid internal other_transport : Transport

pub record Credential : Type 0 where
  pub aaguid : List ℕ
  pub attachment : Attachment
  pub transports : List Transport

pub data NameError : Type 0 where
  too_long invalid_characters : NameError

-- `unicode.IsControl`
abbrev pub is_control : Char → Bool
is_control c = let n = code c in leb n 31 || (leb 127 n && leb n 159)

unfoldable pub has_control : String → Bool
has_control String.[] = false
has_control (String.◌∷◌ c s) = is_control c || has_control s

unfoldable pub normalize_passkey_name : String → Result NameError String
normalize_passkey_name value =
    let name = trim_space value in
    if name == ""
    then ok ""
    else if ltb max_passkey_name_runes (count name)
    then err too_long
    else if has_control name
    then err invalid_characters
    else ok name

abbrev hex_digit : ℕ → String
hex_digit n =
    if nat_eq n 0
    then "0"
    else if nat_eq n 1
    then "1"
    else if nat_eq n 2
    then "2"
    else if nat_eq n 3
    then "3"
    else if nat_eq n 4
    then "4"
    else if nat_eq n 5
    then "5"
    else if nat_eq n 6
    then "6"
    else if nat_eq n 7
    then "7"
    else if nat_eq n 8
    then "8"
    else if nat_eq n 9
    then "9"
    else if nat_eq n 10
    then "a"
    else if nat_eq n 11
    then "b"
    else if nat_eq n 12
    then "c"
    else if nat_eq n 13
    then "d"
    else if nat_eq n 14
    then "e"
    else "f"

abbrev encode_hex : List ℕ → String
encode_hex [] = ""
encode_hex (byte ∷ bytes) =
    concat (hex_digit (byte / 16)) (concat (hex_digit (byte % 16)) (encode_hex bytes))

-- The bytes from `i` up to `j`, in hexadecimal.
abbrev hex_part : ℕ → ℕ → List ℕ → String
hex_part i n value = encode_hex (take n (drop i value))

unfoldable pub format_aaguid : List ℕ → String
format_aaguid value =
    if nat_eq (length value) 16
    then concat (hex_part 0 4 value) (
        concat "-" (
          concat (hex_part 4 2 value) (
            concat "-" (
              concat (hex_part 6 2 value)
                (concat "-" (concat (hex_part 8 2 value) (concat "-" (hex_part 10 6 value))))))))
    else ""

-- The loop over the transports: a name that it returns, or whether there was a hybrid one and
-- whether the key is the platform's.
pub data Scan : Type 0 where
  returned : String → Scan
  finished : Bool → Bool → Scan

unfoldable pub scan_transports : List Transport → Bool → Bool → Scan
scan_transports [] has_hybrid is_platform = finished has_hybrid is_platform
scan_transports (usb ∷ rest) has_hybrid is_platform = returned "Security key"
scan_transports (nfc ∷ rest) has_hybrid is_platform = returned "Security key"
scan_transports (ble ∷ rest) has_hybrid is_platform = returned "Security key"
scan_transports (smart_card ∷ rest) has_hybrid is_platform = returned "Security key"
scan_transports (hybrid ∷ rest) has_hybrid is_platform = scan_transports rest true is_platform
scan_transports (internal ∷ rest) has_hybrid is_platform = scan_transports rest has_hybrid true
scan_transports (other_transport ∷ rest) has_hybrid is_platform =
    scan_transports rest has_hybrid is_platform

abbrev pub is_platform_attachment : Attachment → Bool
is_platform_attachment platform = true
is_platform_attachment cross_platform = false
is_platform_attachment unknown_attachment = false

abbrev pub is_cross_platform : Attachment → Bool
is_cross_platform platform = false
is_cross_platform cross_platform = true
is_cross_platform unknown_attachment = false

module _ (unicode : Unicode) where
  unfoldable pub platform_name : String → String
  platform_name text =
      let name = to_lower unicode (trim_space text) in
      if name == "windows"
      then "Windows Hello"
      else if name == "macos" || name == "ios"
      then "iCloud Keychain"
      else if name == "android" || name == "chromeos"
      then "Google Password Manager"
      else "Platform passkey"

  unfoldable pub name_of_scan : Attachment → String → Scan → String
  name_of_scan attachment text (returned name) = name
  name_of_scan attachment text (finished has_hybrid is_platform) =
      if has_hybrid
      then "Phone or tablet"
      else if is_cross_platform attachment
      then "Security key"
      else if not is_platform
      then "Passkey"
      else platform_name text

  unfoldable pub fallback_passkey_name : Option Credential → String → String
  fallback_passkey_name none text = "Passkey"
  fallback_passkey_name (some credential) text =
      name_of_scan credential.attachment text
        (scan_transports credential.transports false (is_platform_attachment credential.attachment))

  -- The provider of the authenticator's model, where it is known, and the empty text otherwise.
  unfoldable pub provider_of : Option Credential → String
  provider_of none = ""
  provider_of (some credential) =
      elim (lookup (format_aaguid credential.aaguid) passkey_provider_by_aaguid) [
        | none ↦ ""
        | some name ↦ name
      ]

  unfoldable pub resolve_passkey_name :
      Option Credential → String → String → Result NameError String
  resolve_passkey_name credential requested_name text = do
    name ← normalize_passkey_name requested_name
    ok (
        if not (name == "")
        then name
        else if not (provider_of credential == "")
        then provider_of credential
        else fallback_passkey_name credential text)
