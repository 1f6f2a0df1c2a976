-- ===== src/PasskeyNames/Laws.antt =====
-- What service/passkey_name.go guarantees of a passkey's name.
use Prim.Native.String.{count}
use mathlib.Core.Path.{subst}
use s_ui_next.GoMap.{GoMap, lookup}
use s_ui_next.GoText.{Unicode, trim_space, to_lower}
use s_ui_next.PasskeyNames.{
  max_passkey_name_runes, passkey_provider_by_aaguid, Attachment, Transport, usb, nfc, ble,
  smart_card, hybrid, internal, other_transport, Credential, NameError, has_control,
  normalize_passkey_name, format_aaguid, scan_transports, is_platform_attachment, is_cross_platform,
  platform_name, name_of_scan, fallback_passkey_name, provider_of, resolve_passkey_name,
}
use s_ui_next.Prelude.{
  String, comparable_string, ◌==◌, Bool, true, false, not, ◌&&◌, ◌||◌, List, [], ◌∷◌, Option, none,
  some, leb, ltb, if◌then◌else◌, ◌≡◌, ◌∙◌, refl, sym, ap, arith, All, Bool-cases, Option-cases, inl,
  inr, Result, ok, err, bind-ok,
}

-- A name to be listed: not empty, short enough, and without control characters.
abbrev pub is_listable : String → Bool
is_listable name =
    not (name == "") && (leb (count name) max_passkey_name_runes && not (has_control name))

lookup-All :
    (key : String) (m : GoMap String String) (value : String)
    → All (λ e. is_listable e.1 ≡ true) m
    → lookup key m ≡ some value
    → is_listable value ≡ true
unfolding lookup
lookup-All key [] value h e = absurd (ground arith)
lookup-All key ((k, v) ∷ m) value (good, h) e = elim (Bool-cases (k == key)) [
  | inl y ↦ let same : v ≡ value = ground (arith) in ap is_listable (sym same) ∙ good
  | inr n ↦ lookup-All key m value h (rw n at e)
]

abbrev name_of : String → Result NameError String → String
name_of d (ok name) = name
name_of d (err e) = d

blank_absurd : (name : String) → "" ≡ name → (not (name == "")) ≡ true → ⊥
blank_absurd name e h =
    let k : false ≡ true = subst (λ (s : String). (not (s == "")) ≡ true) (sym e) h in ground arith

listable_of :
    (name : String)
    → (name == "") ≡ false
    → ltb max_passkey_name_runes (count name) ≡ false
    → has_control name ≡ false
    → is_listable name ≡ true
listable_of name a b c = ground (arith)

if_listable :
    (b : Bool) (x y : String)
    → is_listable x ≡ true
    → is_listable y ≡ true
    → is_listable (if b then x else y) ≡ true
if_listable true x y h k = h
if_listable false x y h k = k

platform_name-listable :
    (unicode : Unicode) (text : String) → is_listable (platform_name unicode text) ≡ true
unfolding platform_name has_control
platform_name-listable unicode text =
    let name = to_lower unicode (trim_space text) in
    let last =
      if name == "android" || name == "chromeos"
      then "Google Password Manager"
      else "Platform passkey" in
    let middle = if name == "macos" || name == "ios" then "iCloud Keychain" else last in
    if_listable (name == "windows") "Windows Hello" middle refl (
      if_listable (name == "macos" || name == "ios") "iCloud Keychain" last refl (
        if_listable (name == "android" || name == "chromeos") "Google Password Manager"
          "Platform passkey" refl refl))

normalize_passkey_name-listable :
    (value name : String)
    → normalize_passkey_name value ≡ ok name
    → (not (name == "")) ≡ true
    → is_listable name ≡ true
unfolding normalize_passkey_name
normalize_passkey_name-listable value name e h =
    let cleaned = trim_space value in
    elim (Bool-cases (cleaned == "")) [
      | inl y ↦
          absurd (let same : "" ≡ name = ap (name_of name) (rw y at e) in blank_absurd name same h)
      | inr n ↦ elim (Bool-cases (ltb max_passkey_name_runes (count cleaned))) [
        | inl y ↦ absurd (ground arith)
        | inr short ↦ elim (Bool-cases (has_control cleaned)) [
          | inl y ↦ absurd (ground arith)
          | inr clean ↦
              let same : cleaned ≡ name = ap (name_of name) (rw (n, short, clean) at e) in
              subst (λ (s : String). is_listable s ≡ true) same (listable_of cleaned n short clean)
        ]
      ]
    ]

-- The names of the fallback.
scan_transports-listable :
    (unicode : Unicode) (attachment : Attachment) (text : String) (ts : List Transport)
    (has_hybrid is_platform : Bool)
    → is_listable (name_of_scan unicode attachment text (scan_transports ts has_hybrid is_platform))
      ≡ true
unfolding scan_transports name_of_scan has_control
scan_transports-listable unicode attachment text [] has_hybrid is_platform =
    if_listable has_hybrid "Phone or tablet" _ refl (
      if_listable (is_cross_platform attachment) "Security key" _ refl
        (if_listable (not is_platform) "Passkey" _ refl (platform_name-listable unicode text)))
scan_transports-listable unicode attachment text (usb ∷ ts) has_hybrid is_platform = refl
scan_transports-listable unicode attachment text (nfc ∷ ts) has_hybrid is_platform = refl
scan_transports-listable unicode attachment text (ble ∷ ts) has_hybrid is_platform = refl
scan_transports-listable unicode attachment text (smart_card ∷ ts) has_hybrid is_platform = refl
scan_transports-listable unicode attachment text (hybrid ∷ ts) has_hybrid is_platform =
    scan_transports-listable unicode attachment text ts true is_platform
scan_transports-listable unicode attachment text (internal ∷ ts) has_hybrid is_platform =
    scan_transports-listable unicode attachment text ts has_hybrid true
scan_transports-listable unicode attachment text (other_transport ∷ ts) has_hybrid is_platform =
    scan_transports-listable unicode attachment text ts has_hybrid is_platform

fallback_passkey_name-listable :
    (unicode : Unicode) (credential : Option Credential) (text : String)
    → is_listable (fallback_passkey_name unicode credential text) ≡ true
unfolding fallback_passkey_name has_control
fallback_passkey_name-listable unicode none text = refl
fallback_passkey_name-listable unicode (some c) text =
    scan_transports-listable unicode c.attachment text c.transports false
      (is_platform_attachment c.attachment)

providers-listable : All (λ e. is_listable e.1 ≡ true) passkey_provider_by_aaguid
unfolding has_control
providers-listable = (
  refl,
  (
    refl,
    (
      refl,
      (
        refl,
        (
          refl,
          (
            refl,
            (
              refl,
              (
                refl,
                (refl, (refl, (refl, (refl, (refl, (refl, (refl, (refl, (refl, (refl, tt)))))))))),
              ),
            ),
          ),
        ),
      ),
    ),
  ),
)

provider_of-listable :
    (unicode : Unicode) (credential : Option Credential)
    → (not (provider_of unicode credential == "")) ≡ true
    → is_listable (provider_of unicode credential) ≡ true
unfolding provider_of
provider_of-listable unicode none h = absurd (blank_absurd "" refl h)
provider_of-listable unicode (some c) h =
    elim (Option-cases (lookup (format_aaguid c.aaguid) passkey_provider_by_aaguid)) [
      | inl e ↦ absurd (blank_absurd "" refl (rw (provider_of, e) at h))
      | inr (name, e) ↦
          rw (provider_of, e)
            (lookup-All (format_aaguid c.aaguid) passkey_provider_by_aaguid name providers-listable
              e)
    ]

-- Every passkey that gets a name gets one that is not empty, has at most 80 characters, and holds no
-- control character, whether it was asked for, is the provider's, or is the fallback.
pub resolve_passkey_name-listable :
    (unicode : Unicode) (credential : Option Credential) (requested_name text name : String)
    → resolve_passkey_name unicode credential requested_name text ≡ ok name
    → is_listable name ≡ true
unfolding resolve_passkey_name
resolve_passkey_name-listable unicode credential requested_name text name e =
    let (asked, q, e1) = bind-ok (normalize_passkey_name requested_name) _ e in
    let provider = provider_of unicode credential in
    let same = ap (name_of name) e1 in
    subst (λ (s : String). is_listable s ≡ true) same
      (elim (Bool-cases (not (asked == ""))) [
        | inl y ↦ rw y (normalize_passkey_name-listable requested_name asked q y)
        | inr n ↦ rw n (elim (Bool-cases (not (provider == ""))) [
          | inl y ↦ rw y (provider_of-listable unicode credential y)
          | inr m ↦ rw m (fallback_passkey_name-listable unicode credential text)
        ])
      ])
