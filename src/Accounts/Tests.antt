-- ===== src/Accounts/Tests.antt =====
-- Two accounts with simple stand-ins for the cryptography, and the theorems at them.
use mathlib.Core.Option.{some-injective}
use mathlib.Core.Path.{subst}
use Prim.Native.String.{◌++◌ as concat}
use s_ui_next.Accounts.{
  Crypto, User, Faults, first_where, update_where, is_bcrypt, verify_password, upgrade_password,
  check_found, check_password, has_id,
}
use s_ui_next.Accounts.SecondFactor.{recovery_hash, spend, redeem, verify_second_factor}
use s_ui_next.Accounts.Passwords.{check_password-again}
use s_ui_next.Accounts.Recovery.{
  Attempt, verify, codes_left, spent_all, verify_all, verify_all-accounted,
}
use s_ui_next.GoText.{trim_left, trim_right, map_chars}
use s_ui_next.Prelude.{
  ◌+◌, ◌≡◌, refl, String, comparable_string, ◌==◌, true, false, [], ◌∷◌, Option, none, some, ok,
  ◌&&◌, if◌then◌else◌, Bool-cases, inl, inr,
}

program : Unit {0}
unfolding first_where update_where verify_password upgrade_password check_found check_password
    recovery_hash spend redeem verify_second_factor spent_all verify_all trim_left trim_right
    map_chars
program = tt

abbrev crypto : Crypto
crypto = record {
  hash = λ p. if p == "plain" then some "$2a$plain" else none;
  matches = λ h p. h == "$2a$plain" && p == "plain";
  digest = λ s. concat "sha " s;
  totp = λ now code secret. code == secret;
  unicode = record { lower = λ c. c; upper = λ c. c; fold = λ c. c };
}

abbrev amy : User
amy = record {
  id = 1;
  username = "amy";
  password = "plain";
  totp_secret = "123456";
  totp_enabled = true;
  recovery_codes = some ("sha ONE" ∷ "sha TWO" ∷ []);
  last_logins = "";
}

abbrev works : Faults
works = record { read = false; write = false }

upgrades :
    first_where (has_id 1) (check_password crypto works "amy" "plain" (amy ∷ [])).0
    ≡ some (record amy { password = "$2a$plain" })
unfolding program
upgrades = refl

abbrev attempt : String → Attempt crypto
attempt code = record { now = 5; faults = works; user = amy; code = code }

accepts_once : (verify crypto (attempt "ONE") (amy ∷ [])).1 ≡ true
unfolding program
accepts_once = refl

refuses_twice :
    (verify crypto (attempt "ONE") (verify crypto (attempt "ONE") (amy ∷ [])).0).1 ≡ false
unfolding program
refuses_twice = refl

verify_all-accounted_example :
    spent_all crypto 1 "sha ONE" (attempt "ONE" ∷ attempt "TWO" ∷ attempt " ONE " ∷ []) (amy ∷ [])
      + codes_left 1 "sha ONE"
          (verify_all crypto (attempt "ONE" ∷ attempt "TWO" ∷ attempt " ONE " ∷ []) (amy ∷ []))
    ≡ 1
unfolding program
verify_all-accounted_example =
    verify_all-accounted crypto (attempt "ONE" ∷ attempt "TWO" ∷ attempt " ONE " ∷ []) 1 "sha ONE"
      (amy ∷ [])

nothing : (h : String) → ◌≡◌ {A = Option String} none (some h) → ⊥
nothing h e = cc

bcrypt_law :
    (p h : String)
    → crypto.hash p ≡ some h
    → (is_bcrypt crypto h ≡ true) × (crypto.matches h p ≡ true)
bcrypt_law p h e = elim (Bool-cases (p == "plain")) [
  | inl y ↦
      let same : "$2a$plain" ≡ h = some-injective "$2a$plain" h (rw y at e) in
      subst (λ (x : String). (is_bcrypt crypto x ≡ true) × (crypto.matches x p ≡ true)) same
        (refl, rw y refl)
  | inr n ↦ absurd (nothing h (rw n at e))
]

check_password-again_example :
    (again : User) × ((check_password crypto works "amy" "plain"
        (check_password crypto works "amy" "plain" (amy ∷ [])).0).1
      ≡ ok again)
    × (again.id ≡ 1)
unfolding program
check_password-again_example =
    check_password-again crypto works works "amy" "plain" (amy ∷ [])
      (record amy { password = "$2a$plain" }) bcrypt_law refl refl
