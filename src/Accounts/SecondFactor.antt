-- ===== src/Accounts/SecondFactor.antt =====
-- The second factor of service/user.go: recovery codes, and how TOTP is enabled and disabled.
use s_ui_next.GoMap.{GoMap, lookup, insert, delete}
use s_ui_next.GoText.{trim_space, to_upper}
use s_ui_next.Prelude.{
  ℕ, ◌+◌, ◌*◌, String, comparable_string, comparable_nat, ◌==◌, Bool, true, false, not, ◌||◌, List,
  [], ◌∷◌, map, Option, none, some, ltb, if◌then◌else◌, Result, ok, err,
}
use s_ui_next.Accounts.{
  Crypto, User, Faults, AccountError, database_error, enrollment_expired, invalid_code, PendingTotp,
  first_where, update_where, has_name, has_id, check_password,
}

module _ (crypto : Crypto) where
  open crypto use {digest, totp, unicode}

  unfoldable pub recovery_hash : String → String
  recovery_hash code = digest (to_upper unicode (trim_space code))

  -- The loop over the hashes: what is left once the wanted one is found.
  abbrev pub or_kept : String → Option (List String) → Option (List String)
  or_kept h none = none
  or_kept h (some left) = some (h ∷ left)

  unfoldable pub spend : String → List String → Option (List String)
  spend wanted [] = none
  spend wanted (h ∷ hs) =
      let rest = spend wanted hs in if h == wanted then some hs else or_kept h rest

  abbrev pub keep_left : Faults → ℕ → List User → Option (List String) → List User × Bool
  keep_left faults id us none = (us, false)
  keep_left faults id us (some left) = (
    update_where faults.write (has_id id) (λ u. record u { recovery_codes = some left }) us,
    not faults.write,
  )

  abbrev pub redeem_codes :
      Faults → String → ℕ → List User → Option (List String) → List User × Bool
  redeem_codes faults wanted id us none = (us, false)
  redeem_codes faults wanted id us (some hashes) = keep_left faults id us (spend wanted hashes)

  abbrev pub redeem_from : Faults → String → List User → Option User → List User × Bool
  redeem_from faults wanted us none = (us, false)
  redeem_from faults wanted us (some row) = redeem_codes faults wanted row.id us row.recovery_codes

  -- The part of `VerifySecondFactor` under its lock, which reads the row again.
  unfoldable pub redeem : Faults → String → ℕ → List User → List User × Bool
  redeem faults wanted id us =
      if faults.read then (us, false) else redeem_from faults wanted us (first_where (has_id id) us)

  -- `user` is what the caller has read.
  unfoldable pub verify_second_factor : ℕ → Faults → User → String → List User → List User × Bool
  unfolding redeem
  verify_second_factor now faults user code us =
      let trimmed = trim_space code in
      if not user.totp_enabled
      then (us, true)
      else if totp now trimmed user.totp_secret
      then (us, true)
      else redeem faults (recovery_hash trimmed) user.id us

  abbrev enabled_with : Faults → String → String → List String → List User → List User
  enabled_with faults username secret codes us =
      update_where faults.write (has_name username)
        (λ u. record u {
          totp_secret = secret;
          totp_enabled = true;
          recovery_codes = some (map recovery_hash codes);
        })
        us

  -- `EnableTOTP` with the ten texts that it draws: the table, the enrolments and the codes.
  abbrev enroll :
      ℕ
      → Faults
      → String
      → String
      → List String
      → GoMap String PendingTotp
      → List User
      → Option PendingTotp
      → Result AccountError (List User × GoMap String PendingTotp × List String)
  enroll now faults username code drawn pending us none = err enrollment_expired
  enroll now faults username code drawn pending us (some entry) =
      if ltb entry.expiry now || not (totp now (trim_space code) entry.secret)
      then err invalid_code
      else if faults.write
      then err database_error
      else (let codes = map (to_upper unicode) drawn in
          ok (enabled_with faults username entry.secret codes us, delete username pending, codes))

  unfoldable pub enable_totp :
      ℕ
      → Faults
      → String
      → String
      → List String
      → GoMap String PendingTotp
      → List User
      → Result AccountError (List User × GoMap String PendingTotp × List String)
  unfolding recovery_hash
  enable_totp now faults username code drawn pending us =
      enroll now faults username code drawn pending us (lookup username pending)

  abbrev minute : ℕ
  minute = 60000000000

  unfoldable pub begin_totp :
      ℕ → String → String → GoMap String PendingTotp → GoMap String PendingTotp
  begin_totp now username secret pending =
      insert username (record { secret = secret; expiry = now + 10 * minute }) pending

  abbrev disabled : Faults → List User → User → List User × Result AccountError (Unit {0})
  disabled faults us user = if faults.write then (us, err database_error) else (
    update_where false (has_id user.id)
        (λ u. record u { totp_secret = ""; totp_enabled = false; recovery_codes = some [] }) us,
    ok tt,
  )

  abbrev disable_checked :
      ℕ
      → Faults
      → String
      → List User × Result AccountError User
      → List User × Result AccountError (Unit {0})
  disable_checked now faults code (us, err e) = (us, err e)
  disable_checked now faults code (us, ok user) =
      let verified = verify_second_factor now faults user code us in
      if verified.1 then disabled faults verified.0 user else (verified.0, err invalid_code)

  unfoldable pub disable_totp :
      ℕ → Faults → String → String → String → List User → List User × Result AccountError (Unit {0})
  disable_totp now faults username password code us =
      disable_checked now faults code (check_password crypto faults username password us)
