-- ===== src/Accounts.antt =====
-- service/user.go: the accounts of the panel, with their passwords, second factors and recovery codes.
-- The table of users is a list in the order of its ids, and each database call may fail.
pub mod SecondFactor
pub mod Recovery
pub mod Passwords
pub mod Tokens
pub mod Tests
use text.Mathlib.Text.{starts_with}
use s_ui_next.GoMap.{GoMap, lookup, insert, delete}
use s_ui_next.GoText.{Unicode, trim_space, to_upper}
use s_ui_next.Prelude.{
  ℕ, zero, suc, ◌+◌, ◌*◌, String, comparable_string, comparable_nat, ◌==◌, Bool, true, false, not,
  ◌&&◌, ◌||◌, List, [], ◌∷◌, map, Option, none, some, ltb, if◌then◌else◌, Result, ok, err, ◌>>=◌,
}

-- The libraries behind an account: bcrypt, SHA-256 in hexadecimals, TOTP at a time, and the clock's
-- text. A hash may fail.
pub record Crypto : Type 0 where
  pub hash : String → Option String
  pub matches : String → String → Bool
  pub digest : String → String
  pub totp : ℕ → String → String → Bool
  pub unicode : Unicode

-- A row of the table; recovery codes that are no JSON list are none.
pub record User : Type 0 where
  pub id : ℕ
  pub username : String
  pub password : String
  pub totp_secret : String
  pub totp_enabled : Bool
  pub recovery_codes : Option (List String)
  pub last_logins : String

-- Which calls of the database fail.
pub record Faults : Type 0 where
  pub read : Bool
  pub write : Bool

pub data AccountError : Type 0 where
  database_error not_found wrong_password hash_error empty_name empty_password : AccountError
  enrollment_expired invalid_code : AccountError

pub record PendingTotp : Type 0 where
  pub secret : String
  pub expiry : ℕ

-- `Where(...).First`
unfoldable pub first_where : (User → Bool) → List User → Option User
first_where p [] = none
first_where p (u ∷ us) = let rest = first_where p us in if p u then some u else rest

-- `Where(...).Update`, which a failing database leaves undone.
abbrev pub change_if : (User → Bool) → (User → User) → User → User
change_if p f u = if p u then f u else u

unfoldable pub update_where : Bool → (User → Bool) → (User → User) → List User → List User
update_where fails p f us = if fails then us else map (change_if p f) us

abbrev pub has_name : String → User → Bool
has_name name u = u.username == name

abbrev pub has_id : ℕ → User → Bool
has_id id u = u.id == id

-- `db.Save` of a user that was read.
abbrev save_user : Faults → User → List User → Result AccountError (List User)
save_user faults user us =
    if faults.write
    then err database_error
    else ok (update_where false (has_id user.id) (λ u. user) us)

abbrev hashed {ℓ} :
    {A : Type ℓ} → Option String → (String → Result AccountError A) → Result AccountError A
hashed none next = err hash_error
hashed (some h) next = next h

module _ (crypto : Crypto) where
  open crypto use {hash, matches, digest, totp, unicode}

  abbrev pub is_bcrypt : String → Bool
  is_bcrypt stored =
      starts_with stored "$2a$" || (starts_with stored "$2b$" || starts_with stored "$2y$")

  unfoldable pub verify_password : String → String → Bool
  verify_password stored password =
      if is_bcrypt stored then matches stored password else stored == password

  -- A password that is stored as it is gets hashed; a failure of that is not reported.
  abbrev upgrade_with : Faults → User → List User → Option String → List User × User
  upgrade_with faults user us none = (us, user)
  upgrade_with faults user us (some h) = (
    update_where faults.write (has_id user.id) (λ u. record u { password = h }) us,
    record user { password = h },
  )

  unfoldable pub upgrade_password : Faults → String → User → List User → List User × User
  upgrade_password faults password user us =
      if starts_with user.password "$2"
      then (us, user)
      else upgrade_with faults user us (hash password)

  -- The user that a name and a password are of, and the table after the call.
  unfoldable pub check_found :
      Faults → String → Option User → List User → List User × Result AccountError User
  unfolding upgrade_password
  check_found faults password none us = (us, err wrong_password)
  check_found faults password (some user) us =
      if verify_password user.password password
      then (let upgraded = upgrade_password faults password user us in (upgraded.0, ok upgraded.1))
      else (us, err wrong_password)

  unfoldable pub check_password :
      Faults → String → String → List User → List User × Result AccountError User
  check_password faults username password us =
      if faults.read
      then (us, err database_error)
      else check_found faults password (first_where (has_name username) us) us

  unfoldable pub record_login : Faults → String → String → List User → List User
  record_login faults username text us =
      update_where faults.write (has_name username) (λ u. record u { last_logins = text }) us

  -- `Login`, with the text that is stored of the login.
  abbrev logged :
      Faults
      → String
      → List User × Result AccountError User
      → List User × Result AccountError String
  logged faults text (us, err e) = (us, err e)
  logged faults text (us, ok user) = (record_login faults user.username text us, ok user.username)

  unfoldable pub login :
      Faults → String → String → String → List User → List User × Result AccountError String
  unfolding record_login
  login faults username password text us =
      logged faults text (check_password faults username password us)

  unfoldable pub change_found :
      Faults → String → String → String → Option User → List User → Result AccountError (List User)
  change_found faults old_pass new_user new_pass none us = err not_found
  change_found faults old_pass new_user new_pass (some user) us =
      if verify_password user.password old_pass
      then hashed (hash new_pass)
          (λ h. save_user faults (record user { username = new_user; password = h }) us)
      else err wrong_password

  unfoldable pub change_pass :
      Faults → ℕ → String → String → String → List User → Result AccountError (List User)
  unfolding change_found
  change_pass faults id old_pass new_user new_pass us =
      if faults.read
      then err database_error
      else change_found faults old_pass new_user new_pass (first_where (has_id id) us) us

  -- `UpdateFirstUser`, with the id that the table gives to a new user, whose recovery codes are no JSON.
  abbrev new_user : ℕ → String → String → User
  new_user id username h = record {
    id = id;
    username = username;
    password = h;
    totp_secret = "";
    totp_enabled = false;
    recovery_codes = none;
    last_logins = "";
  }

  abbrev put_first :
      Faults → ℕ → String → String → Option User → List User → Result AccountError (List User)
  put_first faults id username password none us =
      hashed (hash password)
        (λ h. if faults.write then err database_error else ok (new_user id username h ∷ []))
  put_first faults id username password (some user) us =
      hashed (hash password)
        (λ h. save_user faults (record user { username = username; password = h }) us)

  unfoldable pub update_first_user :
      Faults → ℕ → String → String → List User → Result AccountError (List User)
  update_first_user faults id username password us =
      if username == ""
      then err empty_name
      else if password == ""
      then err empty_password
      else if faults.read
      then err database_error
      else put_first faults id username password (first_where (λ u. true) us) us
