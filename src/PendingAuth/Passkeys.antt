-- ===== src/PendingAuth/Passkeys.antt =====
-- The passkeys of service/auth.go: ceremonies that are begun and finished, and the table of passkeys.
-- The WebAuthn library for a request is an argument, none where its configuration fails.
use s_ui_next.Accounts.{User, first_where, has_name}
use s_ui_next.GoText.{Unicode}
use s_ui_next.PasskeyNames.{Credential, NameError, normalize_passkey_name, resolve_passkey_name}
use s_ui_next.PendingAuth.{Pending, minute, store_pending, take_session}
use s_ui_next.Prelude.{
  ℕ, ◌+◌, ◌*◌, String, comparable_string, comparable_nat, ◌==◌, Bool, true, false, not, ◌&&◌, List,
  [], ◌∷◌, ◌++◌, map, keep, any, Option, none, some, if◌then◌else◌, Result, ok, err, ◌>>=◌,
}

pub record Passkey : Type 0 where
  pub id : ℕ
  pub user_id : ℕ
  pub name : String
  pub credential : String
  pub created_at : ℕ
  pub last_used_at : ℕ

-- What waits between the two halves of a ceremony.
pub record Ceremony : Type 0 where
  pub username : String
  pub session : String

-- A credential as the library gives it: its identity, its JSON text, and what its name is made of.
pub record Registered : Type 0 where
  pub id : String
  pub encoded : String
  pub credential : Credential

-- The library for one request, over a user's name and credentials: what to send and what to remember,
-- and the check of the answer.
pub record Relying : Type 0 where
  pub begin_registration : String → List String → Option (String × String)
  pub finish_registration : String → List String → String → Option Registered
  pub begin_login : String → List String → Option (String × String)
  pub finish_login : String → List String → String → Option Registered

pub data PasskeyError : Type 0 where
  not_configured no_user ceremony_failed too_many ceremony_expired user_mismatch no_passkey :
      PasskeyError
  credential_not_found name_empty passkey_not_found : PasskeyError
  bad_name : NameError → PasskeyError

abbrev pub need {ℓ} : {A : Type ℓ} → PasskeyError → Option A → Result PasskeyError A
need e none = err e
need e (some a) = ok a

abbrev pub deny : Bool → PasskeyError → Result PasskeyError (Unit {0})
deny true e = err e
deny false e = ok tt

abbrev pub named : Result NameError String → Result PasskeyError String
named (ok name) = ok name
named (err e) = err (bad_name e)

abbrev pub owned_by : ℕ → Passkey → Bool
owned_by user_id row = row.user_id == user_id

-- `decode` is `json.Unmarshal` of a stored credential: its identity.
module _ (unicode : Unicode) (decode : String → Option String) (rp : Option Relying) where
  abbrev pub decodes : Passkey → Bool
  decodes row = elim (decode row.credential) [ none ↦ false | some id ↦ true ]

  -- `loadWebUser`: the user and its credentials that can be read.
  unfoldable pub load_web_user :
      String → List User → List Passkey → Result PasskeyError (User × List String)
  load_web_user username users rows = do
    user ← need no_user (first_where (has_name username) users)
    ok (user, map (λ row. row.credential) (keep (λ row. owned_by user.id row && decodes row) rows))

  abbrev pub stored_session :
      String
      → String
      → Pending Ceremony × Bool
      → Pending Ceremony × Result PasskeyError (String × String)
  stored_session answer session (t, stored) =
      (t, if stored then ok (answer, session) else err too_many)

  -- `storePasskeySession` with the text that it draws.
  abbrev pub remember :
      ℕ
      → String
      → String
      → Pending Ceremony
      → Result PasskeyError (String × String)
      → Pending Ceremony × Result PasskeyError (String × String)
  remember now session username t (err e) = (t, err e)
  remember now session username t (ok (answer, answer_data)) = stored_session answer session (
      store_pending now session
        (record {
          content = record { username = username; session = answer_data };
          expiry = now + 5 * minute;
        })
        t)

  unfoldable pub begin_passkey_registration :
      ℕ
      → String
      → String
      → List User
      → List Passkey
      → Pending Ceremony
      → Pending Ceremony × Result PasskeyError (String × String)
  unfolding load_web_user
  begin_passkey_registration now session username users rows t = remember now session username t (do
    w ← need not_configured rp
    (user, credentials) ← load_web_user username users rows
    need ceremony_failed (w.begin_registration user.username credentials))

  unfoldable pub begin_passkey_login :
      ℕ
      → String
      → String
      → List User
      → List Passkey
      → Pending Ceremony
      → Pending Ceremony × Result PasskeyError (String × String)
  unfolding load_web_user
  begin_passkey_login now session username users rows t = remember now session username t (do
    w ← need not_configured rp
    (user, credentials) ← load_web_user username users rows
    some_credentials ← deny (not (any (λ c. true) credentials)) no_passkey
    need ceremony_failed (w.begin_login user.username credentials))

  -- `FinishPasskeyRegistration` once the session was taken: the table with the new row, and its name.
  unfoldable pub registered :
      ℕ
      → ℕ
      → String
      → String
      → String
      → List User
      → List Passkey
      → Option Ceremony
      → Result PasskeyError (List Passkey × String)
  unfolding load_web_user
  registered unix id username requested_name platform users rows taken = do
    pending ← need ceremony_expired taken
    same ← deny (not (pending.username == username)) user_mismatch
    w ← need not_configured rp
    (user, credentials) ← load_web_user username users rows
    credential ←
        need ceremony_failed (w.finish_registration user.username credentials pending.session)
    name ← named (resolve_passkey_name unicode (some credential.credential) requested_name platform)
    ok (
      rows
          ++ record {
            id = id;
            user_id = user.id;
            name = name;
            credential = credential.encoded;
            created_at = unix;
            last_used_at = 0;
          }
            ∷ [],
      name,
    )

  unfoldable pub finish_passkey_registration :
      ℕ
      → ℕ
      → ℕ
      → String
      → String
      → String
      → String
      → List User
      → List Passkey
      → Pending Ceremony
      → Pending Ceremony × Result PasskeyError (List Passkey × String)
  finish_passkey_registration now unix id username session requested_name platform users rows t =
      let taken = take_session now session t in
      (taken.0, registered unix id username requested_name platform users rows taken.1)

  abbrev pub has_credential : ℕ → String → Passkey → Bool
  has_credential user_id id row =
      owned_by user_id row
      && elim (decode row.credential) [ none ↦ false | some saved ↦ saved == id ]

  -- The loop that stores the new state of the credential that was used.
  abbrev pub onto_rows : Passkey → Option (List Passkey) → Option (List Passkey)
  onto_rows row none = none
  onto_rows row (some rows) = some (row ∷ rows)

  unfoldable pub use_credential : ℕ → ℕ → Registered → List Passkey → Option (List Passkey)
  use_credential unix user_id used [] = none
  use_credential unix user_id used (row ∷ rows) =
      let later = use_credential unix user_id used rows in
      if has_credential user_id used.id row
      then some (record row { credential = used.encoded; last_used_at = unix } ∷ rows)
      else onto_rows row later

  -- `FinishPasskeyLogin` once the session was taken.
  unfoldable pub logged_in :
      ℕ → List User → List Passkey → Option Ceremony → Result PasskeyError (List Passkey × String)
  unfolding load_web_user
  logged_in unix users rows taken = do
    pending ← need ceremony_expired taken
    w ← need not_configured rp
    (user, credentials) ← load_web_user pending.username users rows
    credential ← need ceremony_failed (w.finish_login user.username credentials pending.session)
    after ← need credential_not_found (use_credential unix user.id credential rows)
    ok (after, pending.username)

  unfoldable pub finish_passkey_login :
      ℕ
      → ℕ
      → String
      → List User
      → List Passkey
      → Pending Ceremony
      → Pending Ceremony × Result PasskeyError (List Passkey × String)
  finish_passkey_login now unix session users rows t =
      let taken = take_session now session t in (taken.0, logged_in unix users rows taken.1)

  -- `id = ? AND user_id = (SELECT id FROM users WHERE username = ?)`
  abbrev pub is_own : ℕ → Option User → Passkey → Bool
  is_own id none row = false
  is_own id (some user) row = row.id == id && owned_by user.id row

  unfoldable pub list_passkeys : String → List User → List Passkey → List Passkey
  list_passkeys username users rows = elim (first_where (has_name username) users) [
    | none ↦ []
    | some user ↦ keep (owned_by user.id) rows
  ]

  unfoldable pub delete_passkey : String → ℕ → List User → List Passkey → List Passkey
  delete_passkey username id users rows =
      keep (λ row. not (is_own id (first_where (has_name username) users) row)) rows

  abbrev pub rename_if : Bool → String → Passkey → Passkey
  rename_if own name row = if own then record row { name = name } else row

  unfoldable pub rename_passkey :
      String → ℕ → String → List User → List Passkey → Result PasskeyError (List Passkey)
  rename_passkey username id name users rows = do
    normal ← named (normalize_passkey_name name)
    given ← deny (normal == "") name_empty
    let user = first_where (has_name username) users
    found ← deny (not (any (is_own id user) rows)) passkey_not_found
    ok (map (λ row. rename_if (is_own id user row) normal row) rows)
