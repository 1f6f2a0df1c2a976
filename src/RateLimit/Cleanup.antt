-- ===== src/RateLimit/Cleanup.antt =====
-- What the cleanup of api/login_rate_limit.go keeps and what it forgets of a key.
use s_ui_next.GoMap.Laws.{lookup-delete, lookup-keep, length-keep-lt}
use s_ui_next.GoMap.{lookup, IsMap}
use s_ui_next.Prelude.{
  ℕ, ◌+◌, ◌≤◌, ◌<◌, ◌≡◌, ◌⊎◌, inl, inr, String, comparable_string, str_iff, true, false, not, none,
  some, arith, length, Bool-cases,
}
use s_ui_next.RateLimit.Invariant.{IsValid}
use s_ui_next.RateLimit.{
  LoginAttemptState, LoginAttempts, login_failure_window, is_stale, cleanup_login_attempts_locked,
  decide_login, login_allowed,
}

module _ (key : String) (now : ℕ) (s : LoginAttempts) where
  -- The cleanup forgets a key only when its entry is stale.
  pub cleanup-lookup :
      (st : LoginAttemptState)
      → IsMap s.entries
      → lookup key s.entries ≡ some st
      → is_stale now st ≡ false
      → lookup key (cleanup_login_attempts_locked now s).entries ≡ some st
  unfolding cleanup_login_attempts_locked
  cleanup-lookup st m h n = ground (
    arith,
    lookup-keep (λ (e : String × LoginAttemptState). not (is_stale now e.1)) key s.entries m,
  )

  -- A locked key is refused, and stays locked.
  pub locked-refused :
      (later : ℕ) (st : LoginAttemptState)
      → IsMap s.entries
      → lookup key s.entries ≡ some st
      → now < st.locked_until
      → ((login_allowed key now later s).1.0 ≡ false)
        × (lookup key (login_allowed key now later s).0.entries ≡ some st)
  unfolding login_allowed decide_login
  locked-refused later st m h lt =
      let k = cleanup-lookup st m h (unfold is_stale in ground arith) in rw k (ground arith)

  cleanup-cases :
      (st : LoginAttemptState)
      → IsMap s.entries
      → lookup key s.entries ≡ some st
      → (lookup key (cleanup_login_attempts_locked now s).entries ≡ some st)
        ⊎ ((lookup key (cleanup_login_attempts_locked now s).entries ≡ none)
            × (length (cleanup_login_attempts_locked now s).entries < length s.entries))
  unfolding cleanup_login_attempts_locked
  cleanup-cases st m h = elim (Bool-cases (is_stale now st)) [
    | inl stale ↦ ground (
      arith,
      lookup-keep (λ (e : String × LoginAttemptState). not (is_stale now e.1)) key s.entries m,
      length-keep-lt (λ (e : String × LoginAttemptState). not (is_stale now e.1)) key st s.entries h
          (λ _. rw stale),
    )
    | inr fresh ↦ inl (cleanup-lookup st m h fresh)
  ]

  -- Once the lock, if there was one, and the failure window are over, the key is allowed and its
  -- entry is forgotten, also where the table is full.
  pub released :
      (later : ℕ) (st : LoginAttemptState)
      → IsValid now s
      → lookup key s.entries ≡ some st
      → st.locked_until ≤ now
      → st.window_start + login_failure_window ≤ now
      → ((login_allowed key now later s).1.0 ≡ true)
        × (lookup key (login_allowed key now later s).0.entries ≡ none)
  unfolding login_allowed decide_login
  released later st v h le over = elim (cleanup-cases st v.one_entry h) [
    | inl k ↦ rw k (
        ground (
          arith,
          lookup-delete key key (cleanup_login_attempts_locked now s).entries,
          str_iff key key,
        ))
    | inr (gone, fewer) ↦ rw gone (ground arith)
  ]
