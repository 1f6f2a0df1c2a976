-- ===== src/RateLimit/Locked.antt =====
-- What a lock of api/login_rate_limit.go outlasts: the calls that come while it holds.
use s_ui_next.GoMap.Laws.{lookup-delete}
use s_ui_next.GoMap.{lookup, IsMap}
use s_ui_next.Prelude.{
  ℕ, ◌+◌, ◌≤◌, ◌<◌, ◌≡◌, ◌≢◌, ◌⊎◌, ◌∙◌, inl, inr, refl, ap, String, comparable_string, str_iff,
  ◌==◌, List, [], ◌∷◌, Option, none, some, arith, Bool-cases,
}
use s_ui_next.RateLimit.Cleanup.{cleanup-lookup}
use s_ui_next.RateLimit.Invariant.{
  IsValid, Call, allowed, failed, cleared, call_time, perform, perform_all, InOrder, step-IsValid,
}
use s_ui_next.RateLimit.Window.{store_failure-lookup}
use s_ui_next.RateLimit.{
  LoginAttemptState, LoginAttempts, login_failure_window, login_lock_duration, max_login_failures,
  is_stale, cleanup_login_attempts_locked, decide_login, login_allowed, count_failure,
  record_login_failure, clear_login_failures,
}

-- A call that comes before the end of a lock, does not clear the key, and does not record a failure
-- of the key after the failure window that began at `start`.
abbrev pub Spares : String → ℕ → ℕ → Call → Type 0
Spares key start until (cleared k now) = (now < until) × (k ≢ key)
Spares key start until (failed k now) =
    (now < until) × ((k ≢ key) ⊎ (now < start + login_failure_window))
Spares key start until (allowed k now later) = now < until

abbrev pub AllSpare : String → ℕ → ℕ → List Call → Type 0
AllSpare key start until [] = Unit
AllSpare key start until (c ∷ cs) = Spares key start until c × AllSpare key start until cs

-- The entry of a key that is locked at least until a time.
abbrev pub IsLockedUntil : ℕ → ℕ → LoginAttemptState → Type 0
IsLockedUntil start until st =
    (st.window_start ≡ start) × (max_login_failures ≤ st.failures) × (until ≤ st.locked_until)

abbrev pub Locks : String → ℕ → ℕ → LoginAttempts → Type 0
Locks key start until s =
    (st : LoginAttemptState) × (lookup key s.entries ≡ some st) × IsLockedUntil start until st

Spares-before :
    (key : String) (start until : ℕ) (c : Call) → Spares key start until c → call_time c < until
Spares-before key start until (cleared k now) w = w.0
Spares-before key start until (failed k now) w = w.0
Spares-before key start until (allowed k now later) w = w

decide_login-locked :
    (key k : String) (now later : ℕ) (c : LoginAttempts) (st : LoginAttemptState)
    (o : Option LoginAttemptState)
    → lookup key c.entries ≡ some st
    → lookup k c.entries ≡ o
    → now < st.locked_until
    → lookup key (decide_login k now later c o).0.entries ≡ some st
unfolding decide_login
decide_login-locked key k now later c st none h q w = ground arith
decide_login-locked key k now later c st (some other) h q w = elim (Bool-cases (k == key)) [
  | inl y ↦
      let same : k ≡ key = (str_iff k key).0 y in
      let one : other ≡ st = cc in
      ground (arith, ap (λ (x : LoginAttemptState). x.locked_until) one)
  | inr n ↦ ground (arith, lookup-delete k key c.entries)
]

count_failure-IsLockedUntil :
    (now start until : ℕ) (st : LoginAttemptState)
    → 0 < start
    → now < start + login_failure_window
    → until ≤ now + login_lock_duration
    → IsLockedUntil start until st
    → IsLockedUntil start until (count_failure now st)
unfolding count_failure
count_failure-IsLockedUntil now start until st p w u h = ground arith

module _ (key : String) (start until : ℕ) (begun : 0 < start) (s : LoginAttempts)
    (m : IsMap s.entries) where
  -- One call leaves the key locked.
  perform-Locks :
      (c : Call)
      → Spares key start until c
      → until ≤ call_time c + login_lock_duration
      → Locks key start until s
      → Locks key start until (perform c s)
  unfolding perform login_allowed record_login_failure clear_login_failures
  perform-Locks (allowed k now later) w u (st, h, l) =
      let c = cleanup_login_attempts_locked now s in
      (
        st,
        decide_login-locked key k now later c st (lookup k c.entries)
            (cleanup-lookup key now s st m h (unfold is_stale in ground arith)) refl
            (omega (arith, l.2)),
        l,
      )
  perform-Locks (failed k now) w u (st, h, l) =
      let c = cleanup_login_attempts_locked now s in
      let stored =
        store_failure-lookup key k now c st
          (cleanup-lookup key now s st m h (unfold is_stale in ground arith)) (lookup k c.entries)
          refl in
      elim (Bool-cases (k == key)) [
        | inl y ↦ (
          count_failure now st,
          stored ∙ rw y refl,
          count_failure-IsLockedUntil now start until st begun
              (elim (w.1) [
                | inl other ↦ absurd (other ((str_iff k key).0 y))
                | inr inside ↦ inside
              ])
              u l,
        )
        | inr n ↦ (st, stored ∙ rw n refl, l)
      ]
  perform-Locks (cleared k now) w u (st, h, l) =
      (st, ground (arith, lookup-delete k key s.entries, str_iff k key), l)

pub perform_all-Locks :
    (key : String) (start until : ℕ) (cs : List Call) (now : ℕ) (s : LoginAttempts)
    → 0 < start
    → IsValid now s
    → InOrder now cs
    → AllSpare key start until cs
    → until ≤ now + login_lock_duration
    → Locks key start until s
    → Locks key start until (perform_all cs s)
unfolding perform_all
perform_all-Locks key start until [] now s p v o w u l = l
perform_all-Locks key start until (c ∷ cs) now s p v o w u l =
    perform_all-Locks key start until cs (call_time c) (perform c s) p
      (step-IsValid c now s o.0 o.1 v) o.2 w.1 (omega (arith, o.1))
      (perform-Locks key start until p s v.one_entry c w.0 (omega (arith, o.1)) l)
