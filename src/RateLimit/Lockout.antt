-- ===== src/RateLimit/Lockout.antt =====
-- When api/login_rate_limit.go refuses a login, how long a lock holds, and what ends it.
use s_ui_next.GoMap.Values.{lookup-Values}
use s_ui_next.GoMap.{lookup, IsMap}
use s_ui_next.Prelude.{
  ℕ, ◌+◌, ◌≤◌, ◌<◌, ◌≡◌, String, comparable_string, true, false, List, none, some, arith,
}
use s_ui_next.RateLimit.Invariant.{
  IsCounted, IsValid, Call, failed, perform, perform_all, InOrder, perform_all-IsValid,
  step-IsValid, last_time,
}
use s_ui_next.RateLimit.{
  LoginAttemptState, LoginAttempts, login_failure_window, login_lock_duration, max_login_failures,
  is_stale, decide_login, login_allowed, count_failure, record_login_failure,
}
use s_ui_next.RateLimit.Cleanup.{cleanup-lookup, locked-refused, released}
use s_ui_next.RateLimit.Locked.{AllSpare, Locks, perform_all-Locks}
use s_ui_next.RateLimit.Window.{
  AllInWindow, failures_of, perform_all-Counts, record_login_failure-lookup,
}

-- A locked key whose lock has run out is allowed again, and its failures are forgotten: the lock
-- never ends inside the window in which its failures were counted.
pub lock_over-allowed :
    (key : String) (now later : ℕ) (s : LoginAttempts) (st : LoginAttemptState)
    → IsValid now s
    → lookup key s.entries ≡ some st
    → max_login_failures ≤ st.failures
    → st.locked_until ≤ now
    → ((login_allowed key now later s).1.0 ≡ true)
      × (lookup key (login_allowed key now later s).0.entries ≡ none)
lock_over-allowed key now later s st v h many le =
    let c = lookup-Values (IsCounted now) key s.entries v.states h in
    released key now s later st v h le (ground (arith, c.outlasts, c.lock_iff))

count_failure_locks :
    (now : ℕ) (st : LoginAttemptState)
    → 0 < st.window_start
    → now < st.window_start + login_failure_window
    → max_login_failures ≤ st.failures + 1
    → (count_failure now st).locked_until ≡ now + login_lock_duration
unfolding count_failure
count_failure_locks now st p w h = ground arith

-- The eighth failure leaves the key locked for the whole lock.
eighth_failure-Locks :
    (key : String) (cs : List Call) (now : ℕ) (s : LoginAttempts) (st : LoginAttemptState)
    → IsValid now s
    → InOrder now cs
    → lookup key s.entries ≡ some st
    → AllInWindow key st.window_start cs
    → max_login_failures ≤ st.failures + failures_of key cs + 1
    → (eighth : ℕ) → last_time now cs ≤ eighth
    → eighth < st.window_start + login_failure_window
    → (IsValid eighth (record_login_failure key eighth (perform_all cs s)))
      × Locks key st.window_start
          (eighth + login_lock_duration)
          (record_login_failure key eighth (perform_all cs s))
eighth_failure-Locks key cs now s st v o h w many eighth le in_window =
    let started = (lookup-Values (IsCounted now) key s.entries v.states h).started in
    let c = perform_all-Counts key cs now s st v o started w h in
    let s' = perform_all cs s in
    let v' = perform_all-IsValid cs now s o v in
    let pos : 0 < eighth = omega (
      arith,
      (lookup-Values (IsCounted (last_time now cs)) key s'.entries v'.states c.stored).past,
      c.same_window,
    ) in
    let live : is_stale eighth c.after ≡ false = unfold is_stale in ground (arith, c.same_window) in
    let until =
      count_failure_locks eighth c.after (omega (arith, c.same_window))
        (omega (arith, c.same_window)) (omega (arith, c.total)) in
    (
      unfold perform in step-IsValid (failed key eighth) (last_time now cs) s' pos le v',
      (
        count_failure eighth c.after,
        record_login_failure-lookup key eighth s' c.after v'.one_entry c.stored live,
        (
          unfold count_failure in ground (arith, c.same_window),
          unfold count_failure in ground (arith, c.same_window, c.total),
          omega (arith, until),
        ),
      ),
    )

-- The eighth failure of a key inside one failure window locks it. Between the first failure and the
-- eighth any calls may come for this and other keys, inside the window and but for a successful login,
-- which clears the key. In the five minutes after the eighth every attempt of the key is refused,
-- also after further calls in that time: attempts of this and any other keys, failures and successes of
-- other keys, and failures of this key inside the window.
pub eighth_failure-refused :
    (key : String) (cs after : List Call) (now : ℕ) (s : LoginAttempts) (st : LoginAttemptState)
    → IsValid now s
    → InOrder now cs
    → lookup key s.entries ≡ some st
    → AllInWindow key st.window_start cs
    → max_login_failures ≤ st.failures + failures_of key cs + 1
    → (eighth : ℕ) → last_time now cs ≤ eighth
    → eighth < st.window_start + login_failure_window
    → InOrder eighth after
    → AllSpare key st.window_start (eighth + login_lock_duration) after
    → (attempt later : ℕ) → attempt < eighth + login_lock_duration
    → (login_allowed key attempt later
        (perform_all after (record_login_failure key eighth (perform_all cs s)))).1.0
      ≡ false
eighth_failure-refused key cs after now s st v o h w many eighth le in_window o' w' attempt later
      soon =
    let started = (lookup-Values (IsCounted now) key s.entries v.states h).started in
    let (s_valid, locked) = eighth_failure-Locks key cs now s st v o h w many eighth le in_window in
    let s' = record_login_failure key eighth (perform_all cs s) in
    let (held, stored, l) =
      perform_all-Locks key st.window_start (eighth + login_lock_duration) after eighth s' started
        s_valid o' w' (omega arith) locked in
    (locked-refused key attempt (perform_all after s') later held
      (perform_all-IsValid after eighth s' o' s_valid).one_entry stored (omega (arith, l.2))).0

unlocked-allowed :
    (key : String) (now later : ℕ) (s : LoginAttempts) (st : LoginAttemptState)
    → IsMap s.entries
    → lookup key s.entries ≡ some st
    → st.locked_until ≤ now
    → is_stale now st ≡ false
    → (login_allowed key now later s).1.0 ≡ true
unfolding login_allowed decide_login
unlocked-allowed key now later s st m h free live =
    rw (cleanup-lookup key now s st m h live) (ground arith)

-- A failure that is recorded for a locked key once the failure window has passed (of an attempt
-- that was let through before the key was locked) lifts the lock: the key was refused before it
-- and is allowed after it.
pub late_failure-unlocks :
    (key : String) (now later : ℕ) (s : LoginAttempts) (st : LoginAttemptState)
    → IsValid now s
    → lookup key s.entries ≡ some st
    → now < st.locked_until
    → st.window_start + login_failure_window ≤ now
    → ((login_allowed key now later s).1.0 ≡ false)
      × ((login_allowed key now later (record_login_failure key now s)).1.0 ≡ true)
late_failure-unlocks key now later s st v h locked over =
    let live : is_stale now st ≡ false = unfold is_stale in ground arith in
    let stored = record_login_failure-lookup key now s st v.one_entry h live in
    (
      (locked-refused key now s later st v.one_entry h locked).0,
      unlocked-allowed key now later (record_login_failure key now s) (count_failure now st)
          (unfold perform in
            (step-IsValid (failed key now) now s (omega arith) (omega arith) v).one_entry)
          stored (unfold count_failure in ground arith)
          (unfold is_stale count_failure in ground arith),
    )
