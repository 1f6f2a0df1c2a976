-- ===== src/RateLimit.antt =====
-- api/login_rate_limit.go: the failed-login counters of the panel, one function for each function
-- of the file. A `time.Time` is its distance in nanoseconds from the zero time, so that zero is
-- what `IsZero` tests, and a clock reading is an argument `now`. `now.Sub(t)` is compared with
-- positive durations only, where subtraction that stops at zero gives the same test.
pub mod Invariant
pub mod Cleanup
pub mod Window
pub mod Locked
pub mod Lockout
pub mod Tests
use s_ui_next.Prelude.Int.{ℤ, pos, negsuc, sub_ℕ}
use s_ui_next.Prelude.{
  ℕ, suc, ◌+◌, ◌-◌, ◌*◌, ◌%◌, String, comparable_string, Bool, true, false, not, ◌&&◌, ◌||◌, Option,
  none, some, ltb, leb, nat_eq, if◌then◌else◌, length, keep,
}
use s_ui_next.GoMap.{GoMap, lookup, insert, delete}

-- `time.Second`, in nanoseconds.
abbrev pub second : ℕ
second = 1000000000

abbrev pub login_failure_window : ℕ
login_failure_window = 300 * second

abbrev pub login_lock_duration : ℕ
login_lock_duration = 300 * second

abbrev pub login_cleanup_period : ℕ
login_cleanup_period = 60 * second

abbrev pub max_login_failures : ℕ
max_login_failures = 8

abbrev pub max_login_entries : ℕ
max_login_entries = 4096

pub record LoginAttemptState : Type 0 where
  pub failures : ℕ
  pub window_start : ℕ
  pub locked_until : ℕ

pub record LoginAttempts : Type 0 where
  pub entries : GoMap String LoginAttemptState
  pub last_cleanup : ℕ

-- `Duration.Round(time.Second)`: to the nearest second, half away from zero.
abbrev round_magnitude : ℕ → ℕ
round_magnitude d = let r = d % second in if ltb (r + r) second then d - r else d + second - r

unfoldable pub round_second : ℤ → ℤ
round_second (pos n) = pos (round_magnitude n)
round_second (negsuc n) = sub_ℕ 0 (round_magnitude (suc n))

-- The test of the cleanup loop: the entry is neither locked nor inside its window.
unfoldable pub is_stale : ℕ → LoginAttemptState → Bool
is_stale now entry =
    ltb entry.locked_until now && leb login_failure_window (now - entry.window_start)

unfoldable pub cleanup_login_attempts_locked : ℕ → LoginAttempts → LoginAttempts
cleanup_login_attempts_locked now s =
    if nat_eq s.last_cleanup 0 || leb login_cleanup_period (now - s.last_cleanup)
    then record s { entries = keep (λ e. not (is_stale now e.1)) s.entries; last_cleanup = now }
    else s

-- What `loginAllowed` decides once the cleanup has run. `later` is the second reading of the
-- clock, which `time.Until` makes.
unfoldable pub decide_login :
    String → ℕ → ℕ → LoginAttempts → Option LoginAttemptState → LoginAttempts × (Bool × ℤ)
decide_login key now later s none =
    if leb max_login_entries (length s.entries)
    then (s, (false, pos login_failure_window))
    else (s, (true, pos 0))
decide_login key now later s (some state) =
    if ltb now state.locked_until
    then (s, (false, round_second (sub_ℕ state.locked_until later)))
    else if leb login_failure_window (now - state.window_start)
    then (record s { entries = delete key s.entries }, (true, pos 0))
    else (s, (true, pos 0))

unfoldable pub login_allowed : String → ℕ → ℕ → LoginAttempts → LoginAttempts × (Bool × ℤ)
unfolding decide_login
login_allowed key now later s =
    let c = cleanup_login_attempts_locked now s in
    decide_login key now later c (lookup key c.entries)

-- The state that a failure at `now` leaves for its key, from the state read before.
unfoldable pub count_failure : ℕ → LoginAttemptState → LoginAttemptState
count_failure now before =
    let state =
      if nat_eq before.window_start 0 || leb login_failure_window (now - before.window_start)
      then record { failures = 0; window_start = now; locked_until = 0 }
      else before in
    let failures = state.failures + 1 in
    record state {
      failures = failures;
      locked_until =
          if leb max_login_failures failures then now + login_lock_duration else state.locked_until;
    }

-- A missing entry is read as the zero value.
abbrev pub no_attempts : LoginAttemptState
no_attempts = record { failures = 0; window_start = 0; locked_until = 0 }

unfoldable pub store_failure : String → ℕ → LoginAttempts → Option LoginAttemptState → LoginAttempts
store_failure key now s none =
    if leb max_login_entries (length s.entries)
    then s
    else record s { entries = insert key (count_failure now no_attempts) s.entries }
store_failure key now s (some state) = record s {
  entries = insert key (count_failure now state) s.entries;
}

unfoldable pub record_login_failure : String → ℕ → LoginAttempts → LoginAttempts
unfolding store_failure
record_login_failure key now s =
    let c = cleanup_login_attempts_locked now s in store_failure key now c (lookup key c.entries)

unfoldable pub clear_login_failures : String → LoginAttempts → LoginAttempts
clear_login_failures key s = record s { entries = delete key s.entries }
