-- ===== src/RateLimit/Tests.antt =====
-- Runs of the failed-login counters of api/login_rate_limit.go, and each theorem about them at a
-- concrete state.
use s_ui_next.GoMap.{lookup, insert, delete, has_key}
use s_ui_next.Prelude.Int.{pos}
use s_ui_next.Prelude.{
  ℕ, ◌+◌, ◌*◌, ◌≡◌, refl, comparable_string, true, false, List, [], ◌∷◌, ◌++◌, none, arith, inr,
}
use s_ui_next.RateLimit.Invariant.{
  IsValid, Call, allowed, failed, perform, perform_all, perform_all-IsValid,
}
use s_ui_next.RateLimit.Locked.{AllSpare}
use s_ui_next.RateLimit.Lockout.{eighth_failure-refused, lock_over-allowed, late_failure-unlocks}
use s_ui_next.RateLimit.{
  LoginAttemptState, LoginAttempts, second, login_lock_duration, login_allowed,
  record_login_failure, clear_login_failures, decide_login, store_failure,
  cleanup_login_attempts_locked, count_failure, is_stale, round_second,
}

program : Unit {0}
unfolding lookup insert delete has_key login_allowed record_login_failure clear_login_failures
    decide_login store_failure cleanup_login_attempts_locked count_failure is_stale round_second
    perform perform_all
program = tt

abbrev fresh : LoginAttempts
fresh = record { entries = []; last_cleanup = 0 }

abbrev at : ℕ → ℕ
at n = (1000 + n) * second

abbrev fail_at : ℕ → Call
fail_at n = failed "admin\0::1" (at n)

abbrev six : List Call
six =
    fail_at 1
    ∷ allowed "guest" (at 2) (at 2)
    ∷ fail_at 3
    ∷ fail_at 4
    ∷ fail_at 5
    ∷ fail_at 6
    ∷ fail_at 7
    ∷ []

abbrev once : LoginAttemptState
once = record { failures = 1; window_start = at 0; locked_until = 0 }

abbrev one_failure : LoginAttempts
one_failure = record { entries = ("admin\0::1", once) ∷ []; last_cleanup = at 0 }

abbrev shut_out : LoginAttemptState
shut_out = record { failures = 8; window_start = at 0; locked_until = at 308 }

abbrev locked_state : LoginAttempts
locked_state = record { entries = ("admin\0::1", shut_out) ∷ []; last_cleanup = at 0 }

first_failure : record_login_failure "admin\0::1" (at 0) fresh ≡ one_failure
unfolding program
first_failure = refl

eight_failures : perform_all (six ++ fail_at 8 ∷ []) one_failure ≡ locked_state
unfolding program
eight_failures = refl

refused_for_four_seconds :
    (login_allowed "admin\0::1" (at 304) (at 304) locked_state).1 ≡ (false, pos (4 * second))
unfolding program
refused_for_four_seconds = refl

one_failure-IsValid : IsValid (at 0) one_failure
unfolding has_key
one_failure-IsValid = record {
  one_entry = (refl, tt);
  bounded = omega arith;
  states = (ground arith, tt);
}

locked_state-IsValid : IsValid (at 305) locked_state
unfolding has_key
locked_state-IsValid = record {
  one_entry = (refl, tt);
  bounded = omega arith;
  states = (ground arith, tt);
}

perform_all-IsValid_example : IsValid (at 7) (perform_all six one_failure)
perform_all-IsValid_example =
    perform_all-IsValid six (at 0) one_failure (omega arith) one_failure-IsValid

-- A failure of another key, a refused attempt, and a failure of an attempt that was let through before.
abbrev late_calls : List Call
late_calls =
    failed "bob\0::1" (at 9)
    ∷ allowed "admin\0::1" (at 10) (at 10)
    ∷ failed "admin\0::1" (at 11)
    ∷ []

late_calls-AllSpare : AllSpare "admin\0::1" (at 0) (at 8 + login_lock_duration) late_calls
late_calls-AllSpare =
    ((omega arith, inr (omega arith)), (omega arith, ((omega arith, inr (omega arith)), tt)))

eighth_failure-refused_example :
    (login_allowed "admin\0::1" (at 200) (at 200) (
      perform_all late_calls
        (record_login_failure "admin\0::1" (at 8) (perform_all six one_failure)))).1.0
    ≡ false
unfolding lookup
eighth_failure-refused_example =
    eighth_failure-refused "admin\0::1" six late_calls (at 0) one_failure once one_failure-IsValid
      (omega arith) refl (omega arith) (omega arith) (at 8) (omega arith) (omega arith)
      (omega arith) late_calls-AllSpare (at 200) (at 200) (omega arith)

lock_over-allowed_example :
    ((login_allowed "admin\0::1" (at 308) (at 308) locked_state).1.0 ≡ true)
    × (lookup "admin\0::1" (login_allowed "admin\0::1" (at 308) (at 308) locked_state).0.entries
        ≡ none)
unfolding lookup has_key
lock_over-allowed_example =
    lock_over-allowed "admin\0::1" (at 308) (at 308) locked_state shut_out
      (record { one_entry = (refl, tt); bounded = omega arith; states = (ground arith, tt) }) refl
      (omega arith) (omega arith)

late_failure-unlocks_example :
    ((login_allowed "admin\0::1" (at 305) (at 305) locked_state).1.0 ≡ false)
    × ((login_allowed "admin\0::1"
          (at 305)
          (at 305)
          (record_login_failure "admin\0::1" (at 305) locked_state)).1.0
        ≡ true)
unfolding lookup
late_failure-unlocks_example =
    late_failure-unlocks "admin\0::1" (at 305) (at 305) locked_state shut_out locked_state-IsValid
      refl (omega arith) (omega arith)
