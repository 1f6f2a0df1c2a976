-- ===== src/RateLimit/Invariant.antt =====
-- What every reachable state of the failed-login counters satisfies, and that each operation of
-- api/login_rate_limit.go keeps it.
use s_ui_next.GoMap.Laws.{
  insert-IsMap, delete-IsMap, keep-IsMap, length-insert-le, length-insert_present, length-delete-le,
}
use s_ui_next.GoMap.Values.{
  Values, keep-Values, delete-Values, insert-Values, lookup-Values, Values-mono,
}
use s_ui_next.GoMap.{lookup, delete, IsMap}
use s_ui_next.Prelude.{
  ℕ, ◌+◌, ◌≤◌, ◌<◌, ◌≡◌, ◌⊎◌, inl, inr, refl, String, comparable_string, not, List, [], ◌∷◌, Option,
  none, some, arith, length, Bool-cases, leb, ltb, nat_eq, ◌-◌, length-keep-le, leb→lt,
}
use s_ui_next.RateLimit.{
  LoginAttemptState, LoginAttempts, login_failure_window, login_lock_duration, max_login_failures,
  max_login_entries, is_stale, cleanup_login_attempts_locked, decide_login, login_allowed,
  count_failure, no_attempts, store_failure, record_login_failure, clear_login_failures,
}

-- A lock is set at the eighth failure and not before. It outlasts the window that it was set in,
-- and ends within one lock duration of that window's end.
pub record IsCounted (now : ℕ) (st : LoginAttemptState) : Type 0 where
  pub counted : 1 ≤ st.failures
  pub started : 0 < st.window_start
  pub past : st.window_start ≤ now
  pub lock_iff : leb max_login_failures st.failures ≡ not (nat_eq st.locked_until 0)
  pub outlasts : (st.locked_until ≡ 0) ⊎ (st.window_start + login_failure_window ≤ st.locked_until)
  pub lock_ends : st.locked_until < st.window_start + login_failure_window + login_lock_duration

pub record IsValid (now : ℕ) (s : LoginAttempts) : Type 0 where
  pub one_entry : IsMap s.entries
  pub bounded : length s.entries ≤ max_login_entries
  pub states : Values (IsCounted now) s.entries

module _ (now : ℕ) where
  pub count_failure-IsCounted :
      (st : LoginAttemptState)
      → 0 < now
      → IsCounted now st ⊎ (st ≡ no_attempts)
      → IsCounted now (count_failure now st)
  unfolding count_failure
  count_failure-IsCounted st h (inl c) = ground arith
  count_failure-IsCounted st h (inr e) = ground arith

  pub cleanup-IsValid :
      (s : LoginAttempts) → IsValid now s → IsValid now (cleanup_login_attempts_locked now s)
  unfolding cleanup_login_attempts_locked
  cleanup-IsValid s v = ground (
    arith,
    keep-IsMap (λ e. not (is_stale now e.1)) s.entries,
    length-keep-le (λ e. not (is_stale now e.1)) s.entries,
    keep-Values (IsCounted now) (λ e. not (is_stale now e.1)) s.entries,
  )

  module _ (pos_now : 0 < now) where
    store_failure-IsValid :
        (key : String) (s : LoginAttempts) (o : Option LoginAttemptState)
        → lookup key s.entries ≡ o
        → IsValid now s
        → IsValid now (store_failure key now s o)
    unfolding store_failure
    store_failure-IsValid key s none q v =
        elim (Bool-cases (leb max_login_entries (length s.entries))) [
          | inl full ↦ rw full v
          | inr room ↦ rw room (record {
            one_entry = insert-IsMap key _ s.entries v.one_entry;
            bounded = omega (
              arith,
              leb→lt _ _ room,
              length-insert-le key (count_failure now no_attempts) s.entries,
            );
            states =
                insert-Values (IsCounted now) key _ s.entries
                  (count_failure-IsCounted no_attempts pos_now (inr refl)) v.states;
          })
        ]
    store_failure-IsValid key s (some st) q v = record {
      one_entry = insert-IsMap key _ s.entries v.one_entry;
      bounded = omega (arith, length-insert_present key (count_failure now st) st s.entries q);
      states =
          insert-Values (IsCounted now) key _ s.entries
            (count_failure-IsCounted st pos_now
              (inl (lookup-Values (IsCounted now) key s.entries v.states q)))
            v.states;
    }

    -- Recording a failure keeps the invariant.
    pub record_login_failure-IsValid :
        (key : String) (s : LoginAttempts)
        → IsValid now s
        → IsValid now (record_login_failure key now s)
    unfolding record_login_failure
    record_login_failure-IsValid key s v =
        let c = cleanup_login_attempts_locked now s in
        store_failure-IsValid key c (lookup key c.entries) refl (cleanup-IsValid s v)

  delete-IsValid :
      (key : String) (s : LoginAttempts)
      → IsValid now s
      → IsValid now (record s { entries = delete key s.entries })
  delete-IsValid key s v = record {
    one_entry = delete-IsMap key s.entries v.one_entry;
    bounded = omega (arith, length-delete-le key s.entries);
    states = delete-Values (IsCounted now) key s.entries v.states;
  }

  decide_login-IsValid :
      (key : String) (later : ℕ) (s : LoginAttempts) (o : Option LoginAttemptState)
      → IsValid now s
      → IsValid now (decide_login key now later s o).0
  unfolding decide_login
  decide_login-IsValid key later s none v = ground arith
  decide_login-IsValid key later s (some st) v = elim (Bool-cases (ltb now st.locked_until)) [
    | inl held ↦ rw held v
    | inr free ↦ rw free (elim (Bool-cases (leb login_failure_window (now - st.window_start))) [
      | inl over ↦ rw over (delete-IsValid key s v)
      | inr within ↦ rw within v
    ])
  ]

  pub login_allowed-IsValid :
      (key : String) (later : ℕ) (s : LoginAttempts)
      → IsValid now s
      → IsValid now (login_allowed key now later s).0
  unfolding login_allowed
  login_allowed-IsValid key later s v =
      let c = cleanup_login_attempts_locked now s in
      decide_login-IsValid key later c (lookup key c.entries) (cleanup-IsValid s v)

  pub clear_login_failures-IsValid :
      (key : String) (s : LoginAttempts) → IsValid now s → IsValid now (clear_login_failures key s)
  unfolding clear_login_failures
  clear_login_failures-IsValid key s v = delete-IsValid key s v

-- The invariant at one clock reading holds at every later one.
IsValid-later : (now now' : ℕ) (s : LoginAttempts) → now ≤ now' → IsValid now s → IsValid now' s
IsValid-later now now' s h v = record {
  one_entry = v.one_entry;
  bounded = v.bounded;
  states = Values-mono (IsCounted now) (IsCounted now') (λ st c. ground arith) s.entries v.states;
}

-- One call of the file's interface, with the clock readings that it makes.
pub data Call : Type 0 where
  allowed : String → ℕ → ℕ → Call
  failed : String → ℕ → Call
  cleared : String → ℕ → Call

abbrev pub call_time : Call → ℕ
call_time (allowed key now later) = now
call_time (failed key now) = now
call_time (cleared key now) = now

unfoldable pub perform : Call → LoginAttempts → LoginAttempts
perform (allowed key now later) s = (login_allowed key now later s).0
perform (failed key now) s = record_login_failure key now s
perform (cleared key now) s = clear_login_failures key s

unfoldable pub perform_all : List Call → LoginAttempts → LoginAttempts
perform_all [] s = s
perform_all (c ∷ cs) s = perform_all cs (perform c s)

-- The clock never runs back, and shows a time after the zero time.
abbrev pub InOrder : ℕ → List Call → Type 0
InOrder now [] = Unit
InOrder now (c ∷ cs) = (0 < call_time c) × (now ≤ call_time c) × InOrder (call_time c) cs

abbrev pub last_time : ℕ → List Call → ℕ
last_time now [] = now
last_time now (c ∷ cs) = last_time (call_time c) cs

perform-IsValid :
    (c : Call) (s : LoginAttempts)
    → 0 < call_time c
    → IsValid (call_time c) s
    → IsValid (call_time c) (perform c s)
unfolding perform
perform-IsValid (allowed key now later) s h v = login_allowed-IsValid now key later s v
perform-IsValid (failed key now) s h v = record_login_failure-IsValid now h key s v
perform-IsValid (cleared key now) s h v = clear_login_failures-IsValid now key s v

pub step-IsValid :
    (c : Call) (now : ℕ) (s : LoginAttempts)
    → 0 < call_time c
    → now ≤ call_time c
    → IsValid now s
    → IsValid (call_time c) (perform c s)
step-IsValid c now s p le v = perform-IsValid c s p (IsValid-later now (call_time c) s le v)

-- From a valid state, any sequence of calls in the order of the clock leads to a valid state:
-- one entry for a key, at most 4096 entries, and in each entry a lock exactly from the eighth
-- failure on, which outlasts the failure window and ends within five minutes of the window's end.
pub perform_all-IsValid :
    (cs : List Call) (now : ℕ) (s : LoginAttempts)
    → InOrder now cs
    → IsValid now s
    → IsValid (last_time now cs) (perform_all cs s)
unfolding perform_all
perform_all-IsValid [] now s h v = v
perform_all-IsValid (c ∷ cs) now s (p, le, h) v =
    perform_all-IsValid cs (call_time c) (perform c s) h (step-IsValid c now s p le v)
