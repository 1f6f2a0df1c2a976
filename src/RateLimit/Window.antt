-- ===== src/RateLimit/Window.antt =====
-- The failures of a key that api/login_rate_limit.go counts inside one failure window.
use s_ui_next.GoMap.Laws.{lookup-insert, lookup-delete}
use s_ui_next.GoMap.{lookup, IsMap}
use s_ui_next.Prelude.{
  ℕ, ◌+◌, ◌≤◌, ◌<◌, ◌≡◌, ◌∙◌, inl, inr, refl, ap, String, comparable_string, str_iff, false, List,
  [], ◌∷◌, Option, none, some, arith, Bool-cases, if◌then◌else◌, ◌==◌, ◌≢◌,
}
use s_ui_next.RateLimit.Invariant.{
  IsValid, Call, allowed, failed, cleared, call_time, perform, perform_all, InOrder, step-IsValid,
}
use s_ui_next.RateLimit.{
  LoginAttemptState, LoginAttempts, login_failure_window, is_stale, cleanup_login_attempts_locked,
  decide_login, login_allowed, count_failure, no_attempts, store_failure, record_login_failure,
  clear_login_failures,
}
use s_ui_next.RateLimit.Cleanup.{cleanup-lookup}

-- The call neither clears the key nor leaves the window that began at `start`.
abbrev pub InWindow : String → ℕ → Call → Type 0
InWindow key start (cleared k now) =
    (k ≢ key) × (start ≤ now) × (now < start + login_failure_window)
InWindow key start c = (start ≤ call_time c) × (call_time c < start + login_failure_window)

-- What one call does to the entry of a key inside its window.
abbrev pub counted_by : String → Call → LoginAttemptState → LoginAttemptState
counted_by key (failed k now) st = if k == key then count_failure now st else st
counted_by key c st = st

module _ (key k : String) (now : ℕ) (c : LoginAttempts) (st : LoginAttemptState)
    (h : lookup key c.entries ≡ some st) where
  decide_login-lookup :
      (later : ℕ) (o : Option LoginAttemptState)
      → lookup k c.entries ≡ o
      → now < st.window_start + login_failure_window
      → lookup key (decide_login k now later c o).0.entries ≡ some st
  unfolding decide_login
  decide_login-lookup later none q w = ground arith
  decide_login-lookup later (some other) q w = elim (Bool-cases (k == key)) [
    | inl y ↦
        let same : k ≡ key = (str_iff k key).0 y in
        let one : other ≡ st = cc in
        ground (arith, ap (λ (x : LoginAttemptState). x.window_start) one)
    | inr n ↦ ground (arith, lookup-delete k key c.entries)
  ]

  pub store_failure-lookup :
      (o : Option LoginAttemptState)
      → lookup k c.entries ≡ o
      → lookup key (store_failure k now c o).entries
        ≡ some (if k == key then count_failure now st else st)
  unfolding store_failure
  store_failure-lookup none q = elim (Bool-cases (k == key)) [
    | inl y ↦ let same : k ≡ key = (str_iff k key).0 y in absurd (ground arith)
    | inr n ↦ ground (arith, lookup-insert k key (count_failure now no_attempts) c.entries)
  ]
  store_failure-lookup (some other) q = elim (Bool-cases (k == key)) [
    | inl y ↦
        let same : k ≡ key = (str_iff k key).0 y in
        let one : other ≡ st = cc in
        rw (lookup-insert k key (count_failure now other) c.entries, y)
          (ap (λ (x : LoginAttemptState). some (count_failure now x)) one)
    | inr n ↦ rw (lookup-insert k key (count_failure now other) c.entries, n) h
  ]

module _ (key : String) (s : LoginAttempts) (st : LoginAttemptState) (m : IsMap s.entries) where
  perform-lookup :
      (c : Call)
      → InWindow key st.window_start c
      → lookup key s.entries ≡ some st
      → lookup key (perform c s).entries ≡ some (counted_by key c st)
  unfolding perform login_allowed record_login_failure clear_login_failures
  perform-lookup (allowed k now later) w h =
      let c = cleanup_login_attempts_locked now s in
      decide_login-lookup key k now c st
        (cleanup-lookup key now s st m h (unfold is_stale in ground arith)) later
        (lookup k c.entries) refl w.1
  perform-lookup (failed k now) w h =
      let c = cleanup_login_attempts_locked now s in
      store_failure-lookup key k now c st
        (cleanup-lookup key now s st m h (unfold is_stale in ground arith)) (lookup k c.entries)
        refl
  perform-lookup (cleared k now) w h = ground (arith, lookup-delete k key s.entries, str_iff k key)

-- How many of the calls record a failure of the key.
abbrev pub failures_of : String → List Call → ℕ
failures_of key [] = 0
failures_of key (failed k now ∷ cs) = (if k == key then 1 else 0) + failures_of key cs
failures_of key (_ ∷ cs) = failures_of key cs

abbrev pub AllInWindow : String → ℕ → List Call → Type 0
AllInWindow key start [] = Unit
AllInWindow key start (c ∷ cs) = InWindow key start c × AllInWindow key start cs

-- The entry after calls inside its window: the same window, and one failure more for each.
pub record Counts (key : String) (before : LoginAttemptState) (n : ℕ) (s : LoginAttempts)
    : Type 0 where
  pub after : LoginAttemptState
  pub stored : lookup key s.entries ≡ some after
  pub same_window : after.window_start ≡ before.window_start
  pub total : after.failures ≡ before.failures + n

counted_by-InWindow :
    (key : String) (c : Call) (st : LoginAttemptState)
    → 0 < st.window_start
    → InWindow key st.window_start c
    → ((counted_by key c st).window_start ≡ st.window_start)
      × ((counted_by key c st).failures ≡ st.failures + failures_of key (c ∷ []))
unfolding count_failure
counted_by-InWindow key (allowed k now later) st h w = ground arith
counted_by-InWindow key (failed k now) st h w = ground arith
counted_by-InWindow key (cleared k now) st h w = ground arith

failures_of-cons :
    (key : String) (c : Call) (cs : List Call)
    → failures_of key (c ∷ cs) ≡ failures_of key (c ∷ []) + failures_of key cs
failures_of-cons key (failed k now) cs = omega arith
failures_of-cons key (allowed k now later) cs = omega arith
failures_of-cons key (cleared k now) cs = omega arith

pub perform_all-Counts :
    (key : String) (cs : List Call) (now : ℕ) (s : LoginAttempts) (st : LoginAttemptState)
    → IsValid now s
    → InOrder now cs
    → 0 < st.window_start
    → AllInWindow key st.window_start cs
    → lookup key s.entries ≡ some st
    → Counts key st (failures_of key cs) (perform_all cs s)
unfolding perform_all
perform_all-Counts key [] now s st v o p w h = record {
  after = st;
  stored = h;
  same_window = refl;
  total = omega arith;
}
perform_all-Counts key (c ∷ cs) now s st v o p w h =
    let st' = counted_by key c st in
    let kept = counted_by-InWindow key c st p w.0 in
    let same : st'.window_start ≡ st.window_start = kept.0 in
    let rest =
      perform_all-Counts key cs (call_time c) (perform c s) st' (step-IsValid c now s o.0 o.1 v) o.2
        (omega (arith, same)) (rw same w.1) (perform-lookup key s st v.one_entry c w.0 h) in
    record {
      after = rest.after;
      stored = rest.stored;
      same_window = rest.same_window ∙ same;
      total = omega (arith, rest.total, kept.1, failures_of-cons key c cs);
    }

pub record_login_failure-lookup :
    (key : String) (now : ℕ) (s : LoginAttempts) (st : LoginAttemptState)
    → IsMap s.entries
    → lookup key s.entries ≡ some st
    → is_stale now st ≡ false
    → lookup key (record_login_failure key now s).entries ≡ some (count_failure now st)
unfolding record_login_failure
record_login_failure-lookup key now s st m h live =
    let c = cleanup_login_attempts_locked now s in
    ground (
      arith,
      store_failure-lookup key key now c st (cleanup-lookup key now s st m h live)
          (lookup key c.entries) refl,
      str_iff key key,
    )
