-- ===== src/PendingAuth/Once.antt =====
-- The table of OIDC states of service/auth.go under every sequence of calls: its bound, and that a
-- state counts once.
use s_ui_next.Accounts.{User}
use s_ui_next.GoMap.{has_key}
use s_ui_next.GoMap.Laws.{
  lookup-has_key, has_key-insert, has_key-delete, has_key-keep, length-insert-le, length-delete-le,
}
use s_ui_next.GoText.{Unicode}
use s_ui_next.PendingAuth.{
  Pending, Waiting, is_over, is_cleanup_due, max_pending_auth_sessions, clean_pending,
  store_pending, take_pending,
}
use s_ui_next.PendingAuth.Oidc.{
  OidcPending, OidcSettings, Provider, OidcConfig, OidcError, invalid_state, begin_with,
  oidc_config, begin_oidc, finish_taken, finish_oidc,
}
use s_ui_next.Prelude.{
  ℕ, ◌≤◌, ◌≡◌, ◌∙◌, refl, ap, arith, String, comparable_string, str_iff, ◌==◌, Bool, true, false,
  not, List, [], ◌∷◌, All, length, length-keep-le, leb, Option, none, Bool-cases, inl, inr, Result,
  ok, err,
}

module _ {ℓ} {A : Type ℓ} where
  abbrev pub IsBounded : Pending A → Type 0
  IsBounded t = length t.entries ≤ max_pending_auth_sessions

  -- Nothing waits under a key.
  abbrev pub HasNone : String → Pending A → Type 0
  HasNone key t = has_key key t.entries ≡ false

  clean_pending-IsBounded :
      (now : ℕ) (t : Pending A) → IsBounded t → IsBounded (clean_pending now t)
  unfolding clean_pending
  clean_pending-IsBounded now t h = elim (Bool-cases (is_cleanup_due now t)) [
    | inl y ↦ rw y (
        omega
          (arith, length-keep-le (λ (e : String × Waiting A). not (is_over now e.1)) t.entries, h))
    | inr n ↦ rw n h
  ]

  store_pending-IsBounded :
      (now : ℕ) (key : String) (entry : Waiting A) (t : Pending A)
      → IsBounded t
      → IsBounded (store_pending now key entry t).0
  unfolding store_pending
  store_pending-IsBounded now key entry t h =
      let cleaned = clean_pending now t in
      elim (Bool-cases (leb max_pending_auth_sessions (length cleaned.entries))) [
        | inl y ↦ rw y (clean_pending-IsBounded now t h)
        | inr n ↦ rw n (ground (arith, n, length-insert-le key entry cleaned.entries))
      ]

  clean_pending-HasNone :
      (now : ℕ) (key : String) (t : Pending A) → HasNone key t → HasNone key (clean_pending now t)
  unfolding clean_pending
  clean_pending-HasNone now key t h = elim (Bool-cases (is_cleanup_due now t)) [
    | inl y ↦
        rw y (has_key-keep (λ (e : String × Waiting A). not (is_over now e.1)) key t.entries h)
    | inr n ↦ rw n h
  ]

  store_pending-HasNone :
      (now : ℕ) (key stored : String) (entry : Waiting A) (t : Pending A)
      → (stored == key) ≡ false
      → HasNone key t
      → HasNone key (store_pending now stored entry t).0
  unfolding store_pending
  store_pending-HasNone now key stored entry t d h =
      let cleaned = clean_pending now t in
      elim (Bool-cases (leb max_pending_auth_sessions (length cleaned.entries))) [
        | inl y ↦ rw y (clean_pending-HasNone now key t h)
        | inr n ↦ rw n (
            has_key-insert stored key entry cleaned.entries
            ∙ rw d (clean_pending-HasNone now key t h))
      ]

  take_pending-HasNone :
      (key taken : String) (t : Pending A) → HasNone key t → HasNone key (take_pending taken t).0
  unfolding take_pending
  take_pending-HasNone key taken t h = has_key-delete taken key t.entries ∙ ground (arith, h)

  take_pending-taken : (key : String) (t : Pending A) → HasNone key (take_pending key t).0
  unfolding take_pending
  take_pending-taken key t = has_key-delete key key t.entries ∙ rw ((str_iff key key).1 refl) refl

  take_pending-none : (key : String) (t : Pending A) → HasNone key t → (take_pending key t).1 ≡ none
  unfolding take_pending
  take_pending-none key t h = lookup-has_key key t.entries h

module _ (unicode : Unicode) (discover : String → Option Provider) where
  -- A call of one of the two handlers, with what it draws or reads.
  pub data Call : Type 0 where
    begin : ℕ → OidcSettings → String → OidcPending → Call
    finish : ℕ → OidcSettings → String → String → List User → Call

  unfoldable pub after_call : Call → Pending OidcPending → Pending OidcPending
  after_call (begin now settings state drawn) t =
      (begin_oidc unicode discover now settings state drawn t).0
  after_call (finish now settings state code users) t =
      (finish_oidc unicode discover now settings state code users t).0

  unfoldable pub after_calls : List Call → Pending OidcPending → Pending OidcPending
  after_calls [] t = t
  after_calls (call ∷ later) t = after_calls later (after_call call t)

  -- Whether a call draws another state than the given one.
  abbrev pub draws_other : String → Call → Bool
  draws_other state (begin now settings drawn_state drawn) = not (drawn_state == state)
  draws_other state (finish now settings taken code users) = true

  begin_with-keeps :
      (P : Pending OidcPending → Type 0) (now : ℕ) (state : String) (drawn : OidcPending)
      (t : Pending OidcPending) (config : Result OidcError (Provider × OidcConfig))
      → P t
      → ((entry : Waiting OidcPending) → P (store_pending now state entry t).0)
      → P (begin_with unicode discover now state drawn t config).0
  begin_with-keeps P now state drawn t (err e) h k = h
  begin_with-keeps P now state drawn t (ok config) h k = k _

  after_call-IsBounded :
      (call : Call) (t : Pending OidcPending) → IsBounded t → IsBounded (after_call call t)
  unfolding after_call begin_oidc finish_oidc take_pending
  after_call-IsBounded (begin now settings state drawn) t h =
      begin_with-keeps IsBounded now state drawn t (oidc_config unicode discover settings) h
        (λ entry. store_pending-IsBounded now state entry t h)
  after_call-IsBounded (finish now settings state code users) t h =
      omega (arith, length-delete-le state t.entries, h)

  -- Whatever calls begin and finish OIDC logins, at most 1024 of them wait, if at most 1024 waited.
  pub after_calls-IsBounded :
      (calls : List Call) (t : Pending OidcPending) → IsBounded t → IsBounded (after_calls calls t)
  unfolding after_calls
  after_calls-IsBounded [] t h = h
  after_calls-IsBounded (call ∷ later) t h =
      after_calls-IsBounded later (after_call call t) (after_call-IsBounded call t h)

  after_call-HasNone :
      (state : String) (call : Call) (t : Pending OidcPending)
      → draws_other state call ≡ true
      → HasNone state t
      → HasNone state (after_call call t)
  unfolding after_call begin_oidc finish_oidc
  after_call-HasNone state (begin now settings drawn_state drawn) t d h =
      begin_with-keeps (HasNone state) now drawn_state drawn t
        (oidc_config unicode discover settings) h
        (λ entry. store_pending-HasNone now state drawn_state entry t (ground (arith, d)) h)
  after_call-HasNone state (finish now settings taken code users) t d h =
      take_pending-HasNone state taken t h

  after_calls-HasNone :
      (state : String) (calls : List Call) (t : Pending OidcPending)
      → All (λ c. draws_other state c ≡ true) calls
      → HasNone state t
      → HasNone state (after_calls calls t)
  unfolding after_calls
  after_calls-HasNone state [] t d h = h
  after_calls-HasNone state (call ∷ later) t (d, ds) h =
      after_calls-HasNone state later (after_call call t) ds (after_call-HasNone state call t d h)

  -- A state with which an OIDC login was finished, whether it succeeded or not, is refused as invalid
  -- at every later time, after any calls of which none draws the same state.
  pub finish_oidc-once :
      (now later : ℕ) (settings again : OidcSettings) (state code code_again : String)
      (users users_again : List User) (calls : List Call) (t : Pending OidcPending)
      → All (λ c. draws_other state c ≡ true) calls
      → (finish_oidc unicode discover later again state code_again users_again
          (after_calls calls (finish_oidc unicode discover now settings state code users t).0)).1
        ≡ err invalid_state
  unfolding finish_oidc finish_taken
  finish_oidc-once now later settings again state code code_again users users_again calls t d =
      let none_left =
        after_calls-HasNone state calls (take_pending state t).0 d (take_pending-taken state t) in
      ap (finish_taken unicode discover later again code_again users_again)
        (take_pending-none state (after_calls calls (take_pending state t).0) none_left)
