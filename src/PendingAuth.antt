-- ===== src/PendingAuth.antt =====
-- service/auth.go: logins that are under way (OIDC states and passkey ceremonies), and the user that
-- an OIDC login leads to. Time is in nanoseconds; a clock reading is an argument.
pub mod Oidc
pub mod Passkeys
pub mod Once
pub mod Leads
pub mod PasskeyLaws
pub mod Tests
use s_ui_next.GoMap.{GoMap, lookup, insert, delete}
use s_ui_next.Prelude.{
  ℕ, zero, suc, ◌+◌, ◌-◌, ◌*◌, String, comparable_string, ◌==◌, Bool, true, false, not, ◌&&◌, ◌||◌,
  List, [], ◌∷◌, Option, none, some, keep, length, ltb, leb, nat_eq, if◌then◌else◌, Result, ok, err,
}

abbrev pub minute : ℕ
minute = 60000000000

abbrev pub max_pending_auth_sessions : ℕ
max_pending_auth_sessions = 1024

abbrev pub pending_cleanup_period : ℕ
pending_cleanup_period = minute

-- What waits under a key, and until when.
pub record Waiting {ℓ} (A : Type ℓ) : Type ℓ where
  pub content : A
  pub expiry : ℕ

-- The table behind one lock.
pub record Pending {ℓ} (A : Type ℓ) : Type ℓ where
  pub entries : GoMap String (Waiting A)
  pub last_cleanup : ℕ

module _ {ℓ} {A : Type ℓ} where
  -- `!now.Before(entry.Expiry)`
  abbrev pub is_over : ℕ → Waiting A → Bool
  is_over now entry = leb entry.expiry now

  abbrev pub is_cleanup_due : ℕ → Pending A → Bool
  is_cleanup_due now t =
      nat_eq t.last_cleanup 0
      || (leb pending_cleanup_period (now - t.last_cleanup)
          || leb max_pending_auth_sessions (length t.entries))

  unfoldable pub clean_pending : ℕ → Pending A → Pending A
  clean_pending now t =
      if is_cleanup_due now t
      then record t { entries = keep (λ e. not (is_over now e.1)) t.entries; last_cleanup = now }
      else t

  -- `storeOIDCPending` and `storePasskeyPending`: the table, and whether the entry was stored.
  unfoldable pub store_pending : ℕ → String → Waiting A → Pending A → Pending A × Bool
  unfolding clean_pending
  store_pending now key entry t =
      let cleaned = clean_pending now t in
      if leb max_pending_auth_sessions (length cleaned.entries)
      then (cleaned, false)
      else (record cleaned { entries = insert key entry cleaned.entries }, true)

  -- `takeOIDCPending` and `takePasskeyPending`
  unfoldable pub take_pending : String → Pending A → Pending A × Option (Waiting A)
  take_pending key t = (record t { entries = delete key t.entries }, lookup key t.entries)

  abbrev pub within : ℕ → Option (Waiting A) → Option A
  within now none = none
  within now (some entry) = if ltb entry.expiry now then none else some entry.content

  -- `takePasskeySession`, and the start of `FinishOIDC`: what waits under the key, unless it is over.
  unfoldable pub take_session : ℕ → String → Pending A → Pending A × Option A
  unfolding take_pending
  take_session now key t = let taken = take_pending key t in (taken.0, within now taken.1)
