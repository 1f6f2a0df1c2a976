-- ===== src/Clients/Quota.antt =====
-- service/client.go: `ResetClients` and `DepleteClients`, the job that starts delayed periods,
-- resets periodic quotas and disables the clients that are over their quota or expired. The
-- transaction is an argument and a result, and `dt` is the clock's reading in seconds.
use Prim.Native.String.{◌++◌ as concat}
use s_ui_next.Arrays.{union_uint_array}
use s_ui_next.Clients.Database.{Database, Error}
use s_ui_next.Clients.{Client, Changes}
use s_ui_next.Prelude.Int.{ℤ, pos, negsuc, sub_ℕ, ltb_ℤ, ◌+ℤ◌, int64}
use s_ui_next.Prelude.{
  ℕ, suc, ◌+◌, ◌*◌, Bool, true, false, not, ◌&&◌, ◌||◌, List, [], ◌∷◌, ◌++◌, map, ltb,
  if◌then◌else◌, Result, ok, ◌>>=◌,
}
use s_ui_next.StatsTracker.{add64}

-- `int64(days) * 86400`
abbrev pub days_in_seconds : ℤ → ℤ
days_in_seconds (pos n) = int64 (pos (n * 86400))
days_in_seconds (negsuc n) = int64 (sub_ℕ 0 (suc n * 86400))

-- The `Where` texts of the two functions.
abbrev pub starts_period : Client → Bool
starts_period c = c.enable && (c.delay_start && (not c.auto_reset && ltb 0 (c.up + c.down)))

abbrev pub starts_cycle : Client → Bool
starts_cycle c = c.enable && (c.delay_start && (c.auto_reset && ltb 0 (c.up + c.down)))

abbrev pub is_due : ℕ → Client → Bool
is_due dt c = not c.delay_start && (c.auto_reset && ltb_ℤ c.next_reset (pos dt))

-- Over the quota, or expired.
abbrev pub is_exhausted : ℕ → Client → Bool
is_exhausted dt c =
    (ltb_ℤ (pos 0) c.volume && ltb_ℤ c.volume (pos (c.up + c.down)))
    || (ltb_ℤ (pos 0) c.expiry && ltb_ℤ c.expiry (pos dt))

abbrev pub is_depleted : ℕ → Client → Bool
is_depleted dt c = c.enable && is_exhausted dt c

-- The loop bodies of `ResetClients`.
unfoldable pub start_period : ℕ → Client → Client
start_period dt c = record c {
  expiry = int64 (pos dt +ℤ days_in_seconds c.reset_days);
  delay_start = false;
}

unfoldable pub start_cycle : ℕ → Client → Client
start_cycle dt c = record c {
  next_reset = int64 (pos dt +ℤ days_in_seconds c.reset_days);
  delay_start = false;
}

unfoldable pub reset_usage : ℕ → Client → Client
reset_usage dt c = record c {
  next_reset = int64 (pos dt +ℤ days_in_seconds c.reset_days);
  total_up = add64 c.total_up c.up;
  total_down = add64 c.total_down c.down;
  up = 0;
  down = 0;
  enable = true;
}

abbrev pub reset_change : ℕ → Client → Changes
reset_change dt c = record {
  date_time = dt;
  actor = "ResetJob";
  key = "clients";
  action = "reset";
  obj = concat "\"" (concat c.name "\"");
}

abbrev pub disable_change : ℕ → Client → Changes
disable_change dt c = record {
  date_time = dt;
  actor = "DepleteJob";
  key = "clients";
  action = "disable";
  obj = concat "\"" (concat c.name "\"");
}

-- The inbounds of the clients that the periodic reset enables again.
unfoldable pub enabled_inbounds : List Client → List ℕ → List ℕ
enabled_inbounds [] inbound_ids = inbound_ids
enabled_inbounds (c ∷ clients) inbound_ids =
    enabled_inbounds clients
      (if c.enable then inbound_ids else union_uint_array inbound_ids c.inbounds.decoded)

-- The inbounds of the clients that are going to be disabled.
unfoldable pub disabled_inbounds : List Client → List ℕ → List ℕ
disabled_inbounds [] inbound_ids = inbound_ids
disabled_inbounds (c ∷ clients) inbound_ids =
    disabled_inbounds clients (union_uint_array inbound_ids c.inbounds.decoded)

abbrev pub is_empty {ℓ} : {A : Type ℓ} → List A → Bool
is_empty [] = true
is_empty (x ∷ xs) = false

module _ (db : Database) where
  open db use {Tx, find, update, save, create_changes, commit}

  unfoldable pub save_if_any : List Client → Tx → Result Error Tx
  save_if_any [] tx = ok tx
  save_if_any (c ∷ clients) tx = save (c ∷ clients) tx

  unfoldable pub create_if_any : List Changes → Tx → Result Error Tx
  create_if_any [] tx = ok tx
  create_if_any (c ∷ changes) tx = create_changes (c ∷ changes) tx

  -- The second half of `ResetClients`: the writes, from the three selections.
  unfoldable pub write_reset :
      ℕ → List Client → List Client → List Client → Tx → Result Error (Tx × List ℕ × Bool)
  write_reset dt delayed cycling due tx = do
    let all_clients =
        map (start_period dt) delayed ++ (map (start_cycle dt) cycling ++ map (reset_usage dt) due)
    let changes = map (reset_change dt) delayed ++ map (reset_change dt) cycling
    saved ← save_if_any all_clients tx
    logged ← create_if_any changes saved
    ok (logged, enabled_inbounds due [], not (is_empty all_clients) || not (is_empty changes))

  unfoldable pub reset_clients : ℕ → Tx → Result Error (Tx × List ℕ × Bool)
  reset_clients dt tx = do
    delayed ← find starts_period tx
    cycling ← find starts_cycle tx
    due ← find (is_due dt) tx
    write_reset dt delayed cycling due tx

  -- The writes that disable what the select found.
  unfoldable pub disable_clients : ℕ → List Client → Tx → Result Error Tx
  disable_clients dt [] tx = ok tx
  disable_clients dt (c ∷ clients) tx = do
    disabled ← update (is_depleted dt) (λ r. record r { enable = false }) tx
    create_changes (map (disable_change dt) (c ∷ clients)) disabled

  -- With the transaction that is committed: the inbounds to restart, and whether `LastUpdate` is
  -- set. On an error the transaction is rolled back, and the caller keeps the old one.
  unfoldable pub deplete_clients : ℕ → Tx → Result Error (Tx × List ℕ × Bool)
  deplete_clients dt tx = do
    (after_reset, inbound_ids, reset_changed) ← reset_clients dt tx
    clients ← find (is_depleted dt) after_reset
    written ← disable_clients dt clients after_reset
    committed ← commit written
    ok (committed, disabled_inbounds clients inbound_ids, reset_changed || not (is_empty clients))
