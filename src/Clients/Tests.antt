-- ===== src/Clients/Tests.antt =====
-- A database over lists that has the laws asked of gorm, and runs of service/client.go in it.
mod Links
mod Quota
mod Save
mod Updates
mod Subscriptions
use s_ui_next.Clients.Database.{
  Database, Error, database_error, has_id, IsKeyed, replace_all, update_rows,
}
use s_ui_next.Clients.{Client, Changes}
use s_ui_next.StatsTracker.{Stats}
use s_ui_next.Prelude.{
  ℕ, comparable_nat, Bool, true, false, not, map, ◌&&◌, List, [], ◌∷◌, ◌++◌, keep, ◌≡◌, refl, ap,
  sym, ◌⊎◌, inl, inr, arith, All, Result, ok, err,
}

abbrev pub is_keyed : List Client → Bool
is_keyed [] = true
is_keyed (row ∷ rows) = not (has_id row.id rows) && is_keyed rows

pub is_keyed-IsKeyed : (rows : List Client) → is_keyed rows ≡ true → IsKeyed rows
is_keyed-IsKeyed [] h = tt
is_keyed-IsKeyed (row ∷ rows) h = (ground arith, is_keyed-IsKeyed rows (ground arith))

pub record ListTx : Type 0 where
  pub rows : List Client
  pub log : List Changes
  pub samples : List Stats
  pub keyed : is_keyed rows ≡ true

-- A write that would store a key twice fails.
abbrev pub decide_keyed : (b : Bool) → (b ≡ true) ⊎ (b ≡ false)
decide_keyed true = inl refl
decide_keyed false = inr refl

abbrev pub store_checked :
    (rows : List Client)
    → List Changes
    → List Stats
    → (is_keyed rows ≡ true) ⊎ (is_keyed rows ≡ false)
    → Result Error ListTx
store_checked rows log samples (inl y) =
    ok (record { rows = rows; log = log; samples = samples; keyed = y })
store_checked rows log samples (inr n) = err database_error

unfoldable pub store : List Client → List Changes → List Stats → Result Error ListTx
store rows log samples = store_checked rows log samples (decide_keyed (is_keyed rows))

abbrev pub tx_of : ListTx → Result Error ListTx → ListTx
tx_of t (ok t') = t'
tx_of t (err e) = t

store_checked_lem :
    (rows : List Client) (log : List Changes) (samples : List Stats)
    (c : (is_keyed rows ≡ true) ⊎ (is_keyed rows ≡ false)) (t' : ListTx)
    → store_checked rows log samples c ≡ ok t'
    → (t'.rows ≡ rows) × (t'.log ≡ log) × (t'.samples ≡ samples)
store_checked_lem rows log samples (inl y) t' e = (
  ap (λ r. (tx_of t' r).rows) (sym e),
  ap (λ r. (tx_of t' r).log) (sym e),
  ap (λ r. (tx_of t' r).samples) (sym e),
)
store_checked_lem rows log samples (inr n) t' e = absurd (ground arith)

pub store_lem :
    (rows : List Client) (log : List Changes) (samples : List Stats) (t' : ListTx)
    → store rows log samples ≡ ok t'
    → (t'.rows ≡ rows) × (t'.log ≡ log) × (t'.samples ≡ samples)
unfolding store
store_lem rows log samples t' e =
    store_checked_lem rows log samples (decide_keyed (is_keyed rows)) t' e

abbrev pub list_of : List Client → Result Error (List Client) → List Client
list_of d (ok l) = l
list_of d (err e) = d

abbrev pub list_database : Database
list_database = record {
  Tx = ListTx;
  clients = λ t. t.rows;
  changes = λ t. t.log;
  stats = λ t. t.samples;
  find = λ p t. ok (keep p t.rows);
  update = λ p f t. store (update_rows p f t.rows) t.log t.samples;
  save = λ cs t. store (replace_all cs t.rows) t.log t.samples;
  create_changes = λ cs t. ok (record t { log = t.log ++ cs });
  create_stats = λ rows t. ok (record t { samples = t.samples ++ rows });
  delete = λ p t. store (keep (λ c. not (p c)) t.rows) t.log t.samples;
  find_inbounds = λ ids t. ok (map (λ id. record { id = id; tag = "in" }) ids);
  commit = λ t. ok t;
  clients_keyed = λ t. is_keyed-IsKeyed t.rows t.keyed;
  find_lem = λ p t rows e. ap (list_of rows) (sym e);
  update_lem = λ p f t t' e. store_lem (update_rows p f t.rows) t.log t.samples t' e;
  save_lem = λ cs t t' h e. store_lem (replace_all cs t.rows) t.log t.samples t' e;
  create_changes_lem = λ cs t t' e. (
    ap (λ r. (tx_of t' r).log) (sym e),
    ap (λ r. (tx_of t' r).rows) (sym e),
    ap (λ r. (tx_of t' r).samples) (sym e),
  );
  create_stats_lem = λ rows t t' e. (
    ap (λ r. (tx_of t' r).samples) (sym e),
    ap (λ r. (tx_of t' r).rows) (sym e),
    ap (λ r. (tx_of t' r).log) (sym e),
  );
  delete_lem = λ p t t' e. store_lem (keep (λ c. not (p c)) t.rows) t.log t.samples t' e;
  commit_lem = λ t t' e. (
    ap (λ r. (tx_of t' r).rows) (sym e),
    ap (λ r. (tx_of t' r).log) (sym e),
    ap (λ r. (tx_of t' r).samples) (sym e),
  );
}
