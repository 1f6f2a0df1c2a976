-- ===== src/StatsService.antt =====
-- service/stats.go: what the statistics job adds to the clients and keeps of who is online, and the
-- downsampling of a chart's rows. The core's rows are those of `StatsTracker.get_stats`.
pub mod Downsample
pub mod Credit
pub mod Buckets
pub mod Tests
use s_ui_next.Clients.Database.{Database, Error}
use s_ui_next.Clients.{Client}
use s_ui_next.Prelude.{
  ℕ, ◌+◌, String, comparable_string, ◌==◌, Bool, true, false, List, [], ◌∷◌, ◌++◌, Option, none,
  some, if◌then◌else◌, Result, ok, err, ◌>>=◌,
}
use s_ui_next.StatsTracker.{Stats}

pub record Onlines : Type 0 where
  pub inbound : List String
  pub user : List String
  pub outbound : List String

abbrev pub nobody : Onlines
nobody = record { inbound = []; user = []; outbound = [] }

-- The switch of `SaveStats` on the resource of a row that counts upload.
unfoldable pub note_online : Stats → Onlines → Onlines
note_online stat o =
    if stat.direction
    then (if stat.resource == "inbound"
        then record o { inbound = o.inbound ++ stat.tag ∷ [] }
        else if stat.resource == "outbound"
        then record o { outbound = o.outbound ++ stat.tag ∷ [] }
        else if stat.resource == "user"
        then record o { user = o.user ++ stat.tag ∷ [] }
        else o)
    else o

unfoldable pub note_all : List Stats → Onlines → Onlines
note_all [] o = o
note_all (stat ∷ rows) o = note_all rows (note_online stat o)

module _ (db : Database) where
  open db use {Tx, update, create_stats, commit}

  -- The update that one row makes.
  unfoldable pub credit_row : Stats → Tx → Result Error Tx
  credit_row stat tx =
      if stat.resource == "user"
      then (if stat.direction
          then update (λ c. c.name == stat.tag) (λ c. record c { up = c.up + stat.traffic }) tx
          else update (λ c. c.name == stat.tag) (λ c. record c { down = c.down + stat.traffic }) tx)
      else ok tx

  unfoldable pub credit_rows : List Stats → Tx → Result Error Tx
  credit_rows [] tx = ok tx
  credit_rows (stat ∷ rows) tx = do next ← credit_row stat tx; credit_rows rows next

  unfoldable pub store_rows : Bool → List Stats → Tx → Result Error Tx
  store_rows enable_traffic rows tx = if enable_traffic then create_stats rows tx else ok tx

  -- The transaction of `SaveStats`.
  unfoldable pub write_stats : Bool → List Stats → Tx → Result Error Tx
  write_stats enable_traffic rows tx = do
    credited ← credit_rows rows tx
    stored ← store_rows enable_traffic rows credited
    commit stored

  -- `none` where no core runs. With the database and who is online after it; an error rolls the
  -- database back and leaves who is online as it was.
  unfoldable pub save_stats :
      Bool → Option (List Stats) → Tx → Onlines → Result Error (Tx × Onlines)
  save_stats enable_traffic none tx online = ok (tx, online)
  save_stats enable_traffic (some []) tx online = ok (tx, nobody)
  save_stats enable_traffic (some (stat ∷ rows)) tx online = do
    written ← write_stats enable_traffic (stat ∷ rows) tx
    ok (written, note_all (stat ∷ rows) nobody)
