-- ===== src/Clients/Database.antt =====
-- What service/client.go and service/stats.go use of their database: gorm on SQLite, which the repository does not hold.
-- A query is the meaning of its `Where` text. The laws are those of SQL: a select returns the rows
-- that satisfy it, an update changes those and no others, a save replaces the rows with the saved
-- primary keys, and none of these touches another table. Any step may fail instead.
use s_ui_next.Clients.{Client, Changes, Inbound}
use s_ui_next.StatsTracker.{Stats}
use s_ui_next.Prelude.{
  ℕ, comparable_nat, ◌==◌, Bool, true, false, not, List, [], ◌∷◌, ◌++◌, map, keep, any,
  if◌then◌else◌, ◌≡◌, All, Result, ok,
}

pub data Error : Type 0 where
  database_error not_found bad_json empty_bulk unknown_action no_unique_id : Error

abbrev pub has_id : ℕ → List Client → Bool
has_id id rows = any (λ row. row.id == id) rows

-- Primary keys are unique.
abbrev pub IsKeyed : List Client → Type 0
IsKeyed [] = Unit
IsKeyed (row ∷ rows) = (has_id row.id rows ≡ false) × IsKeyed rows

abbrev pub replace : Client → List Client → List Client
replace client = map (λ row. if row.id == client.id then client else row)

abbrev pub replace_all : List Client → List Client → List Client
replace_all [] rows = rows
replace_all (client ∷ clients) rows = replace_all clients (replace client rows)

abbrev pub update_rows : (Client → Bool) → (Client → Client) → List Client → List Client
update_rows p f = map (λ row. if p row then f row else row)

pub record Database : Type 1 where
  pub Tx : Type 0
  pub clients : Tx → List Client
  pub changes : Tx → List Changes
  pub stats : Tx → List Stats
  pub find : (Client → Bool) → Tx → Result Error (List Client)
  pub update : (Client → Bool) → (Client → Client) → Tx → Result Error Tx
  pub save : List Client → Tx → Result Error Tx
  pub create_changes : List Changes → Tx → Result Error Tx
  pub create_stats : List Stats → Tx → Result Error Tx
  pub delete : (Client → Bool) → Tx → Result Error Tx
  -- The inbounds with these ids that have links; none is asked for where there are no ids.
  pub find_inbounds : List ℕ → Tx → Result Error (List Inbound)
  pub commit : Tx → Result Error Tx
  pub clients_keyed : (t : Tx) → IsKeyed (clients t)
  pub find_lem :
      (p : Client → Bool) (t : Tx) (rows : List Client)
      → find p t ≡ ok rows
      → rows ≡ keep p (clients t)
  pub update_lem :
      (p : Client → Bool) (f : Client → Client) (t t' : Tx)
      → update p f t ≡ ok t'
      → (clients t' ≡ update_rows p f (clients t)) × (changes t' ≡ changes t) × (stats t' ≡ stats t)
  pub save_lem :
      (cs : List Client) (t t' : Tx)
      → All (λ c. has_id c.id (clients t) ≡ true) cs
      → save cs t ≡ ok t'
      → (clients t' ≡ replace_all cs (clients t)) × (changes t' ≡ changes t) × (stats t' ≡ stats t)
  pub create_changes_lem :
      (cs : List Changes) (t t' : Tx)
      → create_changes cs t ≡ ok t'
      → (changes t' ≡ changes t ++ cs) × (clients t' ≡ clients t) × (stats t' ≡ stats t)
  pub create_stats_lem :
      (rows : List Stats) (t t' : Tx)
      → create_stats rows t ≡ ok t'
      → (stats t' ≡ stats t ++ rows) × (clients t' ≡ clients t) × (changes t' ≡ changes t)
  pub delete_lem :
      (p : Client → Bool) (t t' : Tx)
      → delete p t ≡ ok t'
      → (clients t' ≡ keep (λ c. not (p c)) (clients t))
        × (changes t' ≡ changes t)
        × (stats t' ≡ stats t)
  pub commit_lem :
      (t t' : Tx)
      → commit t ≡ ok t'
      → (clients t' ≡ clients t) × (changes t' ≡ changes t) × (stats t' ≡ stats t)
