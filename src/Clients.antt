-- ===== src/Clients.antt =====
-- database/model (`Client`, `Changes`) and service/client.go: the users of the panel, their links
-- and quotas. A JSON column is what `json.Unmarshal` leaves in its variable, and whether it reports
-- no error; marshalling what was unmarshalled gives a column that reads back.
pub mod Links
pub mod Database
pub mod RowLaws
pub mod Quota
pub mod LinkLaws
pub mod QuotaRows
pub mod QuotaLaws
pub mod Save
pub mod SaveLaws
pub mod Updates
pub mod UpdateLaws
pub mod Subscriptions
pub mod Tests
use s_ui_next.Prelude.Int.{ℤ}
use s_ui_next.Prelude.{ℕ, String, Bool, true, List}
use s_ui_next.GoMap.{GoMap}

pub record Json (A : Type 0) : Type 0 where
  pub decoded : A
  pub well_formed : Bool

-- `json.MarshalIndent`
abbrev pub marshal : {A : Type 0} → A → Json A
marshal a = record { decoded = a; well_formed = true }

-- A link of a client is a `map[string]string`.
abbrev pub Link : Type 0
Link = GoMap String String

-- The byte counts are natural numbers; what an administrator may set is signed.
pub record Client : Type 0 where
  pub id : ℕ
  pub enable : Bool
  pub name : String
  pub sub_id : String
  pub config : String
  pub inbounds : Json (List ℕ)
  pub links : Json (List Link)
  pub volume : ℤ
  pub expiry : ℤ
  pub down : ℕ
  pub up : ℕ
  pub delay_start : Bool
  pub auto_reset : Bool
  pub reset_days : ℤ
  pub next_reset : ℤ
  pub total_up : ℕ
  pub total_down : ℕ

-- The fields of `model.Inbound` that the link updates read.
pub record Inbound : Type 0 where
  pub id : ℕ
  pub tag : String

pub record Changes : Type 0 where
  pub date_time : ℕ
  pub actor : String
  pub key : String
  pub action : String
  pub obj : String
