-- ===== src/ConfigService.antt =====
-- service/config.go and core/main.go: how a change of the configuration is checked, applied to the
-- running core and committed. Texts of a configuration are an argument type; so is the database, with
-- what is read of it and written to it. How each step of sing-box or gorm ends is an argument.
pub mod Runtime
pub mod Apply
pub mod Success
pub mod Redact
pub mod Tests
use s_ui_next.Prelude.{
  ℕ, ◌+◌, ◌-◌, ◌*◌, Bool, true, false, not, ◌&&◌, ◌||◌, List, [], ◌∷◌, Option, none, some, leb, ltb,
  if◌then◌else◌, Result, ok, err, ◌>>=◌,
}

-- How one start or stop of sing-box ends: reading the options, building, starting and closing the box.
pub record Attempt : Type 0 where
  pub reads : Bool
  pub builds : Bool
  pub starts : Bool
  pub closes : Bool

-- `Core`, where the instance is the configuration that it runs.
pub record Core {ℓ} (C : Type ℓ) : Type ℓ where
  pub is_running : Bool
  pub instance_of : Option C

module _ {ℓ} {C : Type ℓ} where
  abbrev pub stopped : Core C
  stopped = record { is_running = false; instance_of = none }

  abbrev pub running : C → Core C
  running config = record { is_running = true; instance_of = some config }

  -- `Start`: a box that cannot be built or started leaves no instance.
  unfoldable pub start : Attempt → C → Core C → Core C × Bool
  start a config core =
      if not a.reads
      then (core, false)
      else if not (a.builds && a.starts)
      then (record core { instance_of = none }, false)
      else (record { is_running = true; instance_of = some config }, true)

  abbrev closed : Attempt → Option C → Bool
  closed a none = true
  closed a (some config) = a.closes

  unfoldable pub stop : Attempt → Core C → Core C × Bool
  stop a core = (stopped, closed a core.instance_of)

  abbrev pub start_after : Attempt → C → Core C × Bool → Core C × Bool
  start_after a config (core, false) = (core, false)
  start_after a config (core, true) = start a config core

  -- `restartCoreWithRaw`; `in_progress` is whether another start holds the core.
  unfoldable pub restart_core_with_raw : Bool → Attempt → C → Core C → Core C × Bool
  unfolding start stop
  restart_core_with_raw in_progress a config core =
      if in_progress
      then (core, false)
      else start_after a config (if core.is_running then stop a core else (core, true))

  unfoldable pub restore_runtime_state : Bool → Attempt → C → Bool → Core C → Core C × Bool
  unfolding restart_core_with_raw stop
  restore_runtime_state in_progress a config was_running core =
      if was_running
      then restart_core_with_raw in_progress a config core
      else if core.is_running
      then stop a core
      else (core, true)

pub data SaveError : Type 0 where
  core_missing config_unreadable begin_failed save_failed staged_unreadable check_failed
        change_not_logged :
      SaveError
  apply_failed commit_failed : SaveError
  -- The same two, where the runtime could not be restored either.
  apply_failed_broken commit_failed_broken : SaveError

abbrev pub is_broken : SaveError → Bool
is_broken apply_failed_broken = true
is_broken commit_failed_broken = true
is_broken _ = false

-- The panel's state.
pub record World {ℓ κ} (D : Type ℓ) (C : Type κ) : Type (ℓ ⊔ κ) where
  pub database : D
  pub core : Core C
  pub last_update : ℕ

-- How the outer steps of one save end, whether the core is initialized, and the two restarts that the
-- save may try, each with whether another start holds the core then.
pub record Outcomes : Type 0 where
  pub begins : Bool
  pub commits : Bool
  pub has_core : Bool
  pub in_progress : Bool
  pub restoring_in_progress : Bool
  pub applying : Attempt
  pub restoring : Attempt

-- What is read and written: `get_config` is getConfigWithDB, `save` is SaveConfig or the Save of the
-- endpoints, `log_change` stores the row of the change, `validates` is ValidateConfig.
pub record Store {ℓ κ} (D : Type ℓ) (C : Type κ) : Type (ℓ ⊔ κ) where
  pub get_config : D → Option C
  pub save : D → Option D
  pub log_change : D → Option D
  pub validates : C → Bool

abbrev pub need {ℓ} : {A : Type ℓ} → SaveError → Option A → Result SaveError A
need e none = err e
need e (some a) = ok a

abbrev pub check : Bool → SaveError → Result SaveError (Unit {0})
check true e = ok tt
check false e = err e

module _ {ℓ κ} {D : Type ℓ} {C : Type κ} (db : Store D C) where
  open db use {get_config, save, log_change, validates}

  -- The transaction up to the apply: the old configuration, and the staged one with its database.
  unfoldable pub stage : Bool → Bool → D → Result SaveError (C × D × C)
  stage has_core begins database = do
    initialized ← check has_core core_missing
    old ← need config_unreadable (get_config database)
    begun ← check begins begin_failed
    saved ← need save_failed (save database)
    staged ← need staged_unreadable (get_config saved)
    valid ← check (validates staged) check_failed
    logged ← need change_not_logged (log_change saved)
    ok (old, logged, staged)

  abbrev pub undone :
      World D C → SaveError → SaveError → Core C × Bool → World D C × Result SaveError (Unit {0})
  undone w restored broken (core, true) = (record w { core = core }, err restored)
  undone w restored broken (core, false) = (record w { core = core }, err broken)

  -- The commit, after which a failure restores the runtime where it was changed.
  unfoldable pub commit_staged :
      Outcomes
      → Bool
      → SaveError
      → ℕ
      → World D C
      → C
      → D
      → Core C
      → World D C × Result SaveError (Unit {0})
  commit_staged o apply broken dt w old staged core =
      if o.commits
      then (record { database = staged; core = core; last_update = dt }, ok tt)
      else if apply
      then undone w commit_failed broken
          (restore_runtime_state o.restoring_in_progress o.restoring old w.core.is_running core)
      else (w, err commit_failed)

  abbrev pub commit_applied :
      Outcomes
      → SaveError
      → ℕ
      → World D C
      → C
      → D
      → Core C × Bool
      → World D C × Result SaveError (Unit {0})
  commit_applied o broken dt w old staged (core, true) =
      commit_staged o true broken dt w old staged core
  commit_applied o broken dt w old staged (core, false) =
      undone w apply_failed apply_failed_broken
        (restore_runtime_state o.restoring_in_progress o.restoring old w.core.is_running core)

  abbrev pub finish_save :
      Outcomes
      → Bool
      → SaveError
      → ℕ
      → World D C
      → Result SaveError (C × D × C)
      → World D C × Result SaveError (Unit {0})
  finish_save o apply broken dt w (err e) = (w, err e)
  finish_save o apply broken dt w (ok (old, staged, config)) =
      if apply
      then commit_applied o broken dt w old staged
          (restart_core_with_raw o.in_progress o.applying config w.core)
      else commit_staged o false broken dt w old staged w.core

  -- `saveConfigWithApply`
  unfoldable pub save_config_with_apply :
      Outcomes → Bool → ℕ → World D C → World D C × Result SaveError (Unit {0})
  unfolding stage
  save_config_with_apply o apply dt w =
      finish_save o apply commit_failed_broken dt w (stage o.has_core o.begins w.database)

  -- `saveEndpointWithApply`, which does not ask whether the core is initialized and does not report that a restart after a failed commit failed.
  unfoldable pub save_endpoint_with_apply :
      Outcomes → Bool → ℕ → World D C → World D C × Result SaveError (Unit {0})
  unfolding stage
  save_endpoint_with_apply o apply dt w =
      finish_save o apply commit_failed dt w (stage true o.begins w.database)
