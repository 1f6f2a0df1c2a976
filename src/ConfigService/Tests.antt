-- ===== src/ConfigService/Tests.antt =====
-- Saves of a configuration that is a number, and the theorems at them.
use s_ui_next.ConfigService.{
  Attempt, running, start, stop, restart_core_with_raw, restore_runtime_state, apply_failed, World,
  Outcomes, Store, stage, commit_staged, save_config_with_apply, save_endpoint_with_apply,
}
use s_ui_next.ConfigService.Apply.{failed_config_save-same}
use s_ui_next.ConfigService.Success.{IsApplied, saved_config-IsApplied}
use s_ui_next.ConfigService.Redact.{is_secret_key, redact_value, hides_secrets, redact_value-hides}
use s_ui_next.GoText.{Unicode, map_chars, contains}
use s_ui_next.JsonValue.{Value, json_string, array, object, of_map, of_list}
use s_ui_next.Prelude.{[], ◌∷◌, ℕ, ◌+◌, ◌≡◌, refl, inr, true, false, some}

program : Unit {0}
unfolding start stop restart_core_with_raw restore_runtime_state stage commit_staged
    save_config_with_apply save_endpoint_with_apply
program = tt

-- The database is the configuration and how many changes were logged.
abbrev db : Store (ℕ × ℕ) ℕ
db = record {
  get_config = λ d. some d.0;
  save = λ d. some (9, d.1);
  log_change = λ d. some (d.0, d.1 + 1);
  validates = λ c. true;
}

abbrev works : Attempt
works = record { reads = true; builds = true; starts = true; closes = true }

abbrev fails : Attempt
fails = record works { starts = false }

abbrev good : Outcomes
good = record {
  begins = true;
  commits = true;
  has_core = true;
  in_progress = false;
  restoring_in_progress = false;
  applying = works;
  restoring = works;
}

abbrev world : World (ℕ × ℕ) ℕ
world = record { database = (4, 0); core = running 4; last_update = 1 }

applied :
    (save_config_with_apply db good true 6 world).0
    ≡ record { database = (9, 1); core = running 9; last_update = 6 }
unfolding program
applied = refl

failed_config_save-same_example :
    (save_config_with_apply db (record good { applying = fails }) true 6 world).0 ≡ world
unfolding program
failed_config_save-same_example =
    failed_config_save-same db (record good { applying = fails }) true 6 world apply_failed
      (inr (4, refl, refl)) refl refl

saved_config-IsApplied_example :
    IsApplied db 6 world (save_config_with_apply db good true 6 world).0
unfolding program
saved_config-IsApplied_example = saved_config-IsApplied db good 6 world refl

abbrev unicode : Unicode
unicode = record { lower = λ c. c; upper = λ c. c; fold = λ c. c }

abbrev change : Value
change = object (
    (
      "peers",
      array (object (("pre_shared_key", json_string "k") ∷ ("name", json_string "n") ∷ []) ∷ []),
    )
    ∷ [])

hides :
    redact_value unicode change
    ≡ object (
        (
          "peers",
          array (
              object (("pre_shared_key", json_string "[redacted]") ∷ ("name", json_string "n") ∷ [])
              ∷ []),
        )
        ∷ [])
unfolding redact_value is_secret_key map_chars contains of_map of_list
hides = refl

redact_value-hides_example : hides_secrets unicode (redact_value unicode change) ≡ true
redact_value-hides_example = redact_value-hides unicode change
