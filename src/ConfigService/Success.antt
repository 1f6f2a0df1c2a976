-- ===== src/ConfigService/Success.antt =====
-- What a save of the configuration (service/config.go) that succeeds has done.
use mathlib.Core.Path.{subst}
use s_ui_next.ConfigService.{
  core_missing, Core, running, restart_core_with_raw, restore_runtime_state, SaveError,
  commit_failed, apply_failed, apply_failed_broken, commit_failed_broken, config_unreadable,
  begin_failed, save_failed, staged_unreadable, check_failed, change_not_logged, need, check, World,
  Outcomes, Store, stage, undone, commit_staged, commit_applied, finish_save,
  save_config_with_apply, save_endpoint_with_apply,
}
use s_ui_next.ConfigService.Apply.{need-some}
use s_ui_next.ConfigService.Runtime.{restart-running}
use s_ui_next.Prelude.{
  ok-inj, ℕ, ◌≡◌, ◌∙◌, refl, sym, ap, Bool, true, false, some, Bool-cases, inl, inr, Result, ok,
  err, bind-elim,
}

check-true : (b : Bool) (e : SaveError) {u : Unit {0}} → check b e ≡ ok u → b ≡ true
check-true true e h = refl
check-true false e h = cc

module _ {ℓ κ} {D : Type ℓ} {C : Type κ} (db : Store D C) where
  open db use {get_config, save, log_change, validates}

  -- The database has what was saved and the row of the change, its configuration was checked, and the
  -- core runs it.
  abbrev pub IsApplied : ℕ → World D C → World D C → Type (ℓ ⊔ κ)
  IsApplied dt before after =
      (saved : D) × (config : C) × (save before.database ≡ some saved)
      × (get_config saved ≡ some config)
      × (validates config ≡ true)
      × (log_change saved ≡ some after.database)
      × (after.core ≡ running config)
      × (after.last_update ≡ dt)

  not_saved :
      {u : Unit {0}} (e : SaveError) → ◌≡◌ {A = Result SaveError (Unit {0})} (err e) (ok u) → ⊥
  not_saved e h = cc

  abbrev Committed : ℕ → D → Core C → World D C → Type (ℓ ⊔ κ)
  Committed dt staged core after =
      (after.database ≡ staged) × (after.core ≡ core) × (after.last_update ≡ dt)

  undone-fails :
      (w : World D C) (a b : SaveError) (r : Core C × Bool) {u : Unit {0}}
      → (undone db w a b r).1 ≡ ok u
      → ⊥
  undone-fails w a b (core, true) h = cc
  undone-fails w a b (core, false) h = cc

  commit_staged-Committed :
      (o : Outcomes) (broken : SaveError) (dt : ℕ) (w : World D C) (old : C) (staged : D)
      (core : Core C) {u : Unit {0}}
      → (commit_staged db o true broken dt w old staged core).1 ≡ ok u
      → Committed dt staged core (commit_staged db o true broken dt w old staged core).0
  unfolding commit_staged
  commit_staged-Committed o broken dt w old staged core e = elim (Bool-cases o.commits) [
    | inl y ↦ rw y (refl, refl, refl)
    | inr n ↦ absurd (
        undone-fails w commit_failed broken
          (restore_runtime_state o.restoring_in_progress o.restoring old w.core.is_running core)
          (rw (n, commit_staged) at e))
  ]

  commit_applied-Committed :
      (o : Outcomes) (broken : SaveError) (dt : ℕ) (w : World D C) (old config : C) (staged : D)
      (r : Core C × Bool) {u : Unit {0}}
      → (r.1 ≡ true → r.0 ≡ running config)
      → (commit_applied db o broken dt w old staged r).1 ≡ ok u
      → Committed dt staged (running config) (commit_applied db o broken dt w old staged r).0
  commit_applied-Committed o broken dt w old config staged (core, true) k e =
      let (d, c, l) = commit_staged-Committed o broken dt w old staged core e in (d, c ∙ k refl, l)
  commit_applied-Committed o broken dt w old config staged (core, false) k e = absurd (
      undone-fails w apply_failed apply_failed_broken
        (restore_runtime_state o.restoring_in_progress o.restoring old w.core.is_running core) e)

  -- What the stage has read and written.
  abbrev Staged : D → C × D × C → Type (ℓ ⊔ κ)
  Staged database x =
      (saved : D) × (save database ≡ some saved)
      × (get_config saved ≡ some (x.2))
      × (validates (x.2) ≡ true)
      × (log_change saved ≡ some (x.1))

  stage-Staged :
      (has_core begins : Bool) (database : D) (x : C × D × C)
      → stage db has_core begins database ≡ ok x
      → Staged database x
  unfolding stage
  stage-Staged has_core begins database x e =
      bind-elim (check has_core core_missing) _ e (λ c q0 e0.
        bind-elim (need config_unreadable (get_config database)) _ e0 (λ old q e1.
          bind-elim (check begins begin_failed) _ e1 (λ u q1 e2.
            bind-elim (need save_failed (save database)) _ e2 (λ saved q2 e3.
              bind-elim (need staged_unreadable (get_config saved)) _ e3 (λ staged q3 e4.
                bind-elim (check (validates staged) check_failed) _ e4 (λ v q4 e5.
                  bind-elim (need change_not_logged (log_change saved)) _ e5 (λ logged q5 e6.
                    subst (Staged database) (ok-inj e6) (
                      saved,
                      need-some save_failed (save database) q2,
                      need-some staged_unreadable (get_config saved) q3,
                      check-true (validates staged) check_failed q4,
                      need-some change_not_logged (log_change saved) q5,
                    ))))))))

  finish_save-IsApplied :
      (o : Outcomes) (broken : SaveError) (dt : ℕ) (w : World D C)
      (r : Result SaveError (C × D × C)) {u : Unit {0}}
      → ((x : C × D × C) → r ≡ ok x → Staged w.database x)
      → (finish_save db o true broken dt w r).1 ≡ ok u
      → IsApplied dt w (finish_save db o true broken dt w r).0
  finish_save-IsApplied o broken dt w (err d) k e = absurd (not_saved d e)
  finish_save-IsApplied o broken dt w (ok (old, staged, config)) k e =
      let (saved, q, q1, q2, q3) = k (old, staged, config) refl in
      let (d, c, l) =
        commit_applied-Committed o broken dt w old config staged
          (restart_core_with_raw o.in_progress o.applying config w.core)
          (restart-running o.in_progress o.applying config w.core) e in
      (saved, config, q, q1, q2, q3 ∙ ap some (sym d), c, l)

  -- A save of the configuration that is applied and succeeds has stored what it was to store and the
  -- row of the change, and the core runs the configuration of the stored database, which was checked.
  pub saved_config-IsApplied :
      (o : Outcomes) (dt : ℕ) (w : World D C)
      → (save_config_with_apply db o true dt w).1 ≡ ok tt
      → IsApplied dt w (save_config_with_apply db o true dt w).0
  unfolding save_config_with_apply
  saved_config-IsApplied o dt w e =
      finish_save-IsApplied o commit_failed_broken dt w (stage db o.has_core o.begins w.database)
        (stage-Staged o.has_core o.begins w.database) e

  pub saved_endpoint-IsApplied :
      (o : Outcomes) (dt : ℕ) (w : World D C)
      → (save_endpoint_with_apply db o true dt w).1 ≡ ok tt
      → IsApplied dt w (save_endpoint_with_apply db o true dt w).0
  unfolding save_endpoint_with_apply
  saved_endpoint-IsApplied o dt w e =
      finish_save-IsApplied o commit_failed dt w (stage db true o.begins w.database)
        (stage-Staged true o.begins w.database) e
