-- ===== src/ConfigService/Apply.antt =====
-- What a save of the configuration (service/config.go) leaves behind.
use mathlib.Core.Option.{some-injective}
use mathlib.Core.Path.{subst}
use s_ui_next.ConfigService.{
  core_missing, Core, stopped, running, restart_core_with_raw, restore_runtime_state, SaveError,
  commit_failed, apply_failed, apply_failed_broken, commit_failed_broken, config_unreadable,
  begin_failed, save_failed, staged_unreadable, check_failed, change_not_logged, need, check,
  is_broken, World, Outcomes, Store, stage, undone, commit_staged, commit_applied, finish_save,
  save_config_with_apply, save_endpoint_with_apply,
}
use s_ui_next.Prelude.{
  ok-inj, ℕ, ◌≡◌, ◌∙◌, ◌⊎◌, refl, sym, ap, arith, Bool, true, false, Option, none, some, Bool-cases,
  inl, inr, Result, ok, err, bind-elim,
}
use s_ui_next.ConfigService.Runtime.{restart-stopped, restore-stopped, restore-running}

pub need-some {ℓ} :
    {A : Type ℓ} (e : SaveError) (o : Option A) {a : A} → need e o ≡ ok a → o ≡ some a
need-some e none h = cc
need-some e (some b) h = cc

module _ {ℓ κ} {D : Type ℓ} {C : Type κ} (db : Store D C) where
  open db use {get_config}

  -- The core is stopped, or runs the configuration that the database gives.
  abbrev pub IsSynced : World D C → Type κ
  IsSynced w =
      (w.core ≡ stopped)
      ⊎ ((config : C) × (get_config w.database ≡ some config) × (w.core ≡ running config))

  -- A core as a restart of this one leaves it.
  abbrev FromRestart : World D C → Core C → Type κ
  FromRestart w core =
      w.core ≡ stopped → (core ≡ stopped) ⊎ ((config : C) × (core ≡ running config))

  restored :
      (o : Outcomes) (w : World D C) (old : C) (core : Core C)
      → IsSynced w
      → get_config w.database ≡ some old
      → FromRestart w core
      → (restore_runtime_state o.restoring_in_progress o.restoring old w.core.is_running core).1
        ≡ true
      → (restore_runtime_state o.restoring_in_progress o.restoring old w.core.is_running core).0
        ≡ w.core
  restored o w old core (inl h) g f e =
      let was : w.core.is_running ≡ false = ap (λ (c : Core C). c.is_running) h in
      subst
        (λ (b : Bool).
          (restore_runtime_state o.restoring_in_progress o.restoring old b core).0 ≡ stopped)
        (sym was) (restore-stopped o.restoring_in_progress o.restoring old core (f h))
      ∙ sym h
  restored o w old core (inr (config, q, h)) g f e =
      let was : w.core.is_running ≡ true = ap (λ (c : Core C). c.is_running) h in
      let done =
        subst
          (λ (b : Bool).
            (restore_runtime_state o.restoring_in_progress o.restoring old b core).1 ≡ true)
          was e in
      subst
        (λ (b : Bool).
          (restore_runtime_state o.restoring_in_progress o.restoring old b core).0 ≡ running old)
        (sym was) (restore-running o.restoring_in_progress o.restoring old core done)
      ∙ (ap running (some-injective old config (sym g ∙ q)) ∙ sym h)

  abbrev err_of : SaveError → Result SaveError (Unit {0}) → SaveError
  err_of d (ok u) = d
  err_of d (err e) = e

  not_ok : {u : Unit {0}} (e : SaveError) → ◌≡◌ {A = Result SaveError (Unit {0})} (ok u) (err e) → ⊥
  not_ok e h = cc

  undone-same :
      (w : World D C) (restored_error broken e : SaveError) (r : Core C × Bool)
      → (r.1 ≡ true → r.0 ≡ w.core)
      → is_broken broken ≡ true
      → (undone db w restored_error broken r).1 ≡ err e
      → is_broken e ≡ false
      → (undone db w restored_error broken r).0 ≡ w
  undone-same w restored_error broken e (core, true) k b h n =
      ap (λ (c : Core C). record w { core = c }) (k refl)
  undone-same w restored_error broken e (core, false) k b h n =
      let same : broken ≡ e = ap (err_of broken) h in
      absurd (ground (arith, ap is_broken same, b, n))

  restart-FromRestart :
      (o : Outcomes) (w : World D C) (config : C)
      → FromRestart w (restart_core_with_raw o.in_progress o.applying config w.core).0
  restart-FromRestart o w config h =
      let r = restart-stopped o.in_progress o.applying config in
      subst
        (λ (c : Core C).
          ((restart_core_with_raw o.in_progress o.applying config c).0 ≡ stopped)
          ⊎ ((d : C) × ((restart_core_with_raw o.in_progress o.applying config c).0 ≡ running d)))
        (sym h) (elim r [ inl x ↦ inl x | inr x ↦ inr (config, x) ])

  commit_staged-same :
      (o : Outcomes) (apply : Bool) (broken e : SaveError) (dt : ℕ) (w : World D C) (old : C)
      (staged : D) (core : Core C)
      → IsSynced w
      → get_config w.database ≡ some old
      → FromRestart w core
      → (is_broken broken ≡ true) ⊎ (o.commits ≡ true)
      → (commit_staged db o apply broken dt w old staged core).1 ≡ err e
      → is_broken e ≡ false
      → (commit_staged db o apply broken dt w old staged core).0 ≡ w
  unfolding commit_staged
  commit_staged-same o apply broken e dt w old staged core h g f b k n =
      elim (Bool-cases o.commits) [
        | inl y ↦ absurd (not_ok e (rw (y, commit_staged) at k))
        | inr m ↦ rw m (elim (Bool-cases apply) [
          | inl y ↦ rw y (
              undone-same w commit_failed broken e
                (restore_runtime_state o.restoring_in_progress o.restoring old w.core.is_running
                  core)
                (restored o w old core h g f)
                (elim b [ inl x ↦ x | inr x ↦ absurd (ground (arith, x, m)) ])
                (rw (m, y, commit_staged) at k) n)
          | inr z ↦ rw z refl
        ])
      ]

  commit_applied-same :
      (o : Outcomes) (broken e : SaveError) (dt : ℕ) (w : World D C) (old : C) (staged : D)
      (r : Core C × Bool)
      → IsSynced w
      → get_config w.database ≡ some old
      → FromRestart w (r.0)
      → (is_broken broken ≡ true) ⊎ (o.commits ≡ true)
      → (commit_applied db o broken dt w old staged r).1 ≡ err e
      → is_broken e ≡ false
      → (commit_applied db o broken dt w old staged r).0 ≡ w
  commit_applied-same o broken e dt w old staged (core, true) h g f b k n =
      commit_staged-same o true broken e dt w old staged core h g f b k n
  commit_applied-same o broken e dt w old staged (core, false) h g f b k n =
      undone-same w apply_failed apply_failed_broken e
        (restore_runtime_state o.restoring_in_progress o.restoring old w.core.is_running core)
        (restored o w old core h g f) refl k n

  finish_save-same :
      (o : Outcomes) (apply : Bool) (broken e : SaveError) (dt : ℕ) (w : World D C)
      (r : Result SaveError (C × D × C))
      → IsSynced w
      → ((x : C × D × C) → r ≡ ok x → get_config w.database ≡ some (x.0))
      → (is_broken broken ≡ true) ⊎ (o.commits ≡ true)
      → (finish_save db o apply broken dt w r).1 ≡ err e
      → is_broken e ≡ false
      → (finish_save db o apply broken dt w r).0 ≡ w
  finish_save-same o apply broken e dt w (err d) h g b k n = refl
  finish_save-same o true broken e dt w (ok (old, staged, config)) h g b k n =
      commit_applied-same o broken e dt w old staged
        (restart_core_with_raw o.in_progress o.applying config w.core) h
        (g (old, staged, config) refl) (restart-FromRestart o w config) b k n
  finish_save-same o false broken e dt w (ok (old, staged, config)) h g b k n =
      commit_staged-same o false broken e dt w old staged w.core h (g (old, staged, config) refl)
        (λ x. inl x) b k n

  stage-old :
      (has_core begins : Bool) (database : D) (x : C × D × C)
      → stage db has_core begins database ≡ ok x
      → get_config database ≡ some (x.0)
  unfolding stage
  stage-old has_core begins database x e = bind-elim (check has_core core_missing) _ e (λ c q0 e0.
      bind-elim (need config_unreadable (get_config database)) _ e0 (λ old q e1.
        bind-elim (check begins begin_failed) _ e1 (λ u q1 e2.
          bind-elim (need save_failed (db.save database)) _ e2 (λ saved q2 e3.
            bind-elim (need staged_unreadable (get_config saved)) _ e3 (λ staged q3 e4.
              bind-elim (check (db.validates staged) check_failed) _ e4 (λ v q4 e5.
                bind-elim (need change_not_logged (db.log_change saved)) _ e5 (λ logged q5 e6.
                  need-some config_unreadable (get_config database) q
                  ∙ ap (λ (y : C × D × C). some (y.0)) (ok-inj e6))))))))

  -- A save of the configuration that fails leaves the database, the core and the time of the last
  -- change as they were, where the core was stopped or ran the configuration of the database, and the
  -- error does not say that the runtime could not be restored.
  pub failed_config_save-same :
      (o : Outcomes) (apply : Bool) (dt : ℕ) (w : World D C) (e : SaveError)
      → IsSynced w
      → (save_config_with_apply db o apply dt w).1 ≡ err e
      → is_broken e ≡ false
      → (save_config_with_apply db o apply dt w).0 ≡ w
  unfolding save_config_with_apply
  failed_config_save-same o apply dt w e h k n =
      finish_save-same o apply commit_failed_broken e dt w (stage db o.has_core o.begins w.database)
        h (stage-old o.has_core o.begins w.database) (inl refl) k n

  -- The same of an endpoint, whose error does not say that the restart after a failed commit failed:
  -- where the commit does not fail.
  pub failed_endpoint_save-same :
      (o : Outcomes) (apply : Bool) (dt : ℕ) (w : World D C) (e : SaveError)
      → IsSynced w
      → o.commits ≡ true
      → (save_endpoint_with_apply db o apply dt w).1 ≡ err e
      → is_broken e ≡ false
      → (save_endpoint_with_apply db o apply dt w).0 ≡ w
  unfolding save_endpoint_with_apply
  failed_endpoint_save-same o apply dt w e h c k n =
      finish_save-same o apply commit_failed e dt w (stage db true o.begins w.database) h
        (stage-old true o.begins w.database) (inr c) k n
