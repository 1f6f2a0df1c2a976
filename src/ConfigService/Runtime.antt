-- ===== src/ConfigService/Runtime.antt =====
-- Where starts, restarts and the restoring of service/config.go leave the core.
use mathlib.Core.Path.{subst}
use s_ui_next.ConfigService.{
  Attempt, Core, stopped, running, start, stop, start_after, restart_core_with_raw,
  restore_runtime_state,
}
use s_ui_next.Prelude.{
  ◌≡◌, ◌⊎◌, refl, sym, arith, Bool, true, false, ◌&&◌, Bool-cases, inl, inr, if◌then◌else◌,
}

module _ {κ} {C : Type κ} where
  start-running :
      (a : Attempt) (config : C) (core : Core C)
      → (start a config core).1 ≡ true
      → (start a config core).0 ≡ running config
  unfolding start
  start-running a config core e = elim (Bool-cases a.reads) [
    | inl y ↦ rw y (elim (Bool-cases (a.builds && a.starts)) [
      | inl z ↦ rw z refl
      | inr n ↦ absurd (ground (arith, e, y, n))
    ])
    | inr n ↦ absurd (ground (arith, e, n))
  ]

  -- Where a start leaves a core that was stopped.
  start-stopped :
      (a : Attempt) (config : C)
      → ((start a config stopped).0 ≡ stopped) ⊎ ((start a config stopped).0 ≡ running config)
  unfolding start
  start-stopped a config = elim (Bool-cases a.reads) [
    | inl y ↦ rw y (elim (Bool-cases (a.builds && a.starts)) [
      | inl z ↦ rw z (inr refl)
      | inr n ↦ rw n (inl refl)
    ])
    | inr n ↦ rw n (inl refl)
  ]

  start_after-running :
      (a : Attempt) (config : C) (r : Core C × Bool)
      → (start_after a config r).1 ≡ true
      → (start_after a config r).0 ≡ running config
  start_after-running a config (core, true) e = start-running a config core e
  start_after-running a config (core, false) e = cc

  pub restart-running :
      (in_progress : Bool) (a : Attempt) (config : C) (core : Core C)
      → (restart_core_with_raw in_progress a config core).1 ≡ true
      → (restart_core_with_raw in_progress a config core).0 ≡ running config
  unfolding restart_core_with_raw
  restart-running in_progress a config core e = elim (Bool-cases in_progress) [
    | inl y ↦ absurd (ground (arith, e, y))
    | inr n ↦ rw n (
        start_after-running a config (if core.is_running then stop a core else (core, true))
          (rw (n, restart_core_with_raw) at e))
  ]

  pub restart-stopped :
      (in_progress : Bool) (a : Attempt) (config : C)
      → ((restart_core_with_raw in_progress a config stopped).0 ≡ stopped)
        ⊎ ((restart_core_with_raw in_progress a config stopped).0 ≡ running config)
  unfolding restart_core_with_raw
  restart-stopped in_progress a config = elim (Bool-cases in_progress) [
    | inl y ↦ rw y (inl refl)
    | inr n ↦ rw n (start-stopped a config)
  ]

  -- A core that was stopped before a restart is stopped again by the restoring.
  pub restore-stopped :
      (in_progress : Bool) (a : Attempt) (old : C) (core : Core C)
      → (core ≡ stopped) ⊎ ((config : C) × (core ≡ running config))
      → (restore_runtime_state in_progress a old false core).0 ≡ stopped
  unfolding restore_runtime_state stop
  restore-stopped in_progress a old core (inl h) =
      subst (λ (c : Core C). (restore_runtime_state in_progress a old false c).0 ≡ stopped) (sym h)
        refl
  restore-stopped in_progress a old core (inr (config, h)) =
      subst (λ (c : Core C). (restore_runtime_state in_progress a old false c).0 ≡ stopped) (sym h)
        refl

  -- One that ran is run again with the old configuration, where the restoring succeeds.
  pub restore-running :
      (in_progress : Bool) (a : Attempt) (old : C) (core : Core C)
      → (restore_runtime_state in_progress a old true core).1 ≡ true
      → (restore_runtime_state in_progress a old true core).0 ≡ running old
  unfolding restore_runtime_state
  restore-running in_progress a old core e = restart-running in_progress a old core e
