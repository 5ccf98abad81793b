-- ===== src/Enrollment/Sessions.antt =====
-- A run that goes on after the connection needs the entry of `activeSessions` that the connection
-- made; a failed registration and a restart of the process remove it.
use icmp_mon.Base.{
  branch, not, ℕ, zero, suc, ◌+◌, ◌≤◌, ◌≡◌, ◌≢◌, ◌⊎◌, sym, ap, ◌∙◌, subst, String, List, [], ◌∷◌,
  Bool, true, false, none, arith, inl, inr, drop,
}
use icmp_mon.Enrollment.Steps.{
  step_detect, step_install_key, step_harden, step_install_tailscale, step_install_dependencies,
  step_install_agent, step_start_agent, step_verify_registration,
}
use icmp_mon.Enrollment.Host.{
  Service, Host, Work, Outcome, send, finish, done, blocked, panicked, failed_with, no_session,
  enrollment_cancelled,
}
use icmp_mon.Enrollment.Run.{
  after_stage, Stage, stages, connecting, detecting, key_installing, hardening, tailscale,
  dependencies, agent_installing, starting, registering, Turn, Run, Ending, completed, run_stage,
  save, handle_error, run_steps, begin_at, run_remaining_steps, start_index, opening, closing,
}
use icmp_mon.Enrollment.Progress.{first, start_index-first}

-- The stages hold one that needs the session before any that opens it.
abbrev NeedsSession : List Stage → Type 0
NeedsSession [] = ⊥
NeedsSession (connecting ∷ rest) = ⊥
NeedsSession (tailscale ∷ rest) = NeedsSession rest
NeedsSession (stage ∷ rest) = Unit

NeedsSession-drop : (j : ℕ) → 1 ≤ j → j ≤ 8 → NeedsSession (drop j stages)
NeedsSession-drop zero l h = absurd (omega arith)
NeedsSession-drop (suc zero) l h = tt
NeedsSession-drop (suc (suc zero)) l h = tt
NeedsSession-drop (suc (suc (suc zero))) l h = tt
NeedsSession-drop (suc (suc (suc (suc zero)))) l h = tt
NeedsSession-drop (suc (suc (suc (suc (suc zero))))) l h = tt
NeedsSession-drop (suc (suc (suc (suc (suc (suc zero)))))) l h = tt
NeedsSession-drop (suc (suc (suc (suc (suc (suc (suc zero))))))) l h = tt
NeedsSession-drop (suc (suc (suc (suc (suc (suc (suc (suc zero)))))))) l h = tt
NeedsSession-drop (suc (suc (suc (suc (suc (suc (suc (suc (suc j))))))))) l h = absurd (omega arith)

-- What a stage does without a session, if more stages follow that need one.
abbrev Starved : List Stage → Outcome × Work → Type 0
Starved rest result =
    (result.0 ≡ failed_with no_session) ⊎ (NeedsSession rest × (result.1.session ≡ none))

step_install_tailscale-Starved :
    (service : Service) (host : Host) (listening : Bool) (rest : List Stage) (w : Work)
    → NeedsSession rest
    → w.session ≡ none
    → Starved rest (step_install_tailscale service host listening w)
unfolding step_install_tailscale
step_install_tailscale-Starved service host listening rest w n h =
    branch (λ (step : Work → Outcome × Work). Starved rest (step w)) (not service.tailscale_enabled)
      (λ _. send-Starved listening) (λ _. inl (ground arith))
  where
    send-Starved : (l : Bool) → Starved rest (send l finish w)
    send-Starved true = inr (n, h)
    send-Starved false = inr (n, h)

run_stage-Starved :
    (service : Service) (host : Host) (listening : Bool) (password : String) (stage : Stage)
    (rest : List Stage) (w : Work)
    → NeedsSession (stage ∷ rest)
    → w.session ≡ none
    → Starved rest (run_stage service host listening password stage w)
unfolding run_stage
run_stage-Starved service host listening password connecting rest w n h = absurd n
run_stage-Starved service host listening password detecting rest w n h =
    inl (unfold step_detect in ground arith)
run_stage-Starved service host listening password key_installing rest w n h =
    inl (unfold step_install_key in ground arith)
run_stage-Starved service host listening password hardening rest w n h =
    inl (unfold step_harden in ground arith)
run_stage-Starved service host listening password tailscale rest w n h =
    step_install_tailscale-Starved service host listening rest w n h
run_stage-Starved service host listening password dependencies rest w n h =
    inl (unfold step_install_dependencies in ground arith)
run_stage-Starved service host listening password agent_installing rest w n h =
    inl (unfold step_install_agent in ground arith)
run_stage-Starved service host listening password starting rest w n h =
    inl (unfold step_start_agent in ground arith)
run_stage-Starved service host listening password registering rest w n h =
    inl (unfold step_verify_registration in ground arith)

module _ (service : Service) (turns : Stage → Turn) (listening : Bool) (password : String)
    (now : ℕ) where
  after_stage-no_session :
      (stage : Stage) (rest : List Stage) (place : ℕ) (started : Run) (w : Work) (o : Outcome)
      → Starved rest (o, w)
      → ((r : Run)
          → NeedsSession rest
          → r.work.session ≡ none
          → (run_steps service turns listening password now rest (place + 1) r).0 ≢ completed)
      → (after_stage service turns listening password now stage rest place started w o).0
        ≢ completed
  unfolding save handle_error
  after_stage-no_session stage rest place started w done (inl e) ih = λ _. cc
  after_stage-no_session stage rest place started w done (inr (n, h)) ih =
      ih (closing (turns stage) place stage w started) n h
  after_stage-no_session stage rest place started w blocked s ih = λ e. cc
  after_stage-no_session stage rest place started w panicked s ih = λ e. cc
  after_stage-no_session stage rest place started w (failed_with err) s ih = λ e. cc

  run_steps-no_session :
      (rest : List Stage) (place : ℕ) (r : Run)
      → NeedsSession rest
      → r.work.session ≡ none
      → (run_steps service turns listening password now rest place r).0 ≢ completed
  unfolding run_steps save handle_error
  run_steps-no_session [] place r n h = absurd n
  run_steps-no_session (stage ∷ rest) place r n h =
      let started = opening (turns stage) place stage r in
      let result = run_stage service (turns stage).host listening password stage started.work in
      elim (turns stage).cancelled
        as (λ b.
          (elim b as (λ _. Ending × Run) [
            | true ↦ handle_error service (turns stage).saves enrollment_cancelled r
            | false ↦
                after_stage service turns listening password now stage rest place started result.1
                  result.0
          ]).0
          ≢ completed) [
            | true ↦ λ e. cc
            | false ↦
                after_stage-no_session stage rest place started result.1 result.0
                  (run_stage-Starved service (turns stage).host listening password stage rest
                    started.work n h)
                  (run_steps-no_session rest (place + 1))
          ]

  -- Without a session, an enrollment that has completed its first step and not its last never
  -- completes: no run of the remaining steps ends as completed, whatever the host answers.
  pub run_remaining_steps-no_session :
      (j : ℕ) (r : Run)
      → 1 ≤ j
      → j ≤ 8
      → r.work.enrollment.steps_completed ≡ first j
      → r.work.session ≡ none
      → (run_remaining_steps service turns listening password now r).0 ≢ completed
  unfolding run_remaining_steps
  run_remaining_steps-no_session j r l h c s =
      let at = ap (λ steps. start_index steps stages 0 0) c ∙ start_index-first j (omega arith) in
      run_steps-no_session (drop (begin_at r) stages) (begin_at r) r
        (subst (λ n. NeedsSession (drop n stages)) (sym at) (NeedsSession-drop j l h)) s
