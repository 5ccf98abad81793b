-- ===== src/Enrollment/Frame.antt =====
-- What no step changes: the completed steps, the counter of retries, and the wish to try the key
-- first; `stepConnect` changes the first of them only where the last holds.
use icmp_mon.Enrollment.Run.{
  Stage, connecting, detecting, key_installing, hardening, tailscale, dependencies,
  agent_installing, starting, registering, run_stage,
}
use icmp_mon.Base.{
  String, false, some, branch, not, ◌==◌, ◌&&◌, ◌++◌, ◌∷◌, [], true, ◌+++◌, ◌≡◌, arith, Bool,
}
use icmp_mon.Enrollment.Steps.{
  step_connect, renamed, check_capabilities, set_hostname, step_detect, step_install_key,
  step_harden, step_install_tailscale, step_install_dependencies, step_install_agent,
  step_start_agent, step_verify_registration,
}
use icmp_mon.Enrollment.Host.{Outcome, SystemInfo, Host, Service, Work, Step}

-- The parts of an enrollment that the steps leave alone.
pub record Same (before after : Work) : Type 0 where
  pub steps : after.enrollment.steps_completed ≡ before.enrollment.steps_completed
  pub retries : after.enrollment.retry_count ≡ before.enrollment.retry_count
  pub key_first : after.enrollment.try_key_first ≡ before.enrollment.try_key_first

abbrev Keeps : Step → Type 0
Keeps step = (w : Work) → Same w (step w).1

step_harden-Same : (host : Host) (listening : Bool) → Keeps (step_harden host listening)
unfolding step_harden
step_harden-Same host listening w = ground arith

step_start_agent-Same : (host : Host) (listening : Bool) → Keeps (step_start_agent host listening)
unfolding step_start_agent
step_start_agent-Same host listening w = ground arith

check_capabilities-Same :
    (service : Service) (host : Host) → Keeps (check_capabilities service host)
unfolding check_capabilities
check_capabilities-Same service host w = ground arith

set_hostname-Same : (info : SystemInfo) (next : Step) → Keeps next → Keeps (set_hostname info next)
unfolding set_hostname
set_hostname-Same info next k w =
    branch (λ (r : Outcome × Work). Same w r.1)
      (not (w.enrollment.agent_name == "") && not (w.enrollment.agent_name == info.hostname))
      (λ _.
        let s = k (record w {
          enrollment = record w.enrollment {
            changes =
                w.enrollment.changes
                ++ (record {
                  change_type = "hostname_changed";
                  revertible = true;
                  revert_cmd = "hostnamectl set-hostname " +++ info.hostname;
                }
                    ∷ []);
          };
        }) in
        record { steps = s.steps; retries = s.retries; key_first = s.key_first })
      (λ _. k w)

step_detect-Same :
    (service : Service) (host : Host) (listening : Bool)
    → Keeps (step_detect service host listening)
unfolding step_detect
step_detect-Same service host listening w = ground (
  arith,
  set_hostname-Same host.detects (check_capabilities service host)
      (check_capabilities-Same service host)
      (record w {
        session = some (some host.detects);
        enrollment = renamed host.detects w.enrollment;
      }),
)

step_install_key-Same : (host : Host) (listening : Bool) → Keeps (step_install_key host listening)
unfolding step_install_key
step_install_key-Same host listening w = ground arith

step_install_tailscale-Same :
    (service : Service) (host : Host) (listening : Bool)
    → Keeps (step_install_tailscale service host listening)
unfolding step_install_tailscale
step_install_tailscale-Same service host listening w = ground arith

step_install_dependencies-Same :
    (host : Host) (listening : Bool) → Keeps (step_install_dependencies host listening)
unfolding step_install_dependencies
step_install_dependencies-Same host listening w = ground arith

step_install_agent-Same :
    (host : Host) (listening : Bool) → Keeps (step_install_agent host listening)
unfolding step_install_agent
step_install_agent-Same host listening w = ground arith

step_verify_registration-Same :
    (service : Service) (host : Host) (listening : Bool)
    → Keeps (step_verify_registration service host listening)
unfolding step_verify_registration
step_verify_registration-Same service host listening w = ground arith

step_connect-Same :
    (host : Host) (listening : Bool) (password : String) (w : Work)
    → w.enrollment.try_key_first ≡ false
    → Same w (step_connect host listening password w).1
unfolding step_connect
step_connect-Same host listening password w h = ground arith

-- No stage changes these parts, unless it connects by the key first.
pub run_stage-Same :
    (service : Service) (host : Host) (listening : Bool) (password : String) (stage : Stage)
    (w : Work)
    → w.enrollment.try_key_first ≡ false
    → Same w (run_stage service host listening password stage w).1
unfolding run_stage
run_stage-Same service host listening password connecting w h =
    step_connect-Same host listening password w h
run_stage-Same service host listening password detecting w h =
    step_detect-Same service host listening w
run_stage-Same service host listening password key_installing w h =
    step_install_key-Same host listening w
run_stage-Same service host listening password hardening w h = step_harden-Same host listening w
run_stage-Same service host listening password tailscale w h =
    step_install_tailscale-Same service host listening w
run_stage-Same service host listening password dependencies w h =
    step_install_dependencies-Same host listening w
run_stage-Same service host listening password agent_installing w h =
    step_install_agent-Same host listening w
run_stage-Same service host listening password starting w h = step_start_agent-Same host listening w
run_stage-Same service host listening password registering w h =
    step_verify_registration-Same service host listening w

step_connect-retries :
    (host : Host) (listening : Bool) (password : String) (w : Work)
    → (step_connect host listening password w).1.enrollment.retry_count ≡ w.enrollment.retry_count
unfolding step_connect
step_connect-retries host listening password w = ground arith

-- No stage changes the counter of retries.
pub run_stage-retries :
    (service : Service) (host : Host) (listening : Bool) (password : String) (stage : Stage)
    (w : Work)
    → (run_stage service host listening password stage w).1.enrollment.retry_count
      ≡ w.enrollment.retry_count
unfolding run_stage
run_stage-retries service host listening password connecting w =
    step_connect-retries host listening password w
run_stage-retries service host listening password detecting w =
    (step_detect-Same service host listening w).retries
run_stage-retries service host listening password key_installing w =
    (step_install_key-Same host listening w).retries
run_stage-retries service host listening password hardening w =
    (step_harden-Same host listening w).retries
run_stage-retries service host listening password tailscale w =
    (step_install_tailscale-Same service host listening w).retries
run_stage-retries service host listening password dependencies w =
    (step_install_dependencies-Same host listening w).retries
run_stage-retries service host listening password agent_installing w =
    (step_install_agent-Same host listening w).retries
run_stage-retries service host listening password starting w =
    (step_start_agent-Same host listening w).retries
run_stage-retries service host listening password registering w =
    (step_verify_registration-Same service host listening w).retries
