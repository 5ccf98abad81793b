-- ===== src/Enrollment/Reload.antt =====
-- What is left of an enrollment that is stored and loaded again.
use icmp_mon.Base.{ap, ◌∙◌, ◌&&◌, ◌++◌, if-true, false, ◌≡◌, refl, String, [], ◌∷◌, true, arith}
use icmp_mon.Enrollment.{Enrollment, to_store_enrollment, to_enrollment}
use icmp_mon.Enrollment.Steps.{step_connect}
use icmp_mon.Enrollment.Host.{Host, Work, Outcome, add_once, key_usable}
use icmp_mon.Enrollment.Run.{stages, connecting, marked, start_index}

-- An enrollment that is stored and loaded keeps its steps, its state, its counters and what was
-- detected, and loses its changes, the API key, the Tailscale address, the wish to try the key first,
-- and the URL of the control plane.
pub to_enrollment-to_store :
    (e : Enrollment)
    → to_enrollment (to_store_enrollment e) ≡ record e {
      tailscale_ip = "";
      api_key = "";
      api_key_hash = "";
      changes = [];
      try_key_first = false;
      control_plane_url = "";
    }
unfolding to_enrollment to_store_enrollment
to_enrollment-to_store e = refl

-- After a connection by the key, an enrollment that had completed nothing resumes with the fifth
-- step: the second, the detection, is left out.
pub step_connect-skips :
    (host : Host) (password : String) (w : Work)
    → w.enrollment.try_key_first ≡ true
    → key_usable host ≡ true
    → w.enrollment.steps_completed ≡ []
    → start_index
        (marked connecting (step_connect host true password w).1.enrollment).steps_completed
        stages
        0
        0
      ≡ 4
unfolding step_connect
step_connect-skips host password w h k e =
    let both : (w.enrollment.try_key_first && key_usable host) ≡ true = ground arith in
    ap
      (λ (r : Outcome × Work).
        start_index (marked connecting r.1.enrollment).steps_completed stages 0 0)
      (if-true _ _ _ both)
    ∙ ap
        (λ steps.
          start_index (add_once "hardening" (add_once "key_installing" steps) ++ "connecting" ∷ [])
            stages 0 0)
        e
