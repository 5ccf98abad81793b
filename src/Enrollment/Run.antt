-- ===== src/Enrollment/Run.antt =====
-- `runEnrollment`, `runEnrollmentWithKey` with `runRemainingSteps`, and `handleError`. Each step has a
-- turn: the answers to its calls, whether the context is cancelled when it begins, and whether the
-- updates of the row succeed. The log rows are left out.
use icmp_mon.Base.{
  ℕ, ◌+◌, ◌*◌, ◌/◌, String, List, [], ◌∷◌, ◌++◌, none, some, Bool, true, false, not, if◌then◌else◌,
  contains, drop,
}
use icmp_mon.Enrollment.{Enrollment, State, Row, update_enrollment, row_after}
use icmp_mon.Enrollment.Steps.{
  step_connect, step_detect, step_install_key, step_harden, step_install_tailscale,
  step_install_dependencies, step_install_agent, step_start_agent, step_verify_registration,
}
use icmp_mon.Enrollment.Host.{
  Outcome, Host, Service, Work, Step, done, blocked, panicked, failed_with, StepError,
  enrollment_cancelled, no_provisioning_key, no_private_key, connection_failed,
}

-- The entries of the table `steps`.
pub data Stage : Type 0 where
  connecting detecting key_installing hardening tailscale dependencies : Stage
  agent_installing starting registering : Stage

abbrev pub stages : List Stage
stages =
    connecting ∷ detecting ∷ key_installing ∷ hardening ∷ tailscale ∷ dependencies
    ∷ agent_installing ∷ starting ∷ registering ∷ []

abbrev pub name_of : Stage → String
name_of connecting = "connecting"
name_of detecting = "detecting"
name_of key_installing = "key_installing"
name_of hardening = "hardening"
name_of tailscale = "tailscale"
name_of dependencies = "dependencies"
name_of agent_installing = "agent_installing"
name_of starting = "starting"
name_of registering = "registering"

abbrev pub state_of : Stage → State
state_of connecting = State.connecting
state_of detecting = State.detecting
state_of key_installing = State.key_installing
state_of hardening = State.hardening
state_of tailscale = State.tailscale
state_of dependencies = State.dependencies
state_of agent_installing = State.agent_installing
state_of starting = State.starting
state_of registering = State.registering

unfoldable pub run_stage : Service → Host → Bool → String → Stage → Step
unfolding step_connect step_detect step_install_key step_harden step_install_tailscale
    step_install_dependencies step_install_agent step_start_agent step_verify_registration
run_stage service host listening password connecting = step_connect host listening password
run_stage service host listening password detecting = step_detect service host listening
run_stage service host listening password key_installing = step_install_key host listening
run_stage service host listening password hardening = step_harden host listening
run_stage service host listening password tailscale = step_install_tailscale service host listening
run_stage service host listening password dependencies = step_install_dependencies host listening
run_stage service host listening password agent_installing = step_install_agent host listening
run_stage service host listening password starting = step_start_agent host listening
run_stage service host listening password registering =
    step_verify_registration service host listening

-- One more than the place of the last stage whose name is among the completed steps.
abbrev pub start_index : List String → List Stage → ℕ → ℕ → ℕ
start_index completed [] place start = start
start_index completed (stage ∷ rest) place start =
    start_index completed rest (place + 1)
      (if contains completed (name_of stage) then place + 1 else start)

pub data EventType : Type 0 where
  step_event log_event error_event complete_event : EventType

-- An event that the loop sends with `sendEvent`.
pub record Event : Type 0 where
  pub event_type : EventType
  pub step : String
  pub progress : ℕ

pub record Turn : Type 0 where
  pub host : Host
  pub cancelled : Bool
  pub saves : Bool

-- A run: its enrollment and session, the row, and the events so far.
pub record Run : Type 0 where
  pub work : Work
  pub row : Row
  pub sent : List Event

pub data Ending : Type 0 where
  completed hung crashed : Ending
  stopped : StepError → Ending

abbrev pub emit : EventType → String → ℕ → Run → Run
emit kind step progress r = record r {
  sent = r.sent ++ (record { event_type = kind; step = step; progress = progress } ∷ []);
}

-- A change of the enrollment, and the update of its row, whose error is not looked at.
unfoldable pub save : Bool → (Enrollment → Enrollment) → Run → Run
unfolding update_enrollment
save saves change r =
    let e = change r.work.enrollment in
    record r {
      work = record r.work { enrollment = e };
      row = row_after r.row (update_enrollment saves e r.row);
    }

-- `handleError`
unfoldable pub handle_error : Service → Bool → StepError → Run → Ending × Run
unfolding save
handle_error service saves err r = (
  stopped err,
  emit error_event r.work.enrollment.current_step 0
      (save saves (λ e. record e { state = State.failed; last_error = service.error_text err }) r),
)

abbrev pub begun : Stage → Enrollment → Enrollment
begun stage e = record e { state = state_of stage; current_step = name_of stage }

abbrev pub marked : Stage → Enrollment → Enrollment
marked stage e = record e { steps_completed = e.steps_completed ++ (name_of stage ∷ []) }

abbrev pub finished : ℕ → Enrollment → Enrollment
finished now e = record e { state = State.complete; completed_at = some now }

-- `(i + 1) * progressPerStep`, with the division of `100 / len(steps)`.
abbrev pub progress_at : ℕ → ℕ
progress_at place = (place + 1) * (100 / 9)

-- What a stage starts from, and what it leaves if it is done.
abbrev pub opening : Turn → ℕ → Stage → Run → Run
opening turn place stage r =
    emit step_event (name_of stage) (progress_at place) (save turn.saves (begun stage) r)

abbrev pub closing : Turn → ℕ → Stage → Work → Run → Run
closing turn place stage w r =
    emit log_event (name_of stage) (progress_at place)
      (save turn.saves (marked stage) (record r { work = w }))

-- The loop over the remaining stages.
unfoldable pub run_steps :
    Service → (Stage → Turn) → Bool → String → ℕ → List Stage → ℕ → Run → Ending × Run
unfolding save handle_error run_stage
run_steps service turns listening password now [] place r =
    (completed, emit complete_event "" 100 (save (turns registering).saves (finished now) r))
run_steps service turns listening password now (stage ∷ rest) place r =
    let turn = turns stage in
    let started = opening turn place stage r in
    let result = run_stage service turn.host listening password stage started.work in
    let left = record started { work = result.1 } in
    elim turn.cancelled [
      | true ↦ handle_error service turn.saves enrollment_cancelled r
      | false ↦ elim result.0 [
        | done ↦
            run_steps service turns listening password now rest (place + 1)
              (closing turn place stage result.1 started)
        | blocked ↦ (hung, left)
        | panicked ↦ (crashed, left)
        | failed_with err ↦ handle_error service turn.saves err left
      ]
    ]

-- How a run goes on from the outcome of its next stage, as in the clause above.
abbrev pub after_stage :
    Service
    → (Stage → Turn)
    → Bool
    → String
    → ℕ
    → Stage
    → List Stage
    → ℕ
    → Run
    → Work
    → Outcome
    → Ending × Run
after_stage service turns listening password now stage rest place started w o = elim o [
  | done ↦
      run_steps service turns listening password now rest (place + 1)
        (closing (turns stage) place stage w started)
  | blocked ↦ (hung, record started { work = w })
  | panicked ↦ (crashed, record started { work = w })
  | failed_with err ↦ handle_error service (turns stage).saves err (record started { work = w })
]

abbrev pub begin_at : Run → ℕ
begin_at r = start_index r.work.enrollment.steps_completed stages 0 0

-- `runRemainingSteps`, and the body of `runEnrollment` after its start.
unfoldable pub run_remaining_steps :
    Service → (Stage → Turn) → Bool → String → ℕ → Run → Ending × Run
unfolding run_steps
run_remaining_steps service turns listening password now r =
    run_steps service turns listening password now (drop (begin_at r) stages) (begin_at r) r

abbrev pub with_start : ℕ → Run → Run
with_start now r = record r {
  work = record r.work { enrollment = record r.work.enrollment { started_at = some now } };
}

-- `runEnrollment`
unfoldable pub run_enrollment : Service → (Stage → Turn) → Bool → String → ℕ → Run → Ending × Run
unfolding run_remaining_steps
run_enrollment service turns listening password now r =
    run_remaining_steps service turns listening password now (with_start now r)

-- The session that a connection by the key opens.
abbrev pub reconnected : Host → Run → Run
reconnected host r = record r { work = record r.work { session = some (some host.detects) } }

-- `runEnrollmentWithKey`; `first` has the answers to the calls before the steps.
unfoldable pub run_enrollment_with_key :
    Service → Turn → (Stage → Turn) → Bool → ℕ → Run → Ending × Run
unfolding run_remaining_steps handle_error
run_enrollment_with_key service first turns listening now r =
    let started = emit step_event "reconnecting" 0 (with_start now r) in
    elim first.host.provisioning_key [
      | none ↦ handle_error service first.saves no_provisioning_key started
      | some pair ↦
          if not (first.host.private_key pair.name)
          then handle_error service first.saves no_private_key started
          else if not first.host.key_connects
          then handle_error service first.saves connection_failed started
          else run_remaining_steps service turns listening "" now
              (emit log_event "reconnecting" 0 (reconnected first.host started))
    ]
