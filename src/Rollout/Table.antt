-- ===== src/Rollout/Table.antt =====
-- control-plane/internal/store/rollout.go: the table of the agents' update states of one rollout;
-- engine.go: the operations that write it, and the wait for a wave that reads it.
use icmp_mon.Base.{
  ℕ, ◌+◌, ◌*◌, ◌/◌, String, List, [], ◌∷◌, Option, none, some, Bool, true, false, if◌then◌else◌,
  ltb, leb, eqb, ◌==◌, ◌&&◌, count_where,
}
use icmp_mon.Rollout.{AgentUpdateState, UpdateStatus}

abbrev pub coalesce {ℓ} : {A : Type ℓ} → Option A → Option A → Option A
coalesce none b = b
coalesce (some a) b = some a

-- `SetRolloutAgentState`: `INSERT … ON CONFLICT (rollout_id, agent_id) DO UPDATE`.
unfoldable pub set_agent_state : AgentUpdateState → List AgentUpdateState → List AgentUpdateState
set_agent_state s [] = s ∷ []
set_agent_state s (row ∷ rows) =
    if row.agent_id == s.agent_id
    then record row {
      wave = s.wave;
      status = s.status;
      started_at = coalesce s.started_at row.started_at;
      completed_at = s.completed_at;
      error = s.error;
    }
      ∷ rows
    else row ∷ set_agent_state s rows

-- `notifyAgentUpdate`
unfoldable pub notify_agent_update :
    String → String → ℕ → ℕ → List AgentUpdateState → List AgentUpdateState
notify_agent_update version agent_id wave now = set_agent_state (record {
  agent_id = agent_id;
  agent_name = "";
  wave = wave;
  status = UpdateStatus.updating;
  from_version = "";
  to_version = version;
  started_at = some now;
  completed_at = none;
  error = "";
})

-- `ReportAgentUpdate`
unfoldable pub report_agent_update :
    String → Bool → String → ℕ → List AgentUpdateState → List AgentUpdateState
report_agent_update agent_id success err now = set_agent_state (record {
  agent_id = agent_id;
  agent_name = "";
  wave = 0;
  status = if success then UpdateStatus.updated else UpdateStatus.failed;
  from_version = "";
  to_version = "";
  started_at = none;
  completed_at = some now;
  error = if success then "" else err;
})

abbrev pub is_updated : UpdateStatus → Bool
is_updated UpdateStatus.updated = true
is_updated _ = false

abbrev pub is_failed : UpdateStatus → Bool
is_failed UpdateStatus.failed = true
is_failed _ = false

abbrev pub updated_in : ℕ → List AgentUpdateState → ℕ
updated_in wave = count_where (λ s. eqb s.wave wave && is_updated s.status)

abbrev pub failed_in : ℕ → List AgentUpdateState → ℕ
failed_in wave = count_where (λ s. eqb s.wave wave && is_failed s.status)

-- What one tick of `waitForWaveCompletion` decides. `panics` is the division by a count of zero.
pub data Poll : Type 0 where
  keep_waiting complete panics : Poll
  threshold_exceeded : ℕ → Poll

unfoldable pub poll_wave : ℕ → ℕ → ℕ → List AgentUpdateState → Poll
poll_wave threshold wave expected states =
    let done = updated_in wave states in
    let bad = failed_in wave states in
    let rest = if leb expected (done + bad) then complete else keep_waiting in
    if ltb 0 bad
    then if eqb expected 0
      then panics
      else if leb threshold (bad * 100 / expected)
      then threshold_exceeded (bad * 100 / expected)
      else rest
    else rest

-- What the `select` of the wait receives: the context's end, the timer of 30 minutes, or a tick
-- with the answer of `GetAgentUpdateStates` (`none`: the query failed).
pub data WaitEvent : Type 0 where
  cancelled timed_out : WaitEvent
  tick : Option (List AgentUpdateState) → WaitEvent

pub data WaitResult : Type 0 where
  still_waiting wave_complete context_cancelled wave_timed_out wave_panics : WaitResult
  wave_failures : ℕ → WaitResult

-- `waitForWaveCompletion`, over the events that it receives in order.
unfoldable pub wait_for_wave : ℕ → ℕ → ℕ → List WaitEvent → WaitResult
wait_for_wave threshold wave expected [] = still_waiting
wait_for_wave threshold wave expected (cancelled ∷ events) = context_cancelled
wait_for_wave threshold wave expected (timed_out ∷ events) = wave_timed_out
wait_for_wave threshold wave expected (tick none ∷ events) =
    wait_for_wave threshold wave expected events
wait_for_wave threshold wave expected (tick (some states) ∷ events) =
    elim (poll_wave threshold wave expected states) [
      | keep_waiting ↦ wait_for_wave threshold wave expected events
      | complete ↦ wave_complete
      | panics ↦ wave_panics
      | threshold_exceeded p ↦ wave_failures p
    ]
