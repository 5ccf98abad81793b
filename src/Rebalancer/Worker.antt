-- ===== src/Rebalancer/Worker.antt =====
-- control-plane/internal/worker/assignment_worker.go: what the assignment worker makes of the statuses
-- of the agents. Times are numbers; `now` and `asked` tell the clock when a transition of an agent is
-- recorded and when the worker asks whether it flaps. An assignment to a key of a map puts an entry in
-- front of the earlier ones. The two calls of the rebalancer are listed in their order: their errors
-- are only logged.
use icmp_mon.Base.{
  ℕ, ◌+◌, String, List, [], ◌∷◌, ◌++◌, Option, none, some, Bool, true, not, ◌&&◌, if◌then◌else◌,
  ltb, keep, lookup, length,
}
use icmp_mon.Types.Agent.{Agent, AgentStatus, is_active, is_offline}

pub record AssignmentWorkerConfig : Type 0 where
  pub flapping_threshold : ℕ
  pub flapping_window : ℕ

pub record AssignmentWorker : Type 0 where
  pub last_known_states : List (String × AgentStatus)
  pub transitions : List (String × List ℕ)
  pub initialized : Bool

pub data Call : Type 0 where
  handle_agent_failure handle_agent_recovery : String → Call

-- `w.transitions[agentID]`
abbrev pub transitions_of : String → AssignmentWorker → List ℕ
transitions_of id w = elim (lookup id w.transitions) [ none ↦ [] | some times ↦ times ]

-- `t.After(now.Add(-window))`
abbrev pub is_recent : ℕ → ℕ → ℕ → Bool
is_recent window now t = ltb now (t + window)

-- `recordTransition`
unfoldable pub record_transition :
    AssignmentWorkerConfig → ℕ → String → AssignmentWorker → AssignmentWorker
record_transition config now id w =
    let recent = keep (is_recent config.flapping_window now) (transitions_of id w ++ (now ∷ [])) in
    record w { transitions = (id, recent) ∷ w.transitions }

-- `isFlapping`
unfoldable pub is_flapping : AssignmentWorkerConfig → ℕ → String → AssignmentWorker → Bool
is_flapping config now id w =
    ltb config.flapping_threshold
      (length (keep (is_recent config.flapping_window now) (transitions_of id w)))

-- What the loop over the agents sees of one, from its last known status.
pub data Transition : Type 0 where
  unchanged went_offline recovered appeared : Transition

-- Active or degraded.
abbrev pub was_active : AgentStatus → Bool
was_active status = not (is_offline status)

unfoldable pub transition_of : Option AgentStatus → AgentStatus → Transition
transition_of none status = if is_active status then appeared else unchanged
transition_of (some last) status =
    if was_active last && is_offline status
    then went_offline
    else if is_offline last && is_active status
    then recovered
    else unchanged

-- The variables of the loop.
pub record Detected : Type 0 where
  pub worker : AssignmentWorker
  pub offline_agents : List Agent
  pub recovered_agents : List Agent

abbrev pub learn : Agent → Detected → Detected
learn agent d = record d {
  worker = record d.worker {
    last_known_states = (agent.id, agent.status) ∷ d.worker.last_known_states;
  };
}

abbrev pub sort_in : AssignmentWorkerConfig → ℕ → Agent → Transition → Detected → Detected
sort_in config now agent unchanged d = d
sort_in config now agent went_offline d = record d {
  worker = record_transition config now agent.id d.worker;
  offline_agents = d.offline_agents ++ (agent ∷ []);
}
sort_in config now agent recovered d = record d {
  worker = record_transition config now agent.id d.worker;
  recovered_agents = d.recovered_agents ++ (agent ∷ []);
}
sort_in config now agent appeared d = record d {
  recovered_agents = d.recovered_agents ++ (agent ∷ []);
}

-- The loop of `runOnce` over the agents.
unfoldable pub detect_all : AssignmentWorkerConfig → (String → ℕ) → List Agent → Detected → Detected
unfolding transition_of
detect_all config now [] d = d
detect_all config now (agent ∷ agents) d = detect_all config now agents (
    learn agent (
      sort_in config (now agent.id) agent
        (transition_of (lookup agent.id d.worker.last_known_states) agent.status) d))

-- The two loops that hand agents to the rebalancer, which skip those that flap.
unfoldable pub calls_for :
    AssignmentWorkerConfig
    → (String → ℕ)
    → AssignmentWorker
    → (String → Call)
    → List Agent
    → List Call
unfolding is_flapping
calls_for config asked w call [] = []
calls_for config asked w call (agent ∷ agents) =
    if is_flapping config (asked agent.id) agent.id w
    then calls_for config asked w call agents
    else call agent.id ∷ calls_for config asked w call agents

-- The first run, which only fills the states in.
unfoldable pub populate : List Agent → AssignmentWorker → AssignmentWorker
populate [] w = w
populate (agent ∷ agents) w =
    populate agents
      (record w { last_known_states = (agent.id, agent.status) ∷ w.last_known_states })

-- `runOnce`; the agents are `none` where the query fails.
unfoldable pub run_once :
    AssignmentWorkerConfig
    → (String → ℕ)
    → (String → ℕ)
    → Option (List Agent)
    → AssignmentWorker
    → AssignmentWorker × List Call
unfolding detect_all calls_for populate
run_once config now asked none w = (w, [])
run_once config now asked (some agents) w =
    if not w.initialized
    then (record (populate agents w) { initialized = true }, [])
    else let d =
        detect_all config now agents
          (record { worker = w; offline_agents = []; recovered_agents = [] }) in
      (
        d.worker,
        calls_for config asked d.worker Call.handle_agent_failure d.offline_agents
            ++ calls_for config asked d.worker Call.handle_agent_recovery d.recovered_agents,
      )
