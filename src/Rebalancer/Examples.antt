-- ===== src/Rebalancer/Examples.antt =====
-- Three agents, two targets and their assignments, on which the theorems are used.
use icmp_mon.Base.{
  tally, tally-Injective, ◌↔◌, map, keep, lookup, ltb, ◌++◌, ℕ, ◌≡◌, refl, ap, ◌∙◌, subst, String,
  List, [], ◌∷◌, none, some, true, false, arith, In, inl, inr, ==_iff, length,
}
use icmp_mon.Types.Agent.{Agent, AgentStatus}
use icmp_mon.Types.Tier.{Tier}
use icmp_mon.Types.Target.{Target, Ownership, MonitoringState}
use icmp_mon.Assignments.{is_eligible}
use icmp_mon.Rebalancer.{
  World, TargetAssignment, Db, AssignedBy, handle_agent_failure, others, tier_map, successor,
}
use icmp_mon.Rebalancer.Offers.{handle_agent_recovery, active_of}
use icmp_mon.Rebalancer.Kept.{Keyed}
use icmp_mon.Rebalancer.Failover.{Ready, FailsOver, handle_agent_failure-covers}
use icmp_mon.Rebalancer.Handover.{Moved, handle_agent_failure-moves}
use icmp_mon.Rebalancer.Recovery.{Offered, Wanted, handle_agent_recovery-Offered}
use icmp_mon.Rebalancer.Materialize.{Inserted, materialize_all, active_of as active_ones}
use icmp_mon.Rebalancer.Agreement.{pairs, Decides}
use icmp_mon.Rebalancer.Stored.{materialize_all-agrees}
use icmp_mon.Rebalancer.Worker.{
  transitions_of, AssignmentWorkerConfig, AssignmentWorker, Call, run_once, is_flapping,
  record_transition, is_recent, detect_all, calls_for, transition_of,
}
use icmp_mon.Rebalancer.Transitions.{
  steady, such, is_lost, is_found, run_once-calls, record_all, times_of, is_flapping-record_all,
}

abbrev agent_in : String → String → AgentStatus → Agent
agent_in id region status = record {
  id = id;
  name = id;
  region = region;
  location = "";
  provider = "aws";
  tags = [];
  public_ip = "";
  executors = [];
  max_targets = 100;
  version = "1.0.0";
  status = status;
  last_heartbeat = 0;
  created_at = 0;
}

abbrev fleet : List Agent
fleet =
    agent_in "a1" "eu" AgentStatus.offline
    ∷ agent_in "a2" "us" AgentStatus.active
    ∷ agent_in "a3" "eu" AgentStatus.active
    ∷ []

abbrev standard : Tier
standard = record {
  name = "standard";
  display_name = "Standard";
  probe_interval = 30;
  probe_timeout = 5;
  probe_retries = 1;
  agent_selection = record {
    strategy = "distributed";
    count = 2;
    regions = "eu" ∷ [];
    exclude_regions = [];
    providers = [];
    require_tags = [];
    exclude_tags = [];
    diversity = none;
  };
  default_expected_outcome = none;
}

abbrev target_named : String → Target
target_named id = record {
  id = id;
  ip = "10.0.0.1";
  tier = "standard";
  tags = [];
  subnet_id = none;
  ownership = Ownership.auto;
  ip_type = none;
  is_representative = false;
  monitoring_state = MonitoringState.active;
  state_changed_at = 0;
  needs_review = false;
  discovery_attempts = 0;
  last_response_at = none;
  first_response_at = none;
  baseline_established_at = none;
  archived_at = none;
  expected_outcome = none;
}

abbrev world : World
world = record {
  ids = tally;
  get_target = λ id. some (target_named id);
  creates = λ _. true;
  deletes = λ _. true;
  reads = λ _. true;
  logs = true;
  online = λ _. true;
}

abbrev row : ℕ → String → String → TargetAssignment
row n target_id agent_id = record {
  id = tally n;
  target_id = target_id;
  agent_id = agent_id;
  tier = "standard";
  assigned_at = n;
  assigned_by = AssignedBy.initial;
}

abbrev db : Db
db = record {
  rows = row 0 "t1" "a1" ∷ row 1 "t2" "a3" ∷ [];
  history = [];
  generated = 2;
  clock = λ n. n;
}

db-Keyed : Keyed tally db
db-Keyed = record {
  distinct = (
    λ m. elim m [ inl e ↦ let q = tally-Injective 1 0 e in absurd (omega arith) | inr n ↦ n ],
    (λ m. m, tt),
  );
  fresh = λ n h m. elim m [
    | inl e ↦ let q = tally-Injective 0 n e in absurd (omega arith)
    | inr (inl e) ↦ let q = tally-Injective 1 n e in absurd (omega arith)
    | inr (inr k) ↦ k
  ];
}

handle_agent_failure-covers_example :
    FailsOver tally db (handle_agent_failure world "a1" true (some fleet) (some (standard ∷ [])) db)
handle_agent_failure-covers_example =
    handle_agent_failure-covers world "a1" true (some fleet) (some (standard ∷ [])) db
      tally-Injective db-Keyed

first-Ready : Ready world "a1" (others "a1" fleet) (tier_map (standard ∷ [])) (row 0 "t1" "a1")
unfolding successor is_eligible
first-Ready = (agent_in "a3" "eu" AgentStatus.active, refl, refl, refl)

all-Ready :
    (a : TargetAssignment)
    → In a db.rows
    → a.agent_id ≡ "a1"
    → Ready world "a1" (others "a1" fleet) (tier_map (standard ∷ [])) a
all-Ready a (inl e) h =
    subst (Ready world "a1" (others "a1" fleet) (tier_map (standard ∷ []))) e first-Ready
all-Ready a (inr (inl e)) h =
    let q = (==_iff "a3" "a1").1 (ap (λ (r : TargetAssignment). r.agent_id) e ∙ h) in
    absurd (ground (arith, q))
all-Ready a (inr (inr m)) h = absurd m

handle_agent_failure-moves_example :
    (after : Db) × (handle_agent_failure world "a1" true (some fleet) (some (standard ∷ [])) db
      ≡ (none, after))
    × Moved "a1" db after
handle_agent_failure-moves_example =
    handle_agent_failure-moves world "a1" fleet (standard ∷ []) db tally-Injective db-Keyed
      all-Ready

handle_agent_recovery-Offered_example :
    (after : Db) × (handle_agent_recovery world
        (some (agent_in "a1" "eu" AgentStatus.active))
        (some (standard ∷ []))
        (some fleet)
        (λ _. some (target_named "t2" ∷ []))
        db
      ≡ some after)
    × Offered
        (λ _. true)
        "a1"
        (Wanted world
          (agent_in "a1" "eu" AgentStatus.active)
          (active_of fleet)
          (λ _. some (target_named "t2" ∷ []))
          (standard ∷ [])
          db)
        db
        after
handle_agent_recovery-Offered_example =
    handle_agent_recovery-Offered world (agent_in "a1" "eu" AgentStatus.active) (standard ∷ [])
      fleet (λ _. some (target_named "t2" ∷ [])) db

materialize_all-agrees_example :
    (inserted : Inserted) × (materialize_all tally
        (λ _. true)
        true
        (some (target_named "t1" ∷ target_named "t2" ∷ []))
        (some fleet)
        (some (standard ∷ []))
        db
      ≡ (some inserted, inserted.db))
    × (inserted.complete ≡ true)
    × (inserted.created ≡ length inserted.db.rows)
    × ((target : Target) (agent : Agent)
        → In target (target_named "t1" ∷ target_named "t2" ∷ [])
        → In agent (active_ones fleet)
        → In (target.id, agent.id) (pairs inserted.db.rows)
          ↔ Decides (active_ones fleet) (tier_map (standard ∷ [])) target agent)
materialize_all-agrees_example =
    materialize_all-agrees tally (λ _. true) (target_named "t1" ∷ target_named "t2" ∷ []) fleet
      (standard ∷ []) db (λ n. refl) (ground (arith, ==_iff "t2" "t1"))
      (ground (arith, ==_iff "a3" "a2"))

abbrev config : AssignmentWorkerConfig
config = record { flapping_threshold = 3; flapping_window = 300 }

abbrev watching : AssignmentWorker
watching = record {
  last_known_states = ("a1", AgentStatus.degraded) ∷ ("a2", AgentStatus.offline) ∷ [];
  transitions = [];
  initialized = true;
}

run_once-calls_example :
    (after : AssignmentWorker) × (run_once config (λ _. 1000) (λ _. 1001) (some fleet) watching ≡ (
      after,
      map Call.handle_agent_failure
            (steady config (λ _. 1001) after (such is_lost watching.last_known_states fleet))
          ++ map Call.handle_agent_recovery
              (steady config (λ _. 1001) after (such is_found watching.last_known_states fleet)),
    ))
    × ((agent : Agent)
        → In agent fleet
        → lookup agent.id after.last_known_states ≡ some agent.status)
run_once-calls_example =
    run_once-calls config (λ _. 1000) (λ _. 1001) fleet watching refl
      (ground (arith, ==_iff "a2" "a1", ==_iff "a3" "a1", ==_iff "a3" "a2"))

run_once_calls :
    (run_once config (λ _. 1000) (λ _. 1001) (some fleet) watching).1
    ≡ Call.handle_agent_failure "a1"
      ∷ Call.handle_agent_recovery "a2"
      ∷ Call.handle_agent_recovery "a3"
      ∷ []
unfolding run_once detect_all calls_for is_flapping record_transition transition_of
run_once_calls = refl

abbrev seen : List (String × ℕ)
seen = ("a1", 600) ∷ ("a1", 800) ∷ ("b1", 850) ∷ ("a1", 900) ∷ ("a1", 950) ∷ ("a1", 1000) ∷ []

-- Of the agent's five transitions the first is too old, and four are more than the threshold.
is_flapping-record_all_example :
    is_flapping config 1001 "a1" (record_all config seen watching)
    ≡ ltb 3
        (length (keep (is_recent 300 1001) (transitions_of "a1" watching ++ times_of "a1" seen)))
is_flapping-record_all_example =
    is_flapping-record_all config 1001 "a1" seen watching
      (omega arith, (omega arith, (omega arith, (omega arith, (omega arith, (omega arith, tt))))))

flaps : is_flapping config 1001 "a1" (record_all config seen watching) ≡ true
unfolding is_flapping record_transition
flaps = refl
