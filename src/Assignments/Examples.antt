-- ===== src/Assignments/Examples.antt =====
-- A small fleet, on which the theorems about the assignments are used.
use icmp_mon.Base.{
  ◌↔◌, ==_iff, In, Distinct, ◌%◌, ◌≡◌, refl, List, [], ◌∷◌, Option, none, some, Bool, true, false,
  arith, take, length, count_where, min,
}
use icmp_mon.Types.Agent.{Agent, active}
use icmp_mon.Types.Tier.{Tier, AgentSelectionPolicy}
use icmp_mon.Types.Target.{Target}
use icmp_mon.Types.Target
use icmp_mon.Assignments.{
  String, is_eligible, filter_agents, simple_hash, select_agents_for_target, should_assign,
  calculate_assignments, assignment_of,
}
use icmp_mon.Assignments.Rotation.{rotate, select_agents_for_target-rotate}
use icmp_mon.Assignments.Eligibility.{Admits, is_eligible_iff}
use icmp_mon.Assignments.Policy.{ids, should_assign_count}
use icmp_mon.Assignments.Effective.{calculate_assignments_iff, Assigned}

abbrev agent_named : String → String → Agent
agent_named id region = record {
  id = id;
  name = id;
  region = region;
  location = "";
  provider = "aws";
  tags = ("network_type", "external") ∷ [];
  public_ip = "";
  executors = "icmp_ping" ∷ [];
  max_targets = 100;
  version = "1.0.0";
  status = active;
  last_heartbeat = 0;
  created_at = 0;
}

abbrev fleet : List Agent
fleet = agent_named "a1" "europe" ∷ agent_named "a2" "us-east" ∷ agent_named "a3" "europe" ∷ []

abbrev europe : AgentSelectionPolicy
europe = record {
  strategy = "distributed";
  count = 1;
  regions = "europe" ∷ [];
  exclude_regions = [];
  providers = [];
  require_tags = ("network_type", "external") ∷ [];
  exclude_tags = [];
  diversity = none;
}

abbrev standard : Tier
standard = record {
  name = "standard";
  display_name = "Standard";
  probe_interval = 30;
  probe_timeout = 5;
  probe_retries = 1;
  agent_selection = europe;
  default_expected_outcome = none;
}

abbrev everyone : Tier
everyone = record standard { agent_selection = record europe { strategy = "all" } }

abbrev host : Target
host = record {
  id = "t1";
  ip = "10.0.0.1";
  tier = "standard";
  tags = [];
  subnet_id = some "s1";
  ownership = Target.auto;
  ip_type = some Target.customer;
  is_representative = false;
  monitoring_state = Target.active;
  state_changed_at = 0;
  needs_review = false;
  discovery_attempts = 0;
  last_response_at = none;
  first_response_at = none;
  baseline_established_at = none;
  archived_at = none;
  expected_outcome = none;
}

abbrev quiet : Target
quiet = record host { monitoring_state = Target.excluded }

abbrev tiers : List (String × Tier)
tiers = ("standard", standard) ∷ ("smart_recheck", standard) ∷ []

abbrev no_coverage : String → Option Bool
no_coverage s = some false

hash_example : simple_hash "10" ≡ 1567
unfolding simple_hash
hash_example = refl

select_agents_for_target-rotate_example :
    (select_agents_for_target "10.0.0.1" fleet 2
      ≡ some (take 2 (rotate (simple_hash "10.0.0.1" % 3) fleet)))
    × (length (take 2 (rotate (simple_hash "10.0.0.1" % 3) fleet)) ≡ 2)
select_agents_for_target-rotate_example =
    select_agents_for_target-rotate "10.0.0.1" fleet 2 (omega arith)

is_eligible_iff_example :
    (is_eligible (agent_named "a1" "europe") europe ≡ true)
    ↔ Admits europe (agent_named "a1" "europe")
is_eligible_iff_example = is_eligible_iff (agent_named "a1" "europe") europe

fleet-Distinct : Distinct (ids fleet)
fleet-Distinct = ground (arith, ==_iff "a2" "a1", ==_iff "a3" "a1", ==_iff "a3" "a2")

should_assign_count_example :
    count_where (λ a. should_assign a fleet host standard) fleet
    ≡ min 1 (length (filter_agents fleet europe))
should_assign_count_example = should_assign_count fleet host standard fleet-Distinct refl

calculate_assignments_iff_example :
    In
      (assignment_of host standard)
      (calculate_assignments no_coverage (agent_named "a1" "europe") fleet tiers (host ∷ []))
    ↔ Assigned no_coverage
        (agent_named "a1" "europe")
        fleet
        tiers
        (host ∷ [])
        (assignment_of host standard)
calculate_assignments_iff_example =
    calculate_assignments_iff no_coverage (agent_named "a1" "europe") fleet tiers (host ∷ [])
      (assignment_of host standard)
