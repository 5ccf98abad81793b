-- ===== src/Assignments.antt =====
-- control-plane/internal/service/service.go: which agents monitor which target, and
-- state_machine.go's `GetEffectiveTier`, which gives the tier by the target's state.
-- A map of tiers is an association list by tier name. The answer of `SubnetHasActiveCoverage`
-- is a function of the subnet (`none` for a failed query), since it is a query of the database.
pub mod Rotation
pub mod Eligibility
pub mod Policy
pub mod Specified
pub mod Effective
mod Examples
use icmp_mon.Base.{
  ℕ, zero, suc, ◌+◌, ◌-◌, ◌*◌, ◌%◌, ◌^◌, String, List, [], ◌∷◌, ◌++◌, Option, none, some, Bool,
  true, false, if◌then◌else◌, not, ◌&&◌, ◌||◌, ltb, leb, ◌==◌, codes, contains, lookup,
  lookup_or_empty, length, get_elem?, keep, any, all,
}
use icmp_mon.Types.Agent.{Agent}
use icmp_mon.Types.Tier.{Tier, AgentSelectionPolicy}
use icmp_mon.Types.Target.{
  Target, MonitoringState, unset, unknown, active, standby, degraded, down, unresponsive, excluded,
  inactive, is_null,
}
use icmp_mon.Types.Probe.{Assignment}

abbrev pub not_empty {ℓ} : {A : Type ℓ} → List A → Bool
not_empty [] = false
not_empty (_ ∷ _) = true

-- `isEligible`, of the service and of the rebalancer.
unfoldable pub is_eligible : Agent → AgentSelectionPolicy → Bool
is_eligible agent policy =
    if not_empty policy.regions && not (contains policy.regions agent.region)
    then false
    else if contains policy.exclude_regions agent.region
    then false
    else if not_empty policy.providers && not (contains policy.providers agent.provider)
    then false
    else if not (all (λ kv. lookup_or_empty kv.0 agent.tags == kv.1) policy.require_tags)
    then false
    else if any (λ kv. lookup_or_empty kv.0 agent.tags == kv.1) policy.exclude_tags
    then false
    else true

-- `filterAgents`
unfoldable pub filter_agents : List Agent → AgentSelectionPolicy → List Agent
filter_agents agents policy = keep (λ agent. is_eligible agent policy) agents

-- `simpleHash` and `simpleHashString`: a uint32 accumulator, over the code points.
unfoldable pub hash_from : ℕ → List ℕ → ℕ
hash_from h [] = h
hash_from h (c ∷ cs) = hash_from ((h * 31 + c) % 2 ^ 32) cs

unfoldable pub simple_hash : String → ℕ
unfolding hash_from
simple_hash s = hash_from 0 (codes s)

-- The loop of `selectAgentsForTarget`, `rounds` being `len(eligibleAgents) - i`. `none` is the
-- panic of an index out of range.
unfoldable pub select_from {ℓ} : {A : Type ℓ} → List A → ℕ → ℕ → ℕ → ℕ → List A → Option (List A)
select_from eligible start count zero i selected = some selected
select_from eligible start count (suc rounds) i selected = elim (ltb (length selected) count) [
  | false ↦ some selected
  | true ↦ elim (get_elem? eligible ((start + i) % length eligible)) [
    | none ↦ none
    | some agent ↦ select_from eligible start count rounds (i + 1) (selected ++ (agent ∷ []))
  ]
]

-- `selectAgentsForTarget`; the diversity requirement is not read by the code.
unfoldable pub select_agents_for_target {ℓ} : {A : Type ℓ} → String → List A → ℕ → Option (List A)
unfolding select_from simple_hash
select_agents_for_target ip eligible count =
    if leb (length eligible) count
    then some eligible
    else select_from eligible (simple_hash ip % length eligible) count (length eligible) 0 []

-- The membership loop at the end of `shouldAssign`.
unfoldable pub has_agent : String → Option (List Agent) → Bool
has_agent id none = false
has_agent id (some selected) = any (λ agent. agent.id == id) selected

-- `shouldAssign`
unfoldable pub should_assign : Agent → List Agent → Target → Tier → Bool
unfolding filter_agents select_agents_for_target has_agent is_eligible
should_assign agent all_agents target tier =
    let policy = tier.agent_selection in
    let eligible = filter_agents all_agents policy in
    if not (not_empty eligible)
    then false
    else if policy.strategy == "all"
    then is_eligible agent policy
    else has_agent agent.id (select_agents_for_target target.ip eligible policy.count)

-- The arms of `GetEffectiveTier`'s switch: the tier of a name, or else of another name.
abbrev pub tier_or : List (String × Tier) → String → String → Option Tier
tier_or tiers name other = elim (lookup name tiers) [ some t ↦ some t | none ↦ lookup other tiers ]

-- `hasCoverage` is true and the query did not fail.
abbrev pub covered : (String → Option Bool) → Option String → Bool
covered coverage none = false
covered coverage (some subnet) = elim (coverage subnet) [ none ↦ false | some b ↦ b ]

unfoldable pub tier_of_state :
    (String → Option Bool) → List (String × Tier) → Target → MonitoringState → Option Tier
tier_of_state coverage tiers target active = tier_or tiers target.tier "standard"
tier_of_state coverage tiers target degraded = tier_or tiers target.tier "standard"
tier_of_state coverage tiers target down = tier_or tiers target.tier "standard"
tier_of_state coverage tiers target unset = tier_or tiers target.tier "standard"
tier_of_state coverage tiers target unknown = lookup "discovery" tiers
tier_of_state coverage tiers target inactive = lookup "inactive_recheck" tiers
tier_of_state coverage tiers target standby = tier_or tiers "standby_recheck" "inactive_recheck"
tier_of_state coverage tiers target unresponsive =
    if covered coverage target.subnet_id then none else lookup "smart_recheck" tiers
tier_of_state coverage tiers target excluded =
    if covered coverage target.subnet_id then none else lookup "smart_recheck" tiers

-- `GetEffectiveTier`
unfoldable pub get_effective_tier :
    (String → Option Bool) → List (String × Tier) → Target → Option Tier
unfolding tier_of_state
get_effective_tier coverage tiers target =
    if not (is_null target.archived_at)
    then none
    else tier_of_state coverage tiers target target.monitoring_state

-- The `types.Assignment` that `calculateAssignments` appends.
abbrev pub assignment_of : Target → Tier → Assignment
assignment_of target tier = record {
  target_id = target.id;
  ip = target.ip;
  tier = tier.name;
  probe_type = "icmp_ping";
  probe_interval = tier.probe_interval;
  probe_timeout = tier.probe_timeout;
  probe_retries = tier.probe_retries;
  probe_params = "";
  tags = target.tags;
  expected_outcome = target.expected_outcome;
}

-- The body of `calculateAssignments`'s loop: what one target adds.
unfoldable pub assign_target :
    (String → Option Bool) → Agent → List Agent → List (String × Tier) → Target → List Assignment
assign_target coverage agent all_agents tiers target =
    if not (is_null target.archived_at)
    then []
    else elim (get_effective_tier coverage tiers target) [
      | none ↦ []
      | some tier ↦
          if should_assign agent all_agents target tier then assignment_of target tier ∷ [] else []
    ]

-- `calculateAssignments`
unfoldable pub calculate_assignments :
    (String → Option Bool)
    → Agent
    → List Agent
    → List (String × Tier)
    → List Target
    → List Assignment
calculate_assignments coverage agent all_agents tiers [] = []
calculate_assignments coverage agent all_agents tiers (target ∷ targets) =
    assign_target coverage agent all_agents tiers target
    ++ calculate_assignments coverage agent all_agents tiers targets
