-- ===== src/Rebalancer/Offers.antt =====
-- control-plane/internal/service/rebalancer.go: `HandleAgentRecovery`, which offers targets to an agent
-- that is back or new.
use icmp_mon.Base.{
  ℕ, String, List, [], ◌∷◌, Option, none, some, not, if◌then◌else◌, ltb, ◌==◌, length, keep, any,
}
use icmp_mon.Types.Agent.{Agent, is_active}
use icmp_mon.Types.Tier.{Tier}
use icmp_mon.Types.Target.{Target}
use icmp_mon.Assignments.{is_eligible}
use icmp_mon.Rebalancer.{
  Action, AssignedBy, Db, World, assignment_for, create_assignment,
  get_active_assignments_by_target, log_history,
}

-- How many agents a target of a tier needs.
abbrev pub required_count : List Agent → Tier → ℕ
required_count active tier =
    if tier.agent_selection.strategy == "all" then length active else tier.agent_selection.count

-- The body of the loop over the targets of `HandleAgentRecovery`.
unfoldable pub offer : World → String → ℕ → Tier → Target → Db → Db
unfolding create_assignment get_active_assignments_by_target
offer world agent_id required tier target db =
    let current = get_active_assignments_by_target world.online target.id db.rows in
    let new_assignment = assignment_for target.id agent_id tier.name AssignedBy.rebalancer in
    if not (world.reads target.id)
    then db
    else if not (ltb (length current) required)
    then db
    else if any (λ row. row.agent_id == agent_id) current
    then db
    else if not (world.creates new_assignment)
    then db
    else log_history world.logs
        (record {
          target_id = target.id;
          agent_id = agent_id;
          action = Action.assigned;
          old_agent_id = "";
        })
        (create_assignment world.ids new_assignment db)

unfoldable pub offer_all : World → String → ℕ → Tier → List Target → Db → Db
unfolding offer
offer_all world agent_id required tier [] db = db
offer_all world agent_id required tier (target ∷ targets) db =
    offer_all world agent_id required tier targets (offer world agent_id required tier target db)

abbrev pub active_of : List Agent → List Agent
active_of agents = keep (λ agent. is_active agent.status) agents

abbrev pub offer_listed : World → Agent → List Agent → Tier → Option (List Target) → Db → Db
offer_listed world agent active tier none db = db
offer_listed world agent active tier (some targets) db =
    offer_all world agent.id (required_count active tier) tier targets db

-- The loop over the tiers; `targets_of` answers `ListTargetsByTier`.
unfoldable pub offer_tiers :
    World → Agent → List Agent → (String → Option (List Target)) → List Tier → Db → Db
unfolding offer_all is_eligible
offer_tiers world agent active targets_of [] db = db
offer_tiers world agent active targets_of (tier ∷ tiers) db =
    offer_tiers world agent active targets_of tiers (
      if not (is_eligible agent tier.agent_selection)
      then db
      else offer_listed world agent active tier (targets_of tier.name) db)

-- `HandleAgentRecovery`; `none` is an error, before any change.
unfoldable pub handle_agent_recovery :
    World
    → Option Agent
    → Option (List Tier)
    → Option (List Agent)
    → (String → Option (List Target))
    → Db
    → Option Db
unfolding offer_tiers
handle_agent_recovery world none tiers agents targets_of db = none
handle_agent_recovery world (some agent) none agents targets_of db = none
handle_agent_recovery world (some agent) (some tiers) none targets_of db = none
handle_agent_recovery world (some agent) (some tiers) (some agents) targets_of db =
    some (offer_tiers world agent (active_of agents) targets_of tiers db)
