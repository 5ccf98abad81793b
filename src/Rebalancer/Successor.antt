-- ===== src/Rebalancer/Successor.antt =====
-- The agent that takes an assignment over is one of those that the failover may choose from.
use icmp_mon.Base.{
  none≢some, ◌&&◌, some-inj, ◌≡◌, ◌≢◌, refl, subst, String, List, [], ◌∷◌, Option, none, some, Bool,
  not, arith, ◌==◌, ==_iff, keep, All, lookup, branch,
}
use icmp_mon.Types.Agent.{Agent, is_active}
use icmp_mon.Assignments.{is_eligible, filter_agents, select_agents_for_target, not_empty}
use icmp_mon.Assignments.Rotation.{select_agents_for_target-All}
use icmp_mon.Types.Tier.{Tier}
use icmp_mon.Types.Target.{Target}
use icmp_mon.Rebalancer.{
  successor_under, successor_for, filter_agents, World, TargetAssignment, first_selected, successor,
  others,
}

abbrev pub Other : String → Agent → Type 0
Other failed_id agent = agent.id ≢ failed_id

pub others-Other :
    (failed_id : String) (agents : List Agent) → All (Other failed_id) (others failed_id agents)
others-Other failed_id [] = tt
others-Other failed_id (x ∷ agents) =
    branch (All (Other failed_id)) (not (x.id == failed_id) && is_active x.status)
      (λ h. (
        (λ q. let e = (==_iff x.id failed_id).1 q in ground (arith, h, e)),
        others-Other failed_id agents,
      ))
      (λ _. others-Other failed_id agents)

keep-All' : (P : Agent → Type 0) (p : Agent → Bool) (xs : List Agent) → All P xs → All P (keep p xs)
keep-All' P p [] h = tt
keep-All' P p (x ∷ xs) (h, hs) =
    branch (All P) (p x) (λ _. (h, keep-All' P p xs hs)) (λ _. keep-All' P p xs hs)

abbrev pub Selects : (Agent → Type 0) → Option Agent → Type 0
Selects P o = (agent : Agent) → o ≡ some agent → P agent

none-Selects : (P : Agent → Type 0) → Selects P none
none-Selects P agent e = absurd (none≢some e)

first_selected-Selects :
    (P : Agent → Type 0) (o : Option (List Agent))
    → ((xs : List Agent) → o ≡ some xs → All P xs)
    → Selects P (first_selected o)
first_selected-Selects P none h agent e = absurd cc
first_selected-Selects P (some []) h agent e = absurd cc
first_selected-Selects P (some (x ∷ xs)) h agent e = subst P (some-inj e) (h (x ∷ xs) refl).0

module _ (P : Agent → Type 0) (active : List Agent) (h : All P active) where
  successor_for-Selects :
      (tier : Tier) (target : Option Target) → Selects P (successor_for active tier target)
  unfolding filter_agents
  successor_for-Selects tier none = none-Selects P
  successor_for-Selects tier (some target) =
      let eligible = filter_agents active tier.agent_selection in
      branch (Selects P) (not (not_empty eligible)) (λ _. none-Selects P)
        (λ _. first_selected-Selects P (select_agents_for_target target.ip eligible 1) (λ xs e.
          select_agents_for_target-All P target.ip eligible 1
            (keep-All' P (λ agent. is_eligible agent tier.agent_selection) active h) e))

  -- The successor is one of the agents it is selected from.
  pub successor-Selects :
      (world : World) (tiers : List (String × Tier)) (a : TargetAssignment)
      → Selects P (successor world active tiers a)
  unfolding successor
  successor-Selects world tiers a =
      elim (lookup a.tier tiers) as (λ o. Selects P (successor_under world active a o)) [
        | none ↦ none-Selects P
        | some tier ↦ successor_for-Selects tier (world.get_target a.target_id)
      ]
