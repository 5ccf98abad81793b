-- ===== src/Assignments/Effective.antt =====
-- control-plane/internal/service/service.go, `calculateAssignments`, and `GetEffectiveTier` of
-- state_machine.go: which assignments an agent gets.
use icmp_mon.Base.{
  subst, sym, In, String, List, [], ◌∷◌, ◌≡◌, ◌↔◌, In, In-append, In-append_left, In-append_right,
  Option-cases, refl, Option, none, some, Bool, true, false, arith, lookup, ◌⊎◌, inl, inr,
}
use icmp_mon.Types.Agent.{Agent}
use icmp_mon.Types.Tier.{Tier}
use icmp_mon.Types.Probe.{Assignment}
use icmp_mon.Types.Target.{Target, unresponsive, excluded}
use icmp_mon.Assignments.Specified.{ProbedAt, FallsTo, get_effective_tier_iff, should_assign_iff}
use icmp_mon.Assignments.{
  ℕ, covered, get_effective_tier, should_assign, assignment_of, assign_target,
  calculate_assignments,
}

-- An unresponsive or excluded target is probed exactly when its subnet is not known to hold an
-- active customer and the tier "smart_recheck" exists, which is then its tier. A failed query
-- counts as not knowing, and a target without a subnet has no active customer beside it.
pub smart_recheck_iff :
    (coverage : String → Option Bool) (tiers : List (String × Tier)) (t : Target) (tier : Tier)
    → t.archived_at ≡ none
    → (t.monitoring_state ≡ unresponsive) ⊎ (t.monitoring_state ≡ excluded)
    → (get_effective_tier coverage tiers t ≡ some tier)
      ↔ ((covered coverage t.subnet_id ≡ false) × (lookup "smart_recheck" tiers ≡ some tier))
unfolding get_effective_tier
smart_recheck_iff coverage tiers t tier a s = (λ h. ground arith, λ h. ground arith)

-- An archived target is given to no agent.
archived_unassigned :
    (coverage : String → Option Bool) (agent : Agent) (agents : List Agent)
    (tiers : List (String × Tier)) (t : Target) {at : ℕ}
    → t.archived_at ≡ some at
    → assign_target coverage agent agents tiers t ≡ []
unfolding assign_target
archived_unassigned coverage agent agents tiers t a = ground arith

module _ (coverage : String → Option Bool) (agent : Agent) (agents : List Agent)
    (tiers : List (String × Tier)) where
  -- Why the agent has an assignment.
  pub record Assigned (targets : List Target) (a : Assignment) : Type 0 where
    pub target : Target
    pub tier : Tier
    pub listed : In target targets
    pub live : target.archived_at ≡ none
    pub probed : ProbedAt coverage tiers target target.monitoring_state tier
    pub falls : FallsTo agent agents target.ip tier.agent_selection
    pub made : a ≡ record {
      target_id = target.id;
      ip = target.ip;
      tier = tier.name;
      probe_type = "icmp_ping";
      probe_interval = tier.probe_interval;
      probe_timeout = tier.probe_timeout;
      probe_retries = tier.probe_retries;
      probe_params = "";
      tags = target.tags;
      expected_outcome = target.expected_outcome;
    }

  assign_target-In :
      (t : Target) (ts : List Target) (a : Assignment)
      → In a (assign_target coverage agent agents tiers t)
      → Assigned (t ∷ ts) a
  unfolding assign_target
  assign_target-In t ts a m = elim (Option-cases (get_effective_tier coverage tiers t)) [
    | inl e ↦ absurd (ground (arith, m))
    | inr (tier, e) ↦
        let live : t.archived_at ≡ none = ground arith in
        record {
          target = t;
          tier = tier;
          listed = inl refl;
          live = live;
          probed = (get_effective_tier_iff coverage tiers t tier live).0 e;
          falls = (should_assign_iff agent agents t tier).0 (ground arith);
          made = ground arith;
        }
  ]

  In-assign_target :
      (t : Target) (tier : Tier) (a : Assignment)
      → t.archived_at ≡ none
      → get_effective_tier coverage tiers t ≡ some tier
      → should_assign agent agents t tier ≡ true
      → a ≡ assignment_of t tier
      → In a (assign_target coverage agent agents tiers t)
  unfolding assign_target
  In-assign_target t tier a l e c q =
      let made : assign_target coverage agent agents tiers t ≡ assignment_of t tier ∷ [] =
        ground arith in
      subst (In a) (sym made) (inl (sym q))

  Assigned-cons :
      (t : Target) (ts : List Target) (a : Assignment) → Assigned ts a → Assigned (t ∷ ts) a
  Assigned-cons t ts a h = record {
    target = h.target;
    tier = h.tier;
    listed = inr h.listed;
    live = h.live;
    probed = h.probed;
    falls = h.falls;
    made = h.made;
  }

  calculate_assignments_sound :
      (ts : List Target) (a : Assignment)
      → In a (calculate_assignments coverage agent agents tiers ts)
      → Assigned ts a
  unfolding calculate_assignments
  calculate_assignments_sound [] a m = absurd m
  calculate_assignments_sound (t ∷ ts) a m =
      elim (In-append a (assign_target coverage agent agents tiers t)
        (calculate_assignments coverage agent agents tiers ts) m) [
          | inl h ↦ assign_target-In t ts a h
          | inr h ↦ Assigned-cons t ts a (calculate_assignments_sound ts a h)
        ]

  calculate_assignments_complete :
      (ts : List Target) (a : Assignment) (t : Target) (tier : Tier)
      → In t ts
      → t.archived_at ≡ none
      → get_effective_tier coverage tiers t ≡ some tier
      → should_assign agent agents t tier ≡ true
      → a ≡ assignment_of t tier
      → In a (calculate_assignments coverage agent agents tiers ts)
  unfolding calculate_assignments
  calculate_assignments_complete [] a t tier m l e c q = absurd m
  calculate_assignments_complete (u ∷ ts) a t tier (inl h) l e c q =
      In-append_left a (assign_target coverage agent agents tiers u)
        (calculate_assignments coverage agent agents tiers ts)
        (rw h (In-assign_target t tier a l e c q))
  calculate_assignments_complete (u ∷ ts) a t tier (inr m) l e c q =
      In-append_right a (assign_target coverage agent agents tiers u)
        (calculate_assignments coverage agent agents tiers ts)
        (calculate_assignments_complete ts a t tier m l e c q)

  -- The agent's assignments are exactly those of the listed targets that are not archived, at the
  -- tier that its state asks for: its own or else "standard", "discovery" while it is unknown,
  -- "inactive_recheck" while inactive, "standby_recheck" or else that while it stands by, and
  -- "smart_recheck" while it is unresponsive or excluded and its subnet is not known to hold an active
  -- customer. The policy of the tier must admit some agent of the fleet. Under the strategy "all" it
  -- must admit this one; under any other, this one is among the admitted agents, or where these are
  -- more than the count, among the first of them that follow the hash of the address around the list.
  pub calculate_assignments_iff :
      (targets : List Target) (a : Assignment)
      → In a (calculate_assignments coverage agent agents tiers targets) ↔ Assigned targets a
  calculate_assignments_iff targets a = (
    calculate_assignments_sound targets a,
    λ h.
        calculate_assignments_complete targets a h.target h.tier h.listed h.live
          ((get_effective_tier_iff coverage tiers h.target h.tier h.live).1 h.probed)
          ((should_assign_iff agent agents h.target h.tier).1 h.falls) h.made,
  )
