-- ===== src/Assignments/Specified.antt =====
-- What `GetEffectiveTier` and `shouldAssign` decide, in other words than theirs: the tiers by their
-- names for each state, the agents that a policy admits, and the share of them that a target falls to.
use native.Mathlib.Decide.{dec_lt}
use icmp_mon.Base.{
  ==-false, arith, ==_iff, ◌≡◌, refl, if◌then◌else◌, ◌%◌, ◌==◌, true≢false, if-true, ◌∙◌, sym,
  some-inj, contains_iff, subst, In, none≢some, ap, if-false, take, ◌≡◌, Bool-cases, ◌≢◌, ◌↔◌, true,
  false, none, some, ◌⊎◌, inl, inr, String, List, [], ◌∷◌, ℕ, ◌≤◌, ◌<◌, Option, Bool,
}
use icmp_mon.Types.Agent.{Agent}
use icmp_mon.Types.Tier.{Tier, AgentSelectionPolicy}
use icmp_mon.Types.Target.{
  Target, MonitoringState, unset, unknown, active, standby, degraded, down, unresponsive, excluded,
  inactive, is_null,
}
use icmp_mon.Assignments.{
  not, lookup, length, covered, get_effective_tier, tier_of_state, should_assign, has_agent,
  filter_agents, is_eligible, select_agents_for_target, simple_hash, not_empty,
}
use icmp_mon.Assignments.Eligibility.{Admits, is_eligible_iff}
use icmp_mon.Assignments.Policy.{ids, any-contains}
use icmp_mon.Assignments.Rotation.{
  rotate, select_agents_for_target-rotate, select_agents_for_target-few,
}

-- The tier of this name, or where there is none, that of another name.
abbrev pub NamedOr : List (String × Tier) → String → String → Tier → Type 0
NamedOr tiers name other tier =
    (lookup name tiers ≡ some tier)
    ⊎ ((lookup name tiers ≡ none) × (lookup other tiers ≡ some tier))

-- The subnet is known to hold an active customer.
abbrev pub Known : (String → Option Bool) → Option String → Type 0
Known coverage subnet = (s : String) × (subnet ≡ some s) × (coverage s ≡ some true)

-- The tier at which a target of this state is probed.
abbrev pub ProbedAt :
    (String → Option Bool) → List (String × Tier) → Target → MonitoringState → Tier → Type 0
ProbedAt coverage tiers t unset tier = NamedOr tiers t.tier "standard" tier
ProbedAt coverage tiers t active tier = NamedOr tiers t.tier "standard" tier
ProbedAt coverage tiers t degraded tier = NamedOr tiers t.tier "standard" tier
ProbedAt coverage tiers t down tier = NamedOr tiers t.tier "standard" tier
ProbedAt coverage tiers t unknown tier = lookup "discovery" tiers ≡ some tier
ProbedAt coverage tiers t inactive tier = lookup "inactive_recheck" tiers ≡ some tier
ProbedAt coverage tiers t standby tier = NamedOr tiers "standby_recheck" "inactive_recheck" tier
ProbedAt coverage tiers t unresponsive tier =
    (¬ Known coverage t.subnet_id) × (lookup "smart_recheck" tiers ≡ some tier)
ProbedAt coverage tiers t excluded tier =
    (¬ Known coverage t.subnet_id) × (lookup "smart_recheck" tiers ≡ some tier)

or_iff :
    (o other : Option Tier) (tier : Tier)
    → (elim o [ some t ↦ some t | none ↦ other ] ≡ some tier)
      ↔ ((o ≡ some tier) ⊎ ((o ≡ none) × (other ≡ some tier)))
or_iff none other tier =
    (λ h. inr (refl, h), λ h. elim h [ inl e ↦ absurd (none≢some e) | inr (e, k) ↦ k ])
or_iff (some t) other tier =
    (λ h. inl h, λ h. elim h [ inl e ↦ e | inr (e, k) ↦ absurd (none≢some (sym e)) ])

covered_iff :
    (coverage : String → Option Bool) (subnet : Option String)
    → (covered coverage subnet ≡ true) ↔ Known coverage subnet
covered_iff coverage none = (λ h. absurd cc, λ (s, e, k). absurd (none≢some e))
covered_iff coverage (some subnet) = (
  λ h. (subnet, refl, known (coverage subnet) h),
  λ (s, e, k).
      ap (λ (o : Option Bool). elim o [ none ↦ false | some b ↦ b ]) (ap coverage (some-inj e) ∙ k),
)
  where
    known : (o : Option Bool) → elim o [ none ↦ false | some b ↦ b ] ≡ true → o ≡ some true
    known none h = cc
    known (some b) h = ap some h

uncovered_iff :
    (coverage : String → Option Bool) (subnet : Option String) (o : Option Tier) (tier : Tier)
    → ((if covered coverage subnet then none else o) ≡ some tier)
      ↔ ((¬ Known coverage subnet) × (o ≡ some tier))
uncovered_iff coverage subnet o tier = elim (Bool-cases (covered coverage subnet)) [
  | inl e ↦ (
    λ h. absurd (none≢some (sym (if-true none o (covered coverage subnet) e) ∙ h)),
    λ (n, h). absurd (n ((covered_iff coverage subnet).0 e)),
  )
  | inr e ↦ (
    λ h. (
      λ k. true≢false (sym ((covered_iff coverage subnet).1 k) ∙ e),
      sym (if-false none o (covered coverage subnet) e) ∙ h,
    ),
    λ (n, h). if-false none o (covered coverage subnet) e ∙ h,
  )
]

tier_of_state_iff :
    (coverage : String → Option Bool) (tiers : List (String × Tier)) (t : Target)
    (s : MonitoringState) (tier : Tier)
    → (tier_of_state coverage tiers t s ≡ some tier) ↔ ProbedAt coverage tiers t s tier
unfolding tier_of_state
tier_of_state_iff coverage tiers t unset tier = or_iff (lookup t.tier tiers) _ tier
tier_of_state_iff coverage tiers t active tier = or_iff (lookup t.tier tiers) _ tier
tier_of_state_iff coverage tiers t degraded tier = or_iff (lookup t.tier tiers) _ tier
tier_of_state_iff coverage tiers t down tier = or_iff (lookup t.tier tiers) _ tier
tier_of_state_iff coverage tiers t unknown tier = (λ h. h, λ h. h)
tier_of_state_iff coverage tiers t inactive tier = (λ h. h, λ h. h)
tier_of_state_iff coverage tiers t standby tier = or_iff (lookup "standby_recheck" tiers) _ tier
tier_of_state_iff coverage tiers t unresponsive tier = uncovered_iff coverage t.subnet_id _ tier
tier_of_state_iff coverage tiers t excluded tier = uncovered_iff coverage t.subnet_id _ tier

pub get_effective_tier_iff :
    (coverage : String → Option Bool) (tiers : List (String × Tier)) (t : Target) (tier : Tier)
    → t.archived_at ≡ none
    → (get_effective_tier coverage tiers t ≡ some tier)
      ↔ ProbedAt coverage tiers t t.monitoring_state tier
unfolding get_effective_tier
get_effective_tier_iff coverage tiers t tier a =
    let live =
      if-false none (tier_of_state coverage tiers t t.monitoring_state)
        (not (is_null t.archived_at)) (ap (λ (o : Option ℕ). not (is_null o)) a) in
    let state = tier_of_state_iff coverage tiers t t.monitoring_state tier in
    (λ h. state.0 (sym live ∙ h), λ h. live ∙ state.1 h)

-- The agents of a list that the policy admits, in order.
pub data Admitted (policy : AgentSelectionPolicy) : List Agent → List Agent → Type 0 where
  nobody : Admitted policy [] []
  admits :
      {agent : Agent} {agents eligible : List Agent}
      → Admits policy agent
      → Admitted policy agents eligible
      → Admitted policy (agent ∷ agents) (agent ∷ eligible)
  refuses :
      {agent : Agent} {agents eligible : List Agent}
      → ¬ Admits policy agent
      → Admitted policy agents eligible
      → Admitted policy (agent ∷ agents) eligible

filter_agents-Admitted :
    (policy : AgentSelectionPolicy) (agents : List Agent)
    → Admitted policy agents (filter_agents agents policy)
unfolding filter_agents
filter_agents-Admitted policy [] = nobody
filter_agents-Admitted policy (a ∷ agents) = elim (Bool-cases (is_eligible a policy)) [
  | inl e ↦
      subst (Admitted policy (a ∷ agents)) (sym (if-true _ _ (is_eligible a policy) e))
        (admits ((is_eligible_iff a policy).0 e) (filter_agents-Admitted policy agents))
  | inr e ↦ subst (Admitted policy (a ∷ agents)) (sym (if-false _ _ (is_eligible a policy) e)) (
      refuses (λ k. true≢false (sym ((is_eligible_iff a policy).1 k) ∙ e))
        (filter_agents-Admitted policy agents))
]

Admitted-filter :
    (policy : AgentSelectionPolicy) {agents eligible : List Agent}
    → Admitted policy agents eligible
    → eligible ≡ filter_agents agents policy
unfolding filter_agents
Admitted-filter policy nobody = refl
Admitted-filter policy (admits {agent} {agents} {eligible} k rest) =
    ap (λ xs. agent ∷ xs) (Admitted-filter policy rest)
    ∙ sym (if-true _ _ (is_eligible agent policy) ((is_eligible_iff agent policy).1 k))
Admitted-filter policy (refuses {agent} {agents} {eligible} k rest) =
    elim (Bool-cases (is_eligible agent policy)) [
      | inl e ↦ absurd (k ((is_eligible_iff agent policy).0 e))
      | inr e ↦ Admitted-filter policy rest ∙ sym (if-false _ _ (is_eligible agent policy) e)
    ]

-- The agent is one of the `count` that follow the hash of the address around the list, or of the
-- list, where it is not longer.
abbrev pub Drawn : String → String → List Agent → ℕ → Type 0
Drawn id ip eligible count =
    ((length eligible ≤ count) × In id (ids eligible))
    ⊎ ((count < length eligible)
        × In id (ids (take count (rotate (simple_hash ip % length eligible) eligible))))

-- A target of this address falls to the agent under a policy: it is admitted, where the strategy is
-- "all", and it is drawn from those that are admitted, under any other strategy.
pub record FallsTo (agent : Agent) (agents : List Agent) (ip : String)
    (policy : AgentSelectionPolicy) : Type 0 where
  pub eligible : List Agent
  pub admitted : Admitted policy agents eligible
  pub somebody : eligible ≢ []
  pub choice :
      ((policy.strategy ≡ "all") × Admits policy agent)
      ⊎ ((policy.strategy ≢ "all") × Drawn agent.id ip eligible policy.count)

has_agent_iff :
    (id : String) (selected : List Agent)
    → (has_agent id (some selected) ≡ true) ↔ In id (ids selected)
unfolding has_agent
has_agent_iff id selected = (
  λ h. (contains_iff (ids selected) id).0 (sym (any-contains id selected) ∙ h),
  λ m. any-contains id selected ∙ (contains_iff (ids selected) id).1 m,
)

has_agent-Drawn :
    (id ip : String) (eligible : List Agent) (count : ℕ)
    → (has_agent id (select_agents_for_target ip eligible count) ≡ true)
      ↔ Drawn id ip eligible count
has_agent-Drawn id ip eligible count = elim (dec_lt count (length eligible)) [
  | yes p ↦
      let chosen = take count (rotate (simple_hash ip % length eligible) eligible) in
      let e = ap (has_agent id) (select_agents_for_target-rotate ip eligible count p).0 in
      (
        λ h. inr (p, (has_agent_iff id chosen).0 (sym e ∙ h)),
        λ d. elim d [
          | inl (q, m) ↦ absurd (omega (arith, p, q))
          | inr (q, m) ↦ e ∙ (has_agent_iff id chosen).1 m
        ],
      )
  | no p ↦
      let few : length eligible ≤ count = omega arith in
      let e = ap (has_agent id) (select_agents_for_target-few ip eligible count few) in
      (
        λ h. inl (few, (has_agent_iff id eligible).0 (sym e ∙ h)),
        λ d. elim d [
          | inl (q, m) ↦ e ∙ (has_agent_iff id eligible).1 m
          | inr (q, m) ↦ absurd (p q)
        ],
      )
]

-- The three returns of `shouldAssign`.
returns_iff :
    (eligible : List Agent) (everyone mine drawn : Bool)
    → ((if not (not_empty eligible) then false else if everyone then mine else drawn) ≡ true) ↔ (
        (eligible ≢ [])
        × (((everyone ≡ true) × (mine ≡ true)) ⊎ ((everyone ≡ false) × (drawn ≡ true))))
returns_iff [] everyone mine drawn = (λ h. absurd cc, λ (n, h). absurd (n refl))
returns_iff (x ∷ xs) true mine drawn = (
  λ h. (λ e. cc, inl (refl, h)),
  λ (n, h). elim h [ inl (e, k) ↦ k | inr (e, k) ↦ absurd (true≢false e) ],
)
returns_iff (x ∷ xs) false mine drawn = (
  λ h. (λ e. cc, inr (refl, h)),
  λ (n, h). elim h [ inl (e, k) ↦ absurd (true≢false (sym e)) | inr (e, k) ↦ k ],
)

pub should_assign_iff :
    (agent : Agent) (agents : List Agent) (t : Target) (tier : Tier)
    → (should_assign agent agents t tier ≡ true) ↔ FallsTo agent agents t.ip tier.agent_selection
unfolding should_assign
should_assign_iff agent agents t tier =
    let policy = tier.agent_selection in
    let eligible = filter_agents agents policy in
    let returns =
      returns_iff eligible (policy.strategy == "all") (is_eligible agent policy)
        (has_agent agent.id (select_agents_for_target t.ip eligible policy.count)) in
    let drawn = has_agent-Drawn agent.id t.ip eligible policy.count in
    let all = ==_iff policy.strategy "all" in
    (
      λ h.
          let (n, c) = returns.0 h in
          record {
            eligible = eligible;
            admitted = filter_agents-Admitted policy agents;
            somebody = n;
            choice = elim c [
              | inl (e, k) ↦ inl (all.0 e, (is_eligible_iff agent policy).0 k)
              | inr (e, k) ↦ inr (λ q. true≢false (sym (all.1 q) ∙ e), drawn.0 k)
            ];
          },
      λ f.
          let same = Admitted-filter policy f.admitted in
          returns.1 (
            (
              λ e. f.somebody (same ∙ e),
              elim f.choice [
                | inl (e, k) ↦ inl (all.1 e, (is_eligible_iff agent policy).1 k)
                | inr (ne, d) ↦ inr (
                  ==-false policy.strategy "all" ne,
                  drawn.1 (subst (λ xs. Drawn agent.id t.ip xs policy.count) same d),
                )
              ],
            )),
    )
