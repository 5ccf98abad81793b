-- ===== src/Rebalancer/Agreement.antt =====
-- The stored assignments are those that the service decides for each agent by itself.
use icmp_mon.Base.{
  some-inj, lookup, Option-cases, branch, ==_iff, ==-false, if◌then◌else◌, In-map, ◌≡◌, ◌↔◌, refl,
  sym, ap, ◌∙◌, subst, String, List, [], ◌∷◌, map, Option, some, Bool, true, false, not, arith, any,
  keep, In, Distinct, inl, inr, ◌==◌, Bool-cases, if-true, if-false,
}
use icmp_mon.Types.Agent.{Agent}
use icmp_mon.Types.Tier.{Tier}
use icmp_mon.Types.Target.{is_null, Target}
use icmp_mon.Assignments.{
  is_eligible, filter_agents, select_agents_for_target, not_empty, has_agent, should_assign,
}
use icmp_mon.Assignments.Policy.{ids}
use icmp_mon.Assignments.Rotation.{select_agents_for_target_total}
use icmp_mon.Rebalancer.{TargetAssignment}
use icmp_mon.Rebalancer.Materialize.{
  found_with, initial_for, assignments_with, assignments_of_target, count_or_default,
  selected_agents,
}

-- The tier with the default count, as the materialization reads it.
abbrev pub with_default : Tier → Tier
with_default tier = record tier {
  agent_selection = record tier.agent_selection { count = count_or_default tier };
}

-- The pair of an assignment.
abbrev pub pair_of : TargetAssignment → String × String
pair_of a = (a.target_id, a.agent_id)

abbrev pub pairs : List TargetAssignment → List (String × String)
pairs rows = map pair_of rows

-- Whether the agents of a target hold one, as `shouldAssign` asks.
has_agent-In :
    (agent : Agent) (selected : List Agent)
    → (has_agent agent.id (some selected) ≡ true) ↔ In agent.id (ids selected)
unfolding has_agent
has_agent-In agent [] = (λ h. cc, λ h. absurd h)
has_agent-In agent (x ∷ selected) =
    let ih = has_agent-In agent selected in
    (λ h. ground (arith, ih, ==_iff x.id agent.id), λ h. ground (arith, ih, ==_iff x.id agent.id))

-- No kept agent has an id that no agent has.
has_agent-keep_absent :
    (p : Agent → Bool) (id : String) (agents : List Agent)
    → ¬ In id (ids agents)
    → has_agent id (some (keep p agents)) ≡ false
unfolding has_agent
has_agent-keep_absent p id [] h = refl
has_agent-keep_absent p id (x ∷ agents) h =
    let ih = has_agent-keep_absent p id agents (λ m. h (inr m)) in
    branch (λ kept. has_agent id (some kept) ≡ false) (p x)
      (λ _.
        if-false true (any (λ a. a.id == id) (keep p agents)) (x.id == id)
          (==-false x.id id (λ e. h (inl e)))
        ∙ ih)
      (λ _. ih)

-- With distinct ids, a filter keeps an agent of the list exactly if the agent passes it.
has_agent-keep :
    (p : Agent → Bool) (agent : Agent) (agents : List Agent)
    → Distinct (ids agents)
    → In agent agents
    → has_agent agent.id (some (keep p agents)) ≡ p agent
unfolding has_agent
has_agent-keep p agent [] d m = absurd m
has_agent-keep p agent (x ∷ agents) (fresh, d) (inl e) =
    let absent = subst (λ i. ¬ In i (ids agents)) (ap (λ (a : Agent). a.id) e) fresh in
    elim (Bool-cases (p x)) [
      | inl q ↦
          ap (λ kept. has_agent agent.id (some kept))
            (if-true (x ∷ keep p agents) (keep p agents) (p x) q)
          ∙ if-true true (any (λ a. a.id == agent.id) (keep p agents)) (x.id == agent.id)
              ((==_iff x.id agent.id).1 (ap (λ (a : Agent). a.id) e))
          ∙ sym q
          ∙ ap p e
      | inr q ↦
          ap (λ kept. has_agent agent.id (some kept))
            (if-false (x ∷ keep p agents) (keep p agents) (p x) q)
          ∙ has_agent-keep_absent p agent.id agents absent
          ∙ sym q
          ∙ ap p e
    ]
has_agent-keep p agent (x ∷ agents) (fresh, d) (inr m) =
    let ih = has_agent-keep p agent agents d m in
    let other = ==-false x.id agent.id (λ e.
      fresh
        (subst (λ i. In i (ids agents)) (sym e) (In-map (λ (a : Agent). a.id) agent agents m))) in
    branch (λ kept. has_agent agent.id (some kept) ≡ p agent) (p x)
      (λ _.
        if-false true (any (λ a. a.id == agent.id) (keep p agents)) (x.id == agent.id) other ∙ ih)
      (λ _. ih)

-- The two routines take the same branch.
same_branch :
    (id : String) (eligible : List Agent) (everyone passes : Bool) (chosen : Option (List Agent))
    → has_agent id (some eligible) ≡ passes
    → has_agent id
        (if not (not_empty eligible) then some [] else if everyone then some eligible else chosen)
      ≡ (if not (not_empty eligible)
          then false
          else if everyone
          then passes
          else has_agent id chosen)
unfolding has_agent
same_branch id [] everyone passes chosen h = refl
same_branch id (x ∷ eligible) true passes chosen h = h
same_branch id (x ∷ eligible) false passes chosen h = refl

-- The selection of a target holds an agent of the fleet exactly if the agent would decide so.
selected_agents-should_assign :
    (active : List Agent) (tier : Tier) (target : Target) (agent : Agent)
    → Distinct (ids active)
    → In agent active
    → has_agent agent.id (selected_agents active tier target)
      ≡ should_assign agent active target (with_default tier)
unfolding selected_agents should_assign
selected_agents-should_assign active tier target agent d m =
    same_branch agent.id (filter_agents active tier.agent_selection)
      (tier.agent_selection.strategy == "all") (is_eligible agent tier.agent_selection)
      (select_agents_for_target target.ip (filter_agents active tier.agent_selection)
        (count_or_default tier))
      (has_agent-keep (λ a. is_eligible a tier.agent_selection) agent active d m)

-- The target is not archived, the tier that it names is there, and `shouldAssign` of the service
-- accepts the agent for it under this tier, with a count of 4 in place of 0.
pub record Decides (active : List Agent) (tiers : List (String × Tier)) (target : Target)
    (agent : Agent) : Type 0 where
  pub present : is_null target.archived_at ≡ true
  pub tier : Tier
  pub found : lookup target.tier tiers ≡ some tier
  pub decided : should_assign agent active target (with_default tier) ≡ true

In-initial :
    (target : Target) (tier : Tier) (id : String) (agents : List Agent)
    → In (target.id, id) (pairs (map (initial_for target tier) agents)) ↔ In id (ids agents)
In-initial target tier id [] = (λ h. h, λ h. h)
In-initial target tier id (x ∷ agents) =
    let ih = In-initial target tier id agents in
    (
      λ h. elim h [ inl e ↦ inl (ap (λ (p : String × String). p.1) e) | inr m ↦ inr (ih.0 m) ],
      λ h. elim h [ inl e ↦ inl (ap (λ i. (target.id, i)) e) | inr m ↦ inr (ih.1 m) ],
    )

selected_agents_total :
    (active : List Agent) (tier : Tier) (target : Target)
    → (selected : List Agent) × (selected_agents active tier target ≡ some selected)
unfolding selected_agents
selected_agents_total active tier target =
    let eligible = filter_agents active tier.agent_selection in
    let (chosen, e, _) =
      select_agents_for_target_total target.ip eligible (count_or_default tier) in
    branch (λ o. (selected : List Agent) × (o ≡ some selected)) (not (not_empty eligible))
      (λ _. ([], refl))
      (λ _.
        branch (λ o. (selected : List Agent) × (o ≡ some selected))
          (tier.agent_selection.strategy == "all") (λ _. (eligible, refl)) (λ _. (chosen, e)))

module _ (active : List Agent) (tiers : List (String × Tier)) where
  assignments_of_target-present :
      (target : Target)
      → is_null target.archived_at ≡ true
      → assignments_of_target active tiers target
        ≡ found_with active target (lookup target.tier tiers)
  unfolding assignments_of_target
  assignments_of_target-present target h =
      if-false (some []) (found_with active target (lookup target.tier tiers))
        (not (is_null target.archived_at)) (ap not h)

  assignments_of_target-archived :
      (target : Target)
      → is_null target.archived_at ≡ false
      → assignments_of_target active tiers target ≡ some []
  unfolding assignments_of_target
  assignments_of_target-archived target h =
      if-true (some []) (found_with active target (lookup target.tier tiers))
        (not (is_null target.archived_at)) (ap not h)

  -- What the loop finds for a target, with its pairs.
  pub record Found (target : Target) : Type 0 where
    pub assignments : List TargetAssignment
    pub same : assignments_of_target active tiers target ≡ some assignments
    pub own : (id other : String) → In (other, id) (pairs assignments) → other ≡ target.id
    pub agreed :
        (agent : Agent)
        → Distinct (ids active)
        → In agent active
        → In (target.id, agent.id) (pairs assignments) ↔ Decides active tiers target agent

  agreed_with :
      (target : Target) (agent : Agent) (tier : Tier) (selected : List Agent)
      → is_null target.archived_at ≡ true
      → lookup target.tier tiers ≡ some tier
      → selected_agents active tier target ≡ some selected
      → Distinct (ids active)
      → In agent active
      → In (target.id, agent.id) (pairs (map (initial_for target tier) selected))
        ↔ Decides active tiers target agent
  agreed_with target agent tier selected q e chosen d m =
      let same : has_agent agent.id (some selected)
          ≡ should_assign agent active target (with_default tier) =
        sym (ap (has_agent agent.id) chosen)
        ∙ selected_agents-should_assign active tier target agent d m in
      (
        λ h. record {
          present = q;
          tier = tier;
          found = e;
          decided =
              sym same
              ∙ (has_agent-In agent selected).1 ((In-initial target tier agent.id selected).0 h);
        },
        λ h. (In-initial target tier agent.id selected).1 (
            (has_agent-In agent selected).0 (
              same
              ∙ ap (λ t. should_assign agent active target (with_default t))
                  (some-inj (sym e ∙ h.found))
              ∙ h.decided)),
      )

  In-initial_own :
      (target : Target) (tier : Tier) (id other : String) (agents : List Agent)
      → In (other, id) (pairs (map (initial_for target tier) agents))
      → other ≡ target.id
  In-initial_own target tier id other [] h = absurd h
  In-initial_own target tier id other (x ∷ agents) (inl e) =
      sym (ap (λ (p : String × String). p.0) e)
  In-initial_own target tier id other (x ∷ agents) (inr m) =
      In-initial_own target tier id other agents m

  pub find_target : (target : Target) → Found target
  find_target target = elim (Bool-cases (is_null target.archived_at)) [
    | inr q ↦ record {
      assignments = [];
      same = assignments_of_target-archived target q;
      own = λ id other m. absurd m;
      agreed = λ agent d m. (λ h. absurd h, λ h. cc);
    }
    | inl q ↦ elim (Option-cases (lookup target.tier tiers)) [
      | inl missing ↦ record {
        assignments = [];
        same = assignments_of_target-present target q ∙ ap (found_with active target) missing;
        own = λ id other m. absurd m;
        agreed = λ agent d m. (λ h. absurd h, λ h. cc (sym missing ∙ h.found));
      }
      | inr (tier, e) ↦
          let (selected, chosen) = selected_agents_total active tier target in
          record {
            assignments = map (initial_for target tier) selected;
            same =
                assignments_of_target-present target q
                ∙ ap (found_with active target) e
                ∙ ap (assignments_with target tier) chosen;
            own = λ id other m. In-initial_own target tier id other selected m;
            agreed = λ agent d m. agreed_with target agent tier selected q e chosen d m;
          }
    ]
  ]
