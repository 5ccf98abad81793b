-- ===== src/Assignments/Policy.antt =====
-- `shouldAssign` over the whole fleet: how many agents monitor one target, and that they are
-- eligible.
use native.Mathlib.Decide.{dec_lt}
use icmp_mon.Base.{
  ℕ, suc, ◌%◌, min, ◌≡◌, refl, sym, ◌∙◌, ap, subst, String, List, [], ◌∷◌, ◌++◌, map, some, Bool,
  true, false, not, arith, ◌==◌, contains, any, length, take, drop, keep, count_where, All, In,
  Distinct, map-take, In-map-keep, Distinct-map-keep, Distinct-take, Distinct-swap,
  count_where-contains, count_where-cong, take-append-drop, some-inj, if◌then◌else◌, inl, inr,
}
use icmp_mon.Types.Agent.{Agent}
use icmp_mon.Types.Tier.{Tier}
use icmp_mon.Types.Target.{Target}
use icmp_mon.Assignments.{
  not_empty, is_eligible, filter_agents, simple_hash, select_agents_for_target, has_agent,
  should_assign,
}
use icmp_mon.Assignments.Rotation.{
  rotate, select_agents_for_target-rotate, select_agents_for_target-few,
  select_agents_for_target_total, select_agents_for_target-All,
}

abbrev pub ids : List Agent → List String
ids agents = map (λ a. a.id) agents

ids-append : (xs ys : List Agent) → ids (xs ++ ys) ≡ ids xs ++ ids ys
ids-append [] ys = refl
ids-append (x ∷ xs) ys = ap (λ r. x.id ∷ r) (ids-append xs ys)

length-ids : (xs : List Agent) → length (ids xs) ≡ length xs
length-ids [] = refl
length-ids (x ∷ xs) = ap suc (length-ids xs)

Distinct-rotate :
    (s count : ℕ) (xs : List Agent) → Distinct (ids xs) → Distinct (ids (take count (rotate s xs)))
Distinct-rotate s count xs d =
    rw (map-take (λ a. a.id) count (rotate s xs), ids-append (drop s xs) (take s xs))
      (Distinct-take count (ids (drop s xs) ++ ids (take s xs)) (
        Distinct-swap (ids (take s xs)) (ids (drop s xs))
          (rw (← ids-append (take s xs) (drop s xs), take-append-drop s xs) d)))

select-Distinct :
    (ip : String) (eligible : List Agent) (count : ℕ) {selected : List Agent}
    → Distinct (ids eligible)
    → select_agents_for_target ip eligible count ≡ some selected
    → Distinct (ids selected)
select-Distinct ip eligible count d e = elim (dec_lt count (length eligible)) [
  | yes p ↦
      subst (λ r. Distinct (ids r))
        (some-inj (sym (select_agents_for_target-rotate ip eligible count p).0 ∙ e))
        (Distinct-rotate (simple_hash ip % length eligible) count eligible d)
  | no p ↦
      subst (λ r. Distinct (ids r))
        (some-inj (sym (select_agents_for_target-few ip eligible count (omega arith)) ∙ e)) d
]

All-self : (xs : List Agent) → All (λ a. In a.id (ids xs)) xs
All-self xs = go xs xs (λ s m. m)
  where
    go :
        (ys zs : List Agent)
        → ((s : String) → In s (ids zs) → In s (ids ys))
        → All (λ a. In a.id (ids ys)) zs
    go ys [] h = tt
    go ys (z ∷ zs) h = (h z.id (inl refl), go ys zs (λ s m. h s (inr m)))

All-widen :
    (xs ys zs : List Agent)
    → ((s : String) → In s (ids xs) → In s (ids ys))
    → All (λ a. In a.id (ids xs)) zs
    → All (λ s. In s (ids ys)) (ids zs)
All-widen xs ys [] h k = tt
All-widen xs ys (z ∷ zs) h k = (h z.id k.0, All-widen xs ys zs h k.1)

pub any-contains :
    (id : String) (xs : List Agent) → any (λ agent. agent.id == id) xs ≡ contains (ids xs) id
any-contains id [] = refl
any-contains id (x ∷ xs) = ground (arith, any-contains id xs)

count-map :
    (p : String → Bool) (xs : List Agent) → count_where (λ a. p a.id) xs ≡ count_where p (ids xs)
count-map p [] = refl
count-map p (x ∷ xs) = ground (arith, count-map p xs)

-- With agents of distinct ids, the membership test holds of exactly as many agents as were selected.
has_agent_count :
    (agents selected : List Agent)
    → Distinct (ids agents)
    → Distinct (ids selected)
    → All (λ s. In s (ids agents)) (ids selected)
    → count_where (λ a. has_agent a.id (some selected)) agents ≡ length selected
unfolding has_agent
has_agent_count agents selected d ds h =
    count_where-cong _ (λ a. contains (ids selected) a.id) agents (λ a. any-contains a.id selected)
    ∙ count-map (contains (ids selected)) agents
    ∙ count_where-contains (ids selected) (ids agents) d ds h
    ∙ length-ids selected

has_agent_of_select :
    (id ip : String) (eligible : List Agent) (count : ℕ) (everyone mine : Bool)
    → everyone ≡ false
    → (if not (not_empty eligible)
        then false
        else if everyone
        then mine
        else has_agent id (select_agents_for_target ip eligible count))
      ≡ has_agent id (select_agents_for_target ip eligible count)
unfolding has_agent
has_agent_of_select id ip [] count everyone mine e =
    rw (select_agents_for_target-few {A = Agent} ip [] count (omega arith))
has_agent_of_select id ip (x ∷ xs) count everyone mine e = rw e

keep-empty :
    (p : Agent → Bool) (a : Agent) (xs : List Agent) → keep p xs ≡ [] → In a xs → p a ≡ false
keep-empty p a [] e m = absurd m
keep-empty p a (x ∷ xs) e (inl q) = rw (← q) (ground arith)
keep-empty p a (x ∷ xs) e (inr m) = keep-empty p a xs (ground arith) m

-- Under any strategy but "all", a target is monitored by exactly `count` agents of a fleet with
-- distinct ids, or by every eligible agent if fewer than `count` are eligible.
pub should_assign_count :
    (agents : List Agent) (target : Target) (tier : Tier)
    → Distinct (ids agents)
    → (tier.agent_selection.strategy == "all") ≡ false
    → count_where (λ a. should_assign a agents target tier) agents
      ≡ min tier.agent_selection.count (length (filter_agents agents tier.agent_selection))
unfolding should_assign
should_assign_count agents target tier d s =
    let eligible = filter_agents agents tier.agent_selection in
    let (selected, e, l) =
      select_agents_for_target_total target.ip eligible tier.agent_selection.count in
    let inside : All (λ a. In a.id (ids eligible)) selected =
      select_agents_for_target-All (λ a. In a.id (ids eligible)) target.ip eligible
        tier.agent_selection.count (All-self eligible) e in
    count_where-cong _ (λ a. has_agent a.id (some selected)) agents
      (λ a.
        has_agent_of_select a.id target.ip eligible tier.agent_selection.count _
          (is_eligible a tier.agent_selection) s
        ∙ ap (has_agent a.id) e)
    ∙ has_agent_count agents selected d
        (select-Distinct target.ip eligible tier.agent_selection.count
          (Distinct-map-keep (λ a. a.id) (λ a. is_eligible a tier.agent_selection) agents d) e)
        (All-widen eligible agents selected
          (λ i. In-map-keep (λ a. a.id) (λ a. is_eligible a tier.agent_selection) i agents) inside)
    ∙ l

-- Under the strategy "all" an agent of the fleet monitors the target exactly if it is eligible.
pub should_assign_all :
    (agents : List Agent) (target : Target) (tier : Tier) (agent : Agent)
    → (tier.agent_selection.strategy == "all") ≡ true
    → In agent agents
    → should_assign agent agents target tier ≡ is_eligible agent tier.agent_selection
unfolding should_assign
should_assign_all agents target tier agent s m = go (filter_agents agents tier.agent_selection) refl
  where
    go :
        (el : List Agent)
        → filter_agents agents tier.agent_selection ≡ el
        → should_assign agent agents target tier ≡ is_eligible agent tier.agent_selection
    go [] e =
        rw (e, should_assign)
          (sym (keep-empty (λ a. is_eligible a tier.agent_selection) agent agents e m))
    go (x ∷ xs) e = rw (e, s)
