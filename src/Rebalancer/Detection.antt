-- ===== src/Rebalancer/Detection.antt =====
-- The loop of `runOnce` over the agents: the lists that it makes, and the statuses that it learns.
use icmp_mon.Base.{
  ℕ, ◌≡◌, ◌≢◌, refl, sym, ap, ap₂, ◌∙◌, subst, String, List, [], ◌∷◌, ◌++◌, some, Bool, true, false,
  if◌then◌else◌, keep, lookup, In, inl, inr, Distinct, ◌==◌, ==_iff, append_assoc, append-nil,
  branch, if-false, if-true,
}
use icmp_mon.Types.Agent.{Agent, AgentStatus}
use icmp_mon.Assignments.Policy.{ids}
use icmp_mon.Rebalancer.Worker.{
  AssignmentWorkerConfig, Transition, transition_of, Detected, learn, sort_in, detect_all,
  record_transition,
}

abbrev pub States : Type 0
States = List (String × AgentStatus)

abbrev pub is_went_offline : Transition → Bool
is_went_offline Transition.went_offline = true
is_went_offline _ = false

abbrev pub is_back : Transition → Bool
is_back Transition.recovered = true
is_back Transition.appeared = true
is_back _ = false

-- The agents whose transition from the given states is of a kind.
abbrev pub seen_as : (Transition → Bool) → States → List Agent → List Agent
seen_as kind states agents =
    keep (λ agent. kind (transition_of (lookup agent.id states) agent.status)) agents

pub lookup-other :
    {A : Type 0} (key other : String) (a : A) (entries : List (String × A))
    → other ≢ key
    → lookup key ((other, a) ∷ entries) ≡ lookup key entries
lookup-other key other a entries ne =
    branch (λ o. o ≡ lookup key entries) (other == key) (λ h. absurd (ne ((==_iff other key).0 h)))
      (λ _. refl)

-- What is learnt of one agent does not change how another is seen.
seen_as-other :
    (kind : Transition → Bool) (id : String) (status : AgentStatus) (states : States)
    (agents : List Agent)
    → ¬ In id (ids agents)
    → seen_as kind ((id, status) ∷ states) agents ≡ seen_as kind states agents
seen_as-other kind id status states [] n = refl
seen_as-other kind id status states (a ∷ agents) n =
    ap₂ (λ o rest. if kind (transition_of o a.status) then a ∷ rest else rest)
      (lookup-other a.id id status states (λ e. n (inl (sym e))))
      (seen_as-other kind id status states agents (λ m. n (inr m)))

module _ (config : AssignmentWorkerConfig) (now : String → ℕ) where
  abbrev step : Agent → Detected → Detected
  step agent d = learn agent (
      sort_in config (now agent.id) agent
        (transition_of (lookup agent.id d.worker.last_known_states) agent.status) d)

  sort_in-states :
      (agent : Agent) (t : Transition) (d : Detected)
      → (learn agent (sort_in config (now agent.id) agent t d)).worker.last_known_states
        ≡ (agent.id, agent.status) ∷ d.worker.last_known_states
  unfolding record_transition
  sort_in-states agent Transition.unchanged d = refl
  sort_in-states agent Transition.went_offline d = refl
  sort_in-states agent Transition.recovered d = refl
  sort_in-states agent Transition.appeared d = refl

  sort_in-offline :
      (agent : Agent) (t : Transition) (d : Detected)
      → (learn agent (sort_in config (now agent.id) agent t d)).offline_agents
        ≡ d.offline_agents ++ (if is_went_offline t then agent ∷ [] else [])
  sort_in-offline agent Transition.unchanged d = sym (append-nil d.offline_agents)
  sort_in-offline agent Transition.went_offline d = refl
  sort_in-offline agent Transition.recovered d = sym (append-nil d.offline_agents)
  sort_in-offline agent Transition.appeared d = sym (append-nil d.offline_agents)

  sort_in-recovered :
      (agent : Agent) (t : Transition) (d : Detected)
      → (learn agent (sort_in config (now agent.id) agent t d)).recovered_agents
        ≡ d.recovered_agents ++ (if is_back t then agent ∷ [] else [])
  sort_in-recovered agent Transition.unchanged d = sym (append-nil d.recovered_agents)
  sort_in-recovered agent Transition.went_offline d = sym (append-nil d.recovered_agents)
  sort_in-recovered agent Transition.recovered d = refl
  sort_in-recovered agent Transition.appeared d = refl

  -- A list that grows by the agents of a kind grows by all that are seen as such from the start.
  grows :
      (kind : Transition → Bool) (agent : Agent) (agents before after out : List Agent)
      (states states' : States)
      → ¬ In agent.id (ids agents)
      → states' ≡ (agent.id, agent.status) ∷ states
      → after
        ≡ before
          ++ (if kind (transition_of (lookup agent.id states) agent.status) then agent ∷ [] else [])
      → out ≡ after ++ seen_as kind states' agents
      → out ≡ before ++ seen_as kind states (agent ∷ agents)
  grows kind agent agents before after out states states' n s e o =
      o
      ∙ ap₂ (λ x y. x ++ seen_as kind y agents) e s
      ∙ append_assoc before _ _
      ∙ ap
          (λ r.
            before
            ++ ((if kind (transition_of (lookup agent.id states) agent.status)
                  then agent ∷ []
                  else [])
                ++ r))
          (seen_as-other kind agent.id agent.status states agents n)
      ∙ ap (λ r. before ++ r)
          (branch (λ r. r ++ seen_as kind states agents ≡ seen_as kind states (agent ∷ agents))
            (kind (transition_of (lookup agent.id states) agent.status))
            (λ h. sym (if-true _ _ _ h)) (λ h. sym (if-false _ _ _ h)))

  -- The lists and the states after the loop, from those before it.
  pub record Sorted (agents : List Agent) (before after : Detected) : Type 0 where
    pub offline :
        after.offline_agents
        ≡ before.offline_agents ++ seen_as is_went_offline before.worker.last_known_states agents
    pub recovered :
        after.recovered_agents
        ≡ before.recovered_agents ++ seen_as is_back before.worker.last_known_states agents
    pub others :
        (id : String)
        → ¬ In id (ids agents)
        → lookup id after.worker.last_known_states ≡ lookup id before.worker.last_known_states
    pub known :
        (agent : Agent)
        → In agent agents
        → lookup agent.id after.worker.last_known_states ≡ some agent.status

  pub detect_all-Sorted :
      (agents : List Agent) (d : Detected)
      → Distinct (ids agents)
      → Sorted agents d (detect_all config now agents d)
  unfolding detect_all
  detect_all-Sorted [] d u = record {
    offline = sym (append-nil d.offline_agents);
    recovered = sym (append-nil d.recovered_agents);
    others = λ id n. refl;
    known = λ agent m. absurd m;
  }
  detect_all-Sorted (x ∷ agents) d u =
      let t = transition_of (lookup x.id d.worker.last_known_states) x.status in
      let next = step x d in
      let rest = detect_all-Sorted agents next u.1 in
      let states = sort_in-states x t d in
      let here : lookup x.id next.worker.last_known_states ≡ some x.status =
        ap (lookup x.id) states ∙ if-true _ _ (x.id == x.id) ((==_iff x.id x.id).1 refl) in
      record {
        offline =
            grows is_went_offline x agents d.offline_agents next.offline_agents _
              d.worker.last_known_states next.worker.last_known_states u.0 states
              (sort_in-offline x t d) rest.offline;
        recovered =
            grows is_back x agents d.recovered_agents next.recovered_agents _
              d.worker.last_known_states next.worker.last_known_states u.0 states
              (sort_in-recovered x t d) rest.recovered;
        others = λ id n.
            rest.others id (λ m. n (inr m))
            ∙ ap (lookup id) states
            ∙ lookup-other id x.id x.status d.worker.last_known_states (λ e. n (inl e));
        known = λ agent m. elim m [
          | inl e ↦
              subst
                (λ (a : Agent).
                  lookup a.id (detect_all config now agents next).worker.last_known_states
                  ≡ some a.status)
                e (rest.others x.id u.0 ∙ here)
          | inr k ↦ rest.known agent k
        ];
      }
