-- ===== src/Rebalancer/Transitions.antt =====
-- What the assignment worker calls the rebalancer for, and when it takes an agent to flap.
use icmp_mon.Base.{
  append_assoc, append-nil, sym, subst, All, ℕ, ◌≤◌, ◌≡◌, refl, ap, ap₂, ◌∙◌, String, List, [], ◌∷◌,
  ◌++◌, Option, none, some, Bool, true, false, not, if◌then◌else◌, ltb, keep, lookup, length, map,
  In, inl, inr, Distinct, arith, ◌==◌, ==_iff, if-false, Bool-cases,
}
use icmp_mon.Types.Agent.{is_active, is_offline, Agent, AgentStatus}
use icmp_mon.Assignments.Policy.{ids}
use icmp_mon.Rebalancer.Worker.{
  AssignmentWorkerConfig, AssignmentWorker, Call, Transition, transition_of, Detected, detect_all,
  calls_for, run_once, record_transition, is_flapping, is_recent, transitions_of,
}
use icmp_mon.Rebalancer.Detection.{States, is_went_offline, is_back, seen_as, detect_all-Sorted}

calls_for-keep :
    (config : AssignmentWorkerConfig) (asked : String → ℕ) (w : AssignmentWorker)
    (call : String → Call) (agents : List Agent)
    → calls_for config asked w call agents
      ≡ map call (ids (keep (λ agent. not (is_flapping config (asked agent.id) agent.id w)) agents))
unfolding calls_for
calls_for-keep config asked w call [] = refl
calls_for-keep config asked w call (x ∷ agents) =
    elim (Bool-cases (is_flapping config (asked x.id) x.id w)) [
      | inl h ↦ rw h (calls_for-keep config asked w call agents)
      | inr h ↦ rw h (ap (λ r. call x.id ∷ r) (calls_for-keep config asked w call agents))
    ]

-- An agent that was seen active or degraded is offline.
abbrev pub is_lost : Option AgentStatus → AgentStatus → Bool
is_lost none status = false
is_lost (some AgentStatus.offline) status = false
is_lost (some AgentStatus.active) status = is_offline status
is_lost (some AgentStatus.degraded) status = is_offline status

-- An agent that was offline, or not known, is active.
abbrev pub is_found : Option AgentStatus → AgentStatus → Bool
is_found none status = is_active status
is_found (some AgentStatus.offline) status = is_active status
is_found (some AgentStatus.active) status = false
is_found (some AgentStatus.degraded) status = false

transition_of-lost :
    (last : Option AgentStatus) (status : AgentStatus)
    → is_went_offline (transition_of last status) ≡ is_lost last status
unfolding transition_of
transition_of-lost none AgentStatus.active = refl
transition_of-lost none AgentStatus.degraded = refl
transition_of-lost none AgentStatus.offline = refl
transition_of-lost (some AgentStatus.active) AgentStatus.active = refl
transition_of-lost (some AgentStatus.active) AgentStatus.degraded = refl
transition_of-lost (some AgentStatus.active) AgentStatus.offline = refl
transition_of-lost (some AgentStatus.degraded) AgentStatus.active = refl
transition_of-lost (some AgentStatus.degraded) AgentStatus.degraded = refl
transition_of-lost (some AgentStatus.degraded) AgentStatus.offline = refl
transition_of-lost (some AgentStatus.offline) AgentStatus.active = refl
transition_of-lost (some AgentStatus.offline) AgentStatus.degraded = refl
transition_of-lost (some AgentStatus.offline) AgentStatus.offline = refl

transition_of-found :
    (last : Option AgentStatus) (status : AgentStatus)
    → is_back (transition_of last status) ≡ is_found last status
unfolding transition_of
transition_of-found none AgentStatus.active = refl
transition_of-found none AgentStatus.degraded = refl
transition_of-found none AgentStatus.offline = refl
transition_of-found (some AgentStatus.active) AgentStatus.active = refl
transition_of-found (some AgentStatus.active) AgentStatus.degraded = refl
transition_of-found (some AgentStatus.active) AgentStatus.offline = refl
transition_of-found (some AgentStatus.degraded) AgentStatus.active = refl
transition_of-found (some AgentStatus.degraded) AgentStatus.degraded = refl
transition_of-found (some AgentStatus.degraded) AgentStatus.offline = refl
transition_of-found (some AgentStatus.offline) AgentStatus.active = refl
transition_of-found (some AgentStatus.offline) AgentStatus.degraded = refl
transition_of-found (some AgentStatus.offline) AgentStatus.offline = refl

-- The agents whose last known and current status are such.
abbrev pub such : (Option AgentStatus → AgentStatus → Bool) → States → List Agent → List Agent
such test states agents = keep (λ agent. test (lookup agent.id states) agent.status) agents

seen_as-such :
    (kind : Transition → Bool) (test : Option AgentStatus → AgentStatus → Bool) (states : States)
    (agents : List Agent)
    → ((last : Option AgentStatus) (status : AgentStatus)
        → kind (transition_of last status) ≡ test last status)
    → seen_as kind states agents ≡ such test states agents
seen_as-such kind test states [] h = refl
seen_as-such kind test states (a ∷ agents) h =
    ap₂ (λ b rest. if b then a ∷ rest else rest) (h (lookup a.id states) a.status)
      (seen_as-such kind test states agents h)

-- The agents of a kind that do not flap, by their ids.
abbrev pub steady :
    AssignmentWorkerConfig → (String → ℕ) → AssignmentWorker → List Agent → List String
steady config asked w agents =
    ids (keep (λ agent. not (is_flapping config (asked agent.id) agent.id w)) agents)

-- Where the worker has run before, the query succeeds and the agents have distinct ids, `runOnce` calls
-- `HandleAgentFailure` for the agents that were active or degraded when last seen and are offline now,
-- and then `HandleAgentRecovery` for those that were offline, or not known, and are active now, in both
-- cases only for those that do not flap by the transitions recorded, in the order of the listing.
-- Afterwards the last known status of each agent is its current one.
pub run_once-calls :
    (config : AssignmentWorkerConfig) (now asked : String → ℕ) (agents : List Agent)
    (w : AssignmentWorker)
    → w.initialized ≡ true
    → Distinct (ids agents)
    → (after : AssignmentWorker) × (run_once config now asked (some agents) w ≡ (
      after,
      map Call.handle_agent_failure
            (steady config asked after (such is_lost w.last_known_states agents))
          ++ map Call.handle_agent_recovery
              (steady config asked after (such is_found w.last_known_states agents)),
    ))
      × ((agent : Agent)
          → In agent agents
          → lookup agent.id after.last_known_states ≡ some agent.status)
unfolding run_once
run_once-calls config now asked agents w h u =
    let start : Detected = record { worker = w; offline_agents = []; recovered_agents = [] } in
    let d = detect_all config now agents start in
    let s = detect_all-Sorted config now agents start u in
    (
      d.worker,
      if-false _ _ (not w.initialized) (ap not h)
          ∙ ap (λ calls. (d.worker, calls))
              (ap₂ (λ x y. x ++ y)
                (calls_for-keep config asked d.worker Call.handle_agent_failure d.offline_agents
                  ∙ ap (λ r. map Call.handle_agent_failure (steady config asked d.worker r))
                      (s.offline
                        ∙ seen_as-such is_went_offline is_lost w.last_known_states agents
                            transition_of-lost))
                (calls_for-keep config asked d.worker Call.handle_agent_recovery d.recovered_agents
                  ∙ ap (λ r. map Call.handle_agent_recovery (steady config asked d.worker r))
                      (s.recovered
                        ∙ seen_as-such is_back is_found w.last_known_states agents
                            transition_of-found))),
      s.known,
    )

-- A time that is recent later is recent now.
keep-recent :
    (window now asked : ℕ) (times : List ℕ)
    → now ≤ asked
    → keep (is_recent window asked) (keep (is_recent window now) times)
      ≡ keep (is_recent window asked) times
keep-recent window now asked [] h = refl
keep-recent window now asked (t ∷ times) h = ground (arith, h, keep-recent window now asked times h)

-- The transitions of agents that the worker records, the latest last.
abbrev pub record_all :
    AssignmentWorkerConfig → List (String × ℕ) → AssignmentWorker → AssignmentWorker
record_all config [] w = w
record_all config ((id, now) ∷ events) w =
    record_all config events (record_transition config now id w)

-- All the times at which an agent has made a transition.
abbrev pub times_of : String → List (String × ℕ) → List ℕ
times_of id events = map (λ e. e.1) (keep (λ e. e.0 == id) events)

-- No time is later than that of the question.
abbrev pub Before : ℕ → List (String × ℕ) → Type 0
Before asked events = All (λ e. e.1 ≤ asked) events

keep-append :
    (test : ℕ → Bool) (xs ys : List ℕ) → keep test (xs ++ ys) ≡ keep test xs ++ keep test ys
keep-append test [] ys = refl
keep-append test (x ∷ xs) ys = ground (arith, keep-append test xs ys)

recorded_recent :
    (config : AssignmentWorkerConfig) (now asked : ℕ) (id other : String) (w : AssignmentWorker)
    → now ≤ asked
    → keep
        (is_recent config.flapping_window asked)
        (transitions_of other (record_transition config now id w))
      ≡ keep
          (is_recent config.flapping_window asked)
          (transitions_of other w ++ times_of other ((id, now) ∷ []))
unfolding record_transition
recorded_recent config now asked id other w h =
    let window = config.flapping_window in
    let entry = keep (is_recent window now) (transitions_of id w ++ (now ∷ [])) in
    let listed : Option (List ℕ) → List ℕ =
      λ o. keep (is_recent window asked) (elim o [ none ↦ [] | some ts ↦ ts ]) in
    let after : Bool → Type 0 = λ b.
      listed (if b then some entry else lookup other w.transitions)
      ≡ keep (is_recent window asked) (
          transitions_of other w
          ++ map (λ (e : String × ℕ). e.1) (if b then (id, now) ∷ [] else [])) in
    elim (Bool-cases (id == other)) [
      | inl e ↦ subst after (sym e) (
          keep-recent window now asked (transitions_of id w ++ (now ∷ [])) h
          ∙ ap (λ i. keep (is_recent window asked) (transitions_of i w ++ (now ∷ [])))
              ((==_iff id other).0 e))
      | inr e ↦
          subst after (sym e)
            (ap (keep (is_recent window asked)) (sym (append-nil (transitions_of other w))))
    ]

-- However many transitions of whatever agents are recorded, in any order and each pruning those of its
-- agent: asked at a time that is not before any of them, `isFlapping` counts for each agent those that
-- are recent among all that were recorded of it, with the ones that were there at the start, as if
-- nothing was ever pruned.
pub is_flapping-record_all :
    (config : AssignmentWorkerConfig) (asked : ℕ) (id : String) (events : List (String × ℕ))
    (w : AssignmentWorker)
    → Before asked events
    → is_flapping config asked id (record_all config events w)
      ≡ ltb config.flapping_threshold (
          length (
            keep
              (is_recent config.flapping_window asked)
              (transitions_of id w ++ times_of id events)))
unfolding is_flapping
is_flapping-record_all config asked id events w h =
    ap (λ ts. ltb config.flapping_threshold (length ts)) (kept_recent events w h)
  where
    recent : List ℕ → List ℕ
    recent ts = keep (is_recent config.flapping_window asked) ts

    times-cons :
        (e : String × ℕ) (rest : List (String × ℕ))
        → times_of id (e ∷ []) ++ times_of id rest ≡ times_of id (e ∷ rest)
    times-cons e rest = elim (Bool-cases (e.0 == id)) [ inl q ↦ rw q refl | inr q ↦ rw q refl ]

    kept_recent :
        (more : List (String × ℕ)) (v : AssignmentWorker)
        → Before asked more
        → recent (transitions_of id (record_all config more v))
          ≡ recent (transitions_of id v ++ times_of id more)
    kept_recent [] v q = ap recent (sym (append-nil (transitions_of id v)))
    kept_recent ((other, now) ∷ more) v (q, qs) =
        let one = times_of id ((other, now) ∷ []) in
        let next = record_transition config now other v in
        kept_recent more next qs
        ∙ keep-append (is_recent config.flapping_window asked) (transitions_of id next)
            (times_of id more)
        ∙ ap (λ ts. ts ++ recent (times_of id more)) (recorded_recent config now asked other id v q)
        ∙ sym (
            keep-append (is_recent config.flapping_window asked) (transitions_of id v ++ one)
              (times_of id more))
        ∙ ap recent (
            append_assoc (transitions_of id v) one (times_of id more)
            ∙ ap (λ ts. transitions_of id v ++ ts) (times-cons (other, now) more))
