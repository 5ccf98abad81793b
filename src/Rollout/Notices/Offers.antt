-- ===== src/Rollout/Notices/Offers.antt =====
-- `ShouldUpdateAgent`: which rollout it answers with, and what notices and reports make of the answer.
use icmp_mon.Base.{
  ℕ, ◌≡◌, ◌≢◌, ◌↔◌, refl, sym, ap, ◌∙◌, subst, String, List, [], ◌∷◌, Option, none, some, Bool,
  true, false, not, if◌then◌else◌, ◌==◌, ◌&&◌, ==_self, ==-false, ==_iff, branch, if-true, if-false,
  arith, Distinct, In, Bool-cases, Option-cases, some-inj, inl, inr,
}
use icmp_mon.Rollout.{Rollout, AgentUpdateState, Release}
use icmp_mon.Rollout.Progress.{names}
use icmp_mon.Rollout.Table.{set_agent_state, notify_agent_update, report_agent_update}
use icmp_mon.Rollout.Notices.{
  UpdateNotification, notification_of, is_updating, is_in_progress, notice_in, notice_of,
  first_notice, should_update_agent, offers,
}

pick :
    {A : Type 0} (b c : Bool) (found : Option A) (rest : Option A)
    → rest ≡ (if c then found else none)
    → (if b then found else rest) ≡ (if (if b then true else c) then found else none)
pick true c found rest e = refl
pick false c found rest e = e

notice_in-offers :
    (agent_id : String) (release : Release) (r : Rollout) (states : List AgentUpdateState)
    → notice_in agent_id (some release) r states
      ≡ (if offers agent_id states then some (notification_of r release) else none)
unfolding notice_in
notice_in-offers agent_id release r [] = refl
notice_in-offers agent_id release r (s ∷ states) =
    pick (s.agent_id == agent_id && is_updating s.status) (offers agent_id states) _ _
      (notice_in-offers agent_id release r states)

row-offers :
    (b c updating : Bool) → b ≡ true → c ≡ false → (if b && updating then true else c) ≡ updating
row-offers b c true e f = if-true true c (b && true) (ground (arith, e))
row-offers b c false e f = if-false true c (b && false) (ground (arith, e)) ∙ f

absent-offers :
    (agent_id : String) (states : List AgentUpdateState)
    → ¬ In agent_id (names states)
    → offers agent_id states ≡ false
absent-offers agent_id [] h = refl
absent-offers agent_id (s ∷ states) h =
    if-false true (offers agent_id states) _
      (ap (λ b. b && is_updating s.status) (==-false s.agent_id agent_id (λ e. h (inl e))))
    ∙ absent-offers agent_id states (λ m. h (inr m))

-- The row of an agent, once written, offers the update exactly where it is written as updating.
set_agent_state-offers :
    (s : AgentUpdateState) (states : List AgentUpdateState)
    → Distinct (names states)
    → offers s.agent_id (set_agent_state s states) ≡ is_updating s.status
unfolding set_agent_state
set_agent_state-offers s [] d =
    row-offers (s.agent_id == s.agent_id) false (is_updating s.status) (==_self s.agent_id) refl
set_agent_state-offers s (row ∷ states) (fresh, d) =
    elim (Bool-cases (row.agent_id == s.agent_id)) [
      | inl q ↦
          ap (offers s.agent_id) (if-true _ (row ∷ set_agent_state s states) _ q)
          ∙ row-offers (row.agent_id == s.agent_id) (offers s.agent_id states)
              (is_updating s.status) q
              (subst (λ i. offers i states ≡ false) ((==_iff row.agent_id s.agent_id).0 q)
                (absent-offers row.agent_id states fresh))
      | inr q ↦
          ap (offers s.agent_id) (if-false _ (row ∷ set_agent_state s states) _ q)
          ∙ (if-false true (offers s.agent_id (set_agent_state s states)) _
                (ap (λ b. b && is_updating row.status) q)
              ∙ set_agent_state-offers s states d)
    ]

none-not-some : (n : UpdateNotification) → ◌≢◌ {A = Option UpdateNotification} none (some n)
none-not-some n = ground arith

module _ (agent_id : String) (release : String → Option Release)
    (states_of : String → Option (List AgentUpdateState)) where
  -- The rollout that offers the agent an update: it runs, its states and its release are there, and
  -- the states hold the agent as updating.
  pub record Offering (r : Rollout) (n : UpdateNotification) : Type 0 where
    pub running : is_in_progress r.status ≡ true
    pub states : List AgentUpdateState
    pub read : states_of r.id ≡ some states
    pub marked : offers agent_id states ≡ true
    pub shipped : Release
    pub found : release r.release_id ≡ some shipped
    pub same : n ≡ notification_of r shipped

  notice_in-missing :
      (r : Rollout) (states : List AgentUpdateState) → notice_in agent_id none r states ≡ none
  unfolding notice_in
  notice_in-missing r [] = refl
  notice_in-missing r (s ∷ states) =
      branch (λ o. o ≡ none) (s.agent_id == agent_id && is_updating s.status)
        (λ _. notice_in-missing r states) (λ _. notice_in-missing r states)

  offered :
      (r : Rollout) (n : UpdateNotification) (states : List AgentUpdateState) (shipped : Release)
      → notice_in agent_id (some shipped) r states ≡ some n
      → (offers agent_id states ≡ true) × (n ≡ notification_of r shipped)
  offered r n states shipped e = elim (Bool-cases (offers agent_id states)) [
    | inl q ↦
        (q, some-inj (sym e ∙ notice_in-offers agent_id shipped r states ∙ if-true _ none _ q))
    | inr q ↦
        let empty =
          sym e ∙ notice_in-offers agent_id shipped r states ∙ if-false (some _) none _ q in
        absurd (none-not-some n (sym empty))
  ]

  notice_in-Offering :
      (r : Rollout) (n : UpdateNotification) (states : List AgentUpdateState)
      → is_in_progress r.status ≡ true
      → states_of r.id ≡ some states
      → notice_in agent_id (release r.release_id) r states ≡ some n
      → Offering r n
  notice_in-Offering r n states running read e = elim (Option-cases (release r.release_id)) [
    | inl q ↦ absurd (
        none-not-some n
          (sym (notice_in-missing r states) ∙ ap (λ o. notice_in agent_id o r states) (sym q) ∙ e))
    | inr (shipped, q) ↦
        let (marked, same) =
          offered r n states shipped (ap (λ o. notice_in agent_id o r states) (sym q) ∙ e) in
        record {
          running = running;
          states = states;
          read = read;
          marked = marked;
          shipped = shipped;
          found = q;
          same = same;
        }
  ]

  abbrev notice_from : Rollout → Option (List AgentUpdateState) → Option UpdateNotification
  notice_from r none = none
  notice_from r (some states) = notice_in agent_id (release r.release_id) r states

  notice_of-running :
      (r : Rollout)
      → is_in_progress r.status ≡ true
      → notice_of agent_id release states_of r ≡ notice_from r (states_of r.id)
  unfolding notice_of
  notice_of-running r running =
      if-false none (notice_from r (states_of r.id)) (not (is_in_progress r.status))
        (ap not running)

  notice_of-idle :
      (r : Rollout)
      → is_in_progress r.status ≡ false
      → notice_of agent_id release states_of r ≡ none
  unfolding notice_of
  notice_of-idle r idle =
      if-true none (notice_from r (states_of r.id)) (not (is_in_progress r.status)) (ap not idle)

  notice_of-Offering :
      (r : Rollout) (n : UpdateNotification)
      → (notice_of agent_id release states_of r ≡ some n) ↔ Offering r n
  notice_of-Offering r n = (
    λ e. elim (Bool-cases (is_in_progress r.status)) [
      | inl running ↦
          let from = sym (notice_of-running r running) ∙ e in
          elim (Option-cases (states_of r.id)) [
            | inl q ↦ absurd (none-not-some n (ap (notice_from r) (sym q) ∙ from))
            | inr (states, q) ↦
                notice_in-Offering r n states running q (ap (notice_from r) (sym q) ∙ from)
          ]
      | inr idle ↦ absurd (none-not-some n (sym (notice_of-idle r idle) ∙ e))
    ],
    λ o.
        notice_of-running r o.running
        ∙ ap (notice_from r) o.read
        ∙ ap (λ found. notice_in agent_id found r o.states) o.found
        ∙ notice_in-offers agent_id o.shipped r o.states
        ∙ if-true _ none _ o.marked
        ∙ ap some (sym o.same),
  )

  -- The first of the rollouts that offers the agent an update, or that none does.
  pub data First : List Rollout → Option UpdateNotification → Type 0 where
    nobody : First [] none
    here :
        {r : Rollout} {rollouts : List Rollout} (n : UpdateNotification)
        → Offering r n
        → First (r ∷ rollouts) (some n)
    later :
        {r : Rollout} {rollouts : List Rollout} {answer : Option UpdateNotification}
        → ((n : UpdateNotification) → ¬ Offering r n)
        → First rollouts answer
        → First (r ∷ rollouts) answer

  abbrev notice_or : Option UpdateNotification → List Rollout → Option UpdateNotification
  notice_or found rollouts = elim found [
    | none ↦ first_notice agent_id release states_of rollouts
    | some n ↦ some n
  ]

  first_notice-First :
      (rollouts : List Rollout) → First rollouts (first_notice agent_id release states_of rollouts)
  first_notice-First [] = nobody
  first_notice-First (r ∷ rollouts) = elim (Option-cases (notice_of agent_id release states_of r)) [
    | inl q ↦
        subst (λ found. First (r ∷ rollouts) (notice_or found rollouts)) (sym q)
          (later (λ n o. none-not-some n (sym q ∙ (notice_of-Offering r n).1 o))
            (first_notice-First rollouts))
    | inr (n, q) ↦
        subst (λ found. First (r ∷ rollouts) (notice_or found rollouts)) (sym q)
          (here n ((notice_of-Offering r n).0 q))
  ]

  -- An agent that asks is answered with the first of the listed rollouts that is in progress, whose
  -- states hold the agent as updating and whose release is there, or with nothing where there is none.
  pub should_update_agent-First :
      (rollouts : List Rollout)
      → (answer : Option UpdateNotification) × ((should_update_agent agent_id release states_of
              (some rollouts)
            ≡ some answer)
          × First rollouts answer)
  unfolding should_update_agent
  should_update_agent-First rollouts =
      (first_notice agent_id release states_of rollouts, (refl, first_notice-First rollouts))

-- One rollout in progress answers an agent that its states offer the update.
answered :
    (agent_id : String) (r : Rollout) (shipped : Release) (states : List AgentUpdateState)
    → is_in_progress r.status ≡ true
    → should_update_agent agent_id (λ _. some shipped) (λ _. some states) (some (r ∷ []))
      ≡ some (if offers agent_id states then some (notification_of r shipped) else none)
unfolding should_update_agent
answered agent_id r shipped states running =
    ap (λ found. some (notice_or agent_id (λ _. some shipped) (λ _. some states) found []))
      (notice_of-running agent_id (λ _. some shipped) (λ _. some states) r running
        ∙ notice_in-offers agent_id shipped r states)
    ∙ branch
        (λ (o : Option UpdateNotification).
          some (elim o as (λ _. Option UpdateNotification) [ none ↦ none | some n ↦ some n ])
          ≡ some o)
        (offers agent_id states) (λ _. refl) (λ _. refl)

-- A rollout in progress whose release is there: once the agent is notified, it is told to update, and
-- once it has reported, whatever it reports, it is told nothing.
pub should_update_agent-report :
    (agent_id : String) (r : Rollout) (shipped : Release) (states : List AgentUpdateState)
    (version err : String) (wave now : ℕ) (success : Bool)
    → is_in_progress r.status ≡ true
    → Distinct (names states)
    → (should_update_agent agent_id
          (λ _. some shipped)
          (λ _. some (notify_agent_update version agent_id wave now states))
          (some (r ∷ []))
        ≡ some (some (notification_of r shipped)))
      × (should_update_agent agent_id
            (λ _. some shipped)
            (λ _. some (report_agent_update agent_id success err now states))
            (some (r ∷ []))
          ≡ some none)
unfolding notify_agent_update report_agent_update
should_update_agent-report agent_id r shipped states version err wave now success running d = (
  answered agent_id r shipped _ running
      ∙ ap (λ b. some (if b then some (notification_of r shipped) else none))
          (set_agent_state-offers _ states d),
  answered agent_id r shipped _ running
      ∙ ap (λ b. some (if b then some (notification_of r shipped) else none))
          (set_agent_state-offers _ states d
            ∙ branch (λ s. is_updating s ≡ false) success (λ _. refl) (λ _. refl)),
)
