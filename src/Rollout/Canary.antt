-- ===== src/Rollout/Canary.antt =====
-- `executeCanary`: the canaries and the rest, and who is notified.
use icmp_mon.Base.{
  contains-false, take-all, In-map, contains_iff, ◌≢◌, ap₂, append-take-drop, length-append, Option,
  none, some, All-from, All-from, ◌≢◌, keep-append, some, Option, append-take-drop, subst,
  Distinct-parts, ℕ, zero, suc, ◌+◌, ◌≤◌, ◌≡◌, refl, sym, ap, ◌∙◌, List, [], ◌∷◌, ◌++◌, Bool, true,
  false, not, arith, length, take, drop, All, In, Distinct, keep, contains,
}
use icmp_mon.Rollout.{AgentUpdateState, Rollout}
use icmp_mon.Rollout.Waves.{
  verify_wave_health, WaveError, canary_stop, Outcome, notices, execute_staged_waves,
  canary_outcome, Env, Staged, exclude_agents, select_random_agents, canary_agents, canary_count,
  execute_canary, finished,
}
use icmp_mon.Rollout.Table.{
  WaitResult, still_waiting, wave_complete, context_cancelled, wave_timed_out, wave_panics,
  wave_failures, wait_for_wave,
}
use icmp_mon.Rollout.Progress.{
  unfinished-finished, highest-all, stopped-finished, kept, called-notices, take-add,
  execute_staged_waves-Result, select_random_agents-take, Prefix, names-append, names, called,
}

-- With distinct agents, `excludeAgents` leaves exactly the agents after the first `count`.
exclude_agents-select :
    (agents : List AgentUpdateState) (count : ℕ)
    → Distinct (names agents)
    → exclude_agents agents (select_random_agents agents count) ≡ drop count agents
unfolding exclude_agents
exclude_agents-select agents count d =
    let chosen = take count agents in
    let rest = drop count agents in
    let absent : AgentUpdateState → Bool = λ a. not (contains (names chosen) a.agent_id) in
    let parts = Distinct-parts (names chosen) (names rest) (
      subst Distinct (sym (ap names (append-take-drop count agents)) ∙ names-append chosen rest)
        d) in
    ap (λ c. keep (λ a. not (contains (names c) a.agent_id)) agents)
      (select_random_agents-take agents count)
    ∙ ap (keep absent) (sym (append-take-drop count agents))
    ∙ keep-append absent chosen rest
        (All-from chosen (λ a m.
          ap not
            ((contains_iff (names chosen) a.agent_id).1 (In-map (λ x. x.agent_id) a chosen m))))
        (All-from rest (λ a m. ap not (
          contains-false (names chosen) a.agent_id
            (λ c. parts.2 a.agent_id c (In-map (λ x. x.agent_id) a rest m)))))

-- The canary phase never ends the rollout as finished.
Stops : Option Outcome → Type 0
Stops none = Unit
Stops (some o) = o ≢ finished

canary_outcome-Stops :
    (w : WaitResult) (done : Bool) (health : Option WaveError)
    → Stops (canary_outcome w done health)
unfolding canary_outcome Stops
canary_outcome-Stops wave_complete true health = stopped-finished _
canary_outcome-Stops wave_complete false none = tt
canary_outcome-Stops wave_complete false (some e) = stopped-finished _
canary_outcome-Stops still_waiting done health = unfinished-finished
canary_outcome-Stops context_cancelled done health = stopped-finished _
canary_outcome-Stops wave_timed_out done health = stopped-finished _
canary_outcome-Stops wave_panics done health = stopped-finished _
canary_outcome-Stops (wave_failures p) done health = stopped-finished _

take-length-take {ℓ} : {A : Type ℓ} (c : ℕ) (xs : List A) → take (length (take c xs)) xs ≡ take c xs
take-length-take zero xs = refl
take-length-take (suc c) [] = refl
take-length-take (suc c) (x ∷ xs) = ap (λ r. x ∷ r) (take-length-take c xs)

drop-length-take {ℓ} : {A : Type ℓ} (c : ℕ) (xs : List A) → drop (length (take c xs)) xs ≡ drop c xs
drop-length-take zero xs = refl
drop-length-take (suc c) [] = refl
drop-length-take (suc c) (x ∷ xs) = drop-length-take c xs

length-take-drop {ℓ} :
    {A : Type ℓ} (c : ℕ) (xs : List A) → length (take c xs) + length (drop c xs) ≡ length xs
length-take-drop c xs =
    sym (length-append (take c xs) (drop c xs)) ∙ ap length (append-take-drop c xs)

-- The first `sent` of the agents after the canaries, with the canaries before them.
first-names :
    (c sent : ℕ) (agents : List AgentUpdateState)
    → names (take c agents) ++ names (take sent (drop c agents))
      ≡ names (take (length (take c agents) + sent) agents)
first-names c sent agents =
    let k = length (take c agents) in
    sym (names-append (take c agents) (take sent (drop c agents)))
    ∙ ap₂ (λ a b. names (a ++ take sent b)) (sym (take-length-take c agents))
        (sym (drop-length-take c agents))
    ∙ ap names (take-add k sent agents)

module _ (rollout : Rollout) (agents : List AgentUpdateState) where
  -- What every rollout with canaries leaves.
  abbrev Result : Staged → Type 0
  Result t =
      Prefix [] agents t
      × (t.outcome ≡ finished → In 100 rollout.config.waves → called t.notified ≡ names agents)

  called-canaries :
      called (notices 0 (canary_agents rollout agents))
      ≡ names (take (canary_count rollout agents) agents)
  called-canaries =
      called-notices 0 (canary_agents rollout agents)
      ∙ ap names (select_random_agents-take agents (canary_count rollout agents))

  stop-Result :
      (o : Outcome)
      → o ≢ finished
      → Result (canary_stop rollout (notices 0 (canary_agents rollout agents)) o)
  stop-Result o h =
      let c = canary_count rollout agents in
      (
        kept {n = length (take c agents)}
            (called-canaries ∙ ap names (sym (take-length-take c agents)))
            (omega (arith, length-take-drop c agents)) (omega arith),
        λ e m. absurd (h e),
      )

  staged-Result :
      (env : Env)
      → All (λ p. p ≤ 100) rollout.config.waves
      → Result (
          execute_staged_waves env rollout
            (drop (canary_count rollout agents) agents)
            1
            (notices 0 (canary_agents rollout agents)))
  staged-Result env h =
      let c = canary_count rollout agents in
      let rest = drop c agents in
      let r =
        execute_staged_waves-Result env rollout rest 1 (notices 0 (canary_agents rollout agents))
          h in
      (
        kept {n = length (take c agents) + r.0.sent}
            (r.0.in_order
              ∙ ap (λ x. x ++ names (take r.0.sent rest)) called-canaries
              ∙ first-names c r.0.sent agents)
            (omega (arith, length-take-drop c agents, r.0.within))
            (omega (arith, r.0.covered_sent)),
        λ done m.
            r.1 done
            ∙ ap₂ (λ x y. x ++ names y) called-canaries
                (take-all _ rest (highest-all (length rest) 0 rollout.config.waves m))
            ∙ sym (names-append (take c agents) rest)
            ∙ ap names (append-take-drop c agents),
      )

  after_canaries :
      (phase : Option Outcome) (staged : Staged)
      → Stops phase
      → Result staged
      → Result (elim phase [
        | some o ↦ canary_stop rollout (notices 0 (canary_agents rollout agents)) o
        | none ↦ staged
      ])
  unfolding Stops
  after_canaries none staged h r = r
  after_canaries (some o) staged h r = stop-Result o h

execute_canary-Result :
    (env : Env) (watching : Bool) (rollout : Rollout) (agents : List AgentUpdateState)
    → All (λ p. p ≤ 100) rollout.config.waves
    → Distinct (names agents)
    → Result rollout agents (execute_canary env watching rollout agents)
unfolding execute_canary
execute_canary-Result env watching rollout agents h d =
    after_canaries rollout agents
      (canary_outcome
        (wait_for_wave rollout.config.failure_threshold 0 (canary_count rollout agents)
          (env.events 0))
        watching
        (verify_wave_health env rollout.config.failure_threshold 0 (canary_agents rollout agents)))
      _ (canary_outcome-Stops _ _ _)
      (subst
        (λ x.
          Result rollout agents
            (execute_staged_waves env rollout x 1 (notices 0 (canary_agents rollout agents))))
        (sym (exclude_agents-select agents (canary_count rollout agents) d))
        (staged-Result rollout agents env h))

-- A canary rollout with distinct agents and percentages of at most 100 notifies the first agents of
-- the list, canaries first, in the list's order and each of them once, whatever the context, the
-- reports and the health checks do.
pub execute_canary-Prefix :
    (env : Env) (watching : Bool) (rollout : Rollout) (agents : List AgentUpdateState)
    → All (λ p. p ≤ 100) rollout.config.waves
    → Distinct (names agents)
    → Prefix [] agents (execute_canary env watching rollout agents)
execute_canary-Prefix env watching rollout agents h d =
    (execute_canary-Result env watching rollout agents h d).0
