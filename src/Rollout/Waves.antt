-- ===== src/Rollout/Waves.antt =====
-- engine.go: `executeStagedWaves`, `executeCanary`, and what they use. What happens outside the
-- engine (time, cancellation, the agents' reports and their health) is an `Env`.
use icmp_mon.Base.{
  ◌&&◌, ℕ, ◌+◌, ◌-◌, ◌*◌, ◌/◌, String, List, [], ◌∷◌, ◌++◌, Option, none, some, Bool, true, false,
  not, if◌then◌else◌, ltb, leb, length, take, drop, map, keep, contains, count_where,
}
use icmp_mon.Rollout.{AgentUpdateState, Rollout}
use icmp_mon.Rollout.Table.{
  WaitEvent, WaitResult, still_waiting, wave_complete, context_cancelled, wave_timed_out,
  wave_panics, wave_failures, wait_for_wave,
}

-- The answers of the outside during a rollout.
pub record Env : Type 0 where
  -- The context has ended before the wave of this index, after it, during its health check.
  pub done_before : ℕ → Bool
  pub done_after : ℕ → Bool
  pub done_in_health : ℕ → Bool
  -- What the wait for the wave of this number receives.
  pub events : ℕ → List WaitEvent
  -- `IsAgentHealthy` answers true, without an error.
  pub healthy : String → Bool

pub data WaveError : Type 0 where
  context_done : WaveError
  wave_failed : ℕ → WaitResult → WaveError
  health_check_failed : ℕ → WaveError
  out_of_range : WaveError

-- `unfinished`: the wait for a wave has not returned after the events given.
pub data Outcome : Type 0 where
  finished unfinished : Outcome
  stopped : WaveError → Outcome

-- `selectRandomAgents`
unfoldable pub select_random_agents {ℓ} : {A : Type ℓ} → List A → ℕ → List A
select_random_agents agents count = if leb (length agents) count then agents else take count agents

-- `excludeAgents`
unfoldable pub exclude_agents :
    List AgentUpdateState → List AgentUpdateState → List AgentUpdateState
exclude_agents everyone exclude =
    keep (λ a. not (contains (map (λ e. e.agent_id) exclude) a.agent_id)) everyone

-- `verifyWaveHealth`; `none` is the nil error.
unfoldable pub verify_wave_health : Env → ℕ → ℕ → List AgentUpdateState → Option WaveError
verify_wave_health env threshold wave agents =
    let unhealthy = count_where (λ a. not (env.healthy a.agent_id)) agents in
    if env.done_in_health wave
    then some context_done
    else if ltb 0 unhealthy
    then if leb threshold (unhealthy * 100 / length agents)
      then some (health_check_failed wave)
      else none
    else none

-- The wait for a wave and the check of its health.
unfoldable pub run_wave : Env → ℕ → ℕ → ℕ → List AgentUpdateState → Outcome
unfolding verify_wave_health
run_wave env threshold wave expected agents =
    elim (wait_for_wave threshold wave expected (env.events wave)) [
      | wave_complete ↦ elim (verify_wave_health env threshold wave agents) [
        | none ↦ finished
        | some e ↦ stopped e
      ]
      | still_waiting ↦ unfinished
      | context_cancelled ↦ stopped (wave_failed wave context_cancelled)
      | wave_timed_out ↦ stopped (wave_failed wave wave_timed_out)
      | wave_panics ↦ stopped (wave_failed wave wave_panics)
      | wave_failures p ↦ stopped (wave_failed wave (wave_failures p))
    ]

-- What a run leaves: the rollout, the notifications sent (agent and wave, in order), the count of
-- the agents that its waves have covered, and how it ended.
pub record Staged : Type 0 where
  pub rollout : Rollout
  pub notified : List (String × ℕ)
  pub covered : ℕ
  pub outcome : Outcome

abbrev pub notices : ℕ → List AgentUpdateState → List (String × ℕ)
notices wave agents = map (λ a. (a.agent_id, wave)) agents

-- The progress fields that a finished wave writes.
abbrev pub advance : Rollout → ℕ → ℕ → ℕ → Rollout
advance r wave target total = record r {
  current_wave = wave;
  agents_updated = target;
  agents_pending = total - target;
}

abbrev pub is_last : List ℕ → Bool
is_last [] = true
is_last (_ ∷ _) = false

-- How one round of the loop goes on: the function returns, or the next round starts.
pub data Round : Type 0 where
  return_with continue_with : Staged → Round

-- What follows the wait and the health check of a wave: `sent` is the state with the wave's
-- notifications, `next` the one with its progress too, `halted` that the context ends during the
-- delay before the next wave.
unfoldable pub settle : Bool → Staged → Staged → Outcome → Round
settle halted sent next (stopped e) = return_with (record sent { outcome = stopped e })
settle halted sent next unfinished = return_with (record sent { outcome = unfinished })
settle halted sent next finished =
    if halted
    then return_with (record next { outcome = stopped context_done })
    else continue_with next

-- The body of the loop of `executeStagedWaves` at the index `i`, with the percentages after it.
unfoldable pub wave_round : Env → List AgentUpdateState → ℕ → ℕ → ℕ → List ℕ → Staged → Round
wave_round env agents start i percent waves s =
    let wave = start + i + 1 in
    let target = length agents * percent / 100 in
    let count = target - s.covered in
    let chosen = select_random_agents (drop s.covered agents) count in
    let sent = s.notified ++ notices wave chosen in
    if env.done_before i
    then return_with (record s { outcome = stopped context_done })
    else if leb target s.covered
    then continue_with s
    else if ltb (length agents) s.covered
    then return_with (record s { outcome = stopped out_of_range })
    else settle (not (is_last waves) && env.done_after i) (record s { notified = sent })
        (record s {
          rollout = advance s.rollout wave target (length agents);
          notified = sent;
          covered = target;
        })
        (run_wave env s.rollout.config.failure_threshold wave count chosen)

unfoldable pub staged_from : Env → List AgentUpdateState → ℕ → ℕ → List ℕ → Staged → Staged
staged_from env agents start i [] s = s
staged_from env agents start i (percent ∷ waves) s =
    elim (wave_round env agents start i percent waves s) [
      | return_with t ↦ t
      | continue_with t ↦ staged_from env agents start (i + 1) waves t
    ]

-- `executeStagedWaves`
unfoldable pub execute_staged_waves :
    Env → Rollout → List AgentUpdateState → ℕ → List (String × ℕ) → Staged
unfolding staged_from
execute_staged_waves env rollout agents start sent =
    staged_from env agents start 0 rollout.config.waves
      (record { rollout = rollout; notified = sent; covered = 0; outcome = finished })

-- `executeStaged`, given the answer of `GetAgentUpdateStates`.
unfoldable pub execute_staged : Env → Rollout → List AgentUpdateState → Staged
unfolding execute_staged_waves
execute_staged env rollout agents = execute_staged_waves env rollout agents 0 []

-- The size of the canary wave.
unfoldable pub canary_count : Rollout → List AgentUpdateState → ℕ
canary_count rollout agents =
    let n = length agents * rollout.config.canary_percent / 100 in if ltb n 1 then 1 else n

abbrev pub canary_agents : Rollout → List AgentUpdateState → List AgentUpdateState
canary_agents rollout agents = select_random_agents agents (canary_count rollout agents)

abbrev pub canary_stop : Rollout → List (String × ℕ) → Outcome → Staged
canary_stop rollout sent o = record { rollout = rollout; notified = sent; covered = 0; outcome = o }

-- How the canary wave ends, from the wait's answer, the context's end while the canaries are
-- watched, and the health check; `none`: the staged waves follow.
unfoldable pub canary_outcome : WaitResult → Bool → Option WaveError → Option Outcome
canary_outcome wave_complete true health = some (stopped context_done)
canary_outcome wave_complete false none = none
canary_outcome wave_complete false (some e) = some (stopped e)
canary_outcome still_waiting _ health = some unfinished
canary_outcome context_cancelled _ health = some (stopped (wave_failed 0 context_cancelled))
canary_outcome wave_timed_out _ health = some (stopped (wave_failed 0 wave_timed_out))
canary_outcome wave_panics _ health = some (stopped (wave_failed 0 wave_panics))
canary_outcome (wave_failures p) _ health = some (stopped (wave_failed 0 (wave_failures p)))

-- `executeCanary`, given the answer of `GetAgentUpdateStates`. The canary wave has number 0.
unfoldable pub execute_canary : Env → Bool → Rollout → List AgentUpdateState → Staged
execute_canary env done_while_watching rollout agents =
    let canaries = canary_agents rollout agents in
    let sent = notices 0 canaries in
    elim (canary_outcome
      (wait_for_wave rollout.config.failure_threshold 0 (canary_count rollout agents)
        (env.events 0))
      done_while_watching (verify_wave_health env rollout.config.failure_threshold 0 canaries)) [
        | some o ↦ canary_stop rollout sent o
        | none ↦ execute_staged_waves env rollout (exclude_agents agents canaries) 1 sent
      ]
