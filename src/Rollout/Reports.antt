-- ===== src/Rollout/Reports.antt =====
-- What the table of update states holds after any run of `notifyAgentUpdate` and
-- `ReportAgentUpdate`, and what the wait for a wave makes of it.
use icmp_mon.Base.{
  sym, subst, ◌∙◌, if◌then◌else◌, ◌&&◌, ap, ◌||◌, eqb, branch, ℕ, suc, ◌<◌, ◌≡◌, refl, ◌≢◌, String,
  List, [], ◌∷◌, map, Bool, true, false, arith, All, none, some, ◌==◌,
}
use icmp_mon.Rollout.Waves.{staged_from, execute_staged_waves, Env, execute_staged, finished}
use icmp_mon.Rollout.{
  Rollout, to_rollout_rollout, to_store_rollout, AgentUpdateState, UpdateStatus, Release, AgentInfo,
  initial_state,
}
use icmp_mon.Rollout.Table.{
  set_agent_state, notify_agent_update, report_agent_update, is_updated, is_failed, updated_in,
  failed_in, poll_wave, keep_waiting, WaitEvent, cancelled, timed_out, tick, wait_for_wave,
  wave_complete,
}

-- The tables that a rollout goes through: the rows that `StartRollout` inserts, then notices of
-- waves and reports of agents in any order.
pub data Reachable : List AgentUpdateState → Type 0 where
  created :
      (release : Release) (agents : List AgentInfo) → Reachable (map (initial_state release) agents)
  notified :
      {rows : List AgentUpdateState} (version agent_id : String) (wave now : ℕ)
      → Reachable rows
      → Reachable (notify_agent_update version agent_id wave now rows)
  reported :
      {rows : List AgentUpdateState} (agent_id : String) (success : Bool) (err : String) (now : ℕ)
      → Reachable rows
      → Reachable (report_agent_update agent_id success err now rows)

-- A tick of the wait that shows such a table.
pub data Shown : WaitEvent → Type 0 where
  shown_cancelled : Shown cancelled
  shown_timed_out : Shown timed_out
  shown_failure : Shown (tick none)
  shown_rows : {rows : List AgentUpdateState} → Reachable rows → Shown (tick (some rows))

abbrev is_reported : UpdateStatus → Bool
is_reported s = is_updated s || is_failed s

-- A row that holds a report stands at wave 0.
abbrev Unplaced : AgentUpdateState → Type 0
Unplaced s = is_reported s.status ≡ true → s.wave ≡ 0

set_agent_state-Unplaced :
    (s : AgentUpdateState) (rows : List AgentUpdateState)
    → Unplaced s
    → All Unplaced rows
    → All Unplaced (set_agent_state s rows)
unfolding set_agent_state
set_agent_state-Unplaced s [] h hs = (h, tt)
set_agent_state-Unplaced s (r ∷ rows) h (k, ks) =
    let rest = set_agent_state-Unplaced s rows h ks in
    branch (All Unplaced) (r.agent_id == s.agent_id) (λ _. (h, ks)) (λ _. (k, rest))

initial-Unplaced :
    (release : Release) (agents : List AgentInfo)
    → All Unplaced (map (initial_state release) agents)
initial-Unplaced release [] = tt
initial-Unplaced release (a ∷ agents) = (λ _. refl, initial-Unplaced release agents)

Reachable-Unplaced : {rows : List AgentUpdateState} → Reachable rows → All Unplaced rows
unfolding notify_agent_update report_agent_update
Reachable-Unplaced (created release agents) = initial-Unplaced release agents
Reachable-Unplaced (notified {rows = rows} version agent_id wave now r) =
    set_agent_state-Unplaced _ rows (λ e. ground (arith, e)) (Reachable-Unplaced r)
Reachable-Unplaced (reported {rows = rows} agent_id success err now r) =
    set_agent_state-Unplaced _ rows (λ _. refl) (Reachable-Unplaced r)

-- Neither count takes a row that stands at wave 0 as soon as it holds a report.
not-counted :
    (wave w : ℕ) (status : UpdateStatus)
    → 0 < wave
    → (is_reported status ≡ true → w ≡ 0)
    → ((eqb w wave && is_updated status) ≡ false) × ((eqb w wave && is_failed status) ≡ false)
not-counted wave w UpdateStatus.pending pos h = ground arith
not-counted wave w UpdateStatus.updating pos h = ground arith
not-counted wave w UpdateStatus.updated pos h = ground (arith, h refl)
not-counted wave w UpdateStatus.failed pos h = ground (arith, h refl)
not-counted wave w UpdateStatus.skipped pos h = ground arith

counts-zero :
    (wave : ℕ) (rows : List AgentUpdateState)
    → 0 < wave
    → All Unplaced rows
    → (updated_in wave rows ≡ 0) × (failed_in wave rows ≡ 0)
counts-zero wave [] pos h = (refl, refl)
counts-zero wave (r ∷ rows) pos (h, hs) =
    let none_here = not-counted wave r.wave r.status pos h in
    let none_there = counts-zero wave rows pos hs in
    (
      ap (λ b. if b then suc (updated_in wave rows) else updated_in wave rows) none_here.0
          ∙ none_there.0,
      ap (λ b. if b then suc (failed_in wave rows) else failed_in wave rows) none_here.1
          ∙ none_there.1,
    )

poll_wave-waits :
    (threshold wave expected : ℕ) (rows : List AgentUpdateState)
    → 0 < wave
    → 0 < expected
    → Reachable rows
    → poll_wave threshold wave expected rows ≡ keep_waiting
unfolding poll_wave
poll_wave-waits threshold wave expected rows p q r =
    let zero_counts = counts-zero wave rows p (Reachable-Unplaced r) in
    ground (arith, zero_counts.0, zero_counts.1)

wait_for_wave-tick :
    (threshold wave expected : ℕ) (rows : List AgentUpdateState) (events : List WaitEvent)
    → poll_wave threshold wave expected rows ≡ keep_waiting
    → wait_for_wave threshold wave expected (tick (some rows) ∷ events)
      ≡ wait_for_wave threshold wave expected events
unfolding wait_for_wave
wait_for_wave-tick threshold wave expected rows events h = rw (h, wait_for_wave) refl

-- Once a rollout's table is created, no run of notices and reports brings the wait for a wave of
-- number 1 or more, with an agent to wait for, to the answer that the wave is complete:
-- `ReportAgentUpdate` stores each report under wave 0.
pub wait_for_wave-incomplete :
    (threshold wave expected : ℕ) (events : List WaitEvent)
    → 0 < wave
    → 0 < expected
    → All Shown events
    → wait_for_wave threshold wave expected events ≢ wave_complete
unfolding wait_for_wave
wait_for_wave-incomplete threshold wave expected [] p q h = ground arith
wait_for_wave-incomplete threshold wave expected (cancelled ∷ events) p q h = ground arith
wait_for_wave-incomplete threshold wave expected (timed_out ∷ events) p q h = ground arith
wait_for_wave-incomplete threshold wave expected (tick none ∷ events) p q (h, hs) =
    wait_for_wave-incomplete threshold wave expected events p q hs
wait_for_wave-incomplete threshold wave expected (tick (some rows) ∷ events) p q
      (shown_rows r, hs) =
    subst (λ x. x ≢ wave_complete)
      (sym (
        wait_for_wave-tick threshold wave expected rows events
          (poll_wave-waits threshold wave expected rows p q r)))
      (wait_for_wave-incomplete threshold wave expected events p q hs)

-- A rollout that the engine has stored and reads back, run as a staged rollout, finishes at once
-- and has notified no agent: the list of waves is not stored.
pub execute_staged-stored :
    (env : Env) (rollout : Rollout) (agents : List AgentUpdateState)
    → let run = execute_staged env (to_rollout_rollout (to_store_rollout rollout)) agents in
      (run.outcome ≡ finished) × (run.notified ≡ [])
unfolding execute_staged execute_staged_waves staged_from to_rollout_rollout
execute_staged-stored env rollout agents = (refl, refl)
