-- ===== src/Rollout/Examples.antt =====
-- Small rollouts, on which the theorems about rollouts are used.
use icmp_mon.Base.{
  Option, ℕ, ◌≡◌, ◌≢◌, String, List, [], ◌∷◌, map, true, false, none, some, arith, Distinct, ==_iff,
}
use icmp_mon.Rollout.{
  AgentUpdateState, UpdateStatus, Rollout, Status, Release, AgentInfo, initial_state,
  default_config,
}
use icmp_mon.Rollout.Table.{
  WaitEvent, tick, wait_for_wave, wave_complete, report_agent_update, notify_agent_update,
}
use icmp_mon.Rollout.Waves.{Env, execute_staged, execute_canary}
use icmp_mon.Rollout.Progress.{names, Prefix, execute_staged-Prefix}
use icmp_mon.Rollout.Canary.{execute_canary-Prefix}
use icmp_mon.Rollout.Notices.{UpdateNotification, should_update_agent}
use icmp_mon.Rollout.Notices.Offers.{First, should_update_agent-First}
use icmp_mon.Rollout.Reports.{shown_rows, created, notified, reported, wait_for_wave-incomplete}

abbrev row : String → ℕ → UpdateStatus → AgentUpdateState
row id wave status = record {
  agent_id = id;
  agent_name = id;
  wave = wave;
  status = status;
  from_version = "1";
  to_version = "2";
  started_at = none;
  completed_at = none;
  error = "";
}

abbrev fleet : List AgentUpdateState
fleet =
    row "a1" 0 UpdateStatus.pending
    ∷ row "a2" 0 UpdateStatus.pending
    ∷ row "a3" 0 UpdateStatus.pending
    ∷ []

-- Half of the agents, then all of them.
abbrev halves : Rollout
halves = record {
  id = "r1";
  release_id = "v2";
  version = "2";
  config = record default_config { waves = 50 ∷ 100 ∷ []; canary_percent = 34 };
  status = Status.in_progress;
  current_wave = 0;
  total_waves = 2;
  agents_total = 3;
  agents_pending = 3;
  agents_updating = 0;
  agents_updated = 0;
  agents_failed = 0;
  agents_skipped = 0;
  started_at = none;
  paused_at = none;
  completed_at = none;
  rolled_back_at = none;
  rollback_reason = "";
  last_error = "";
  created_by = "";
  created_at = 0;
  updated_at = 0;
}

-- Every agent is shown as updated in the wave that is waited for.
abbrev smooth : Env
smooth = record {
  done_before = λ _. false;
  done_after = λ _. false;
  done_in_health = λ _. false;
  events = λ w.
      tick none
      ∷ tick (some (row "a1" w UpdateStatus.updated ∷ row "a2" w UpdateStatus.updated ∷ []))
      ∷ [];
  healthy = λ _. true;
}

execute_staged-Prefix_example : Prefix [] fleet (execute_staged smooth halves fleet)
execute_staged-Prefix_example =
    execute_staged-Prefix smooth halves fleet (omega arith, (omega arith, tt))

fleet-Distinct : Distinct (names fleet)
fleet-Distinct = ground (arith, ==_iff "a2" "a1", ==_iff "a3" "a1", ==_iff "a3" "a2")

execute_canary-Prefix_example : Prefix [] fleet (execute_canary smooth false halves fleet)
execute_canary-Prefix_example =
    execute_canary-Prefix smooth false halves fleet (omega arith, (omega arith, tt)) fleet-Distinct

abbrev release : Release
release = record { id = "v2"; version = "2"; checksum = ""; size = 1 }

abbrev agents : List AgentInfo
agents = record { id = "a1"; name = "a1"; version = "1"; region = ""; provider = "" } ∷ []

-- The table after the agent's successful report about wave 1.
abbrev shown : WaitEvent
shown = tick (
    some (
      report_agent_update "a1" true "" 8
        (notify_agent_update "2" "a1" 1 7 (map (initial_state release) agents))))

wait_for_wave-incomplete_example : wait_for_wave 10 1 1 (shown ∷ []) ≢ wave_complete
wait_for_wave-incomplete_example =
    wait_for_wave-incomplete 10 1 1 (shown ∷ []) (omega arith) (omega arith)
      (shown_rows (reported "a1" true "" 8 (notified "2" "a1" 1 7 (created release agents))), tt)

abbrev told_states : List AgentUpdateState
told_states = row "a1" 1 UpdateStatus.updating ∷ []

should_update_agent-First_example :
    (answer : Option UpdateNotification) × ((should_update_agent "a1"
          (λ _. some release)
          (λ _. some told_states)
          (some (halves ∷ []))
        ≡ some answer)
      × First "a1" (λ _. some release) (λ _. some told_states) (halves ∷ []) answer)
should_update_agent-First_example =
    should_update_agent-First "a1" (λ _. some release) (λ _. some told_states) (halves ∷ [])
