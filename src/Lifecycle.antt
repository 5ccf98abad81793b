-- ===== src/Lifecycle.antt =====
-- The monitoring states of targets: control-plane/internal/service/state_machine.go (the probe
-- results) on the tables `targets` and `target_state_history` of
-- control-plane/internal/store/store_subnets.go. The worker on a timer is in Worker.
-- The tables are lists of rows. A statement on a database that answers is modelled; the activity
-- log, which nothing reads back, and the column `updated_at` are not.
pub mod Worker
pub mod Lookup
pub mod Row
pub mod Discovery
pub mod Invariant
pub mod Rows
pub mod Cycle
pub mod Representatives
mod Examples
use icmp_mon.Base.{
  ℕ, suc, ◌+◌, String, List, [], ◌∷◌, ◌++◌, map, Option, none, some, Bool, true, false,
  if◌then◌else◌, eqb, leb, ◌==◌, first_where, keep, ◌&&◌, not, count_where, ltb,
}
use icmp_mon.Types.Target.{
  Target, TargetStateTransition, MonitoringState, unset, unknown, active, standby, degraded, down,
  unresponsive, excluded, inactive, is_excluded, is_null, is_active, is_customer,
}

pub record Db : Type 0 where
  pub targets : List Target
  pub history : List TargetStateTransition

-- The comparison of states as strings.
abbrev pub state_code : MonitoringState → ℕ
state_code unset = 0
state_code unknown = 1
state_code active = 2
state_code standby = 3
state_code degraded = 4
state_code down = 5
state_code unresponsive = 6
state_code excluded = 7
state_code inactive = 8

abbrev pub same_state : MonitoringState → MonitoringState → Bool
same_state a b = eqb (state_code a) (state_code b)

-- `WHERE id = $1`
abbrev pub find_target : String → List Target → Option Target
find_target id rows = first_where (λ t. t.id == id) rows

unfoldable pub update_target : String → (Target → Target) → List Target → List Target
update_target id f rows = map (λ t. if t.id == id then f t else t) rows

-- The row that `TransitionTargetState` writes.
abbrev pub moved : ℕ → MonitoringState → Target → Target
moved now state t = record t {
  monitoring_state = state;
  state_changed_at = now;
  needs_review = is_excluded state;
}

-- What `TransitionTargetState` does for the row `t` that it has read.
abbrev pub transition_found : ℕ → String → MonitoringState → String → String → Db → Target → Db
transition_found now id state reason triggered_by db t =
    if same_state t.monitoring_state state then db else record {
      targets = update_target id (moved now state) db.targets;
      history =
          db.history
          ++ (record {
            target_id = id;
            from_state = t.monitoring_state;
            to_state = state;
            reason = reason;
            triggered_by = triggered_by;
          }
              ∷ []);
    }

-- `TransitionTargetState`; `none` is the error of a row that is not there.
unfoldable pub transition_target_state :
    ℕ → String → MonitoringState → String → String → Db → Option Db
transition_target_state now id state reason triggered_by db = elim (find_target id db.targets) [
  | none ↦ none
  | some t ↦ some (transition_found now id state reason triggered_by db t)
]

-- A transaction that fails leaves the tables as they are.
abbrev pub committed : Db → Option Db → Db
committed db none = db
committed db (some d) = d

abbrev pub responded : ℕ → Target → Target
responded time t = record t {
  last_response_at = some time;
  first_response_at = elim t.first_response_at [ none ↦ some time | some first ↦ some first ];
}

-- `UpdateTargetLastResponse`
unfoldable pub update_target_last_response : String → ℕ → Db → Db
update_target_last_response id time db = record db {
  targets = update_target id (responded time) db.targets;
}

-- The switch of `handleSuccessfulProbe`: the reason and the origin of the transition to ACTIVE.
unfoldable pub recovery : MonitoringState → Option (String × String)
recovery unknown = some ("first successful probe response", "discovery")
recovery unresponsive = some ("target started responding", "smart_recheck")
recovery down = some ("target recovered", "system")
recovery degraded = some ("performance recovered", "system")
recovery excluded = some ("target came back online", "smart_recheck")
recovery inactive = some ("inactive target started responding", "system")
recovery _ = none

-- `handleSuccessfulProbe`
unfoldable pub handle_successful_probe : ℕ → Target → ℕ → Db → Db
handle_successful_probe now target time db =
    let touched = update_target_last_response target.id time db in
    elim (recovery target.monitoring_state) [
      | none ↦ touched
      | some (reason, origin) ↦
          committed touched (transition_target_state now target.id active reason origin touched)
    ]

abbrev pub attempted : Target → Target
attempted t = record t { discovery_attempts = t.discovery_attempts + 1 }

-- `IncrementDiscoveryAttempts`, with the count that it returns.
unfoldable pub increment_discovery_attempts : String → Db → Option (ℕ × Db)
increment_discovery_attempts id db = elim (find_target id db.targets) [
  | none ↦ none
  | some t ↦
      some (t.discovery_attempts + 1, record db { targets = update_target id attempted db.targets })
]

-- `DefaultStateProcessorConfig().MaxDiscoveryAttempts`
abbrev pub max_discovery_attempts : ℕ
max_discovery_attempts = 5

-- `handleFailedProbe`
unfoldable pub handle_failed_probe : ℕ → Target → Db → Db
handle_failed_probe now target db =
    if same_state target.monitoring_state unknown
    then elim (increment_discovery_attempts target.id db) [
      | none ↦ db
      | some (attempts, counted) ↦
          if leb max_discovery_attempts attempts
          then committed counted (
              transition_target_state now target.id unresponsive
                "no response after discovery attempts" "discovery" counted)
          else counted
    ]
    else db

-- What `ProcessProbeResult` does for the row that it has read.
abbrev pub process_found : ℕ → Bool → ℕ → Db → Target → Db
process_found now success time db target =
    if is_null target.archived_at
    then if success
      then handle_successful_probe now target time db
      else handle_failed_probe now target db
    else db

-- `ProcessProbeResult`
unfoldable pub process_probe_result : ℕ → String → Bool → ℕ → Db → Db
process_probe_result now id success time db = elim (find_target id db.targets) [
  | none ↦ db
  | some target ↦ process_found now success time db target
]

pub record Result : Type 0 where
  pub target_id : String
  pub success : Bool
  pub timestamp : ℕ

-- `ProcessProbeResultsBatch`
unfoldable pub process_probe_results_batch : ℕ → List Result → Db → Db
process_probe_results_batch now [] db = db
process_probe_results_batch now (r ∷ results) db =
    process_probe_results_batch now results
      (process_probe_result now r.target_id r.success r.timestamp db)

-- `AcknowledgeTarget`
unfoldable pub acknowledge_target : ℕ → String → Bool → String → Db → Option Db
acknowledge_target now id mark_inactive triggered_by db =
    if mark_inactive
    then transition_target_state now id inactive "user acknowledged" triggered_by db
    else some (record db {
      targets = update_target id (λ t. record t { needs_review = false }) db.targets;
    })
