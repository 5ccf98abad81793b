-- ===== src/Evaluator.antt =====
-- control-plane/internal/worker/evaluator_worker.go: how an agent's observations of a target become
-- its status. A float64 is a parameter with the operations that the code uses; times are natural
-- numbers; a write of a baseline that fails changes only a log line and a counter.
pub mod Streak
mod Examples
use icmp_mon.Base.{
  ℕ, zero, suc, ◌+◌, String, List, [], ◌∷◌, Option, none, some, Bool, true, false, if◌then◌else◌,
  leb, ltb, eqb, ◌&&◌, ◌||◌, not,
}

-- Go's operations on float64: `>=`, `> 0`, subtraction, division, and the constant 100.
pub record FloatOps (Float : Type 0) : Type 0 where
  pub at_least : Float → Float → Bool
  pub positive : Float → Bool
  pub subtract : Float → Float → Float
  pub divide : Float → Float → Float
  pub hundred : Float

-- The fields of `EvaluatorWorkerConfig` that an evaluation reads.
pub record Config (Float : Type 0) : Type 0 where
  pub min_samples_for_baseline : ℕ
  pub z_score_warning_threshold : Float
  pub z_score_critical_threshold : Float
  pub packet_loss_warning_pct : Float
  pub packet_loss_critical_pct : Float
  pub consecutive_failures_for_down : ℕ

-- The statistics and the baseline, without the fields that no evaluation reads.
pub record ProbeStats (Float : Type 0) : Type 0 where
  pub total_count : ℕ
  pub success_count : ℕ
  pub packet_loss_pct : Float
  pub avg_latency_ms : Float
  pub max_latency_ms : Float
  pub p50_latency_ms : Float
  pub p95_latency_ms : Float
  pub stddev_ms : Float
  pub last_probe_time : ℕ

pub record Baseline (Float : Type 0) : Type 0 where
  pub latency_p50 : Option Float
  pub latency_p95 : Option Float
  pub latency_p99 : Option Float
  pub latency_stddev : Option Float
  pub packet_loss_baseline : Float
  pub sample_count : ℕ

pub data Status : Type 0 where
  unknown up degraded down : Status

-- `store.AgentTargetState`, without the ids of its pair.
pub record TargetState (Float : Type 0) : Type 0 where
  pub status : Status
  pub current_latency_ms : Option Float
  pub current_packet_loss : Option Float
  pub current_z_score : Option Float
  pub consecutive_anomalies : ℕ
  pub consecutive_successes : ℕ
  pub anomaly_start : Option ℕ
  pub status_since : Option ℕ
  pub last_probe_time : Option ℕ
  pub last_evaluated : ℕ

-- The anomaly of one observation: none, a warning, or a critical one.
pub data Level : Type 0 where
  healthy warned critical : Level

abbrev pub is_anomaly : Level → Bool
is_anomaly healthy = false
is_anomaly _ = true

-- The status after the anomalies in a row that this observation ends, from `calculateState`.
unfoldable pub status_of : ℕ → Level → ℕ → Status
status_of required healthy anomalies = up
status_of required warned anomalies = if leb 2 anomalies then degraded else up
status_of required critical anomalies =
    if leb required anomalies then down else if leb 2 anomalies then degraded else up

-- The anomalies in a row with this one, given those that the previous state counts.
abbrev pub in_a_row : Option ℕ → ℕ
in_a_row none = 1
in_a_row (some before) = if ltb 0 before then before + 1 else 1

abbrev pub same_status : Status → Status → Bool
same_status unknown unknown = true
same_status up up = true
same_status degraded degraded = true
same_status down down = true
same_status _ _ = false

module _ {Float : Type 0} (ops : FloatOps Float) (config : Config Float) where
  abbrev z_score_from : Float → Option Float → Option Float → Option Float
  z_score_from latency (some p50) (some stddev) =
      if ops.positive stddev then some (ops.divide (ops.subtract latency p50) stddev) else none
  z_score_from latency p50 none = none
  z_score_from latency none (some stddev) = none

  unfoldable pub z_score_of : ProbeStats Float → Option (Baseline Float) → Option Float
  z_score_of stats none = none
  z_score_of stats (some b) = z_score_from stats.avg_latency_ms b.latency_p50 b.latency_stddev

  abbrev z_at_least : Option Float → Float → Bool
  z_at_least none threshold = false
  z_at_least (some z) threshold = ops.at_least z threshold

  -- The raw anomaly of `calculateState`.
  unfoldable pub level_of : ProbeStats Float → Option (Baseline Float) → Level
  unfolding z_score_of
  level_of stats baseline =
      if eqb stats.success_count 0 || ops.at_least stats.packet_loss_pct ops.hundred
      then critical
      else if ops.at_least stats.packet_loss_pct config.packet_loss_critical_pct
      then critical
      else if z_at_least (z_score_of stats baseline) config.z_score_critical_threshold
      then critical
      else if ops.at_least stats.packet_loss_pct config.packet_loss_warning_pct
      then warned
      else if z_at_least (z_score_of stats baseline) config.z_score_warning_threshold
      then warned
      else healthy

  abbrev counted : Option (TargetState Float) → Option ℕ
  counted none = none
  counted (some s) = some s.consecutive_anomalies

  -- `calculateState`
  unfoldable pub calculate_status :
      ProbeStats Float → Option (Baseline Float) → Option (TargetState Float) → Status
  unfolding level_of status_of
  calculate_status stats baseline current =
      status_of config.consecutive_failures_for_down (level_of stats baseline)
        (in_a_row (counted current))

  -- The baseline that is created where there is none and the samples are enough.
  unfoldable pub baseline_or_new :
      ProbeStats Float → Option (Baseline Float) → Option (Baseline Float)
  baseline_or_new stats (some b) = some b
  baseline_or_new stats none =
      if leb config.min_samples_for_baseline stats.success_count
      then some (record {
        latency_p50 = some stats.p50_latency_ms;
        latency_p95 = some stats.p95_latency_ms;
        latency_p99 = some stats.max_latency_ms;
        latency_stddev = some stats.stddev_ms;
        packet_loss_baseline = stats.packet_loss_pct;
        sample_count = stats.success_count;
      })
      else none

  -- The counters and the start of the anomaly.
  abbrev anomalies_after : Bool → Option (TargetState Float) → ℕ
  anomalies_after true (some s) = s.consecutive_anomalies + 1
  anomalies_after true none = 1
  anomalies_after false current = 0

  abbrev successes_after : Bool → Option (TargetState Float) → ℕ
  successes_after true current = 0
  successes_after false (some s) = s.consecutive_successes + 1
  successes_after false none = 1

  abbrev start_after : ℕ → Bool → Option (TargetState Float) → Option ℕ
  start_after now false current = none
  start_after now true none = some now
  start_after now true (some s) = elim s.anomaly_start [ none ↦ some now | some at ↦ some at ]

  abbrev since_after : ℕ → Status → Option (TargetState Float) → Option ℕ
  since_after now status none = some now
  since_after now status (some s) = if same_status s.status status then s.status_since else some now

  -- `evaluatePairWithData`, for statistics that are there and count a probe.
  unfoldable pub evaluated :
      ℕ
      → ProbeStats Float
      → Option (Baseline Float)
      → Option (TargetState Float)
      → TargetState Float
  unfolding calculate_status baseline_or_new
  evaluated now stats baseline current =
      let based = baseline_or_new stats baseline in
      let anomaly = is_anomaly (level_of stats based) in
      let status = calculate_status stats based current in
      record {
        status = status;
        current_latency_ms = some stats.avg_latency_ms;
        current_packet_loss = some stats.packet_loss_pct;
        current_z_score = z_score_of stats based;
        consecutive_anomalies = anomalies_after anomaly current;
        consecutive_successes = successes_after anomaly current;
        anomaly_start = start_after now anomaly current;
        status_since = since_after now status current;
        last_probe_time = some stats.last_probe_time;
        last_evaluated = now;
      }

  -- `evaluatePairWithData`; `none` leaves the stored state as it is.
  unfoldable pub evaluate_pair_with_data :
      ℕ
      → Option (ProbeStats Float)
      → Option (Baseline Float)
      → Option (TargetState Float)
      → Option (TargetState Float)
  unfolding evaluated
  evaluate_pair_with_data now none baseline current = none
  evaluate_pair_with_data now (some stats) baseline current =
      if eqb stats.total_count 0 then none else some (evaluated now stats baseline current)
