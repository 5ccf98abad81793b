-- ===== src/Alerts/Worker.antt =====
-- control-plane/internal/worker/alert_worker.go: severities, the evolution of an alert, resolutions.
use icmp_mon.Base.{
  ◌+++◌, ℕ, String, List, [], ◌∷◌, Option, none, some, Bool, true, false, if◌then◌else◌, ltb, ◌==◌,
  keep, ◌&&◌, take, eqb,
}
use icmp_mon.Types.Alert.{
  AlertSeverity, critical, warning, info, AlertType, availability, latency, packet_loss,
  AlertStatus, active, acknowledged, level, type_code,
}
use icmp_mon.Alerts.{
  Alert, Db, create_alert, escalate_alert, deescalate_alert, update_alert_metrics, resolve_alert,
}

pub record Anomaly (Float : Type 0) : Type 0 where
  pub target_id : String
  pub anomaly_type : String
  pub latency_ms : Float
  pub packet_loss : Float
  pub subnet_id : String

pub record Thresholds (Float : Type 0) : Type 0 where
  pub latency_warning_ms : Float
  pub latency_critical_ms : Float
  pub packet_loss_warning_pct : Float
  pub packet_loss_critical_pct : Float

-- `anomalyToAlertType`
unfoldable pub anomaly_to_alert_type : String → AlertType
anomaly_to_alert_type anomaly =
    if anomaly == "availability"
    then availability
    else if anomaly == "latency"
    then latency
    else if anomaly == "packet_loss"
    then packet_loss
    else availability

abbrev pub is_open : AlertStatus → Bool
is_open active = true
is_open acknowledged = true
is_open _ = false

abbrev pub is_active : AlertStatus → Bool
is_active active = true
is_active _ = false

module _ {Float : Type 0} (at_least : Float → Float → Bool) where
  -- `calculateSeverity`
  unfoldable pub calculate_severity : Thresholds Float → Anomaly Float → AlertSeverity
  calculate_severity config anomaly =
      if anomaly.anomaly_type == "availability"
      then critical
      else if at_least anomaly.packet_loss config.packet_loss_critical_pct
      then critical
      else if at_least anomaly.latency_ms config.latency_critical_ms
      then critical
      else if at_least anomaly.packet_loss config.packet_loss_warning_pct
      then warning
      else if at_least anomaly.latency_ms config.latency_warning_ms
      then warning
      else info

module _ {Float : Type 0} where
  -- ORDER BY detected_at DESC
  unfoldable pub insert_latest : Alert Float → List (Alert Float) → List (Alert Float)
  insert_latest a [] = a ∷ []
  insert_latest a (b ∷ rows) =
      if ltb a.detected_at b.detected_at then b ∷ insert_latest a rows else a ∷ b ∷ rows

  unfoldable pub latest_first : List (Alert Float) → List (Alert Float)
  unfolding insert_latest
  latest_first [] = []
  latest_first (a ∷ rows) = insert_latest a (latest_first rows)

  abbrev pub head_of : List (Alert Float) → Option (Alert Float)
  head_of [] = none
  head_of (a ∷ rows) = some a

  -- `FindActiveAlertForTarget` with an empty agent.
  unfoldable pub find_active_alert_for_target : String → AlertType → Db Float → Option (Alert Float)
  unfolding latest_first
  find_active_alert_for_target target kind db = head_of (
      latest_first (
        keep
          (λ a.
            a.target_id == target
            && eqb (type_code a.alert_type) (type_code kind)
            && is_open a.status)
          db.alerts))

  -- `evolveAlert`
  unfoldable pub evolve_alert : Alert Float → AlertSeverity → Float → Float → Db Float → Db Float
  unfolding level
  evolve_alert alert severity latency_now loss_now =
      if ltb (level alert.severity) (level severity)
      then escalate_alert alert.id severity (some latency_now) (some loss_now)
      else if ltb (level severity) (level alert.severity)
      then deescalate_alert alert.id severity (some latency_now) (some loss_now)
      else update_alert_metrics alert.id (some latency_now) (some loss_now)

  -- `generateCorrelationKey`
  abbrev pub correlation_key_of : Anomaly Float → String
  correlation_key_of anomaly =
      if anomaly.subnet_id == ""
      then "target:" +++ anomaly.target_id
      else "subnet:" +++ anomaly.subnet_id

  -- The alert that `processAnomaly` creates; its correlation key is given.
  abbrev pub new_alert :
      String → ℕ → AlertType → AlertSeverity → String → Anomaly Float → Alert Float
  new_alert uuid now kind severity key anomaly = record {
    id = uuid;
    target_id = anomaly.target_id;
    alert_type = kind;
    severity = severity;
    status = active;
    initial_severity = severity;
    peak_severity = severity;
    initial_latency_ms = some anomaly.latency_ms;
    initial_packet_loss = some anomaly.packet_loss;
    peak_latency_ms = some anomaly.latency_ms;
    peak_packet_loss = some anomaly.packet_loss;
    current_latency_ms = some anomaly.latency_ms;
    current_packet_loss = some anomaly.packet_loss;
    detected_at = now;
    acknowledged_at = none;
    acknowledged_by = "";
    resolved_at = none;
    correlation_key = key;
  }

  -- `processAnomaly`, for the severity that `calculateSeverity` gives.
  unfoldable pub process_anomaly :
      String → ℕ → String → AlertSeverity → Anomaly Float → Db Float → Db Float
  unfolding anomaly_to_alert_type
  process_anomaly uuid now key severity anomaly db =
      let kind = anomaly_to_alert_type anomaly.anomaly_type in
      elim (find_active_alert_for_target anomaly.target_id kind db) [
        | some existing ↦ evolve_alert existing severity anomaly.latency_ms anomaly.packet_loss db
        | none ↦ create_alert (new_alert uuid now kind severity key anomaly) db
      ]

  -- `GetActiveAlertsForTarget`: the status is `active` alone, and `ListAlerts` has a limit of 100.
  unfoldable pub get_active_alerts_for_target : String → Db Float → List (Alert Float)
  unfolding latest_first
  get_active_alerts_for_target target db =
      take 100 (latest_first (keep (λ a. a.target_id == target && is_active a.status) db.alerts))

  unfoldable pub resolve_each : ℕ → List (Alert Float) → Db Float → Db Float
  resolve_each now [] db = db
  resolve_each now (a ∷ rows) db = resolve_each now rows (resolve_alert now a.id db)

  -- `checkResolutions`, over the answer of `GetHealthyTargetsWithActiveAlerts`.
  unfoldable pub check_resolutions : ℕ → List String → Db Float → Db Float
  unfolding resolve_each get_active_alerts_for_target
  check_resolutions now [] db = db
  check_resolutions now (target ∷ healthy) db =
      check_resolutions now healthy (resolve_each now (get_active_alerts_for_target target db) db)
