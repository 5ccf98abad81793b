-- ===== src/Alerts.antt =====
-- Alerts that evolve: control-plane/internal/worker/alert_worker.go on the tables `alerts` and
-- `alert_events` of control-plane/internal/store/store_alerts.go. A float64 is a parameter, with
-- Go's `>=` on it. Titles, messages, the subnet's metadata and the details of events, which no
-- operation reads back, are left out; so is the linking to incidents.
pub mod Worker
pub mod Lookup
pub mod Replay
pub mod Audit
pub mod Peak
pub mod Resolutions
mod Examples
use icmp_mon.Base.{
  ℕ, String, List, [], ◌∷◌, ◌++◌, map, Option, none, some, Bool, true, false, if◌then◌else◌, ltb,
  ◌==◌, first_where, keep, contains, ◌&&◌,
}
use icmp_mon.Types.Alert.{
  AlertSeverity, AlertType, AlertStatus, active, acknowledged, resolved, level,
}

pub record Alert (Float : Type 0) : Type 0 where
  pub id : String
  pub target_id : String
  pub alert_type : AlertType
  pub severity : AlertSeverity
  pub status : AlertStatus
  pub initial_severity : AlertSeverity
  pub peak_severity : AlertSeverity
  pub initial_latency_ms : Option Float
  pub initial_packet_loss : Option Float
  pub peak_latency_ms : Option Float
  pub peak_packet_loss : Option Float
  pub current_latency_ms : Option Float
  pub current_packet_loss : Option Float
  pub detected_at : ℕ
  pub acknowledged_at : Option ℕ
  pub acknowledged_by : String
  pub resolved_at : Option ℕ
  pub correlation_key : String

-- A row of `alert_events`; `none` is NULL.
pub record AlertEvent : Type 0 where
  pub alert_id : String
  pub event_type : String
  pub new_severity : Option AlertSeverity
  pub new_status : Option AlertStatus

pub record Db (Float : Type 0) : Type 0 where
  pub alerts : List (Alert Float)
  pub events : List AlertEvent

-- `status IN ('active', 'acknowledged')`
abbrev pub is_open : AlertStatus → Bool
is_open AlertStatus.active = true
is_open AlertStatus.acknowledged = true
is_open AlertStatus.resolved = false
is_open AlertStatus.suppressed = false

abbrev pub resolved_event : String → AlertEvent
resolved_event id = record {
  alert_id = id;
  event_type = "resolved";
  new_severity = none;
  new_status = some resolved;
}

module _ {Float : Type 0} where
  abbrev pub find_alert : String → List (Alert Float) → Option (Alert Float)
  find_alert id rows = first_where (λ a. a.id == id) rows

  unfoldable pub update_alert :
      String → (Alert Float → Alert Float) → List (Alert Float) → List (Alert Float)
  update_alert id f rows = map (λ a. if a.id == id then f a else a) rows

  abbrev pub coalesce : Option Float → Option Float → Option Float
  coalesce none b = b
  coalesce (some a) b = some a

  -- An UPDATE of one alert and the INSERT of its event, in one transaction. Where the alert is not
  -- there, the transaction fails, at its SELECT or at the event's foreign key.
  unfoldable pub change : String → (Alert Float → Alert Float) → AlertEvent → Db Float → Db Float
  change id f event db = elim (find_alert id db.alerts) [
    | none ↦ db
    | some a ↦ record { alerts = update_alert id f db.alerts; events = db.events ++ (event ∷ []) }
  ]

  abbrev pub created_event : Alert Float → AlertEvent
  created_event alert = record {
    alert_id = alert.id;
    event_type = "created";
    new_severity = some alert.severity;
    new_status = some alert.status;
  }

  -- `CreateAlert`; an id that is there already breaks the primary key.
  unfoldable pub create_alert : Alert Float → Db Float → Db Float
  create_alert alert db = elim (find_alert alert.id db.alerts) [
    | some a ↦ db
    | none ↦ record {
      alerts = db.alerts ++ (alert ∷ []);
      events = db.events ++ (created_event alert ∷ []);
    }
  ]

  abbrev pub measured : Option Float → Option Float → Alert Float → Alert Float
  measured latency loss a = record a {
    current_latency_ms = coalesce latency a.current_latency_ms;
    current_packet_loss = coalesce loss a.current_packet_loss;
  }

  -- The UPDATE of `EscalateAlert`, whose `updatePeak` is read from the row.
  abbrev pub escalated : AlertSeverity → Option Float → Option Float → Alert Float → Alert Float
  escalated severity latency loss a =
      let update_peak = ltb (level a.peak_severity) (level severity) in
      record (measured latency loss a) {
        severity = severity;
        peak_severity = if update_peak then severity else a.peak_severity;
        peak_latency_ms =
            if update_peak then coalesce latency a.peak_latency_ms else a.peak_latency_ms;
        peak_packet_loss =
            if update_peak then coalesce loss a.peak_packet_loss else a.peak_packet_loss;
      }

  -- `EscalateAlert`
  unfoldable pub escalate_alert :
      String → AlertSeverity → Option Float → Option Float → Db Float → Db Float
  unfolding change level
  escalate_alert id severity latency loss = change id (escalated severity latency loss) (record {
    alert_id = id;
    event_type = "escalated";
    new_severity = some severity;
    new_status = none;
  })

  abbrev pub deescalated : AlertSeverity → Option Float → Option Float → Alert Float → Alert Float
  deescalated severity latency loss a = record (measured latency loss a) { severity = severity }

  -- `DeescalateAlert`
  unfoldable pub deescalate_alert :
      String → AlertSeverity → Option Float → Option Float → Db Float → Db Float
  unfolding change
  deescalate_alert id severity latency loss =
      change id (deescalated severity latency loss) (record {
        alert_id = id;
        event_type = "de_escalated";
        new_severity = some severity;
        new_status = none;
      })

  abbrev pub resolved_row : ℕ → Alert Float → Alert Float
  resolved_row now a = record a { status = resolved; resolved_at = some now }

  -- `ResolveAlert`
  unfoldable pub resolve_alert : ℕ → String → Db Float → Db Float
  unfolding change
  resolve_alert now id = change id (resolved_row now) (record {
    alert_id = id;
    event_type = "resolved";
    new_severity = none;
    new_status = some resolved;
  })

  abbrev pub reopened : AlertSeverity → Option Float → Option Float → Alert Float → Alert Float
  reopened severity latency loss a = record (measured latency loss a) {
    status = active;
    severity = severity;
    resolved_at = none;
  }

  -- `ReopenAlert`
  unfoldable pub reopen_alert :
      String → AlertSeverity → Option Float → Option Float → Db Float → Db Float
  unfolding change
  reopen_alert id severity latency loss = change id (reopened severity latency loss) (record {
    alert_id = id;
    event_type = "reopened";
    new_severity = some severity;
    new_status = some active;
  })

  abbrev pub acknowledged_row : ℕ → String → Alert Float → Alert Float
  acknowledged_row now user a = record a {
    status = acknowledged;
    acknowledged_at = some now;
    acknowledged_by = user;
  }

  -- `AcknowledgeAlert`
  unfoldable pub acknowledge_alert : ℕ → String → String → Db Float → Db Float
  unfolding change
  acknowledge_alert now id user = change id (acknowledged_row now user) (record {
    alert_id = id;
    event_type = "acknowledged";
    new_severity = none;
    new_status = some acknowledged;
  })

  -- `UpdateAlertMetrics`
  unfoldable pub update_alert_metrics : String → Option Float → Option Float → Db Float → Db Float
  unfolding update_alert
  update_alert_metrics id latency loss db = record db {
    alerts = update_alert id (measured latency loss) db.alerts;
  }

  -- `ResolveAlertsBySubnet`, with the join that tells whether a target is in the subnet.
  unfoldable pub resolve_alerts_by_subnet : ℕ → (String → Bool) → Db Float → Db Float
  resolve_alerts_by_subnet now in_subnet db =
      let alert_ids =
        map (λ (a : Alert Float). a.id)
          (keep (λ a. in_subnet a.target_id && is_open a.status) db.alerts) in
      record {
        alerts = map (λ a. if contains alert_ids a.id then resolved_row now a else a) db.alerts;
        events = db.events ++ map resolved_event alert_ids;
      }
