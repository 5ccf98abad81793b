-- ===== src/Types/Alert.antt =====
-- pkg/types/alerts.go: severities, statuses and types of alerts, and the matching of routing rules.
use icmp_mon.Base.{
  ℕ, String, List, [], ◌∷◌, Option, none, some, Bool, true, false, if◌then◌else◌, not, ◌==◌,
  contains, lookup, lookup_or_empty, all, any, ◌&&◌, eqb,
}

pub data AlertSeverity : Type 0 where
  critical warning info : AlertSeverity

pub data AlertType : Type 0 where
  availability latency packet_loss security_violation path_change agent_down fleet_anomaly :
      AlertType

pub data AlertStatus : Type 0 where
  active acknowledged resolved suppressed : AlertStatus

-- `AlertSeverity.Level`. A severity is one of the three constants, so the default branch is not met.
unfoldable pub level : AlertSeverity → ℕ
level critical = 3
level warning = 2
level info = 1

-- A number for each alert type, by which the types are compared.
abbrev pub type_code : AlertType → ℕ
type_code availability = 0
type_code latency = 1
type_code packet_loss = 2
type_code security_violation = 3
type_code path_change = 4
type_code agent_down = 5
type_code fleet_anomaly = 6

unfoldable pub contains_severity : List AlertSeverity → AlertSeverity → Bool
unfolding level
contains_severity list item = any (λ v. eqb (level v) (level item)) list

unfoldable pub contains_alert_type : List AlertType → AlertType → Bool
contains_alert_type list item = any (λ v. eqb (type_code v) (type_code item)) list

-- `AlertMatch`; `TimeWindow` is not read by `Matches`.
pub record AlertMatch : Type 0 where
  pub severities : List AlertSeverity
  pub alert_types : List AlertType
  pub tiers : List String
  pub probe_types : List String
  pub tags : List (String × String)
  pub has_tags : List String
  pub exclude_tags : List (String × String)

-- The fields of `Alert` that routing reads.
pub record Routed : Type 0 where
  pub severity : AlertSeverity
  pub alert_type : AlertType
  pub target_tier : String
  pub target_tags : List (String × String)
  pub probe_type : String

abbrev pub not_empty {ℓ} : {A : Type ℓ} → List A → Bool
not_empty [] = false
not_empty (_ ∷ _) = true

abbrev pub is_some {ℓ} : {A : Type ℓ} → Option A → Bool
is_some none = false
is_some (some a) = true

unfoldable pub matches : AlertMatch → Routed → Bool
unfolding contains_severity contains_alert_type
matches m alert =
    if not_empty m.severities && not (contains_severity m.severities alert.severity)
    then false
    else if not_empty m.alert_types && not (contains_alert_type m.alert_types alert.alert_type)
    then false
    else if not_empty m.tiers && not (contains m.tiers alert.target_tier)
    then false
    else if not_empty m.probe_types && not (contains m.probe_types alert.probe_type)
    then false
    else if not (all (λ kv. lookup_or_empty kv.0 alert.target_tags == kv.1) m.tags)
    then false
    else if not (all (λ k. is_some (lookup k alert.target_tags)) m.has_tags)
    then false
    else if any (λ kv. lookup_or_empty kv.0 alert.target_tags == kv.1) m.exclude_tags
    then false
    else true
