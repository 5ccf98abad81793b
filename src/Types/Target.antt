-- ===== src/Types/Target.antt =====
-- pkg/types/types.go: `Target`, its enumerations, and `TargetStateTransition`.
-- `MonitoringState` has the values of the database type; `unset` is the empty string of a target
-- that was never given a state.
use icmp_mon.Base.{ℕ, String, List, Option, none, some, Bool, true, false}
use icmp_mon.Types.Tier.{ExpectedOutcome}

pub data MonitoringState : Type 0 where
  unset unknown active standby degraded down unresponsive excluded inactive : MonitoringState

pub MonitoringState-discrete : Discrete MonitoringState
MonitoringState-discrete = hlevel

pub data IpType : Type 0 where
  gateway infrastructure customer : IpType

pub data Ownership : Type 0 where
  auto manual : Ownership

pub record Target : Type 0 where
  pub id : String
  pub ip : String
  pub tier : String
  pub tags : List (String × String)
  pub subnet_id : Option String
  pub ownership : Ownership
  pub ip_type : Option IpType
  pub is_representative : Bool
  pub monitoring_state : MonitoringState
  pub state_changed_at : ℕ
  pub needs_review : Bool
  pub discovery_attempts : ℕ
  pub last_response_at : Option ℕ
  pub first_response_at : Option ℕ
  pub baseline_established_at : Option ℕ
  pub archived_at : Option ℕ
  pub expected_outcome : Option ExpectedOutcome

pub record TargetStateTransition : Type 0 where
  pub target_id : String
  pub from_state : MonitoringState
  pub to_state : MonitoringState
  pub reason : String
  pub triggered_by : String

abbrev pub is_excluded : MonitoringState → Bool
is_excluded excluded = true
is_excluded _ = false

abbrev pub is_active : MonitoringState → Bool
is_active active = true
is_active _ = false

abbrev pub is_down : MonitoringState → Bool
is_down down = true
is_down _ = false

abbrev pub is_standby : MonitoringState → Bool
is_standby standby = true
is_standby _ = false

abbrev pub is_customer : Option IpType → Bool
is_customer (some customer) = true
is_customer _ = false

-- `t IS NULL` and `t IS NOT NULL`.
abbrev pub is_null {ℓ} : {A : Type ℓ} → Option A → Bool
is_null none = true
is_null (some a) = false
