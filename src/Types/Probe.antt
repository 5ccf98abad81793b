-- ===== src/Types/Probe.antt =====
-- pkg/types/types.go: `Assignment`, `AssignmentSet`, `ProbeResult`, `ResultBatch`.
use icmp_mon.Base.{ℕ, String, List, Option, Bool}
use icmp_mon.Types.Tier.{ExpectedOutcome}

pub record Assignment : Type 0 where
  pub target_id : String
  pub ip : String
  pub tier : String
  pub probe_type : String
  pub probe_interval : ℕ
  pub probe_timeout : ℕ
  pub probe_retries : ℕ
  pub probe_params : String
  pub tags : List (String × String)
  pub expected_outcome : Option ExpectedOutcome

pub record AssignmentSet : Type 0 where
  pub version : ℕ
  pub assignments : List Assignment

pub record TargetAssignment : Type 0 where
  pub id : String
  pub target_id : String
  pub agent_id : String
  pub tier : String
  pub assigned_by : String

pub record ProbeResult : Type 0 where
  pub target_id : String
  pub agent_id : String
  pub timestamp : ℕ
  pub duration : ℕ
  pub success : Bool
  pub error : String
  pub probe_type : String
  pub payload : String
