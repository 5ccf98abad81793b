-- ===== src/Types/Agent.antt =====
-- pkg/types/types.go: `Agent` and `AgentStatus`.
use icmp_mon.Base.{ℕ, String, List, Bool, true, false}

pub data AgentStatus : Type 0 where
  active degraded offline : AgentStatus

abbrev pub is_active : AgentStatus → Bool
is_active active = true
is_active _ = false

abbrev pub is_offline : AgentStatus → Bool
is_offline offline = true
is_offline _ = false

pub record Agent : Type 0 where
  pub id : String
  pub name : String
  pub region : String
  pub location : String
  pub provider : String
  pub tags : List (String × String)
  pub public_ip : String
  pub executors : List String
  pub max_targets : ℕ
  pub version : String
  pub status : AgentStatus
  pub last_heartbeat : ℕ
  pub created_at : ℕ
