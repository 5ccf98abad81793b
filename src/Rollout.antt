-- ===== src/Rollout.antt =====
-- control-plane/internal/rollout/engine.go: configuration, rollouts, and the start of a rollout;
-- control-plane/cmd/server/main.go: the conversions between the engine's and the store's rollouts;
-- control-plane/internal/store/enrollment.go: the rows of the table `rollouts`.
-- Counts, percentages and durations are natural numbers. A strategy that is none of the four
-- constants is `unrecognised`.
pub mod Table
pub mod Waves
pub mod Adapter
pub mod Progress
pub mod Reports
pub mod Canary
pub mod Notices
pub mod Control
mod Examples
use icmp_mon.Base.{
  ◌*◌, map, ℕ, zero, suc, ◌+◌, ◌≡◌, String, List, [], ◌∷◌, Option, none, some, Bool, true, false,
  not, if◌then◌else◌, ltb, eqb, ◌==◌, length, keep,
}

pub data Strategy : Type 0 where
  immediate canary staged manual unrecognised : Strategy

abbrev pub is_canary : Strategy → Bool
is_canary canary = true
is_canary _ = false

pub data Status : Type 0 where
  pending in_progress paused completed failed rolled_back : Status

pub record AgentFilter : Type 0 where
  pub regions : List String
  pub providers : List String
  pub tags : List (String × String)
  pub exclude_agent_ids : List String
  pub include_agent_ids : List String

pub record Config : Type 0 where
  pub strategy : Strategy
  pub canary_percent : ℕ
  pub canary_duration : ℕ
  pub waves : List ℕ
  pub wave_delay : ℕ
  pub health_check_wait : ℕ
  pub failure_threshold : ℕ
  pub auto_rollback : Bool
  pub agent_filter : Option AgentFilter

pub record Rollout : Type 0 where
  pub id : String
  pub release_id : String
  pub version : String
  pub config : Config
  pub status : Status
  pub current_wave : ℕ
  pub total_waves : ℕ
  pub agents_total : ℕ
  pub agents_pending : ℕ
  pub agents_updating : ℕ
  pub agents_updated : ℕ
  pub agents_failed : ℕ
  pub agents_skipped : ℕ
  pub started_at : Option ℕ
  pub paused_at : Option ℕ
  pub completed_at : Option ℕ
  pub rolled_back_at : Option ℕ
  pub rollback_reason : String
  pub last_error : String
  pub created_by : String
  pub created_at : ℕ
  pub updated_at : ℕ

-- `Config{}` with a strategy: every other field is Go's zero value.
abbrev pub bare_config : Strategy → Config
bare_config s = record {
  strategy = s;
  canary_percent = 0;
  canary_duration = 0;
  waves = [];
  wave_delay = 0;
  health_check_wait = 0;
  failure_threshold = 0;
  auto_rollback = false;
  agent_filter = none;
}

abbrev pub minute : ℕ
minute = 60000000000

-- `DefaultConfig`
abbrev pub default_config : Config
default_config = record {
  strategy = staged;
  canary_percent = 5;
  canary_duration = 10 * minute;
  waves = 10 ∷ 25 ∷ 50 ∷ 100 ∷ [];
  wave_delay = 5 * minute;
  health_check_wait = 2 * minute;
  failure_threshold = 10;
  auto_rollback = true;
  agent_filter = none;
}

abbrev or_default : ℕ → ℕ → ℕ
or_default n d = if eqb n 0 then d else n

abbrev waves_or_default : List ℕ → List ℕ
waves_or_default [] = 10 ∷ 25 ∷ 50 ∷ 100 ∷ []
waves_or_default (w ∷ ws) = w ∷ ws

-- The defaults that `StartRollout` applies.
unfoldable pub apply_defaults : Config → Config
apply_defaults cfg = record cfg {
  canary_percent = or_default cfg.canary_percent 5;
  canary_duration = or_default cfg.canary_duration (10 * minute);
  waves = waves_or_default cfg.waves;
  wave_delay = or_default cfg.wave_delay (5 * minute);
  health_check_wait = or_default cfg.health_check_wait (2 * minute);
  failure_threshold = or_default cfg.failure_threshold 10;
}

pub record Release : Type 0 where
  pub id : String
  pub version : String
  pub checksum : String
  pub size : ℕ

pub record AgentInfo : Type 0 where
  pub id : String
  pub name : String
  pub version : String
  pub region : String
  pub provider : String

pub data UpdateStatus : Type 0 where
  pending updating updated failed skipped : UpdateStatus

pub record AgentUpdateState : Type 0 where
  pub agent_id : String
  pub agent_name : String
  pub wave : ℕ
  pub status : UpdateStatus
  pub from_version : String
  pub to_version : String
  pub started_at : Option ℕ
  pub completed_at : Option ℕ
  pub error : String

pub data StartError : Type 0 where
  getting_release release_not_found getting_agents no_agents_match all_at_version : StartError

pub data Started : Type 0 where
  refused : StartError → Started
  started : Rollout → List AgentUpdateState → Started

abbrev pub initial_state : Release → AgentInfo → AgentUpdateState
initial_state release agent = record {
  agent_id = agent.id;
  agent_name = agent.name;
  wave = 0;
  status = UpdateStatus.pending;
  from_version = agent.version;
  to_version = release.version;
  started_at = none;
  completed_at = none;
  error = "";
}

-- The rollout that `StartRollout` creates, for the eligible agents.
abbrev pub new_rollout : String → String → Release → Config → List AgentInfo → String → ℕ → Rollout
new_rollout uuid release_id release cfg eligible created_by now = record {
  id = uuid;
  release_id = release_id;
  version = release.version;
  config = cfg;
  status = Status.pending;
  current_wave = 0;
  total_waves = if is_canary cfg.strategy then length cfg.waves + 1 else length cfg.waves;
  agents_total = length eligible;
  agents_pending = length eligible;
  agents_updating = 0;
  agents_updated = 0;
  agents_failed = 0;
  agents_skipped = 0;
  started_at = none;
  paused_at = none;
  completed_at = none;
  rolled_back_at = none;
  rollback_reason = "";
  last_error = "";
  created_by = created_by;
  created_at = now;
  updated_at = now;
}

abbrev start_with : String → String → Release → Config → List AgentInfo → String → ℕ → Started
start_with uuid release_id release cfg [] created_by now = refused all_at_version
start_with uuid release_id release cfg (a ∷ eligible) created_by now =
    started (new_rollout uuid release_id release cfg (a ∷ eligible) created_by now)
      (map (initial_state release) (a ∷ eligible))

-- `StartRollout` up to the start of its goroutine. The release and the agents are the answers of
-- `GetRelease` (`none`: the query failed) and of `GetAgentsForRollout`; the inserts succeed.
unfoldable pub start_rollout :
    String
    → String
    → Option (Option Release)
    → Option (List AgentInfo)
    → Config
    → String
    → ℕ
    → Started
unfolding apply_defaults
start_rollout uuid release_id none agents cfg created_by now = refused getting_release
start_rollout uuid release_id (some none) agents cfg created_by now = refused release_not_found
start_rollout uuid release_id (some (some release)) none cfg created_by now = refused getting_agents
start_rollout uuid release_id (some (some release)) (some []) cfg created_by now =
    refused no_agents_match
start_rollout uuid release_id (some (some release)) (some (a ∷ agents)) cfg created_by now =
    start_with uuid release_id release (apply_defaults cfg)
      (keep (λ x. not (x.version == release.version)) (a ∷ agents)) created_by now

-- A row of the table `rollouts`, `store.Rollout`. The column `config` holds a JSON document.
pub record Row : Type 0 where
  pub id : String
  pub release_id : String
  pub strategy : Strategy
  pub config : Option Config
  pub status : Status
  pub current_wave : Option ℕ
  pub agents_total : ℕ
  pub agents_pending : ℕ
  pub agents_updating : ℕ
  pub agents_updated : ℕ
  pub agents_failed : ℕ
  pub agents_skipped : ℕ
  pub started_at : Option ℕ
  pub paused_at : Option ℕ
  pub completed_at : Option ℕ
  pub rolled_back_at : Option ℕ
  pub rollback_reason : String
  pub created_by : String
  pub created_at : ℕ
  pub updated_at : ℕ

-- `toStoreRollout`; the field `Config` is not set.
unfoldable pub to_store_rollout : Rollout → Row
to_store_rollout r = record {
  id = r.id;
  release_id = r.release_id;
  strategy = r.config.strategy;
  config = none;
  status = r.status;
  current_wave = if ltb 0 r.current_wave then some r.current_wave else none;
  agents_total = r.agents_total;
  agents_pending = r.agents_pending;
  agents_updating = r.agents_updating;
  agents_updated = r.agents_updated;
  agents_failed = r.agents_failed;
  agents_skipped = r.agents_skipped;
  started_at = r.started_at;
  paused_at = r.paused_at;
  completed_at = r.completed_at;
  rolled_back_at = r.rolled_back_at;
  rollback_reason = r.rollback_reason;
  created_by = r.created_by;
  created_at = r.created_at;
  updated_at = r.updated_at;
}

abbrev wave_or_zero : Option ℕ → ℕ
wave_or_zero none = 0
wave_or_zero (some w) = w

-- `toRolloutRollout`; of the configuration it sets the strategy alone.
unfoldable pub to_rollout_rollout : Row → Rollout
to_rollout_rollout sr = record {
  id = sr.id;
  release_id = sr.release_id;
  version = "";
  config = bare_config sr.strategy;
  status = sr.status;
  current_wave = wave_or_zero sr.current_wave;
  total_waves = 0;
  agents_total = sr.agents_total;
  agents_pending = sr.agents_pending;
  agents_updating = sr.agents_updating;
  agents_updated = sr.agents_updated;
  agents_failed = sr.agents_failed;
  agents_skipped = sr.agents_skipped;
  started_at = sr.started_at;
  paused_at = sr.paused_at;
  completed_at = sr.completed_at;
  rolled_back_at = sr.rolled_back_at;
  rollback_reason = sr.rollback_reason;
  last_error = "";
  created_by = sr.created_by;
  created_at = sr.created_at;
  updated_at = sr.updated_at;
}

-- `UpdateRollout`'s statement on the row that it finds.
unfoldable pub update_row : Row → Row → ℕ → Row
update_row old r now = record old {
  status = r.status;
  current_wave = r.current_wave;
  agents_pending = r.agents_pending;
  agents_updating = r.agents_updating;
  agents_updated = r.agents_updated;
  agents_failed = r.agents_failed;
  agents_skipped = r.agents_skipped;
  started_at = r.started_at;
  paused_at = r.paused_at;
  completed_at = r.completed_at;
  rolled_back_at = r.rolled_back_at;
  rollback_reason = r.rollback_reason;
  updated_at = now;
}
