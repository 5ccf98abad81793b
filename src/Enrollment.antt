-- ===== src/Enrollment.antt =====
-- control-plane/internal/enrollment/service.go: enrollments; control-plane/cmd/server/main.go and
-- control-plane/internal/store/enrollment.go: how an enrollment is stored. The tags, the audit fields and the unused error details are left out.
pub mod Requests
pub mod Host
pub mod Steps
pub mod Run
pub mod Frame
pub mod Rollback
pub mod Progress
pub mod Reverts
pub mod Reload
pub mod Retries
pub mod Sessions
mod Examples
use icmp_mon.Base.{
  ℕ, ◌+◌, ◌≡◌, String, List, [], ◌∷◌, Option, none, some, Bool, true, false, not, if◌then◌else◌,
  leb, eqb, ◌==◌, ◌&&◌, ◌||◌, ◌+++◌, contains,
}

pub data State : Type 0 where
  pending connecting detecting key_installing hardening tailscale dependencies : State
  agent_installing starting registering complete failed cancelled : State

pub record Change : Type 0 where
  pub change_type : String
  pub revertible : Bool
  pub revert_cmd : String

pub record Enrollment : Type 0 where
  pub id : String
  pub target_ip : String
  pub target_port : ℕ
  pub username : String
  pub agent_name : String
  pub region : String
  pub location : String
  pub provider : String
  pub state : State
  pub current_step : String
  pub steps_completed : List String
  pub detected_os : String
  pub detected_os_version : String
  pub detected_arch : String
  pub detected_hostname : String
  pub detected_package_manager : String
  pub agent_id : String
  pub ssh_key_id : String
  pub tailscale_ip : String
  pub api_key : String
  pub api_key_hash : String
  pub changes : List Change
  pub try_key_first : Bool
  pub last_error : String
  pub retry_count : ℕ
  pub max_retries : ℕ
  pub started_at : Option ℕ
  pub completed_at : Option ℕ
  pub control_plane_url : String

-- The row of the table `enrollments`; it has no column for the URL of the control plane.
-- The column `changes` holds JSON; its null is the empty list here.
pub record Row : Type 0 where
  pub id : String
  pub target_ip : String
  pub target_port : ℕ
  pub username : String
  pub agent_name : String
  pub region : String
  pub location : String
  pub provider : String
  pub state : State
  pub current_step : String
  pub steps_completed : List String
  pub detected_os : String
  pub detected_os_version : String
  pub detected_arch : String
  pub detected_hostname : String
  pub detected_package_manager : String
  pub agent_id : String
  pub ssh_key_id : String
  pub changes : List Change
  pub last_error : String
  pub retry_count : ℕ
  pub max_retries : ℕ
  pub started_at : Option ℕ
  pub completed_at : Option ℕ

-- `toStoreEnrollment` with the columns that `CreateEnrollment` inserts; the conversion leaves the
-- changes of the enrollment out.
unfoldable pub to_store_enrollment : Enrollment → Row
to_store_enrollment e = record {
  id = e.id;
  target_ip = e.target_ip;
  target_port = e.target_port;
  username = e.username;
  agent_name = e.agent_name;
  region = e.region;
  location = e.location;
  provider = e.provider;
  state = e.state;
  current_step = e.current_step;
  steps_completed = e.steps_completed;
  detected_os = e.detected_os;
  detected_os_version = e.detected_os_version;
  detected_arch = e.detected_arch;
  detected_hostname = e.detected_hostname;
  detected_package_manager = e.detected_package_manager;
  agent_id = e.agent_id;
  ssh_key_id = e.ssh_key_id;
  changes = [];
  last_error = e.last_error;
  retry_count = e.retry_count;
  max_retries = e.max_retries;
  started_at = e.started_at;
  completed_at = e.completed_at;
}

-- `GetEnrollment` of the store, which reads the column of the changes too, and
-- `toEnrollmentEnrollment`, which does not look at it.
unfoldable pub to_enrollment : Row → Enrollment
to_enrollment r = record {
  id = r.id;
  target_ip = r.target_ip;
  target_port = r.target_port;
  username = r.username;
  agent_name = r.agent_name;
  region = r.region;
  location = r.location;
  provider = r.provider;
  state = r.state;
  current_step = r.current_step;
  steps_completed = r.steps_completed;
  detected_os = r.detected_os;
  detected_os_version = r.detected_os_version;
  detected_arch = r.detected_arch;
  detected_hostname = r.detected_hostname;
  detected_package_manager = r.detected_package_manager;
  agent_id = r.agent_id;
  ssh_key_id = r.ssh_key_id;
  tailscale_ip = "";
  api_key = "";
  api_key_hash = "";
  changes = [];
  try_key_first = false;
  last_error = r.last_error;
  retry_count = r.retry_count;
  max_retries = r.max_retries;
  started_at = r.started_at;
  completed_at = r.completed_at;
  control_plane_url = "";
}

-- The columns that the statement of `UpdateEnrollment` sets, after `toStoreEnrollment`: the changes
-- are written as the conversion left them, empty.
unfoldable pub update_row : Row → Enrollment → Row
update_row old e = record old {
  agent_name = e.agent_name;
  region = e.region;
  location = e.location;
  provider = e.provider;
  state = e.state;
  current_step = e.current_step;
  steps_completed = e.steps_completed;
  detected_os = e.detected_os;
  detected_os_version = e.detected_os_version;
  detected_arch = e.detected_arch;
  detected_hostname = e.detected_hostname;
  detected_package_manager = e.detected_package_manager;
  agent_id = e.agent_id;
  ssh_key_id = e.ssh_key_id;
  changes = [];
  last_error = e.last_error;
  retry_count = e.retry_count;
  started_at = e.started_at;
  completed_at = e.completed_at;
}

-- The values of the enumeration `enrollment_state` of the database; it has neither `tailscale` nor
-- `dependencies`, so that an update with one of these fails.
abbrev pub in_schema : State → Bool
in_schema State.tailscale = false
in_schema State.dependencies = false
in_schema _ = true

-- `UpdateEnrollment`, for a database that answers or does not.
unfoldable pub update_enrollment : Bool → Enrollment → Row → Option Row
unfolding update_row
update_enrollment answers e row =
    if answers && in_schema e.state then some (update_row row e) else none

-- The row after an update whose error is not looked at.
abbrev pub row_after : Row → Option Row → Row
row_after row none = row
row_after row (some updated) = updated
