-- ===== src/Enrollment/Host.antt =====
-- What the target host, the key store and the registry of agents answer to a step, and the pieces of
-- which the steps are made.
use icmp_mon.Base.{
  String, List, [], ◌∷◌, ◌++◌, Option, none, some, Bool, true, false, if◌then◌else◌, ◌&&◌, contains,
}
use icmp_mon.Enrollment.{Enrollment}

pub record SystemInfo : Type 0 where
  pub os : String
  pub os_version : String
  pub arch : String
  pub hostname : String
  pub package_manager : String
  pub init_system : String
  pub has_curl : Bool
  pub has_wget : Bool

pub record KeyPair : Type 0 where
  pub id : String
  pub name : String

-- The answers of everything outside to one step. A `Bool` tells whether a call returns no error.
pub record Host : Type 0 where
  pub provisioning_key : Option KeyPair
  pub private_key : String → Bool
  pub key_connects : Bool
  pub password_connects : String → Bool
  pub detects : SystemInfo
  pub reaches : String → Bool
  pub key_present : Bool
  pub makes_ssh_directory : Bool
  pub appends_key : Bool
  pub sets_permissions : Bool
  pub tests_sshd : Bool
  pub installs_tailscale : Bool
  pub authenticates : Bool
  pub tailscale_ip : Option String
  pub runs : String → Bool
  pub verifies_fping : Bool
  pub creates_user : Bool
  pub creates_directories : Bool
  pub downloads : String → String → Bool
  pub api_key : Option (String × String)
  pub writes_config : String → String → Bool
  pub installs_service : Bool
  pub starts : Bool
  pub registered : Option String
  pub stores_key : Bool
  pub stores_ip : Bool

pub data StepError : Type 0 where
  no_session connection_failed no_os no_arch unsupported_init no_downloader unreachable : StepError
  no_key no_ssh_directory key_not_added bad_permissions no_private_key key_not_verified : StepError
  bad_sshd_config no_tailscale not_authenticated no_tailscale_ip no_dependencies no_fping :
      StepError
  no_user no_directories no_binary no_api_key no_config no_service not_started : StepError
  not_registered enrollment_cancelled no_provisioning_key : StepError

-- The configuration of the service: `TailscaleEnabled`, whether it has an `AgentChecker`, and the
-- texts of its errors.
pub record Service : Type 0 where
  pub tailscale_enabled : Bool
  pub has_checker : Bool
  pub error_text : StepError → String

-- `blocked`: a send on a nil channel; `panicked`: a nil pointer is read.
pub data Outcome : Type 0 where
  done blocked panicked : Outcome
  failed_with : StepError → Outcome

-- An enrollment with its entry of `activeSessions` (the system information that it holds), and the
-- rows of agents that it has set.
pub record Work : Type 0 where
  pub enrollment : Enrollment
  pub session : Option (Option SystemInfo)
  pub agent_keys : List (String × String)
  pub agent_ips : List (String × String)

abbrev pub Step : Type 0
Step = Work → Outcome × Work

abbrev pub finish : Step
finish w = (done, w)

-- `if err != nil { return … }`
abbrev pub check : Bool → StepError → Step → Step
check true err next w = next w
check false err next w = (failed_with err, w)

abbrev pub update : (Enrollment → Enrollment) → Step → Step
update change next w = next (record w { enrollment = change w.enrollment })

abbrev pub changed : String → String → Step → Step
changed kind cmd = update (λ e. record e {
  changes = e.changes ++ (record { change_type = kind; revertible = true; revert_cmd = cmd } ∷ []);
})

-- `events <- …`, the first of a step.
abbrev pub send : Bool → Step → Step
send true next w = next w
send false next w = (blocked, w)

abbrev pub session_of : Option (Option SystemInfo) → (Option SystemInfo → Step) → Step
session_of none next w = (failed_with no_session, w)
session_of (some info) next w = next info w

-- `session, ok := activeSessions[enrollment.ID]`
abbrev pub with_session : (Option SystemInfo → Step) → Step
with_session next w = session_of w.session next w

abbrev pub opened : Option SystemInfo → Step → Step
opened info next w = next (record w { session = some info })

abbrev pub add_once : String → List String → List String
add_once step steps = if contains steps step then steps else steps ++ (step ∷ [])

abbrev pub key_usable : Host → Bool
key_usable host = elim host.provisioning_key [
  | none ↦ false
  | some pair ↦ host.private_key pair.name && host.key_connects
]
