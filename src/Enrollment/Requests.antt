-- ===== src/Enrollment/Requests.antt =====
-- control-plane/internal/enrollment/service.go: the requests that start, retry, resume and cancel an
-- enrollment, up to the goroutine that runs it.
use icmp_mon.Base.{
  ℕ, ◌+◌, String, [], Option, none, some, Bool, true, false, not, if◌then◌else◌, leb, eqb, ◌==◌,
  ◌&&◌, ◌||◌, ◌+++◌, contains,
}
use icmp_mon.Enrollment.{
  Enrollment, Row, State, to_enrollment, to_store_enrollment, update_enrollment,
}

pub record EnrollRequest : Type 0 where
  pub target_ip : String
  pub target_port : ℕ
  pub username : String
  pub password : String
  pub agent_name : String
  pub region : String
  pub location : String
  pub provider : String
  pub control_plane_url : String
  pub try_key_first : Bool

pub data RequestError : Type 0 where
  no_target_ip no_username no_password not_saved not_loaded not_found not_failed : RequestError
  retries_exceeded key_not_installed : RequestError

pub data Reply {ℓ} (A : Type ℓ) : Type ℓ where
  ok : A → Reply A
  refused : RequestError → Reply A

abbrev pub or_default : String → String → String
or_default given default = if given == "" then default else given

-- `validateRequest`
unfoldable pub validate_request : EnrollRequest → Option RequestError
validate_request req =
    if req.target_ip == ""
    then some no_target_ip
    else if req.username == ""
    then some no_username
    else if req.password == ""
    then some no_password
    else none

-- The record that `Enroll` creates.
unfoldable pub new_enrollment : String → String → EnrollRequest → Enrollment
new_enrollment uuid service_url req = record {
  id = uuid;
  target_ip = req.target_ip;
  target_port = if eqb req.target_port 0 then 22 else req.target_port;
  username = req.username;
  agent_name = or_default req.agent_name ("agent-" +++ req.target_ip);
  region = req.region;
  location = req.location;
  provider = req.provider;
  state = State.pending;
  current_step = "";
  steps_completed = [];
  detected_os = "";
  detected_os_version = "";
  detected_arch = "";
  detected_hostname = "";
  detected_package_manager = "";
  agent_id = "";
  ssh_key_id = "";
  tailscale_ip = "";
  api_key = "";
  api_key_hash = "";
  changes = [];
  try_key_first = req.try_key_first;
  last_error = "";
  retry_count = 0;
  max_retries = 3;
  started_at = none;
  completed_at = none;
  control_plane_url = or_default service_url req.control_plane_url;
}

-- `Enroll`: the enrollment that its goroutine runs, with the row.
unfoldable pub enroll : String → String → Bool → EnrollRequest → Reply (Enrollment × Row)
unfolding validate_request new_enrollment to_store_enrollment
enroll uuid service_url answers req = elim (validate_request req) [
  | some err ↦ refused err
  | none ↦
      let e = new_enrollment uuid service_url req in
      if answers then ok (e, to_store_enrollment e) else refused not_saved
]

-- `GetEnrollment`, then what an operation does with the enrollment that it finds.
abbrev pub with_enrollment {ℓ} :
    {A : Type ℓ} → Bool → Option Row → (Enrollment → Row → Reply A) → Reply A
unfolding to_enrollment
with_enrollment gets none body = if gets then refused not_found else refused not_loaded
with_enrollment gets (some row) body =
    if gets then body (to_enrollment row) row else refused not_loaded

abbrev pub is_failed : State → Bool
is_failed State.failed = true
is_failed _ = false

abbrev pub is_complete : State → Bool
is_complete State.complete = true
is_complete _ = false

-- `CanResume`
unfoldable pub can_resume : Enrollment → Bool
can_resume e = is_failed e.state && contains e.steps_completed "key_installing"

-- The state that `Retry` and `Resume` give a failed enrollment.
abbrev pub reset : Enrollment → Enrollment
reset e = record e { state = State.pending; retry_count = e.retry_count + 1; last_error = "" }

abbrev pub saved : Bool → Enrollment → Row → Reply (Enrollment × Row)
unfolding update_enrollment
saved answers e row = elim (update_enrollment answers e row) [
  | none ↦ refused not_saved
  | some updated ↦ ok (e, updated)
]

-- `Retry`, up to its goroutine; `gets` and `answers` tell whether its two queries succeed.
unfoldable pub retry : Bool → Bool → Option Row → Reply (Enrollment × Row)
unfolding update_enrollment to_enrollment
retry gets answers stored = with_enrollment gets stored (λ e row.
    if not (is_failed e.state)
    then refused not_failed
    else if leb e.max_retries e.retry_count
    then refused retries_exceeded
    else saved answers (reset e) row)

-- `Resume`, up to its goroutine.
unfoldable pub resume : Bool → Bool → Option Row → Reply (Enrollment × Row)
unfolding update_enrollment to_enrollment
resume gets answers stored = with_enrollment gets stored (λ e row.
    if not (is_failed e.state)
    then refused not_failed
    else if not (contains e.steps_completed "key_installing")
    then refused key_not_installed
    else saved answers (reset e) row)

-- What `Cancel` writes, besides the cancellation of the context.
unfoldable pub cancel : Bool → Bool → Option Row → Reply Row
unfolding update_enrollment to_enrollment
cancel gets answers stored = with_enrollment gets stored (λ e row.
    if is_complete e.state || is_failed e.state
    then ok row
    else elim (update_enrollment answers (record e { state = State.cancelled }) row) [
      | none ↦ refused not_saved
      | some updated ↦ ok updated
    ])
