-- ===== src/Enrollment/Examples.antt =====
-- One host that answers everything, and one enrollment, on which the theorems are used.
use icmp_mon.Base.{◌≤◌, ◌≡◌, ◌≢◌, refl, List, [], ◌∷◌, none, some, Bool, true, false, arith}
use icmp_mon.Enrollment.{
  Enrollment, State, Change, Row, to_store_enrollment, update_row, to_enrollment,
}
use icmp_mon.Enrollment.Requests.{EnrollRequest, ok, retry, new_enrollment, reset}
use icmp_mon.Enrollment.Host.{Host, Service, SystemInfo, KeyPair, Work}
use icmp_mon.Enrollment.Run.{
  Stage, Turn, Run, completed, begin_at, run_remaining_steps, run_enrollment, run_stage, run_steps,
  save, handle_error,
}
use icmp_mon.Enrollment.Progress.{Completed, Advanced, first, run_remaining_steps-Advanced}
use icmp_mon.Enrollment.Retries.{once_more, not_yet, Retried-bounds}
use icmp_mon.Enrollment.Sessions.{run_remaining_steps-no_session}
use icmp_mon.Enrollment.Rollback.{Access, rollback_changes, revert_from}
use icmp_mon.Enrollment.Reverts.{RolledBack, rollback_changes-reverts}

abbrev info : SystemInfo
info = record {
  os = "linux";
  os_version = "22.04";
  arch = "amd64";
  hostname = "h1";
  package_manager = "apt";
  init_system = "systemd";
  has_curl = true;
  has_wget = false;
}

abbrev pair : KeyPair
pair = record { id = "k"; name = "provisioning" }

abbrev host : Host
host = record {
  provisioning_key = some pair;
  private_key = λ _. true;
  key_connects = true;
  password_connects = λ _. true;
  detects = info;
  reaches = λ _. true;
  key_present = false;
  makes_ssh_directory = true;
  appends_key = true;
  sets_permissions = true;
  tests_sshd = true;
  installs_tailscale = true;
  authenticates = true;
  tailscale_ip = some "100.64.0.1";
  runs = λ _. true;
  verifies_fping = true;
  creates_user = true;
  creates_directories = true;
  downloads = λ _ _. true;
  api_key = some ("key", "hash");
  writes_config = λ _ _. true;
  installs_service = true;
  starts = true;
  registered = some "a1";
  stores_key = true;
  stores_ip = true;
}

abbrev service : Service
service = record { tailscale_enabled = false; has_checker = true; error_text = λ _. "error" }

abbrev turns : Stage → Turn
turns stage = record { host = host; cancelled = false; saves = true }

abbrev request : Bool → EnrollRequest
request key_first = record {
  target_ip = "192.0.2.7";
  target_port = 0;
  username = "root";
  password = "secret";
  agent_name = "";
  region = "eu";
  location = "";
  provider = "";
  control_plane_url = "https://cp";
  try_key_first = key_first;
}

abbrev work_of : Enrollment → Work
work_of e = record { enrollment = e; session = none; agent_keys = []; agent_ips = [] }

abbrev fresh : Run
fresh =
    let e = new_enrollment "e1" "" (request false) in
    record { work = work_of e; row = to_store_enrollment e; sent = [] }

fresh-Completed : Completed 0 fresh.work.enrollment
unfolding new_enrollment
fresh-Completed = record { steps = refl; no_key_first = refl }

run_remaining_steps-Advanced_example :
    (begin_at fresh ≡ 0) × Advanced 0 (run_remaining_steps service turns true "secret" 5 fresh)
run_remaining_steps-Advanced_example =
    run_remaining_steps-Advanced service turns true "secret" 5 0 fresh (λ s. refl) (omega arith)
      fresh-Completed

completes : (run_remaining_steps service turns true "secret" 5 fresh).0 ≡ completed
unfolding run_remaining_steps run_steps run_stage save handle_error new_enrollment
    to_store_enrollment
completes = refl

-- An enrollment that failed at its last step, without its session.
abbrev unregistered : Run
unregistered =
    let e = record (new_enrollment "e1" "" (request false)) {
      state = State.failed;
      steps_completed = first 8;
    } in
    record { work = work_of e; row = to_store_enrollment e; sent = [] }

run_remaining_steps-no_session_example :
    (run_remaining_steps service turns true "secret" 5 unregistered).0 ≢ completed
unfolding new_enrollment
run_remaining_steps-no_session_example =
    run_remaining_steps-no_session service turns true "secret" 5 8 unregistered (omega arith)
      (omega arith) refl refl

abbrev failed_row : Row
unfolding to_store_enrollment new_enrollment
failed_row = unregistered.row

abbrev handed_on : Enrollment
unfolding to_enrollment
handed_on = reset (to_enrollment failed_row)

retry_once : retry true true (some failed_row) ≡ ok (handed_on, update_row failed_row handed_on)
unfolding retry to_enrollment to_store_enrollment new_enrollment
retry_once = refl

Retried-bounds_example :
    (1 ≤ 3)
    × ((run_enrollment service turns true "secret" 9 (record {
      work = record (work_of handed_on) { enrollment = handed_on };
      row = update_row failed_row handed_on;
      sent = [];
    })).1.row.retry_count
        ≡ 1)
unfolding to_store_enrollment new_enrollment
Retried-bounds_example =
    Retried-bounds
      (once_more true true service turns true "secret" 9 (work_of handed_on) not_yet retry_once)
      refl

abbrev changes : List Change
changes =
    record { change_type = "user_created"; revertible = true; revert_cmd = "userdel icmpmon" }
    ∷ record { change_type = "api_key_generated"; revertible = false; revert_cmd = "" }
    ∷ record {
      change_type = "service_installed";
      revertible = true;
      revert_cmd = "systemctl disable icmpmon-agent";
    }
    ∷ []

abbrev access : Access
access = record { key_connects = true; password_connects = λ _. false }

rollback_changes-reverts_example :
    ((rollback_changes access "" (λ _. true) changes).0 ≡ none)
    × RolledBack (λ _. true) changes (rollback_changes access "" (λ _. true) changes).1
rollback_changes-reverts_example = rollback_changes-reverts access "" (λ _. true) changes refl

reverted_in_order :
    (rollback_changes access "" (λ _. true) changes).1.commands
    ≡ "systemctl disable icmpmon-agent" ∷ "userdel icmpmon" ∷ []
unfolding rollback_changes revert_from
reverted_in_order = refl
