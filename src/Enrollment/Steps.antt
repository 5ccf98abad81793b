-- ===== src/Enrollment/Steps.antt =====
-- control-plane/internal/enrollment/steps.go: the nine steps. What the target host, the key store and
-- the registry of agents answer is an argument; commands whose result the code ignores, log rows and
-- the log events are left out, except that a send on a nil channel blocks for ever.
use icmp_mon.Enrollment.Host.{
  Host, Service, Step, SystemInfo, add_once, bad_permissions, bad_sshd_config, changed, check,
  connection_failed, done, failed_with, finish, key_not_added, key_not_verified, key_usable,
  no_api_key, no_arch, no_binary, no_config, no_dependencies, no_directories, no_downloader,
  no_fping, no_key, no_os, no_private_key, no_service, no_ssh_directory, no_tailscale,
  no_tailscale_ip, no_user, not_authenticated, not_registered, not_started, opened, panicked, send,
  unreachable, unsupported_init, update, with_session,
}
use icmp_mon.Base.{
  String, List, [], ◌∷◌, ◌++◌, Option, none, some, Bool, false, not, if◌then◌else◌, ◌==◌, ◌&&◌,
  ◌||◌, ◌+++◌,
}
use icmp_mon.Enrollment.{Enrollment}

-- `stepConnect`
unfoldable pub step_connect : Host → Bool → String → Step
step_connect host listening password = send listening (λ w.
    if w.enrollment.try_key_first && key_usable host
    then update
        (λ e. record e {
          steps_completed = add_once "hardening" (add_once "key_installing" e.steps_completed);
        })
        (opened none finish) w
    else check (host.password_connects password) connection_failed (opened none finish) w)

abbrev pub renamed : SystemInfo → Enrollment → Enrollment
renamed info e = record e {
  detected_os = info.os;
  detected_os_version = info.os_version;
  detected_arch = info.arch;
  detected_hostname = info.hostname;
  detected_package_manager = info.package_manager;
  agent_name =
      if (e.agent_name == "" || e.agent_name == "agent-" +++ e.target_ip)
        && not (info.hostname == "")
      then info.hostname
      else e.agent_name;
}

-- The checks of `stepDetect` that follow the naming of the agent.
unfoldable pub check_capabilities : Service → Host → Step
check_capabilities service host = check (host.detects.init_system == "systemd") unsupported_init (
    check (host.detects.has_curl || host.detects.has_wget) no_downloader (λ w.
      check (service.tailscale_enabled || host.reaches w.enrollment.control_plane_url) unreachable
        finish w))

-- The new host name and its change, where the name of the agent is another one.
unfoldable pub set_hostname : SystemInfo → Step → Step
set_hostname info next w =
    if not (w.enrollment.agent_name == "") && not (w.enrollment.agent_name == info.hostname)
    then changed "hostname_changed" ("hostnamectl set-hostname " +++ info.hostname) next w
    else next w

-- `stepDetect`
unfoldable pub step_detect : Service → Host → Bool → Step
unfolding set_hostname check_capabilities
step_detect service host listening = with_session (λ _. send listening (
    opened (some host.detects) (
      check (not (host.detects.os == "")) no_os (
        check (not (host.detects.arch == "")) no_arch (
          update (renamed host.detects)
            (set_hostname host.detects (check_capabilities service host)))))))

-- `stepInstallKey`
unfoldable pub step_install_key : Host → Bool → Step
step_install_key host listening = with_session (λ _. send listening (elim host.provisioning_key [
  | none ↦ check false no_key finish
  | some pair ↦
      update (λ e. record e { ssh_key_id = pair.id })
        (if host.key_present
          then finish
          else check host.makes_ssh_directory no_ssh_directory (
              check host.appends_key key_not_added (
                check host.sets_permissions bad_permissions (
                  changed "ssh_key_added"
                    "sed -i '/icmpmon-control-plane$/d' ~/.ssh/authorized_keys"
                    (check (host.private_key pair.name) no_private_key
                      (check host.key_connects key_not_verified finish))))))
]))

-- `stepHarden`
unfoldable pub step_harden : Host → Bool → Step
step_harden host listening = with_session (λ _. send listening (
    check host.tests_sshd bad_sshd_config (
      changed "ssh_hardened"
        "cp /etc/ssh/sshd_config.backup /etc/ssh/sshd_config && (systemctl reload sshd || systemctl reload ssh)"
        finish)))

-- `stepInstallTailscale`
unfoldable pub step_install_tailscale : Service → Host → Bool → Step
step_install_tailscale service host listening =
    if not service.tailscale_enabled
    then send listening finish
    else with_session (λ _. send listening (
        check host.installs_tailscale no_tailscale (
          check host.authenticates not_authenticated (elim host.tailscale_ip [
            | none ↦ check false no_tailscale_ip finish
            | some ip ↦
                update (λ e. record e { tailscale_ip = ip })
                  (λ w.
                    check (host.reaches w.enrollment.control_plane_url) unreachable
                      (changed "tailscale_installed"
                        "tailscale logout && systemctl disable tailscaled && apt-get remove -y tailscale 2>/dev/null || yum remove -y tailscale 2>/dev/null"
                        finish)
                      w)
          ]))))

abbrev pub install_command : String → String
install_command manager =
    if manager == "apt"
    then "apt-get update -qq && apt-get install -y -qq fping mtr-tiny"
    else if manager == "dnf"
    then "dnf install -y fping mtr"
    else if manager == "yum"
    then "yum install -y epel-release 2>/dev/null || true && yum install -y fping mtr"
    else if manager == "apk"
    then "apk add --no-cache fping mtr"
    else if manager == "pacman"
    then "pacman -Sy --noconfirm fping mtr"
    else if manager == "zypper"
    then "zypper install -y fping mtr"
    else "apt-get update -qq && apt-get install -y -qq fping mtr-tiny"

-- A read of a field of `session.systemInfo`.
abbrev pub read_info : Option SystemInfo → (SystemInfo → Step) → Step
read_info none next w = (panicked, w)
read_info (some info) next w = next info w

-- `stepInstallDependencies`
unfoldable pub step_install_dependencies : Host → Bool → Step
step_install_dependencies host listening = with_session (λ found. send listening (
    read_info found (λ info.
      check (host.runs (install_command info.package_manager)) no_dependencies (
        check host.verifies_fping no_fping (
          changed "packages_installed"
            "apt-get remove -y fping mtr-tiny 2>/dev/null || yum remove -y fping mtr 2>/dev/null || true"
            finish)))))

-- `GenerateAgentAPIKey` and the configuration file.
abbrev pub configured : Host → Step → Step
configured host next = elim host.api_key [
  | none ↦ check false no_api_key finish
  | some (key, hash) ↦
      update (λ e. record e { api_key = key })
        (λ w.
          check (host.writes_config w.enrollment.control_plane_url key) no_config
            (update
              (λ e. record e {
                api_key_hash = hash;
                changes =
                    e.changes
                    ++ (record {
                      change_type = "api_key_generated";
                      revertible = false;
                      revert_cmd = "";
                    }
                        ∷ []);
              })
              (changed "config_written" "rm -f /etc/icmpmon/agent.yaml" next))
            w)
]

-- `stepInstallAgent`
unfoldable pub step_install_agent : Host → Bool → Step
step_install_agent host listening = with_session (λ found. send listening (
    check host.creates_user no_user (
      changed "user_created" "userdel icmpmon" (
        check host.creates_directories no_directories (
          changed "directories_created" "rm -rf /etc/icmpmon /var/lib/icmpmon /var/log/icmpmon" (
            read_info found (λ info w.
              check (host.downloads w.enrollment.control_plane_url (info.os +++ "-" +++ info.arch))
                no_binary
                (changed "binary_installed" "rm -f /usr/local/bin/icmpmon-agent" (
                  configured host (
                    check host.installs_service no_service (
                      changed "service_installed"
                        "systemctl disable icmpmon-agent && rm -f /etc/systemd/system/icmpmon-agent.service && systemctl daemon-reload"
                        finish))))
                w)))))))

-- `stepStartAgent`
unfoldable pub step_start_agent : Host → Bool → Step
step_start_agent host listening =
    with_session (λ _. send listening (check host.starts not_started finish))

abbrev stored : Bool → String → String → List (String × String) → List (String × String)
stored answers id value rows =
    if not (id == "") && not (value == "") && answers then rows ++ ((id, value) ∷ []) else rows

-- What follows the wait for the agent: the hash of its key and its address are stored.
abbrev pub register : Service → Host → Step
register service host w =
    let e = w.enrollment in
    (
      done,
      record w {
        session = none;
        agent_keys =
            stored (service.has_checker && host.stores_key) e.agent_id e.api_key_hash w.agent_keys;
        agent_ips =
            stored (service.has_checker && host.stores_ip) e.agent_id e.tailscale_ip w.agent_ips;
      },
    )

-- `stepVerifyRegistration`; the deferred function closes the session on every return.
unfoldable pub step_verify_registration : Service → Host → Bool → Step
step_verify_registration service host listening = with_session (λ _. send listening (
    if not service.has_checker then register service host else elim host.registered [
      | none ↦ λ w. (failed_with not_registered, record w { session = none })
      | some id ↦ update (λ e. record e { agent_id = id }) (register service host)
    ]))
