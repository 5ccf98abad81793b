-- ===== src/Lifecycle/Examples.antt =====
-- A few targets, on which the theorems about their states are used.
use icmp_mon.Base.{
  ℕ, ◌≡◌, ◌≢◌, refl, String, List, [], ◌∷◌, Option, none, some, Bool, true, false, arith, ==_iff,
  All,
}
use icmp_mon.Types.Target.{
  Target, MonitoringState, unknown, active, standby, down, unresponsive, customer, auto,
}
use icmp_mon.Lifecycle.{Db, Result, find_target, process_probe_result, process_probe_results_batch}
use icmp_mon.Lifecycle.Worker.{default_config, run_once, elect_representative}
use icmp_mon.Lifecycle.Row.{after_probe, process_probe_result-row}
use icmp_mon.Lifecycle.Discovery.{process_probe_results_batch-discovery}
use icmp_mon.Lifecycle.Invariant.{ids, Good, Sound, process_probe_results_batch-Good}
use icmp_mon.Lifecycle.Cycle.{run_once-Good}
use icmp_mon.Lifecycle.Representatives.{OnlyRepresentative, elect_representative-only}

abbrev host : String → MonitoringState → Option ℕ → Bool → Target
host id state baseline rep = record {
  id = id;
  ip = id;
  tier = "standard";
  tags = [];
  subnet_id = some "s1";
  ownership = auto;
  ip_type = some customer;
  is_representative = rep;
  monitoring_state = state;
  state_changed_at = 0;
  needs_review = false;
  discovery_attempts = 0;
  last_response_at = some 0;
  first_response_at = some 0;
  baseline_established_at = baseline;
  archived_at = none;
  expected_outcome = none;
}

-- A representative that has stopped answering, a standby target and a new one.
abbrev subnet : Db
subnet = record {
  targets =
      host "a" active (some 0) true
      ∷ host "b" standby (some 0) false
      ∷ host "c" unknown none false
      ∷ [];
  history = [];
}

host-Sound :
    (id : String) (state : MonitoringState) (rep : Bool) (at : Option ℕ)
    → state ≢ down
    → Sound (host id state at rep)
host-Sound id state rep at h = record {
  down_baseline = λ e. absurd (h e);
  review_excluded = λ e. ground (arith, e);
}

subnet-Good : Good (ids subnet.targets) subnet
subnet-Good = record {
  same = refl;
  unique = ground (arith, ==_iff "b" "a", ==_iff "c" "a", ==_iff "c" "b");
  sound = (
    host-Sound "a" active true (some 0) (λ e. ground (arith, e)),
    (
      host-Sound "b" standby false (some 0) (λ e. ground (arith, e)),
      (host-Sound "c" unknown false none (λ e. ground (arith, e)), tt),
    ),
  );
}

process_probe_result-row_example :
    find_target "c" (process_probe_result 9 "c" true 8 subnet).targets
    ≡ some (after_probe 9 true 8 (host "c" unknown none false))
process_probe_result-row_example =
    process_probe_result-row 9 "c" true 8 subnet (host "c" unknown none false) refl

a_not_c : ◌≢◌ {A = String} "a" "c"
a_not_c e = ground (arith, ==_iff "a" "c", e)

abbrev failure : Result
failure = record { target_id = "c"; success = false; timestamp = 8 }

abbrev six : List Result
six = failure ∷ failure ∷ failure ∷ failure ∷ failure ∷ failure ∷ []

process_probe_results_batch-discovery_example :
    (u : Target) × (find_target "c" (process_probe_results_batch 9 six subnet).targets ≡ some u)
    × (u.monitoring_state ≡ unresponsive)
    × (u.discovery_attempts ≡ 5)
process_probe_results_batch-discovery_example =
    process_probe_results_batch-discovery 9 "c" six subnet (host "c" unknown none false)
      (
        (refl, refl),
        ((refl, refl), ((refl, refl), ((refl, refl), ((refl, refl), ((refl, refl), tt))))),
      )
      refl refl refl (omega arith)

process_probe_results_batch-Good_example :
    Good (ids subnet.targets) (process_probe_results_batch 9 six subnet)
process_probe_results_batch-Good_example = process_probe_results_batch-Good 9 six subnet subnet-Good

abbrev before : String → String → Bool
before a b = false

run_once-Good_example :
    Good (ids subnet.targets) (run_once before default_config 90000000000000 subnet)
run_once-Good_example = run_once-Good before default_config 90000000000000 subnet subnet-Good

elect_representative-only_example :
    All (OnlyRepresentative "s1" "b") (elect_representative 9 "s1" "b" subnet).targets
    × ((t : Target)
        → find_target "b" subnet.targets ≡ some t
        → (u : Target) × (find_target "b" (elect_representative 9 "s1" "b" subnet).targets ≡ some u)
          × (u.is_representative ≡ true)
          × (u.monitoring_state ≡ active)
          × (u.subnet_id ≡ t.subnet_id))
elect_representative-only_example = elect_representative-only 9 "s1" "b" subnet
