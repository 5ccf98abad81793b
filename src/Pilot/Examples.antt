-- ===== src/Pilot/Examples.antt =====
-- A pool, its subnet and a target, on which the theorems are used.
use icmp_mon.Base.{
  ℕ, ◌≡◌, refl, String, [], ◌∷◌, Option, none, some, true, false, In, inl, inr, arith, tally,
  tally-Injective,
}
use icmp_mon.Types.Target.{Target, MonitoringState, IpType, Ownership}
use icmp_mon.Types.Alert.{AlertStatus}
use icmp_mon.Subnets.{Gateway}
use icmp_mon.Pilot.{
  IpPool, Subnet, SubnetState, list_subnets, update_row, update_target_tags_by_subnet,
  get_subnet_by_pilot_id,
}
use icmp_mon.Pilot.Sync.{
  archive_removed, handle_service_cancellation, run_once, sync_pool, new_subnet, update_from,
}
use icmp_mon.Pilot.Seeding.{World, Synced}
use icmp_mon.Pilot.Keyed.{Keyed}
use icmp_mon.Pilot.Lookup.{Follows}
use icmp_mon.Pilot.Following.{run_once-Follows}
use icmp_mon.Pilot.Archived.{run_once-listed}
use icmp_mon.Pilot.Retired.{Persists, run_once-Persists}
use icmp_mon.Pilot.Cancelled.{Quiet, sync_pool-Quiet}
use icmp_mon.Pilot.Untyped.{Untyped}

abbrev pool_named : ℕ → Option String → IpPool
pool_named id status = record {
  id = id;
  network_address = "10.0.0.0/30";
  network_size = 30;
  gateway_address = some "10.0.0.1";
  first_usable_address = some "10.0.0.2";
  last_usable_address = some "10.0.0.2";
  subnet_type = some 1;
  subnet_type_name = some "WAN";
  vlan_id = none;
  gateway_device = none;
  pop_name = none;
  service_id = some 5;
  service_status = status;
  subscriber_id = none;
  subscriber_name = some "Acme";
  location_id = none;
  location_address = none;
  city = none;
  region = none;
}

abbrev world : World
world = record {
  now = 1000;
  uuid = tally;
  decimal = λ n. "0";
  parse_cidr = λ _. some (record { v4 = some 167772160; mask_size = 30; bits = 32 });
  parse_ip = λ _. Gateway.ipv4_at 167772161;
  ip_text = λ _. "10.0.0.2";
  inet_text = λ text. text;
  gets = λ _. true;
  creates = λ _. true;
  updates = λ _. true;
  retags = λ _. true;
  transitions = λ _. true;
  resolves = λ _. true;
  seeds = λ _. true;
  lists = true;
  archives = λ _. true;
}

abbrev stored : ℕ → ℕ → SubnetState → Subnet
unfolding new_subnet
stored n pilot_id state = record (new_subnet (tally n) (pool_named pilot_id (some "active"))) {
  subnet_type = none;
  subnet_type_name = none;
  state = state;
}

abbrev customer : Target
customer = record {
  id = "t1";
  ip = "10.0.0.2";
  tier = "standard";
  tags = [];
  subnet_id = some (tally 0);
  ownership = Ownership.auto;
  ip_type = some IpType.customer;
  is_representative = true;
  monitoring_state = MonitoringState.down;
  state_changed_at = 0;
  needs_review = false;
  discovery_attempts = 0;
  last_response_at = none;
  first_response_at = none;
  baseline_established_at = none;
  archived_at = none;
  expected_outcome = none;
}

-- The subnet of pool 7, and an archived one of pool 8.
abbrev start : Synced
unfolding stored
start = record {
  db = record {
    subnets = stored 0 7 SubnetState.active ∷ stored 1 8 SubnetState.archived ∷ [];
    targets = customer ∷ [];
    history = [];
    alerts = record { id = "al"; target_id = "t1"; status = AlertStatus.acknowledged } ∷ [];
    events = [];
  };
  generated = 2;
}

start-Keyed : Keyed tally start.db.subnets 2
unfolding start stored new_subnet
start-Keyed = record {
  distinct = (
    (λ m. elim m [ inl e ↦ let q = tally-Injective 1 0 e in absurd (omega arith) | inr n ↦ n ]),
    ((λ m. m), tt),
  );
  fresh = λ n h m. elim m [
    | inl e ↦ let q = tally-Injective 0 n e in absurd (omega arith)
    | inr (inl e) ↦ let q = tally-Injective 1 n e in absurd (omega arith)
    | inr (inr k) ↦ k
  ];
}

run_once-Follows_example :
    Follows
      (pool_named 9 none)
      (run_once world 100 (some (pool_named 9 none ∷ [])) 0 start).0.db.subnets
unfolding start
run_once-Follows_example =
    run_once-Follows world 100 (pool_named 9 none ∷ []) 0 start (λ _. refl) (λ _. refl) (λ _. refl)
      tally-Injective ((λ m. m), tt) (λ p m. refl) start-Keyed (pool_named 9 none) (inl refl)

run_once-Persists_example :
    Persists start.db.subnets
      (run_once world 100 (some (pool_named 8 none ∷ [])) 0 start).0.db.subnets
run_once-Persists_example = run_once-Persists world 100 (some (pool_named 8 none ∷ [])) 0 start

sync_pool-Quiet_example :
    Quiet (tally 0) (sync_pool world (pool_named 7 (some "cancelled")) start).db
unfolding start stored new_subnet get_subnet_by_pilot_id
sync_pool-Quiet_example =
    sync_pool-Quiet world (pool_named 7 (some "cancelled")) (stored 0 7 SubnetState.active) start
      refl refl refl refl refl refl refl

run_once-listed_example :
    (pool : IpPool) × In pool (pool_named 7 (some "active") ∷ []) × (pool.id ≡ 7)
unfolding start stored new_subnet run_once sync_pool update_from archive_removed list_subnets
    update_row get_subnet_by_pilot_id handle_service_cancellation update_target_tags_by_subnet
run_once-listed_example =
    run_once-listed world 100 (pool_named 7 (some "active") ∷ []) 0 start refl refl (λ _. refl)
      (stored 0 7 SubnetState.active) 7 (inl refl) refl refl
