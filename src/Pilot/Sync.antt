-- ===== src/Pilot/Sync.antt =====
-- control-plane/internal/worker/pilot_sync.go: a cycle of the sync. The ids that it generates are a
-- sequence; the counts of what it did are only logged.
use icmp_mon.Pilot.Seeding.{Synced, World, build_target_tags, seed_subnet_targets}
use icmp_mon.Base.{
  ℕ, ◌+◌, ◌-◌, String, List, [], ◌∷◌, Option, none, some, Bool, true, false, not, ◌&&◌,
  if◌then◌else◌, eqb, leb, ◌==◌, any,
}
use icmp_mon.Pilot.{
  IpPool, Subnet, SubnetState, Db, create_subnet, get_subnet_by_pilot_id, list_subnets, update_row,
  archive_subnet, update_target_tags_by_subnet, transition_targets_by_service_cancellation,
  resolve_alerts_by_subnet,
}

-- The fields that the sync takes from a pool.
abbrev pub with_pool : IpPool → Subnet → Subnet
with_pool pool subnet = record subnet {
  network_address = pool.network_address;
  network_size = pool.network_size;
  gateway_address = pool.gateway_address;
  first_usable_address = pool.first_usable_address;
  last_usable_address = pool.last_usable_address;
  vlan_id = pool.vlan_id;
  service_id = pool.service_id;
  service_status = pool.service_status;
  subscriber_id = pool.subscriber_id;
  subscriber_name = pool.subscriber_name;
  location_id = pool.location_id;
  location_address = pool.location_address;
  city = pool.city;
  region = pool.region;
  pop_name = pool.pop_name;
  gateway_device = pool.gateway_device;
  subnet_type = pool.subnet_type;
  subnet_type_name = pool.subnet_type_name;
}

unfoldable pub new_subnet : String → IpPool → Subnet
new_subnet id pool = record {
  id = id;
  pilot_subnet_id = some pool.id;
  network_address = pool.network_address;
  network_size = pool.network_size;
  gateway_address = pool.gateway_address;
  first_usable_address = pool.first_usable_address;
  last_usable_address = pool.last_usable_address;
  vlan_id = pool.vlan_id;
  service_id = pool.service_id;
  service_status = pool.service_status;
  subscriber_id = pool.subscriber_id;
  subscriber_name = pool.subscriber_name;
  location_id = pool.location_id;
  location_address = pool.location_address;
  city = pool.city;
  region = pool.region;
  pop_name = pool.pop_name;
  gateway_device = pool.gateway_device;
  subnet_type = pool.subnet_type;
  subnet_type_name = pool.subnet_type_name;
  state = SubnetState.active;
  archived_at = none;
  archive_reason = none;
}

abbrev pub is_cancelled : Option String → Bool
is_cancelled none = false
is_cancelled (some status) = status == "cancelled"

-- `createSubnet` of the worker.
unfoldable pub create_from : World → IpPool → Synced → Synced
unfolding new_subnet create_subnet seed_subnet_targets
create_from world pool s =
    let subnet = new_subnet (world.uuid s.generated) pool in
    let created : Synced = record {
      db = create_subnet world.inet_text subnet s.db;
      generated = s.generated + 1;
    } in
    if not (world.creates pool.id)
    then record s { generated = s.generated + 1 }
    else if is_cancelled pool.service_status
    then created
    else seed_subnet_targets world subnet created

-- `ptrStringNotEqual` and `ptrIntNotEqual`
unfoldable pub ptr_string_not_equal : Option String → Option String → Bool
ptr_string_not_equal none none = false
ptr_string_not_equal none (some b) = true
ptr_string_not_equal (some a) none = true
ptr_string_not_equal (some a) (some b) = not (a == b)

unfoldable pub ptr_int_not_equal : Option ℕ → Option ℕ → Bool
ptr_int_not_equal none none = false
ptr_int_not_equal none (some b) = true
ptr_int_not_equal (some a) none = true
ptr_int_not_equal (some a) (some b) = not (eqb a b)

-- `subnetNeedsUpdate`
unfoldable pub subnet_needs_update : Subnet → IpPool → Bool
unfolding ptr_string_not_equal ptr_int_not_equal
subnet_needs_update existing pool =
    if not (existing.network_address == pool.network_address)
    then true
    else if not (eqb existing.network_size pool.network_size)
    then true
    else if ptr_string_not_equal existing.subscriber_name pool.subscriber_name
    then true
    else if ptr_string_not_equal existing.gateway_device pool.gateway_device
    then true
    else if ptr_int_not_equal existing.subnet_type pool.subnet_type
    then true
    else ptr_string_not_equal existing.service_status pool.service_status

-- `handleServiceCancellation`
unfoldable pub handle_service_cancellation : World → Subnet → Db → Db
unfolding transition_targets_by_service_cancellation resolve_alerts_by_subnet
handle_service_cancellation world subnet db =
    let transitioned =
      if world.transitions subnet.id
      then transition_targets_by_service_cancellation world.now subnet.id db
      else db in
    if world.resolves subnet.id
    then resolve_alerts_by_subnet subnet.id "Service cancelled in Flight Deck" transitioned
    else transitioned

-- `updateSubnet` of the worker.
unfoldable pub update_from : World → Subnet → IpPool → Db → Db
unfolding update_row handle_service_cancellation update_target_tags_by_subnet build_target_tags
update_from world existing pool db =
    let subnet = with_pool pool existing in
    let updated = update_row world.inet_text subnet db in
    let handled =
      if is_cancelled pool.service_status && not (is_cancelled existing.service_status)
      then handle_service_cancellation world subnet updated
      else updated in
    if not (world.updates existing.id)
    then db
    else if world.retags existing.id
    then update_target_tags_by_subnet existing.id (build_target_tags world.decimal subnet) handled
    else handled

abbrev pub sync_found : World → IpPool → Option Subnet → Synced → Synced
sync_found world pool none s = create_from world pool s
sync_found world pool (some existing) s =
    if subnet_needs_update existing pool
    then record s { db = update_from world existing pool s.db }
    else s

-- The body of the loop over the pools.
unfoldable pub sync_pool : World → IpPool → Synced → Synced
unfolding create_from update_from subnet_needs_update get_subnet_by_pilot_id
sync_pool world pool s =
    if not (world.gets pool.id)
    then s
    else sync_found world pool (get_subnet_by_pilot_id pool.id s.db) s

unfoldable pub sync_pools : World → List IpPool → Synced → Synced
unfolding sync_pool
sync_pools world [] s = s
sync_pools world (pool ∷ pools) s = sync_pools world pools (sync_pool world pool s)

abbrev pub is_seen : List IpPool → Option ℕ → Bool
is_seen pools none = true
is_seen pools (some pilot_id) = any (λ (pool : IpPool). eqb pool.id pilot_id) pools

-- The loop over the listed subnets in a full sync; a subnet without a Pilot id is left alone.
unfoldable pub archive_removed : World → List IpPool → List Subnet → Db → Db
unfolding archive_subnet
archive_removed world pools [] db = db
archive_removed world pools (subnet ∷ subnets) db = archive_removed world pools subnets (
    if is_seen pools subnet.pilot_subnet_id
    then db
    else if world.archives subnet.id
    then archive_subnet world.now subnet.id "removed_from_pilot" db
    else db)

-- `runOnce`; the pools are `none` where Pilot does not answer. The last full sync is the second result.
unfoldable pub run_once : World → ℕ → Option (List IpPool) → ℕ → Synced → Synced × ℕ
unfolding sync_pools archive_removed list_subnets
run_once world full_sync_interval none last_full_sync s = (s, last_full_sync)
run_once world full_sync_interval (some pools) last_full_sync s =
    let synced = sync_pools world pools s in
    let db =
      if world.lists
      then archive_removed world pools (list_subnets synced.db) synced.db
      else synced.db in
    if leb full_sync_interval (world.now - last_full_sync)
    then (record synced { db = db }, world.now)
    else (synced, last_full_sync)
