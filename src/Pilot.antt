-- ===== src/Pilot.antt =====
-- control-plane/internal/worker/pilot_sync.go: the subnets of the control plane follow the IP pools of
-- Pilot. Here are the tables that the worker changes, with the operations of
-- control-plane/internal/store/store_subnets.go, store.go (CreateAutoTarget) and store_alerts.go
-- (ResolveAlertsBySubnet). The times at which rows are created and updated, the name of a pool, the
-- number of representatives of a subnet, the origin and the display name of a target, and the activity
-- log are left out. The queries on subnets name no column for the type of a
-- subnet: in the rows the type and its name are nil. The
-- texts of a gateway and of usable addresses are taken to be those that the database gives back.
pub mod Seeding
pub mod Sync
pub mod Archived
pub mod Cancelled
pub mod Retired
pub mod Keyed
pub mod Lookup
pub mod Untyped
pub mod Following
mod Examples
use icmp_mon.Base.{
  ℕ, ◌+◌, String, List, [], ◌∷◌, ◌++◌, map, Option, none, some, Bool, true, false, not, ◌&&◌, ◌||◌,
  if◌then◌else◌, eqb, ◌==◌, keep, any, contains,
}
use icmp_mon.Types.Target.{Target, MonitoringState, IpType, Ownership, TargetStateTransition}
use icmp_mon.Types.Alert.{AlertStatus}

pub record IpPool : Type 0 where
  pub id : ℕ
  pub network_address : String
  pub network_size : ℕ
  pub gateway_address : Option String
  pub first_usable_address : Option String
  pub last_usable_address : Option String
  pub subnet_type : Option ℕ
  pub subnet_type_name : Option String
  pub vlan_id : Option ℕ
  pub gateway_device : Option String
  pub pop_name : Option String
  pub service_id : Option ℕ
  pub service_status : Option String
  pub subscriber_id : Option ℕ
  pub subscriber_name : Option String
  pub location_id : Option ℕ
  pub location_address : Option String
  pub city : Option String
  pub region : Option String

pub data SubnetState : Type 0 where
  active archived : SubnetState

pub record Subnet : Type 0 where
  pub id : String
  pub pilot_subnet_id : Option ℕ
  pub network_address : String
  pub network_size : ℕ
  pub gateway_address : Option String
  pub first_usable_address : Option String
  pub last_usable_address : Option String
  pub vlan_id : Option ℕ
  pub service_id : Option ℕ
  pub service_status : Option String
  pub subscriber_id : Option ℕ
  pub subscriber_name : Option String
  pub location_id : Option ℕ
  pub location_address : Option String
  pub city : Option String
  pub region : Option String
  pub pop_name : Option String
  pub gateway_device : Option String
  pub subnet_type : Option ℕ
  pub subnet_type_name : Option String
  pub state : SubnetState
  pub archived_at : Option ℕ
  pub archive_reason : Option String

-- The columns of an alert that the sync reads or writes.
pub record AlertRow : Type 0 where
  pub id : String
  pub target_id : String
  pub status : AlertStatus

-- What `ResolveAlertsBySubnet` inserts into `alert_events`.
pub record AlertEventRow : Type 0 where
  pub alert_id : String
  pub event_type : String
  pub old_status : AlertStatus
  pub new_status : AlertStatus
  pub description : String
  pub triggered_by : String

pub record Db : Type 0 where
  pub subnets : List Subnet
  pub targets : List Target
  pub history : List TargetStateTransition
  pub alerts : List AlertRow
  pub events : List AlertEventRow

-- A row as the database gives it back: the column of the network is an INET, which is read as a text.
abbrev pub as_inet : (String → String) → Subnet → Subnet
as_inet inet_text subnet = record subnet { network_address = inet_text subnet.network_address }

-- `CreateSubnet`
unfoldable pub create_subnet : (String → String) → Subnet → Db → Db
create_subnet inet_text subnet db = record db {
  subnets =
      db.subnets
      ++ (record (as_inet inet_text subnet) {
        subnet_type = none;
        subnet_type_name = none;
        state = SubnetState.active;
        archived_at = none;
        archive_reason = none;
      }
          ∷ []);
}

abbrev pub has_pilot_id : ℕ → Subnet → Bool
has_pilot_id pilot_id subnet = elim subnet.pilot_subnet_id [
  | none ↦ false
  | some id ↦ eqb id pilot_id
]

-- The first row that passes the test.
abbrev pub find_first : (Subnet → Bool) → List Subnet → Option Subnet
find_first test [] = none
find_first test (subnet ∷ subnets) = if test subnet then some subnet else find_first test subnets

-- `GetSubnetByPilotID`
unfoldable pub get_subnet_by_pilot_id : ℕ → Db → Option Subnet
get_subnet_by_pilot_id pilot_id db = find_first (has_pilot_id pilot_id) db.subnets

abbrev pub is_active_subnet : Subnet → Bool
is_active_subnet subnet = elim subnet.state [ active ↦ true | archived ↦ false ]

-- `ListSubnets`
unfoldable pub list_subnets : Db → List Subnet
list_subnets db = keep is_active_subnet db.subnets

-- The columns that `UpdateSubnet` does not set stay.
abbrev pub row_with : Subnet → Subnet → Subnet
row_with subnet row = record subnet {
  id = row.id;
  subnet_type = row.subnet_type;
  subnet_type_name = row.subnet_type_name;
  state = row.state;
  archived_at = row.archived_at;
  archive_reason = row.archive_reason;
}

-- `UpdateSubnet`
unfoldable pub update_row : (String → String) → Subnet → Db → Db
update_row inet_text subnet db = record db {
  subnets =
      map (λ row. if row.id == subnet.id then row_with (as_inet inet_text subnet) row else row)
        db.subnets;
}

abbrev pub in_subnet : String → Target → Bool
in_subnet id target = elim target.subnet_id [ none ↦ false | some subnet_id ↦ subnet_id == id ]

abbrev pub is_manual : Ownership → Bool
is_manual Ownership.manual = true
is_manual Ownership.auto = false

abbrev pub is_unset {ℓ} : {A : Type ℓ} → Option A → Bool
is_unset none = true
is_unset (some a) = false

-- The two updates of the targets of an archived subnet.
unfoldable pub orphaned : ℕ → String → Target → Target
orphaned now id target =
    if not (in_subnet id target)
    then target
    else if is_manual target.ownership
    then record target { subnet_id = none }
    else if is_unset target.archived_at
    then record target { archived_at = some now }
    else target

abbrev pub archived_row : ℕ → String → Subnet → Subnet
archived_row now reason row = record row {
  state = SubnetState.archived;
  archived_at = some now;
  archive_reason = some reason;
}

-- `ArchiveSubnet`, with `archiveAutoTargets`.
unfoldable pub archive_subnet : ℕ → String → String → Db → Db
unfolding orphaned
archive_subnet now id reason db = record db {
  subnets = map (λ row. if row.id == id then archived_row now reason row else row) db.subnets;
  targets = map (orphaned now id) db.targets;
}

-- `CreateAutoTarget`: `ON CONFLICT (ip_address) DO NOTHING`.
unfoldable pub create_auto_target : Target → Db → Db
create_auto_target target db =
    if any (λ (t : Target). t.ip == target.ip) db.targets
    then db
    else record db { targets = db.targets ++ (target ∷ []) }

-- `UpdateTargetTagsBySubnet`
unfoldable pub update_target_tags_by_subnet : String → List (String × String) → Db → Db
update_target_tags_by_subnet id tags db = record db {
  targets =
      map
        (λ target.
          if in_subnet id target && is_unset target.archived_at
          then record target { tags = tags }
          else target)
        db.targets;
}

-- `monitoring_state NOT IN ('inactive', 'excluded')`
abbrev pub is_monitored : MonitoringState → Bool
is_monitored MonitoringState.inactive = false
is_monitored MonitoringState.excluded = false
is_monitored _ = true

abbrev pub stops : String → Target → Bool
stops id target =
    in_subnet id target && is_unset target.archived_at && is_monitored target.monitoring_state

-- `TransitionTargetsByServiceCancellation`
unfoldable pub transition_targets_by_service_cancellation : ℕ → String → Db → Db
transition_targets_by_service_cancellation now id db = record db {
  targets =
      map
        (λ target.
          if stops id target
          then record target { monitoring_state = MonitoringState.inactive; state_changed_at = now }
          else target)
        db.targets;
  history =
      db.history
      ++ map
          (λ (target : Target). record {
            target_id = target.id;
            from_state = target.monitoring_state;
            to_state = MonitoringState.inactive;
            reason = "service_cancelled";
            triggered_by = "sync";
          })
          (keep (stops id) db.targets);
}

abbrev pub is_open : AlertStatus → Bool
is_open AlertStatus.active = true
is_open AlertStatus.acknowledged = true
is_open _ = false

abbrev pub closes : String → List Target → AlertRow → Bool
closes id targets alert =
    contains (map (λ (t : Target). t.id) (keep (in_subnet id) targets)) alert.target_id
    && is_open alert.status

-- `ResolveAlertsBySubnet`; the ids of alerts are the primary key.
unfoldable pub resolve_alerts_by_subnet : String → String → Db → Db
resolve_alerts_by_subnet id reason db = record db {
  alerts =
      map
        (λ (alert : AlertRow).
          if closes id db.targets alert
          then record alert { status = AlertStatus.resolved }
          else alert)
        db.alerts;
  events =
      db.events
      ++ map
          (λ (alert : AlertRow). record {
            alert_id = alert.id;
            event_type = "resolved";
            old_status = alert.status;
            new_status = AlertStatus.resolved;
            description = reason;
            triggered_by = "sync";
          })
          (keep (closes id db.targets) db.alerts);
}
