-- ===== src/Pilot/Seeding.antt =====
-- control-plane/internal/worker/pilot_sync.go: the targets that are seeded for a new subnet.
use icmp_mon.Base.{
  ℕ, ◌+◌, String, List, [], ◌∷◌, ◌++◌, Option, none, some, Bool, false, if◌then◌else◌, ◌==◌,
}
use icmp_mon.Types.Target.{Target, MonitoringState, IpType, Ownership}
use icmp_mon.Subnets.{Network, Gateway, Usable, sync_usable_ips}
use icmp_mon.Pilot.{Subnet, Db, create_auto_target}

-- What is outside: the clock, the generated ids, the printing of numbers and addresses, the parsing of
-- networks and addresses, the text that the database gives back for one that is stored as an INET, and of each query whether it succeeds.
pub record World : Type 0 where
  pub now : ℕ
  pub uuid : ℕ → String
  pub decimal : ℕ → String
  pub parse_cidr : String → Option Network
  pub parse_ip : String → Gateway
  pub ip_text : ℕ → String
  pub inet_text : String → String
  pub gets : ℕ → Bool
  pub creates : ℕ → Bool
  pub updates : String → Bool
  pub retags : String → Bool
  pub transitions : String → Bool
  pub resolves : String → Bool
  pub seeds : String → Bool
  pub lists : Bool
  pub archives : String → Bool

-- The database, and how many ids have been generated.
pub record Synced : Type 0 where
  pub db : Db
  pub generated : ℕ

abbrev pub text_tag : String → Option String → List (String × String)
text_tag key none = []
text_tag key (some value) = if value == "" then [] else (key, value) ∷ []

abbrev pub number_tag : (ℕ → String) → String → Option ℕ → List (String × String)
number_tag decimal key none = []
number_tag decimal key (some value) = (key, decimal value) ∷ []

-- `buildTargetTags`
unfoldable pub build_target_tags : (ℕ → String) → Subnet → List (String × String)
build_target_tags decimal subnet =
    ("auto_seeded", "true")
    ∷ ("pilot_sync", "true")
    ∷ ("subnet", subnet.network_address)
    ∷ (text_tag "address" subnet.location_address
        ++ number_tag decimal "location_id" subnet.location_id
        ++ text_tag "city" subnet.city
        ++ text_tag "region" subnet.region
        ++ text_tag "subscriber" subnet.subscriber_name
        ++ number_tag decimal "subscriber_id" subnet.subscriber_id
        ++ number_tag decimal "service_id" subnet.service_id
        ++ text_tag "pop" subnet.pop_name
        ++ text_tag "csw" subnet.gateway_device
        ++ number_tag decimal "vlan_id" subnet.vlan_id)

abbrev pub auto_target : World → String → IpType → String → Subnet → ℕ → Target
auto_target world ip ip_type tier subnet n = record {
  id = world.uuid n;
  ip = ip;
  tier = tier;
  tags = build_target_tags world.decimal subnet;
  subnet_id = some subnet.id;
  ownership = Ownership.auto;
  ip_type = some ip_type;
  is_representative = false;
  monitoring_state = MonitoringState.unknown;
  state_changed_at = world.now;
  needs_review = false;
  discovery_attempts = 0;
  last_response_at = none;
  first_response_at = none;
  baseline_established_at = none;
  archived_at = none;
  expected_outcome = none;
}

-- A target is created unless its query fails; an id is generated in both cases.
unfoldable pub seed_target : World → String → IpType → String → Subnet → Synced → Synced
unfolding create_auto_target build_target_tags
seed_target world ip ip_type tier subnet s = record {
  db =
      if world.seeds ip
      then create_auto_target (auto_target world ip ip_type tier subnet s.generated) s.db
      else s.db;
  generated = s.generated + 1;
}

abbrev pub seed_gateway : World → Subnet → Option String → Synced → Synced
seed_gateway world subnet none s = s
seed_gateway world subnet (some address) s =
    if address == "" then s else seed_target world address IpType.gateway "vlan_gateway" subnet s

unfoldable pub seed_customers : World → Subnet → List ℕ → Synced → Synced
unfolding seed_target
seed_customers world subnet [] s = s
seed_customers world subnet (ip ∷ ips) s =
    seed_customers world subnet ips
      (seed_target world (world.ip_text ip) IpType.customer "standard" subnet s)

abbrev pub gateway_of : World → Option String → Gateway
gateway_of world none = Gateway.absent
gateway_of world (some address) = if address == "" then Gateway.absent else world.parse_ip address

abbrev pub seed_usable : World → Subnet → Usable → Synced → Synced
seed_usable world subnet (Usable.refused err) s = s
seed_usable world subnet (Usable.usable ips) s = seed_customers world subnet ips s

-- `seedSubnetTargets`
unfoldable pub seed_subnet_targets : World → Subnet → Synced → Synced
unfolding seed_target seed_customers sync_usable_ips
seed_subnet_targets world subnet s =
    seed_usable world subnet
      (sync_usable_ips (world.parse_cidr subnet.network_address)
        (gateway_of world subnet.gateway_address))
      (seed_gateway world subnet subnet.gateway_address s)
