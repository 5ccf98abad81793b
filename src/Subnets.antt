-- ===== src/Subnets.antt =====
-- control-plane/internal/service/service_subnets.go and
-- control-plane/internal/worker/pilot_sync.go: `calculateUsableIPs`, which both files declare, and
-- which differ on /31 networks. An IPv4 address is the number of its four bytes, in network order.
pub mod Hosts
mod Examples
use icmp_mon.Base.{
  ℕ, zero, suc, ◌+◌, ◌-◌, ◌*◌, ◌%◌, ◌^◌, List, [], ◌∷◌, Option, none, some, Bool, true, false,
  if◌then◌else◌, eqb, ltb, leb, ◌&&◌, not,
}

-- What `net.ParseCIDR` yields: `v4` is `network.IP.To4()`, then `Mask.Size()`.
pub record Network : Type 0 where
  pub v4 : Option ℕ
  pub mask_size : ℕ
  pub bits : ℕ

-- `gatewayIP`: nil, an IPv4 address, or another one.
pub data Gateway : Type 0 where
  absent not_ipv4 : Gateway
  ipv4_at : ℕ → Gateway

pub data UsableError : Type 0 where
  parsing_cidr only_ipv4 : UsableError

pub data Usable : Type 0 where
  refused : UsableError → Usable
  usable : List ℕ → Usable

-- `ip != nil && ip.Equal(gatewayIP)`
abbrev pub is_gateway : Gateway → ℕ → Bool
is_gateway absent ip = false
is_gateway not_ipv4 ip = false
is_gateway (ipv4_at g) ip = eqb g ip

-- `(1 << hostBits) - 2` in an int of 64 bits, as its two's complement.
abbrev pub total_hosts : ℕ → ℕ
total_hosts host_bits = (2 ^ host_bits % 2 ^ 64 + (2 ^ 64 - 2)) % 2 ^ 64

abbrev pub is_positive : ℕ → Bool
is_positive int64 = ltb 0 int64 && ltb int64 (2 ^ 63)

-- The loop over the hosts, `rounds` being the number of those that are left.
unfoldable pub hosts_from : ℕ → Gateway → ℕ → ℕ → List ℕ
hosts_from network gateway i zero = []
hosts_from network gateway i (suc rounds) =
    let ip = (network + i) % 2 ^ 32 in
    let rest = hosts_from network gateway (i + 1) rounds in
    if is_gateway gateway ip then rest else ip ∷ rest

-- A network that is neither /31 nor /32.
unfoldable pub standard_hosts : Network → Gateway → Usable
unfolding hosts_from
standard_hosts network gateway =
    let total = total_hosts (network.bits - network.mask_size) in
    if is_positive total
    then elim network.v4 [
      | none ↦ refused only_ipv4
      | some ip ↦ usable (hosts_from ip gateway 1 (total % 2 ^ 32))
    ]
    else usable []

-- `customerIP[3] += 1`, a byte.
abbrev pub upper_of : ℕ → ℕ
upper_of ip = ip - ip % 256 + (ip % 256 + 1) % 256

-- The /31 case of the service.
unfoldable pub service_pair : ℕ → Gateway → List ℕ
service_pair ip gateway = if is_gateway gateway (upper_of ip) then ip ∷ [] else upper_of ip ∷ []

-- The /31 case of the Pilot sync.
unfoldable pub sync_pair : ℕ → Gateway → List ℕ
sync_pair ip gateway =
    let upper = if is_gateway gateway (upper_of ip) then [] else upper_of ip ∷ [] in
    if is_gateway gateway ip then upper else ip ∷ upper

abbrev point_to_point : (ℕ → Gateway → List ℕ) → Network → Gateway → Usable
point_to_point pair network gateway = elim network.v4 [
  | none ↦ refused only_ipv4
  | some ip ↦ usable (pair ip gateway)
]

abbrev usable_by : (ℕ → Gateway → List ℕ) → Option Network → Gateway → Usable
usable_by pair cidr gateway = elim cidr [
  | none ↦ refused parsing_cidr
  | some network ↦
      if eqb network.mask_size 32
      then usable []
      else if eqb network.mask_size 31
      then point_to_point pair network gateway
      else standard_hosts network gateway
]

-- `calculateUsableIPs` of the service. An absent gateway of a /31 is taken to be the lower address,
-- which is not the upper one, so that the comparison has the same outcome.
unfoldable pub calculate_usable_ips : Option Network → Gateway → Usable
unfolding service_pair standard_hosts
calculate_usable_ips = usable_by service_pair

-- `calculateUsableIPs` of the Pilot sync.
unfoldable pub sync_usable_ips : Option Network → Gateway → Usable
unfolding sync_pair standard_hosts
sync_usable_ips = usable_by sync_pair
