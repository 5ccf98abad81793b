-- ===== src/Subnets/Hosts.antt =====
-- Which addresses of a network are usable.
use native.Mathlib.Nat.{pow-le-pow_right}
use icmp_mon.Base.{
  branch, ℕ, zero, suc, ◌+◌, ◌-◌, ◌%◌, ◌^◌, ◌≤◌, ◌<◌, ◌≡◌, ◌≢◌, ◌↔◌, ◌⊎◌, inl, inr, sym, ap, ◌∙◌,
  subst, List, [], ◌∷◌, Option, none, some, true, false, if◌then◌else◌, eqb, arith, In, Bool-cases,
  if-true, if-false, eqb_iff,
}
use icmp_mon.Subnets.{
  sync_pair, service_pair, only_ipv4, refused, Network, Gateway, absent, Usable, usable, is_gateway,
  is_positive, hosts_from, standard_hosts, calculate_usable_ips, sync_usable_ips, upper_of,
}

-- An address inside of the network of `size` addresses from `ip`, other than its first, its last
-- and the gateway.
pub record Host (ip size : ℕ) (gateway : Gateway) (a : ℕ) : Type 0 where
  pub above : ip < a
  pub below : a + 1 < ip + size
  pub not_gateway : is_gateway gateway a ≡ false

record Between (ip i rounds : ℕ) (gateway : Gateway) (a : ℕ) : Type 0 where
  low : ip + i ≤ a
  high : a < ip + i + rounds
  differs : is_gateway gateway a ≡ false

true-false : true ≢ false
true-false = ground arith

module _ {ip i rounds a : ℕ} {gateway : Gateway} where
  later : Between ip (i + 1) rounds gateway a → Between ip i (suc rounds) gateway a
  later b = record { low = omega (arith, b.low); high = omega (arith, b.high); differs = b.differs }

  first : ip + i ≡ a → is_gateway gateway (ip + i) ≡ false → Between ip i (suc rounds) gateway a
  first q e = record {
    low = omega arith;
    high = omega arith;
    differs = ap (is_gateway gateway) (sym q) ∙ e;
  }

  past : Between ip i (suc rounds) gateway a → ip + i ≢ a → Between ip (i + 1) rounds gateway a
  past b ne = record {
    low = omega (arith, b.low, ne);
    high = omega (arith, b.high);
    differs = b.differs;
  }

  here_or_later :
      (rest : List ℕ)
      → Between ip i (suc rounds) gateway a
      → (Between ip (i + 1) rounds gateway a → In a rest)
      → (ip + i ≡ a) ⊎ In a rest
  here_or_later rest b k = elim (Bool-cases (eqb (ip + i) a)) [
    | inl e ↦ inl ((eqb_iff (ip + i) a).0 e)
    | inr e ↦ inr (k (past b (λ q. true-false (sym ((eqb_iff (ip + i) a).1 q) ∙ e))))
  ]

hosts_from_iff :
    (ip : ℕ) (gateway : Gateway) (i rounds a : ℕ)
    → ip + i + rounds ≤ 2 ^ 32
    → In a (hosts_from ip gateway i rounds) ↔ Between ip i rounds gateway a
unfolding hosts_from
hosts_from_iff ip gateway i zero a h = (λ m. absurd m, λ b. omega (arith, b.low, b.high))
hosts_from_iff ip gateway i (suc rounds) a h =
    let rest = hosts_from_iff ip gateway (i + 1) rounds a (omega arith) in
    subst
      (λ w.
        In a (
          if is_gateway gateway w
          then hosts_from ip gateway (i + 1) rounds
          else w ∷ hosts_from ip gateway (i + 1) rounds)
        ↔ Between ip i (suc rounds) gateway a)
      {x = ip + i} {y = (ip + i) % 2 ^ 32} (omega arith)
      (branch (λ hosts. In a hosts ↔ Between ip i (suc rounds) gateway a)
        (is_gateway gateway (ip + i))
        (λ e. (
          λ m. later (rest.0 m),
          λ b.
              rest.1
                (past b (λ q. absurd (true-false (sym e ∙ ap (is_gateway gateway) q ∙ b.differs)))),
        ))
        (λ e. (
          λ m. elim m [ inl q ↦ first q e | inr m' ↦ later (rest.0 m') ],
          λ b. here_or_later _ b rest.1,
        )))

total-hosts :
    (size : ℕ) → 4 ≤ size → size ≤ 2 ^ 32 → (size % 2 ^ 64 + (2 ^ 64 - 2)) % 2 ^ 64 ≡ size - 2
total-hosts size h k = omega arith

positive : (n : ℕ) → 2 ≤ n → n ≤ 2 ^ 32 → is_positive n ≡ true
positive n h k = ground arith

-- The addresses that a standard network leaves.
standard_hosts-list :
    (ip : ℕ) (network : Network) (gateway : Gateway)
    → network.v4 ≡ some ip
    → let size = 2 ^ (network.bits - network.mask_size) in
      4 ≤ size
      → size ≤ 2 ^ 32
      → standard_hosts network gateway ≡ usable (hosts_from ip gateway 1 (size - 2))
unfolding standard_hosts
standard_hosts-list ip network gateway v h k =
    let size = 2 ^ (network.bits - network.mask_size) in
    let hosts : ℕ → Option ℕ → Usable = λ n v4. elim v4 [
      | none ↦ refused only_ipv4
      | some i ↦ usable (hosts_from i gateway 1 (n % 2 ^ 32))
    ] in
    ap (λ n. if is_positive n then hosts n network.v4 else usable []) (total-hosts size h k)
    ∙ if-true _ _ (is_positive (size - 2)) (positive (size - 2) (omega arith) (omega arith))
    ∙ ap (hosts (size - 2)) v
    ∙ ap (λ n. usable (hosts_from ip gateway 1 n)) {x = (size - 2) % 2 ^ 32} {y = size - 2}
        (omega arith)

size_bounds : (mask : ℕ) → mask < 31 → (4 ≤ 2 ^ (32 - mask)) × (2 ^ (32 - mask) ≤ 2 ^ 32)
size_bounds mask h = (
  pow-le-pow_right {n = 2} (omega arith) {i = 2} {j = 32 - mask} (omega arith),
  pow-le-pow_right {n = 2} (omega arith) {i = 32 - mask} {j = 32} (omega arith),
)

-- What the list of a result's addresses is; `[]` where the routine refuses.
abbrev pub addresses : Usable → List ℕ
addresses (refused e) = []
addresses (usable ips) = ips

-- A network of IPv4 with at least four addresses, which all are numbers of 32 bits.
pub record Proper (ip : ℕ) (network : Network) : Type 0 where
  pub is_v4 : network.v4 ≡ some ip
  pub bits_32 : network.bits ≡ 32
  pub four_or_more : network.mask_size < 31
  pub fits : ip + 2 ^ (32 - network.mask_size) ≤ 2 ^ 32

Proper-list :
    (ip : ℕ) (network : Network) (gateway : Gateway)
    → Proper ip network
    → standard_hosts network gateway
      ≡ usable (hosts_from ip gateway 1 (2 ^ (32 - network.mask_size) - 2))
Proper-list ip network gateway p =
    let bounds = size_bounds network.mask_size p.four_or_more in
    let same : 2 ^ (network.bits - network.mask_size) ≡ 2 ^ (32 - network.mask_size) =
      ap (λ b. 2 ^ (b - network.mask_size)) p.bits_32 in
    standard_hosts-list ip network gateway p.is_v4 (subst (λ n. 4 ≤ n) (sym same) bounds.0)
      (subst (λ n. n ≤ 2 ^ 32) (sym same) bounds.1)
    ∙ ap (λ n. usable (hosts_from ip gateway 1 (n - 2))) same

service-standard :
    (network : Network) (gateway : Gateway)
    → network.mask_size < 31
    → calculate_usable_ips (some network) gateway ≡ standard_hosts network gateway
unfolding calculate_usable_ips
service-standard network gateway h =
    if-false _ _ (eqb network.mask_size 32) (ground arith)
    ∙ if-false _ _ (eqb network.mask_size 31) (ground arith)

sync-standard :
    (network : Network) (gateway : Gateway)
    → network.mask_size < 31
    → sync_usable_ips (some network) gateway ≡ standard_hosts network gateway
unfolding sync_usable_ips
sync-standard network gateway h =
    if-false _ _ (eqb network.mask_size 32) (ground arith)
    ∙ if-false _ _ (eqb network.mask_size 31) (ground arith)

Between-Host :
    (ip size : ℕ) (gateway : Gateway) (a : ℕ)
    → 4 ≤ size
    → Between ip 1 (size - 2) gateway a ↔ Host ip size gateway a
Between-Host ip size gateway a h = (
  λ b. record {
    above = omega (arith, b.low);
    below = omega (arith, b.high);
    not_gateway = b.differs;
  },
  λ b. record {
    low = omega (arith, b.above);
    high = omega (arith, b.below);
    differs = b.not_gateway;
  },
)

-- The usable addresses of a network of four or more addresses are exactly those strictly between
-- its first and its last address, less the gateway.
pub calculate_usable_ips_iff :
    (ip : ℕ) (network : Network) (gateway : Gateway) (a : ℕ)
    → Proper ip network
    → In a (addresses (calculate_usable_ips (some network) gateway))
      ↔ Host ip (2 ^ (32 - network.mask_size)) gateway a
calculate_usable_ips_iff ip network gateway a p =
    let size = 2 ^ (32 - network.mask_size) in
    let bounds = size_bounds network.mask_size p.four_or_more in
    let listed =
      service-standard network gateway p.four_or_more ∙ Proper-list ip network gateway p in
    let between = hosts_from_iff ip gateway 1 (size - 2) a (omega (arith, p.fits, bounds.0)) in
    let host = Between-Host ip size gateway a bounds.0 in
    subst (λ u. In a (addresses u) ↔ Host ip size gateway a) (sym listed)
      (λ m. host.0 (between.0 m), λ b. between.1 (host.1 b))

-- The two routines agree on every network that is not a /31.
pub usable_ips-agree :
    (network : Network) (gateway : Gateway)
    → network.mask_size ≢ 31
    → calculate_usable_ips (some network) gateway ≡ sync_usable_ips (some network) gateway
unfolding calculate_usable_ips sync_usable_ips
usable_ips-agree network gateway h =
    ap (λ r. if eqb network.mask_size 32 then usable [] else r)
      (if-false _ _ (eqb network.mask_size 31) (ground arith)
        ∙ sym (if-false _ _ (eqb network.mask_size 31) (ground arith)))

-- On a /31 with an even address and without a gateway, the service yields the upper address and the
-- Pilot sync both.
pub usable_ips-differ :
    (ip : ℕ) (network : Network)
    → network.v4 ≡ some ip
    → network.mask_size ≡ 31
    → ip % 2 ≡ 0
    → (calculate_usable_ips (some network) absent ≡ usable ((ip + 1) ∷ []))
      × (sync_usable_ips (some network) absent ≡ usable (ip ∷ (ip + 1) ∷ []))
unfolding calculate_usable_ips sync_usable_ips service_pair sync_pair
usable_ips-differ ip network v h even = (
  pair-of (λ i. upper_of i ∷ []) ∙ ap (λ u. usable (u ∷ [])) upper,
  pair-of (λ i. i ∷ upper_of i ∷ []) ∙ ap (λ u. usable (ip ∷ u ∷ [])) upper,
)
  where
    upper : upper_of ip ≡ ip + 1
    upper = omega arith

    pair-of :
        (pair : ℕ → List ℕ)
        → (if eqb network.mask_size 32
            then usable []
            else if eqb network.mask_size 31
            then elim network.v4 [ none ↦ refused only_ipv4 | some i ↦ usable (pair i) ]
            else standard_hosts network absent)
          ≡ usable (pair ip)
    pair-of pair =
        if-false _ _ (eqb network.mask_size 32) (ground (arith, h))
        ∙ if-true _ _ (eqb network.mask_size 31) (ground (arith, h))
        ∙ ap (λ o. elim o [ none ↦ refused only_ipv4 | some i ↦ usable (pair i) ]) v
