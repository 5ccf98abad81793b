-- ===== src/Pilot/Keyed.antt =====
-- The ids in the table of subnets stay distinct under a cycle of the sync.
use icmp_mon.Base.{
  ℕ, ◌+◌, ◌≤◌, ◌≡◌, refl, sym, ap, ◌∙◌, subst, String, List, [], ◌∷◌, ◌++◌, map, Option, none, some,
  not, if◌then◌else◌, In, inl, inr, Distinct, Distinct-append, In-append, branch, arith, ◌==◌,
}
use icmp_mon.Types.Target.{IpType}
use icmp_mon.Subnets.{Usable, sync_usable_ips}
use icmp_mon.Pilot.{IpPool, Subnet, create_subnet, update_row, row_with, as_inet}
use icmp_mon.Pilot.Sync.{
  sync_found, create_from, new_subnet, subnet_needs_update, with_pool, is_cancelled,
}
use icmp_mon.Pilot.Seeding.{
  World, Synced, seed_target, seed_gateway, seed_customers, seed_usable, seed_subnet_targets,
  gateway_of,
}
use icmp_mon.Pilot.Retired.{seed_subnet_targets-subnets, update_from-subnets}

abbrev pub subnet_ids : List Subnet → List String
subnet_ids rows = map (λ (r : Subnet). r.id) rows

-- The ids of the rows are distinct, and the ids that are generated from a number on are new.
pub record Keyed (uuid : ℕ → String) (rows : List Subnet) (generated : ℕ) : Type 0 where
  pub distinct : Distinct (subnet_ids rows)
  pub fresh : (n : ℕ) → generated ≤ n → ¬ In (uuid n) (subnet_ids rows)

abbrev pub Injective : (ℕ → String) → Type 0
Injective uuid = (m n : ℕ) → uuid m ≡ uuid n → m ≡ n

Keyed-later :
    (uuid : ℕ → String) (rows : List Subnet) (m n : ℕ)
    → m ≤ n
    → Keyed uuid rows m
    → Keyed uuid rows n
Keyed-later uuid rows m n h k = record {
  distinct = k.distinct;
  fresh = λ i g. k.fresh i (omega (arith, g, h));
}

subnet_ids-append : (xs ys : List Subnet) → subnet_ids (xs ++ ys) ≡ subnet_ids xs ++ subnet_ids ys
subnet_ids-append [] ys = refl
subnet_ids-append (x ∷ xs) ys = ap (λ is. x.id ∷ is) (subnet_ids-append xs ys)

Keyed-append :
    (uuid : ℕ → String) (rows : List Subnet) (n : ℕ) (x : Subnet)
    → Injective uuid
    → x.id ≡ uuid n
    → Keyed uuid rows n
    → Keyed uuid (rows ++ (x ∷ [])) (n + 1)
Keyed-append uuid rows n x inj e k =
    let same = subnet_ids-append rows (x ∷ []) in
    record {
      distinct = subst Distinct (sym same) (
          Distinct-append (subnet_ids rows) (x.id ∷ []) k.distinct (λ m. m, tt)
            (λ i m o. elim o [
              | inl q ↦ k.fresh n (omega arith) (subst (λ j. In j (subnet_ids rows)) (sym q ∙ e) m)
              | inr o' ↦ o'
            ]));
      fresh = λ i g m.
          elim (In-append (uuid i) (subnet_ids rows) (x.id ∷ []) (subst (In (uuid i)) same m)) [
            | inl m' ↦ k.fresh i (omega (arith, g)) m'
            | inr (inl q) ↦ let j = inj n i (sym e ∙ q) in absurd (omega (arith, g, j))
            | inr (inr m') ↦ m'
          ];
    }

abbrev pub updating : Subnet → Subnet → Subnet
updating subnet row = if row.id == subnet.id then row_with subnet row else row

subnet_ids-update :
    (subnet : Subnet) (rows : List Subnet)
    → subnet_ids (map (updating subnet) rows) ≡ subnet_ids rows
subnet_ids-update subnet [] = refl
subnet_ids-update subnet (r ∷ rows) =
    branch (λ (x : Subnet). x.id ∷ subnet_ids (map (updating subnet) rows) ≡ r.id ∷ subnet_ids rows)
      (r.id == subnet.id) (λ _. ap (λ is. r.id ∷ is) (subnet_ids-update subnet rows))
      (λ _. ap (λ is. r.id ∷ is) (subnet_ids-update subnet rows))

-- The seeding only generates further ids.
seed_customers-generated :
    (world : World) (subnet : Subnet) (ips : List ℕ) (s : Synced)
    → s.generated ≤ (seed_customers world subnet ips s).generated
unfolding seed_customers seed_target
seed_customers-generated world subnet [] s = omega arith
seed_customers-generated world subnet (ip ∷ ips) s =
    let ih =
      seed_customers-generated world subnet ips
        (seed_target world (world.ip_text ip) IpType.customer "standard" subnet s) in
    omega (arith, ih)

seed_usable-generated :
    (world : World) (subnet : Subnet) (ips : Usable) (s : Synced)
    → s.generated ≤ (seed_usable world subnet ips s).generated
seed_usable-generated world subnet (Usable.refused err) s = omega arith
seed_usable-generated world subnet (Usable.usable ips) s =
    seed_customers-generated world subnet ips s

seed_gateway-generated :
    (world : World) (subnet : Subnet) (address : Option String) (s : Synced)
    → s.generated ≤ (seed_gateway world subnet address s).generated
unfolding seed_target
seed_gateway-generated world subnet none s = omega arith
seed_gateway-generated world subnet (some address) s =
    branch (λ (x : Synced). s.generated ≤ x.generated) (address == "") (λ _. omega arith)
      (λ _. omega arith)

seed_subnet_targets-generated :
    (world : World) (subnet : Subnet) (s : Synced)
    → s.generated ≤ (seed_subnet_targets world subnet s).generated
unfolding seed_subnet_targets
seed_subnet_targets-generated world subnet s =
    let first = seed_gateway-generated world subnet subnet.gateway_address s in
    let second =
      seed_usable-generated world subnet
        (sync_usable_ips (world.parse_cidr subnet.network_address)
          (gateway_of world subnet.gateway_address))
        (seed_gateway world subnet subnet.gateway_address s) in
    omega (arith, first, second)

create_from-Keyed :
    (world : World) (pool : IpPool) (s : Synced)
    → Injective world.uuid
    → Keyed world.uuid s.db.subnets s.generated
    → Keyed world.uuid (create_from world pool s).db.subnets (create_from world pool s).generated
unfolding create_from create_subnet new_subnet
create_from-Keyed world pool s inj k =
    let P : Synced → Type 0 = λ x. Keyed world.uuid x.db.subnets x.generated in
    let subnet = new_subnet (world.uuid s.generated) pool in
    let created : Synced = record {
      db = create_subnet world.inet_text subnet s.db;
      generated = s.generated + 1;
    } in
    let keyed : P created = Keyed-append world.uuid s.db.subnets s.generated _ inj refl k in
    branch P (not (world.creates pool.id))
      (λ _. Keyed-later world.uuid s.db.subnets s.generated (s.generated + 1) (omega arith) k)
      (λ _.
        branch P (is_cancelled pool.service_status) (λ _. keyed)
          (λ _.
            subst
              (λ rows. Keyed world.uuid rows (seed_subnet_targets world subnet created).generated)
              (sym (seed_subnet_targets-subnets world subnet created))
              (Keyed-later world.uuid created.db.subnets created.generated _
                (seed_subnet_targets-generated world subnet created) keyed)))

pub sync_found-Keyed :
    (world : World) (pool : IpPool) (o : Option Subnet) (s : Synced)
    → Injective world.uuid
    → Keyed world.uuid s.db.subnets s.generated
    → Keyed world.uuid (sync_found world pool o s).db.subnets (sync_found world pool o s).generated
unfolding update_row
sync_found-Keyed world pool none s inj k = create_from-Keyed world pool s inj k
sync_found-Keyed world pool (some existing) s inj k =
    branch (λ (x : Synced). Keyed world.uuid x.db.subnets x.generated)
      (subnet_needs_update existing pool)
      (λ _.
        update_from-subnets (λ rows. Keyed world.uuid rows s.generated) world existing pool s.db
          (λ _. k)
          (let e =
              subnet_ids-update (as_inet world.inet_text (with_pool pool existing)) s.db.subnets in
            record {
              distinct = subst Distinct (sym e) k.distinct;
              fresh = λ n g m. k.fresh n g (subst (In (world.uuid n)) e m);
            }))
      (λ _. k)
