-- ===== src/Pilot/Retired.antt =====
-- A subnet that is archived stays archived, also when Pilot lists its pool again.
use icmp_mon.Base.{
  ◌+◌, arith, ℕ, ◌-◌, ◌≡◌, refl, sym, ap, ◌∙◌, subst, String, List, [], ◌∷◌, map, Option, none,
  some, false, not, if◌then◌else◌, leb, In, inl, inr, any, branch, ◌==◌, In-append_left, ◌&&◌,
}
use icmp_mon.Types.Target.{Target, IpType}
use icmp_mon.Subnets.{Usable, sync_usable_ips}
use icmp_mon.Pilot.{
  IpPool, Subnet, Db, is_active_subnet, archived_row, archive_subnet, list_subnets, create_subnet,
  update_row, row_with, as_inet, create_auto_target, update_target_tags_by_subnet,
  transition_targets_by_service_cancellation, resolve_alerts_by_subnet, get_subnet_by_pilot_id,
}
use icmp_mon.Pilot.Sync.{
  is_seen, archive_removed, run_once, sync_pools, sync_pool, sync_found, create_from, update_from,
  handle_service_cancellation, new_subnet, subnet_needs_update, with_pool, is_cancelled,
}
use icmp_mon.Pilot.Seeding.{
  World, Synced, seed_target, seed_gateway, seed_customers, seed_usable, seed_subnet_targets,
  gateway_of,
}

-- Each archived row has an archived row with its id afterwards.
abbrev pub Persists : List Subnet → List Subnet → Type 0
Persists before after =
    (r : Subnet)
    → In r before
    → is_active_subnet r ≡ false
    → (row : Subnet) × In row after × (row.id ≡ r.id) × (is_active_subnet row ≡ false)

Persists-refl : (rows : List Subnet) → Persists rows rows
Persists-refl rows r m h = (r, m, refl, h)

Persists-trans : (x y z : List Subnet) → Persists x y → Persists y z → Persists x z
Persists-trans x y z p q r m h =
    let (r', m', e, h') = p r m h in let (r'', m'', e', h'') = q r' m' h' in (r'', m'', e' ∙ e, h'')

Persists-map :
    (f : Subnet → Subnet) (rows : List Subnet)
    → ((r : Subnet)
        → is_active_subnet r ≡ false
        → ((f r).id ≡ r.id) × (is_active_subnet (f r) ≡ false))
    → Persists rows (map f rows)
Persists-map f [] k r m h = absurd m
Persists-map f (x ∷ rows) k r (inl e) h =
    let (i, a) = k x (ap is_active_subnet e ∙ h) in
    (f x, inl refl, i ∙ ap (λ (y : Subnet). y.id) e, a)
Persists-map f (x ∷ rows) k r (inr m) h =
    let (row, m', i, a) = Persists-map f rows k r m h in (row, inr m', i, a)

-- The seeding of targets leaves the subnets alone.
seed_target-subnets :
    (world : World) (ip : String) (ip_type : IpType) (tier : String) (subnet : Subnet) (s : Synced)
    → (seed_target world ip ip_type tier subnet s).db.subnets ≡ s.db.subnets
unfolding seed_target create_auto_target
seed_target-subnets world ip ip_type tier subnet s =
    branch (λ (d : Db). d.subnets ≡ s.db.subnets) (world.seeds ip)
      (λ _.
        branch (λ (d : Db). d.subnets ≡ s.db.subnets)
          (any (λ (t : Target). t.ip == ip) s.db.targets) (λ _. refl) (λ _. refl))
      (λ _. refl)

seed_customers-subnets :
    (world : World) (subnet : Subnet) (ips : List ℕ) (s : Synced)
    → (seed_customers world subnet ips s).db.subnets ≡ s.db.subnets
unfolding seed_customers
seed_customers-subnets world subnet [] s = refl
seed_customers-subnets world subnet (ip ∷ ips) s =
    seed_customers-subnets world subnet ips
      (seed_target world (world.ip_text ip) IpType.customer "standard" subnet s)
    ∙ seed_target-subnets world (world.ip_text ip) IpType.customer "standard" subnet s

seed_gateway-subnets :
    (world : World) (subnet : Subnet) (address : Option String) (s : Synced)
    → (seed_gateway world subnet address s).db.subnets ≡ s.db.subnets
seed_gateway-subnets world subnet none s = refl
seed_gateway-subnets world subnet (some address) s =
    branch (λ (x : Synced). x.db.subnets ≡ s.db.subnets) (address == "") (λ _. refl)
      (λ _. seed_target-subnets world address IpType.gateway "vlan_gateway" subnet s)

seed_usable-subnets :
    (world : World) (subnet : Subnet) (ips : Usable) (s : Synced)
    → (seed_usable world subnet ips s).db.subnets ≡ s.db.subnets
seed_usable-subnets world subnet (Usable.refused err) s = refl
seed_usable-subnets world subnet (Usable.usable ips) s = seed_customers-subnets world subnet ips s

pub seed_subnet_targets-subnets :
    (world : World) (subnet : Subnet) (s : Synced)
    → (seed_subnet_targets world subnet s).db.subnets ≡ s.db.subnets
unfolding seed_subnet_targets
seed_subnet_targets-subnets world subnet s =
    seed_usable-subnets world subnet
      (sync_usable_ips (world.parse_cidr subnet.network_address)
        (gateway_of world subnet.gateway_address))
      (seed_gateway world subnet subnet.gateway_address s)
    ∙ seed_gateway-subnets world subnet subnet.gateway_address s

-- What a creation leaves of the subnets, whichever way it goes.
pub create_from-subnets {κ} :
    (P : List Subnet → Type κ) (world : World) (pool : IpPool) (s : Synced)
    → (world.creates pool.id ≡ false → P s.db.subnets)
    → P (create_subnet world.inet_text (new_subnet (world.uuid s.generated) pool) s.db).subnets
    → P (create_from world pool s).db.subnets
unfolding create_from
create_from-subnets P world pool s kept created =
    branch (λ (x : Synced). P x.db.subnets) (not (world.creates pool.id))
      (λ h. kept (ground (arith, h)))
      (λ _.
        branch (λ (x : Synced). P x.db.subnets) (is_cancelled pool.service_status) (λ _. created)
          (λ _.
            subst P
              (sym (
                seed_subnet_targets-subnets world (new_subnet (world.uuid s.generated) pool)
                  (record {
                    db =
                        create_subnet world.inet_text (new_subnet (world.uuid s.generated) pool)
                          s.db;
                    generated = s.generated + 1;
                  })))
              created))

handle_service_cancellation-subnets :
    (world : World) (subnet : Subnet) (db : Db)
    → (handle_service_cancellation world subnet db).subnets ≡ db.subnets
unfolding handle_service_cancellation transition_targets_by_service_cancellation
    resolve_alerts_by_subnet
handle_service_cancellation-subnets world subnet db =
    branch (λ (d : Db). d.subnets ≡ db.subnets) (world.resolves subnet.id)
      (λ _.
        branch (λ (d : Db). d.subnets ≡ db.subnets) (world.transitions subnet.id) (λ _. refl)
          (λ _. refl))
      (λ _.
        branch (λ (d : Db). d.subnets ≡ db.subnets) (world.transitions subnet.id) (λ _. refl)
          (λ _. refl))

-- What an update leaves of the subnets.
pub update_from-subnets {κ} :
    (P : List Subnet → Type κ) (world : World) (existing : Subnet) (pool : IpPool) (db : Db)
    → (world.updates existing.id ≡ false → P db.subnets)
    → P (update_row world.inet_text (with_pool pool existing) db).subnets
    → P (update_from world existing pool db).subnets
unfolding update_from update_target_tags_by_subnet
update_from-subnets P world existing pool db kept updated =
    let handled : P
        (if is_cancelled pool.service_status && not (is_cancelled existing.service_status)
          then handle_service_cancellation world (with_pool pool existing)
              (update_row world.inet_text (with_pool pool existing) db)
          else update_row world.inet_text (with_pool pool existing) db).subnets =
      branch (λ (d : Db). P d.subnets)
        (is_cancelled pool.service_status && not (is_cancelled existing.service_status))
        (λ _.
          subst P
            (sym (
              handle_service_cancellation-subnets world (with_pool pool existing)
                (update_row world.inet_text (with_pool pool existing) db)))
            updated)
        (λ _. updated) in
    branch (λ (d : Db). P d.subnets) (not (world.updates existing.id))
      (λ h. kept (ground (arith, h)))
      (λ _.
        branch (λ (d : Db). P d.subnets) (world.retags existing.id) (λ _. handled) (λ _. handled))

sync_found-Persists :
    (world : World) (pool : IpPool) (o : Option Subnet) (s : Synced)
    → Persists s.db.subnets (sync_found world pool o s).db.subnets
unfolding create_subnet update_row
sync_found-Persists world pool none s =
    create_from-subnets (Persists s.db.subnets) world pool s (λ _. Persists-refl s.db.subnets)
      (λ r m h. (r, In-append_left r s.db.subnets _ m, refl, h))
sync_found-Persists world pool (some existing) s =
    branch (λ (x : Synced). Persists s.db.subnets x.db.subnets) (subnet_needs_update existing pool)
      (λ _.
        update_from-subnets (Persists s.db.subnets) world existing pool s.db
          (λ _. Persists-refl s.db.subnets)
          (Persists-map
            (λ row.
              if row.id == existing.id
              then row_with (as_inet world.inet_text (with_pool pool existing)) row
              else row)
            s.db.subnets
            (λ r h.
              branch (λ (y : Subnet). (y.id ≡ r.id) × (is_active_subnet y ≡ false))
                (r.id == existing.id) (λ _. (refl, h)) (λ _. (refl, h)))))
      (λ _. Persists-refl s.db.subnets)

sync_pool-Persists :
    (world : World) (pool : IpPool) (s : Synced)
    → Persists s.db.subnets (sync_pool world pool s).db.subnets
unfolding sync_pool
sync_pool-Persists world pool s =
    branch (λ (x : Synced). Persists s.db.subnets x.db.subnets) (not (world.gets pool.id))
      (λ _. Persists-refl s.db.subnets)
      (λ _. sync_found-Persists world pool (get_subnet_by_pilot_id pool.id s.db) s)

sync_pools-Persists :
    (world : World) (pools : List IpPool) (s : Synced)
    → Persists s.db.subnets (sync_pools world pools s).db.subnets
unfolding sync_pools
sync_pools-Persists world [] s = Persists-refl s.db.subnets
sync_pools-Persists world (pool ∷ pools) s =
    Persists-trans s.db.subnets (sync_pool world pool s).db.subnets
      (sync_pools world pools (sync_pool world pool s)).db.subnets (sync_pool-Persists world pool s)
      (sync_pools-Persists world pools (sync_pool world pool s))

archive_removed-Persists :
    (world : World) (pools : List IpPool) (listed : List Subnet) (db : Db)
    → Persists db.subnets (archive_removed world pools listed db).subnets
unfolding archive_removed archive_subnet
archive_removed-Persists world pools [] db = Persists-refl db.subnets
archive_removed-Persists world pools (x ∷ listed) db =
    Persists-trans db.subnets _ (archive_removed world pools (x ∷ listed) db).subnets
      (branch (λ (d : Db). Persists db.subnets d.subnets) (is_seen pools x.pilot_subnet_id)
        (λ _. Persists-refl db.subnets)
        (λ _.
          branch (λ (d : Db). Persists db.subnets d.subnets) (world.archives x.id)
            (λ _.
              Persists-map
                (λ row.
                  if row.id == x.id then archived_row world.now "removed_from_pilot" row else row)
                db.subnets
                (λ r h.
                  branch (λ (y : Subnet). (y.id ≡ r.id) × (is_active_subnet y ≡ false))
                    (r.id == x.id) (λ _. (refl, refl)) (λ _. (refl, h))))
            (λ _. Persists-refl db.subnets)))
      (archive_removed-Persists world pools listed _)

-- Whatever Pilot lists and whichever queries succeed, a cycle of the sync leaves every archived subnet
-- archived: also one whose pool is listed again.
pub run_once-Persists :
    (world : World) (full_sync_interval : ℕ) (pools : Option (List IpPool)) (last_full_sync : ℕ)
    (s : Synced)
    → Persists s.db.subnets (run_once world full_sync_interval pools last_full_sync s).0.db.subnets
unfolding run_once
run_once-Persists world interval none last s = Persists-refl s.db.subnets
run_once-Persists world interval (some pools) last s =
    let synced = sync_pools world pools s in
    branch (λ (x : Synced × ℕ). Persists s.db.subnets x.0.db.subnets)
      (leb interval (world.now - last))
      (λ _.
        branch (λ (d : Db). Persists s.db.subnets d.subnets) world.lists
          (λ _.
            Persists-trans s.db.subnets synced.db.subnets
              (archive_removed world pools (list_subnets synced.db) synced.db).subnets
              (sync_pools-Persists world pools s)
              (archive_removed-Persists world pools (list_subnets synced.db) synced.db))
          (λ _. sync_pools-Persists world pools s))
      (λ _. sync_pools-Persists world pools s)
