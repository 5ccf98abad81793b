-- ===== src/Pilot/Following.antt =====
-- The subnets follow the pools: after a cycle each pool has its subnet, with the data that are compared.
use icmp_mon.Base.{
  true≢false, leb, ◌-◌, if-false, Distinct-map_unique, ==_iff, ◌≢◌, true, ℕ, ◌≡◌, refl, sym, ap,
  ◌∙◌, subst, String, List, [], ◌∷◌, map, Option, none, some, not, if◌then◌else◌, In, inl, inr,
  Distinct, branch, arith, ◌==◌,
}
use icmp_mon.Pilot.{
  Db, archived_row, archive_subnet, list_subnets, get_subnet_by_pilot_id, has_pilot_id, IpPool,
  Subnet, create_subnet, update_row, as_inet,
}
use icmp_mon.Pilot.Sync.{
  is_seen, archive_removed, sync_pool, sync_pools, run_once, sync_found, new_subnet,
  subnet_needs_update, with_pool,
}
use icmp_mon.Pilot.Seeding.{World, Synced}
use icmp_mon.Pilot.Retired.{create_from-subnets, update_from-subnets}
use icmp_mon.Pilot.Lookup.{
  find_first-In, find_first-append, find_first-new, find_first-map, updating-pilot,
  no_update-Agrees, one_pilot_id, Agrees, Follows,
}
use icmp_mon.Pilot.Keyed.{subnet_ids, Keyed, Injective, updating, sync_found-Keyed}

module _ (world : World) (creates : (id : ℕ) → world.creates id ≡ true)
    (updates : (id : String) → world.updates id ≡ true) where
  -- The pool that is synced is followed.
  sync_found-Follows :
      (pool : IpPool) (o : Option Subnet) (s : Synced)
      → world.inet_text pool.network_address ≡ pool.network_address
      → get_subnet_by_pilot_id pool.id s.db ≡ o
      → Distinct (subnet_ids s.db.subnets)
      → Follows pool (sync_found world pool o s).db.subnets
  unfolding get_subnet_by_pilot_id create_subnet new_subnet update_row
  sync_found-Follows pool none s plain e d =
      create_from-subnets (Follows pool) world pool s
        (λ h. absurd (true≢false (sym (creates pool.id) ∙ h)))
        (
          _,
          find_first-new (has_pilot_id pool.id) s.db.subnets _ e (ground arith),
          record {
            network_address = plain;
            network_size = refl;
            subscriber_name = refl;
            gateway_device = refl;
            service_status = refl;
          },
        )
  sync_found-Follows pool (some existing) s plain e d =
      let (m, own) = find_first-In (has_pilot_id pool.id) s.db.subnets existing e in
      branch (λ (x : Synced). Follows pool x.db.subnets) (subnet_needs_update existing pool)
        (λ _.
          update_from-subnets (Follows pool) world existing pool s.db
            (λ h. absurd (true≢false (sym (updates existing.id) ∙ h)))
            (
              updating (as_inet world.inet_text (with_pool pool existing)) existing,
              find_first-map (has_pilot_id pool.id)
                  (updating (as_inet world.inet_text (with_pool pool existing))) s.db.subnets
                  existing
                  (λ r k. updating-pilot world.inet_text s.db.subnets pool existing r pool.id d m k)
                  e,
              branch (λ (x : Subnet). Agrees x pool) (existing.id == existing.id)
                  (λ _. record {
                    network_address = plain;
                    network_size = refl;
                    subscriber_name = refl;
                    gateway_device = refl;
                    service_status = refl;
                  })
                  (λ h. absurd (true≢false (sym ((==_iff existing.id existing.id).1 refl) ∙ h))),
            ))
        (λ h. (existing, e, no_update-Agrees existing pool h))

  -- A pool with another id is followed as before.
  sync_found-other :
      (pool other : IpPool) (o : Option Subnet) (s : Synced)
      → pool.id ≢ other.id
      → get_subnet_by_pilot_id pool.id s.db ≡ o
      → Distinct (subnet_ids s.db.subnets)
      → Follows other s.db.subnets
      → Follows other (sync_found world pool o s).db.subnets
  unfolding get_subnet_by_pilot_id create_subnet new_subnet update_row
  sync_found-other pool other none s ne e d (r, f, a) =
      create_from-subnets (Follows other) world pool s (λ _. (r, f, a))
        (r, find_first-append (has_pilot_id other.id) s.db.subnets _ r f, a)
  sync_found-other pool other (some existing) s ne e d (r, f, a) =
      let (m, own) = find_first-In (has_pilot_id pool.id) s.db.subnets existing e in
      let (n, its) = find_first-In (has_pilot_id other.id) s.db.subnets r f in
      branch (λ (x : Synced). Follows other x.db.subnets) (subnet_needs_update existing pool)
        (λ _.
          update_from-subnets (Follows other) world existing pool s.db (λ _. (r, f, a))
            (
              updating (as_inet world.inet_text (with_pool pool existing)) r,
              find_first-map (has_pilot_id other.id)
                  (updating (as_inet world.inet_text (with_pool pool existing))) s.db.subnets r
                  (λ x k.
                    updating-pilot world.inet_text s.db.subnets pool existing x other.id d m k)
                  f,
              branch (λ (x : Subnet). Agrees x other) (r.id == existing.id)
                  (λ h. absurd (
                    ne (
                      one_pilot_id pool.id other.id existing own (
                        subst (λ (x : Subnet). has_pilot_id other.id x ≡ true)
                          (Distinct-map_unique (λ (x : Subnet). x.id) s.db.subnets r existing d n m
                            ((==_iff r.id existing.id).0 h))
                          its))))
                  (λ _. a),
            ))
        (λ _. (r, f, a))

  sync_pools-Follows :
      (gets : (id : ℕ) → world.gets id ≡ true) (inj : Injective world.uuid) (pools : List IpPool)
      (s : Synced)
      → Distinct (map (λ (pool : IpPool). pool.id) pools)
      → ((p : IpPool) → In p pools → world.inet_text p.network_address ≡ p.network_address)
      → Keyed world.uuid s.db.subnets s.generated
      → ((other : IpPool)
          → ¬ In other.id (map (λ (pool : IpPool). pool.id) pools)
          → Follows other s.db.subnets
          → Follows other (sync_pools world pools s).db.subnets)
        × ((pool : IpPool) → In pool pools → Follows pool (sync_pools world pools s).db.subnets)
  unfolding sync_pools sync_pool
  sync_pools-Follows gets inj [] s u plain k = (λ other n f. f, λ pool m. absurd m)
  sync_pools-Follows gets inj (pool ∷ pools) s u plain k =
      let o = get_subnet_by_pilot_id pool.id s.db in
      let next = sync_found world pool o s in
      let same = if-false s next (not (world.gets pool.id)) (ap not (gets pool.id)) in
      let (others, all) =
        sync_pools-Follows gets inj pools next u.1 (λ p m. plain p (inr m))
          (sync_found-Keyed world pool o s inj k) in
      (
        λ other n f.
            subst (λ (x : Synced). Follows other (sync_pools world pools x).db.subnets) (sym same)
              (others other (λ m. n (inr m))
                (sync_found-other pool other o s (λ q. n (inl q)) refl k.distinct f)),
        λ p m.
            subst (λ (x : Synced). Follows p (sync_pools world pools x).db.subnets) (sym same)
              (elim m [
                | inl e ↦
                    subst (λ (x : IpPool). Follows x (sync_pools world pools next).db.subnets) e
                      (others pool u.0
                        (sync_found-Follows pool o s (plain pool (inl refl)) refl k.distinct))
                | inr n ↦ all p n
              ]),
      )

-- An archived row keeps the data of the pool.
archiving-Follows :
    (pool : IpPool) (now : ℕ) (id reason : String) (rows : List Subnet)
    → Follows pool rows
    → Follows pool
        (map (λ (row : Subnet). if row.id == id then archived_row now reason row else row) rows)
archiving-Follows pool now id reason rows (r, f, a) =
    let archiving = λ (row : Subnet). if row.id == id then archived_row now reason row else row in
    (
      archiving r,
      find_first-map (has_pilot_id pool.id) archiving rows r
          (λ x m.
            branch (λ (y : Subnet). has_pilot_id pool.id y ≡ has_pilot_id pool.id x) (x.id == id)
              (λ _. refl) (λ _. refl))
          f,
      branch (λ (y : Subnet). Agrees y pool) (r.id == id)
          (λ _. record {
            network_address = a.network_address;
            network_size = a.network_size;
            subscriber_name = a.subscriber_name;
            gateway_device = a.gateway_device;
            service_status = a.service_status;
          })
          (λ _. a),
    )

archive_removed-Follows :
    (world : World) (pools : List IpPool) (listed : List Subnet) (pool : IpPool) (db : Db)
    → Follows pool db.subnets
    → Follows pool (archive_removed world pools listed db).subnets
unfolding archive_removed archive_subnet
archive_removed-Follows world pools [] pool db f = f
archive_removed-Follows world pools (x ∷ listed) pool db f =
    archive_removed-Follows world pools listed pool _ (
      branch (λ (d : Db). Follows pool d.subnets) (is_seen pools x.pilot_subnet_id) (λ _. f)
        (λ _.
          branch (λ (d : Db). Follows pool d.subnets) (world.archives x.id)
            (λ _. archiving-Follows pool world.now x.id "removed_from_pilot" db.subnets f)
            (λ _. f)))

-- Let the queries of the loop over the pools succeed, the pools that Pilot lists have distinct ids and
-- networks whose texts the database gives back as they are, as it does with a network in CIDR notation,
-- the ids of the subnets be distinct and those that are generated new. Then after a cycle, a full sync or
-- not, each pool has a subnet with its Pilot id, and the first such has the network, the subscriber,
-- the gateway device and the service status of the pool.
pub run_once-Follows :
    (world : World) (full_sync_interval : ℕ) (pools : List IpPool) (last_full_sync : ℕ) (s : Synced)
    → ((id : ℕ) → world.gets id ≡ true)
    → ((id : ℕ) → world.creates id ≡ true)
    → ((id : String) → world.updates id ≡ true)
    → Injective world.uuid
    → Distinct (map (λ (pool : IpPool). pool.id) pools)
    → ((p : IpPool) → In p pools → world.inet_text p.network_address ≡ p.network_address)
    → Keyed world.uuid s.db.subnets s.generated
    → (pool : IpPool) → In pool pools
    → Follows pool (run_once world full_sync_interval (some pools) last_full_sync s).0.db.subnets
unfolding run_once
run_once-Follows world interval pools last s gets creates updates inj u plain k pool m =
    let synced = sync_pools world pools s in
    let f = (sync_pools-Follows world creates updates gets inj pools s u plain k).1 pool m in
    branch (λ (x : Synced × ℕ). Follows pool x.0.db.subnets) (leb interval (world.now - last))
      (λ _.
        branch (λ (d : Db). Follows pool d.subnets) world.lists
          (λ _. archive_removed-Follows world pools (list_subnets synced.db) pool synced.db f)
          (λ _. f))
      (λ _. f)
