-- ===== src/Pilot/Archived.antt =====
-- What a cycle of the sync archives, and that what is archived stays so.
use icmp_mon.Base.{
  true≢false, In-keep_back, ℕ, ◌-◌, ◌≡◌, ◌≢◌, refl, sym, ap, ◌∙◌, subst, String, List, [], ◌∷◌, map,
  some, true, false, if◌then◌else◌, eqb, leb, In, inl, inr, any, branch, arith, if-true, if-false,
  ◌==◌, ==_iff, Bool-cases,
}
use icmp_mon.Pilot.{
  IpPool, Subnet, Db, is_active_subnet, archived_row, archive_subnet, list_subnets,
}
use icmp_mon.Pilot.Sync.{is_seen, archive_removed, run_once, sync_pools}
use icmp_mon.Pilot.Seeding.{World, Synced}

any-In :
    (pools : List IpPool) (p : ℕ)
    → any (λ (pool : IpPool). eqb pool.id p) pools ≡ true
    → (pool : IpPool) × In pool pools × (pool.id ≡ p)
any-In [] p h = absurd (true≢false (sym h))
any-In (x ∷ pools) p h = elim (Bool-cases (eqb x.id p)) [
  | inl e ↦ (x, inl refl, ground (arith, e))
  | inr e ↦ let (pool, m, q) = any-In pools p (ground (arith, h, e)) in (pool, inr m, q)
]

-- A row that is active after an archiving was there before, under another id.
archive_subnet-active :
    (now : ℕ) (id reason : String) (rows : List Subnet) (r : Subnet)
    → In r (map (λ (row : Subnet). if row.id == id then archived_row now reason row else row) rows)
    → is_active_subnet r ≡ true
    → In r rows × (id ≢ r.id)
archive_subnet-active now id reason [] r m h = absurd m
archive_subnet-active now id reason (x ∷ rows) r (inl e) h =
    branch (λ (y : Subnet). y ≡ r → In r (x ∷ rows) × (id ≢ r.id)) (x.id == id)
      (λ _ q. absurd (true≢false (sym h ∙ sym (ap is_active_subnet q))))
      (λ n q. (
        inl q,
        λ s. true≢false (sym ((==_iff x.id id).1 (ap (λ (y : Subnet). y.id) q ∙ sym s)) ∙ n),
      ))
      e
archive_subnet-active now id reason (x ∷ rows) r (inr m) h =
    let (m', ne) = archive_subnet-active now id reason rows r m h in (inr m', ne)

archive_removed-active :
    (world : World) (pools : List IpPool) (listed : List Subnet) (db : Db) (r : Subnet)
    → ((id : String) → world.archives id ≡ true)
    → In r (archive_removed world pools listed db).subnets
    → is_active_subnet r ≡ true
    → In r db.subnets
      × ((s : Subnet) → In s listed → is_seen pools s.pilot_subnet_id ≡ false → s.id ≢ r.id)
unfolding archive_removed archive_subnet
archive_removed-active world pools [] db r all m h = (m, λ s k. absurd k)
archive_removed-active world pools (x ∷ listed) db r all m h =
    let next =
      if is_seen pools x.pilot_subnet_id
      then db
      else if world.archives x.id
      then archive_subnet world.now x.id "removed_from_pilot" db
      else db in
    let (n, rest) = archive_removed-active world pools listed next r all m h in
    elim (Bool-cases (is_seen pools x.pilot_subnet_id)) [
      | inl seen ↦ (
        subst (λ (d : Db). In r d.subnets) (if-true db _ (is_seen pools x.pilot_subnet_id) seen) n,
        λ s k u. elim k [
          | inl e ↦
              absurd
                (true≢false (sym seen ∙ ap (λ (y : Subnet). is_seen pools y.pilot_subnet_id) e ∙ u))
          | inr k' ↦ rest s k' u
        ],
      )
      | inr unseen ↦
          let at =
            subst (λ (d : Db). In r d.subnets)
              (if-false db _ (is_seen pools x.pilot_subnet_id) unseen
                ∙ if-true (archive_subnet world.now x.id "removed_from_pilot" db) db
                    (world.archives x.id) (all x.id))
              n in
          let (n', ne) =
            archive_subnet-active world.now x.id "removed_from_pilot" db.subnets r at h in
          (
            n',
            λ s k u. elim k [
              | inl e ↦ λ q. ne (ap (λ (y : Subnet). y.id) e ∙ q)
              | inr k' ↦ rest s k' u
            ],
          )
    ]

-- After a full sync in which the listing and the archivings succeed, every active subnet that has a
-- Pilot id has that of a pool that Pilot listed.
pub run_once-listed :
    (world : World) (full_sync_interval : ℕ) (pools : List IpPool) (last_full_sync : ℕ) (s : Synced)
    → leb full_sync_interval (world.now - last_full_sync) ≡ true
    → world.lists ≡ true
    → ((id : String) → world.archives id ≡ true)
    → (r : Subnet) (pilot_id : ℕ)
    → In r (run_once world full_sync_interval (some pools) last_full_sync s).0.db.subnets
    → is_active_subnet r ≡ true
    → r.pilot_subnet_id ≡ some pilot_id
    → (pool : IpPool) × In pool pools × (pool.id ≡ pilot_id)
unfolding run_once list_subnets
run_once-listed world interval pools last s full lists all r pilot_id m h p =
    let synced = sync_pools world pools s in
    let m1 =
      subst (λ (x : Synced × ℕ). In r x.0.db.subnets)
        (if-true _ _ (leb interval (world.now - last)) full) m in
    let m2 =
      subst (λ (d : Db). In r d.subnets)
        (if-true (archive_removed world pools (list_subnets synced.db) synced.db) synced.db
          world.lists lists)
        m1 in
    let (n, rest) =
      archive_removed-active world pools (list_subnets synced.db) synced.db r all m2 h in
    elim (Bool-cases (is_seen pools r.pilot_subnet_id)) [
      | inl seen ↦ any-In pools pilot_id (sym (ap (is_seen pools) p) ∙ seen)
      | inr unseen ↦
          absurd (rest r (In-keep_back is_active_subnet r synced.db.subnets n h) unseen refl)
    ]
