-- ===== src/Pilot/Cancelled.antt =====
-- A service that is cancelled in Pilot: its targets are no longer monitored and its alerts are closed.
use icmp_mon.Base.{
  true≢false, Bool-cases, inl, inr, eqb, ◌≡◌, refl, sym, ap, ap₂, ◌∙◌, subst, String, List, [], ◌∷◌,
  map, Option, none, some, true, false, not, ◌&&◌, if◌then◌else◌, All, keep, contains, branch,
  arith, if-true, if-false, ◌==◌, ==_iff,
}
use icmp_mon.Types.Target.{Target}
use icmp_mon.Pilot.{
  IpPool, Subnet, Db, AlertRow, in_subnet, is_unset, stops, is_open, update_row,
  update_target_tags_by_subnet, transition_targets_by_service_cancellation,
  resolve_alerts_by_subnet, get_subnet_by_pilot_id,
}
use icmp_mon.Pilot.Sync.{
  ptr_int_not_equal, is_cancelled, sync_pool, sync_found, update_from, subnet_needs_update,
  ptr_string_not_equal, handle_service_cancellation, with_pool,
}
use icmp_mon.Pilot.Seeding.{World, Synced, build_target_tags}

abbrev ids_in : String → List Target → List String
ids_in id targets = map (λ (t : Target). t.id) (keep (in_subnet id) targets)

-- No target of the subnet is monitored, and no alert of one is open.
pub record Quiet (id : String) (db : Db) : Type 0 where
  pub targets : All (λ (t : Target). stops id t ≡ false) db.targets
  pub alerts :
      All
        (λ (a : AlertRow).
          (contains (map (λ (t : Target). t.id) (keep (in_subnet id) db.targets)) a.target_id
            && is_open a.status)
          ≡ false)
        db.alerts

-- The targets of the subnet stand where they stood.
ids_in-map :
    (id : String) (f : Target → Target) (targets : List Target)
    → ((t : Target) → (f t).id ≡ t.id)
    → ((t : Target) → (f t).subnet_id ≡ t.subnet_id)
    → ids_in id (map f targets) ≡ ids_in id targets
ids_in-map id f [] same kept = refl
ids_in-map id f (t ∷ targets) same kept =
    let ih = ids_in-map id f targets same kept in
    let s = ap (λ (o : Option String). elim o [ none ↦ false | some i ↦ i == id ]) (kept t) in
    branch (λ (xs : List Target). map (λ (x : Target). x.id) xs ≡ ids_in id (t ∷ targets))
      (in_subnet id (f t))
      (λ h.
        ap₂ (λ i is. i ∷ is) (same t) ih
        ∙ sym (
            ap (map (λ (x : Target). x.id)) (
              if-true (t ∷ keep (in_subnet id) targets) (keep (in_subnet id) targets)
                (in_subnet id t) (sym s ∙ h))))
      (λ h.
        ih
        ∙ sym (
            ap (map (λ (x : Target). x.id)) (
              if-false (t ∷ keep (in_subnet id) targets) (keep (in_subnet id) targets)
                (in_subnet id t) (sym s ∙ h))))

All-map :
    {A : Type 0} (P : A → Type 0) (f : A → A) (xs : List A) → ((a : A) → P (f a)) → All P (map f xs)
All-map P f [] h = tt
All-map P f (x ∷ xs) h = (h x, All-map P f xs h)

All-map_kept :
    {A : Type 0} (P : A → Type 0) (f : A → A) (xs : List A)
    → ((a : A) → P a → P (f a))
    → All P xs
    → All P (map f xs)
All-map_kept P f [] h k = tt
All-map_kept P f (x ∷ xs) h (k, ks) = (h x k, All-map_kept P f xs h ks)

handle_service_cancellation-Quiet :
    (world : World) (subnet : Subnet) (db : Db)
    → world.transitions subnet.id ≡ true
    → world.resolves subnet.id ≡ true
    → Quiet subnet.id (handle_service_cancellation world subnet db)
unfolding handle_service_cancellation transition_targets_by_service_cancellation
    resolve_alerts_by_subnet
handle_service_cancellation-Quiet world subnet db t r =
    subst
      (λ (x : Db). Quiet subnet.id (
        if world.resolves subnet.id
        then resolve_alerts_by_subnet subnet.id "Service cancelled in Flight Deck" x
        else x))
      (sym (
        if-true (transition_targets_by_service_cancellation world.now subnet.id db) db
          (world.transitions subnet.id) t))
      (subst (Quiet subnet.id)
        (sym (
          if-true
            (resolve_alerts_by_subnet subnet.id "Service cancelled in Flight Deck"
              (transition_targets_by_service_cancellation world.now subnet.id db))
            (transition_targets_by_service_cancellation world.now subnet.id db)
            (world.resolves subnet.id) r))
        (record {
          targets =
              All-map (λ (x : Target). stops subnet.id x ≡ false) _ db.targets
                (λ x.
                  branch (λ (y : Target). stops subnet.id y ≡ false) (stops subnet.id x)
                    (λ h. ground (arith, h)) (λ h. h));
          alerts = All-map _ _ db.alerts (λ a.
              branch
                (λ (y : AlertRow).
                  (contains
                      (ids_in subnet.id
                        (transition_targets_by_service_cancellation world.now subnet.id db).targets)
                      y.target_id
                    && is_open y.status)
                  ≡ false)
                (contains
                    (ids_in subnet.id
                      (transition_targets_by_service_cancellation world.now subnet.id db).targets)
                    a.target_id
                  && is_open a.status)
                (λ h. ground (arith, h)) (λ h. h));
        }))

update_target_tags_by_subnet-Quiet :
    (id : String) (tags : List (String × String)) (db : Db)
    → Quiet id db
    → Quiet id (update_target_tags_by_subnet id tags db)
unfolding update_target_tags_by_subnet
update_target_tags_by_subnet-Quiet id tags db q =
    let f = λ (x : Target).
      if in_subnet id x && is_unset x.archived_at then record x { tags = tags } else x in
    record {
      targets =
          All-map_kept (λ (x : Target). stops id x ≡ false) f db.targets
            (λ x h.
              branch (λ (y : Target). stops id y ≡ false) (in_subnet id x && is_unset x.archived_at)
                (λ _. h) (λ _. h))
            q.targets;
      alerts =
          subst
            (λ is.
              All (λ (a : AlertRow). (contains is a.target_id && is_open a.status) ≡ false)
                db.alerts)
            (sym (
              ids_in-map id f db.targets
                (λ x.
                  branch (λ (y : Target). y.id ≡ x.id) (in_subnet id x && is_unset x.archived_at)
                    (λ _. refl) (λ _. refl))
                (λ x.
                  branch (λ (y : Target). y.subnet_id ≡ x.subnet_id)
                    (in_subnet id x && is_unset x.archived_at) (λ _. refl) (λ _. refl))))
            q.alerts;
    }

-- A change of the status to cancelled is a difference that the sync looks at.
status-differs :
    (old new : Option String)
    → is_cancelled new ≡ true
    → is_cancelled old ≡ false
    → ptr_string_not_equal old new ≡ true
unfolding ptr_string_not_equal
status-differs none none c n = absurd cc
status-differs none (some b) c n = refl
status-differs (some a) none c n = absurd cc
status-differs (some a) (some b) c n = elim (Bool-cases (a == b)) [
  | inl h ↦
      let same = ap (λ x. x == "cancelled") ((==_iff a b).0 h) in
      absurd (ground (arith, same, c, n))
  | inr h ↦ ap not h
]

needs_update-status :
    (existing : Subnet) (pool : IpPool)
    → ptr_string_not_equal existing.service_status pool.service_status ≡ true
    → subnet_needs_update existing pool ≡ true
unfolding subnet_needs_update
needs_update-status existing pool h =
    branch (λ b. b ≡ true) (not (existing.network_address == pool.network_address)) (λ _. refl)
      (λ _.
        branch (λ b. b ≡ true) (not (eqb existing.network_size pool.network_size)) (λ _. refl)
          (λ _.
            branch (λ b. b ≡ true)
              (ptr_string_not_equal existing.subscriber_name pool.subscriber_name) (λ _. refl)
              (λ _.
                branch (λ b. b ≡ true)
                  (ptr_string_not_equal existing.gateway_device pool.gateway_device) (λ _. refl)
                  (λ _.
                    branch (λ b. b ≡ true) (ptr_int_not_equal existing.subnet_type pool.subnet_type)
                      (λ _. refl) (λ _. h)))))

update_from-Quiet :
    (world : World) (existing : Subnet) (pool : IpPool) (db : Db)
    → is_cancelled pool.service_status ≡ true
    → is_cancelled existing.service_status ≡ false
    → world.updates existing.id ≡ true
    → world.transitions existing.id ≡ true
    → world.resolves existing.id ≡ true
    → Quiet existing.id (update_from world existing pool db)
unfolding update_from
update_from-Quiet world existing pool db c n u t r =
    let handled =
      handle_service_cancellation-Quiet world (with_pool pool existing)
        (update_row world.inet_text (with_pool pool existing) db) t r in
    branch (Quiet existing.id) (not (world.updates existing.id))
      (λ h. absurd (ground (arith, h, u)))
      (λ _.
        branch (Quiet existing.id) (world.retags existing.id)
          (λ _.
            update_target_tags_by_subnet-Quiet existing.id
              (build_target_tags world.decimal (with_pool pool existing)) _
              (branch (Quiet existing.id)
                (is_cancelled pool.service_status && not (is_cancelled existing.service_status))
                (λ _. handled) (λ h. absurd (ground (arith, h, c, n)))))
          (λ _.
            branch (Quiet existing.id)
              (is_cancelled pool.service_status && not (is_cancelled existing.service_status))
              (λ _. handled) (λ h. absurd (ground (arith, h, c, n)))))

-- Where the subnet of a pool is found, its stored status is not cancelled, that of the pool is, and the
-- queries of the update succeed, the sync of the pool leaves no target of the subnet that is not
-- archived in a state other than inactive and excluded, and no alert of a target of the subnet active
-- or acknowledged.
pub sync_pool-Quiet :
    (world : World) (pool : IpPool) (existing : Subnet) (s : Synced)
    → world.gets pool.id ≡ true
    → get_subnet_by_pilot_id pool.id s.db ≡ some existing
    → is_cancelled pool.service_status ≡ true
    → is_cancelled existing.service_status ≡ false
    → world.updates existing.id ≡ true
    → world.transitions existing.id ≡ true
    → world.resolves existing.id ≡ true
    → Quiet existing.id (sync_pool world pool s).db
unfolding sync_pool
sync_pool-Quiet world pool existing s g f c n u t r =
    branch (λ (x : Synced). Quiet existing.id x.db) (not (world.gets pool.id))
      (λ h. absurd (ground (arith, h, g)))
      (λ _.
        subst (λ o. Quiet existing.id (sync_found world pool o s).db) (sym f)
          (branch (λ (x : Synced). Quiet existing.id x.db) (subnet_needs_update existing pool)
            (λ _. update_from-Quiet world existing pool s.db c n u t r)
            (λ h. absurd (
              true≢false (
                sym (
                  needs_update-status existing pool
                    (status-differs existing.service_status pool.service_status c n))
                ∙ h)))))
