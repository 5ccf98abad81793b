-- ===== src/Alerts/Resolutions.antt =====
-- `checkResolutions`: which alerts it leaves.
use icmp_mon.Base.{
  ==-false, ℕ, ◌≡◌, ◌≢◌, refl, sym, ap, ap₂, ◌∙◌, subst, String, List, [], ◌∷◌, ◌++◌, map, Option,
  none, some, Bool, true, ◌==◌, ==_iff, branch, if-true, if-false, Option-cases, inl, inr, some-inj,
  arith, All, In, Distinct, keep, ◌&&◌, All-take, In-map,
}
use icmp_mon.Types.Alert.{AlertStatus, acknowledged}
use icmp_mon.Alerts.{
  ltb, Alert, AlertEvent, Db, find_alert, update_alert, change, resolve_alert, resolved_row,
}
use icmp_mon.Alerts.Lookup.{find_alert-other}
use icmp_mon.Alerts.Worker.{
  is_active, insert_latest, latest_first, get_active_alerts_for_target, resolve_each,
  check_resolutions,
}

module _ {Float : Type 0} where
  abbrev pub ids : List (Alert Float) → List String
  ids rows = map (λ a. a.id) rows

  -- With distinct ids a row of the table is the one that a lookup of its id finds.
  find_alert-In :
      (r : Alert Float) (rows : List (Alert Float))
      → Distinct (ids rows)
      → In r rows
      → find_alert r.id rows ≡ some r
  find_alert-In r [] d m = absurd m
  find_alert-In r (x ∷ rows) (fresh, d) (inl e) =
      if-true _ _ (x.id == r.id) ((==_iff x.id r.id).1 (ap (λ (a : Alert Float). a.id) e))
      ∙ ap some e
  find_alert-In r (x ∷ rows) (fresh, d) (inr m) =
      if-false _ _ (x.id == r.id) (
        ==-false x.id r.id (λ q.
          fresh
            (subst (λ i. In i (ids rows)) (sym q) (In-map (λ (a : Alert Float). a.id) r rows m))))
      ∙ find_alert-In r rows d m

  ids-update :
      (id : String) (f : Alert Float → Alert Float) (rows : List (Alert Float))
      → ((r : Alert Float) → (f r).id ≡ r.id)
      → ids (update_alert id f rows) ≡ ids rows
  unfolding update_alert
  ids-update id f [] k = refl
  ids-update id f (r ∷ rows) k =
      ap₂ (λ i is. i ∷ is)
        (branch (λ (x : Alert Float). x.id ≡ r.id) (r.id == id) (λ _. k r) (λ _. refl))
        (ids-update id f rows k)

  abbrev change_with :
      String → (Alert Float → Alert Float) → AlertEvent → Db Float → Option (Alert Float) → Db Float
  change_with id f e db o = elim o [
    | none ↦ db
    | some a ↦ record { alerts = update_alert id f db.alerts; events = db.events ++ (e ∷ []) }
  ]

  ids-change :
      (id : String) (f : Alert Float → Alert Float) (e : AlertEvent) (db : Db Float)
      → ((r : Alert Float) → (f r).id ≡ r.id)
      → ids (change id f e db).alerts ≡ ids db.alerts
  unfolding change
  ids-change id f e db k = elim (Option-cases (find_alert id db.alerts)) [
    | inl h ↦ ap (λ o. ids (change_with id f e db o).alerts) h
    | inr (a, h) ↦ ap (λ o. ids (change_with id f e db o).alerts) h ∙ ids-update id f db.alerts k
  ]

  change-other :
      (id other : String) (f : Alert Float → Alert Float) (e : AlertEvent) (db : Db Float)
      → ((r : Alert Float) → (f r).id ≡ r.id)
      → other ≢ id
      → find_alert other (change id f e db).alerts ≡ find_alert other db.alerts
  unfolding change
  change-other id other f e db k ne = elim (Option-cases (find_alert id db.alerts)) [
    | inl h ↦ ap (λ o. find_alert other (change_with id f e db o).alerts) h
    | inr (a, h) ↦
        ap (λ o. find_alert other (change_with id f e db o).alerts) h
        ∙ find_alert-other id other f db.alerts k ne
  ]

  ids-resolve :
      (now : ℕ) (id : String) (db : Db Float) → ids (resolve_alert now id db).alerts ≡ ids db.alerts
  unfolding resolve_alert
  ids-resolve now id db = ids-change id (resolved_row now) _ db (λ _. refl)

  resolve-other :
      (now : ℕ) (id other : String) (db : Db Float)
      → other ≢ id
      → find_alert other (resolve_alert now id db).alerts ≡ find_alert other db.alerts
  unfolding resolve_alert
  resolve-other now id other db = change-other id other (resolved_row now) _ db (λ _. refl)

  each-other :
      (now : ℕ) (rows : List (Alert Float)) (other : String) (db : Db Float)
      → All (λ r. other ≢ r.id) rows
      → (find_alert other (resolve_each now rows db).alerts ≡ find_alert other db.alerts)
        × (ids (resolve_each now rows db).alerts ≡ ids db.alerts)
  unfolding resolve_each
  each-other now [] other db h = (refl, refl)
  each-other now (r ∷ rows) other db (h, hs) =
      let rest = each-other now rows other (resolve_alert now r.id db) hs in
      (rest.0 ∙ resolve-other now r.id other db h, rest.1 ∙ ids-resolve now r.id db)

  All-insert_latest :
      (P : Alert Float → Type 0) (a : Alert Float) (rows : List (Alert Float))
      → P a
      → All P rows
      → All P (insert_latest a rows)
  unfolding insert_latest
  All-insert_latest P a [] h hs = (h, tt)
  All-insert_latest P a (b ∷ rows) h (k, ks) =
      let rest = All-insert_latest P a rows h ks in
      branch (All P) (ltb a.detected_at b.detected_at) (λ _. (k, rest)) (λ _. (h, (k, ks)))

  All-latest_first :
      (P : Alert Float → Type 0) (rows : List (Alert Float))
      → All P rows
      → All P (latest_first rows)
  unfolding latest_first
  All-latest_first P [] h = h
  All-latest_first P (a ∷ rows) (h, hs) =
      All-insert_latest P a (latest_first rows) h (All-latest_first P rows hs)

  All-keep-In :
      (p : Alert Float → Bool) (everything rows : List (Alert Float))
      → ((r : Alert Float) → In r rows → In r everything)
      → All (λ r. (p r ≡ true) × In r everything) (keep p rows)
  All-keep-In p everything [] h = tt
  All-keep-In p everything (r ∷ rows) h =
      let rest = All-keep-In p everything rows (λ x m. h x (inr m)) in
      branch (All (λ x. (p x ≡ true) × In x everything)) (p r) (λ e. ((e, h r (inl refl)), rest))
        (λ _. rest)

  All-map :
      (P Q : Alert Float → Type 0) (rows : List (Alert Float))
      → ((r : Alert Float) → P r → Q r)
      → All P rows
      → All Q rows
  All-map P Q [] k h = tt
  All-map P Q (r ∷ rows) k (h, hs) = (k r h, All-map P Q rows k hs)

and-right : (a b : Bool) → (a && b) ≡ true → b ≡ true
and-right a b h = ground (arith, h)

not_both : (s : AlertStatus) → is_active s ≡ true → s ≢ acknowledged
not_both s h e = ground (arith, h, e)

-- The automatic resolution never touches an acknowledged alert: whatever targets are healthy, it is
-- found afterwards as it was.
pub check_resolutions-acknowledged :
    {Float : Type 0} (now : ℕ) (healthy : List String) (db : Db Float) (a : Alert Float)
    → Distinct (ids db.alerts)
    → find_alert a.id db.alerts ≡ some a
    → a.status ≡ acknowledged
    → find_alert a.id (check_resolutions now healthy db).alerts ≡ some a
unfolding check_resolutions get_active_alerts_for_target
check_resolutions-acknowledged now [] db a d h s = h
check_resolutions-acknowledged {Float} now (target ∷ healthy) db a d h s =
    let chosen = get_active_alerts_for_target target db in
    let one = each-other now chosen a.id db others in
    check_resolutions-acknowledged now healthy (resolve_each now chosen db) a
      (subst Distinct (sym one.1) d) (one.0 ∙ h) s
  where
    test : Alert Float → Bool
    test r = r.target_id == target && is_active r.status

    apart : (r : Alert Float) → (test r ≡ true) × In r db.alerts → a.id ≢ r.id
    apart r (t, m) q =
        let same : a ≡ r = some-inj (
          sym h
          ∙ subst (λ i. find_alert i db.alerts ≡ some r) (sym q) (find_alert-In r db.alerts d m)) in
        not_both r.status (and-right _ _ t) (ap (λ (x : Alert Float). x.status) (sym same) ∙ s)

    others : All (λ r. a.id ≢ r.id) (get_active_alerts_for_target target db)
    others =
        All-take (λ r. a.id ≢ r.id) 100 _
          (All-map _ _ _ apart
            (All-latest_first _ _ (All-keep-In test db.alerts db.alerts (λ r m. m))))
