-- ===== src/Alerts/Audit.antt =====
-- The audit trail: an alert's severity and status can be read off its events.
use icmp_mon.Base.{
  Bool, map, keep, contains, ◌&&◌, ℕ, ◌≡◌, ◌≢◌, refl, sym, ap, ◌∙◌, subst, String, List, [], ◌∷◌,
  ◌++◌, Option, none, some, false, if◌then◌else◌, ◌==◌, ==_iff, if-true, if-false, Bool-cases,
  Option-cases, inl, inr, arith,
}
use icmp_mon.Types.Alert.{AlertSeverity}
use icmp_mon.Alerts.{
  created_event, Alert, AlertEvent, Db, find_alert, update_alert, change, create_alert,
  escalate_alert, escalated, deescalate_alert, deescalated, resolve_alert, resolved_row,
  reopen_alert, reopened, acknowledge_alert, acknowledged_row, update_alert_metrics, is_open,
  resolve_alerts_by_subnet,
}
use icmp_mon.Alerts.Replay.{
  after_event, replay, state_of, replay-append, resolve_known, replay-resolved, state_of-measured,
  state_of-resolved,
}
use icmp_mon.Alerts.Lookup.{find_alert-own, find_alert-other, find_alert-append}

-- The events of every id tell the severity and the status of its alert, or that there is none.
pub record Audited {Float : Type 0} (db : Db Float) : Type 0 where
  pub trail : (id : String) → replay id db.events none ≡ state_of (find_alert id db.alerts)

apart : (a b : String) → (a == b) ≡ false → a ≢ b
apart a b e q = ground (arith, (==_iff a b).1 q, e)

module _ {Float : Type 0} where
  abbrev changed : String → (Alert Float → Alert Float) → AlertEvent → Db Float → Db Float
  changed id f e db = record {
    alerts = update_alert id f db.alerts;
    events = db.events ++ (e ∷ []);
  }

  abbrev change_with :
      String → (Alert Float → Alert Float) → AlertEvent → Db Float → Option (Alert Float) → Db Float
  change_with id f e db o = elim o [ none ↦ db | some a ↦ changed id f e db ]

  changed-Audited :
      (id : String) (f : Alert Float → Alert Float) (e : AlertEvent) (db : Db Float)
      (a : Alert Float)
      → find_alert id db.alerts ≡ some a
      → e.alert_id ≡ id
      → ((r : Alert Float) → (f r).id ≡ r.id)
      → ((r : Alert Float)
          → after_event e (some (r.severity, r.status)) ≡ some ((f r).severity, (f r).status))
      → Audited db
      → Audited (changed id f e db)
  changed-Audited id f e db a h i k s t = record {
    trail = λ other.
        replay-append other db.events e none ∙ elim (Bool-cases (e.alert_id == other)) [
          | inl q ↦
              let same : id ≡ other = sym i ∙ (==_iff e.alert_id other).0 q in
              let here : find_alert other db.alerts ≡ some a =
                subst (λ x. find_alert x db.alerts ≡ some a) same h in
              if-true _ _ _ q
              ∙ ap (after_event e) (t.trail other ∙ ap state_of here)
              ∙ s a
              ∙ ap state_of (
                  sym (
                    subst (λ x. find_alert x (update_alert id f db.alerts) ≡ some (f a)) same
                      (find_alert-own id f db.alerts a k h)))
          | inr q ↦
              if-false _ _ _ q
              ∙ t.trail other
              ∙ ap state_of (
                  sym (
                    find_alert-other id other f db.alerts k
                      (λ o. apart e.alert_id other q (i ∙ sym o))))
        ];
  }

  change-Audited :
      (id : String) (f : Alert Float → Alert Float) (e : AlertEvent) (db : Db Float)
      → e.alert_id ≡ id
      → ((r : Alert Float) → (f r).id ≡ r.id)
      → ((r : Alert Float)
          → after_event e (some (r.severity, r.status)) ≡ some ((f r).severity, (f r).status))
      → Audited db
      → Audited (change id f e db)
  unfolding change
  change-Audited id f e db i k s t = elim (Option-cases (find_alert id db.alerts)) [
    | inl h ↦ subst (λ o. Audited (change_with id f e db o)) (sym h) t
    | inr (a, h) ↦
        subst (λ o. Audited (change_with id f e db o)) (sym h)
          (changed-Audited id f e db a h i k s t)
  ]

  -- An insertion with its first event.
  abbrev insert_with : Alert Float → Db Float → Option (Alert Float) → Db Float
  insert_with alert db o = elim o [
    | some a ↦ db
    | none ↦ record {
      alerts = db.alerts ++ (alert ∷ []);
      events = db.events ++ (created_event alert ∷ []);
    }
  ]

  create-Audited :
      (alert : Alert Float) (db : Db Float) → Audited db → Audited (create_alert alert db)
  unfolding create_alert
  create-Audited alert db t = elim (Option-cases (find_alert alert.id db.alerts)) [
    | inr (a, h) ↦ subst (λ o. Audited (insert_with alert db o)) (sym h) t
    | inl h ↦
        subst (λ o. Audited (insert_with alert db o)) (sym h)
          (record {
            trail = λ other.
                replay-append other db.events (created_event alert) none
                ∙ elim (Bool-cases (alert.id == other)) [
                  | inl q ↦
                      let gone : find_alert other db.alerts ≡ none =
                        subst (λ x. find_alert x db.alerts ≡ none) ((==_iff alert.id other).0 q)
                          h in
                      if-true _ (replay other db.events none) _ q
                      ∙ ap (after_event (created_event alert)) (t.trail other ∙ ap state_of gone)
                      ∙ ap state_of (
                          sym (
                            find_alert-append other db.alerts alert
                            ∙ ap (or_new other) gone
                            ∙ if-true _ _ _ q))
                  | inr q ↦
                      if-false _ _ _ q
                      ∙ t.trail other
                      ∙ ap state_of (
                          sym (
                            find_alert-append other db.alerts alert
                            ∙ kept other q (find_alert other db.alerts)))
                ];
          })
  ]
    where
      or_new : String → Option (Alert Float) → Option (Alert Float)
      or_new other o = elim o [
        | some r ↦ some r
        | none ↦ if alert.id == other then some alert else none
      ]

      kept :
          (other : String)
          → (alert.id == other) ≡ false
          → (o : Option (Alert Float)) → or_new other o ≡ o
      kept other q none = if-false _ _ _ q
      kept other q (some r) = refl

  resolve_all-Audited :
      (now : ℕ) (in_subnet : String → Bool) (db : Db Float)
      → Audited db
      → Audited (resolve_alerts_by_subnet now in_subnet db)
  unfolding resolve_alerts_by_subnet
  resolve_all-Audited now in_subnet db t = record {
    trail = λ other.
        replay-resolved other db.events (ids_of db.alerts) none
        ∙ ap (λ k. if contains (ids_of db.alerts) other then resolve_known k else k) (t.trail other)
        ∙ sym (state_of-resolved now other (ids_of db.alerts) db.alerts);
  }
    where
      ids_of : List (Alert Float) → List String
      ids_of rows =
          map (λ (a : Alert Float). a.id)
            (keep (λ a. in_subnet a.target_id && is_open a.status) rows)

-- The operations of the store on alerts.
pub data Op (Float : Type 0) : Type 0 where
  creates : Alert Float → Op Float
  escalates deescalates reopens : String → AlertSeverity → Option Float → Option Float → Op Float
  resolves : ℕ → String → Op Float
  acknowledges : ℕ → String → String → Op Float
  measures : String → Option Float → Option Float → Op Float
  resolves_subnet : ℕ → (String → Bool) → Op Float

abbrev pub perform : {Float : Type 0} → Op Float → Db Float → Db Float
perform (creates alert) db = create_alert alert db
perform (escalates id severity latency loss) db = escalate_alert id severity latency loss db
perform (deescalates id severity latency loss) db = deescalate_alert id severity latency loss db
perform (reopens id severity latency loss) db = reopen_alert id severity latency loss db
perform (resolves now id) db = resolve_alert now id db
perform (acknowledges now id user) db = acknowledge_alert now id user db
perform (measures id latency loss) db = update_alert_metrics id latency loss db
perform (resolves_subnet now in_subnet) db = resolve_alerts_by_subnet now in_subnet db

abbrev pub perform_all : {Float : Type 0} → List (Op Float) → Db Float → Db Float
perform_all [] db = db
perform_all (o ∷ ops) db = perform_all ops (perform o db)

perform-Audited :
    {Float : Type 0} (o : Op Float) (db : Db Float) → Audited db → Audited (perform o db)
unfolding escalate_alert deescalate_alert reopen_alert resolve_alert acknowledge_alert
    update_alert_metrics
perform-Audited (creates alert) db t = create-Audited alert db t
perform-Audited (escalates id severity latency loss) db t =
    change-Audited id (escalated severity latency loss) _ db refl (λ _. refl) (λ _. refl) t
perform-Audited (deescalates id severity latency loss) db t =
    change-Audited id (deescalated severity latency loss) _ db refl (λ _. refl) (λ _. refl) t
perform-Audited (reopens id severity latency loss) db t =
    change-Audited id (reopened severity latency loss) _ db refl (λ _. refl) (λ _. refl) t
perform-Audited (resolves now id) db t =
    change-Audited id (resolved_row now) _ db refl (λ _. refl) (λ _. refl) t
perform-Audited (acknowledges now id user) db t =
    change-Audited id (acknowledged_row now user) _ db refl (λ _. refl) (λ _. refl) t
perform-Audited (resolves_subnet now in_subnet) db t = resolve_all-Audited now in_subnet db t
perform-Audited (measures id latency loss) db t = record {
  trail = λ other. t.trail other ∙ sym (state_of-measured id latency loss db.alerts other);
}

-- The events are an audit trail of severities and statuses: after any creations, escalations,
-- de-escalations, reopenings, acknowledgements, changes of the metrics and resolutions, of one alert or
-- of all of a subnet, reading the events of an id from first to last gives the severity and the status of its
-- alert, and nothing where there is no such alert.
pub perform_all-Audited :
    {Float : Type 0} (ops : List (Op Float)) (db : Db Float)
    → Audited db
    → Audited (perform_all ops db)
perform_all-Audited [] db t = t
perform_all-Audited (o ∷ ops) db t = perform_all-Audited ops (perform o db) (perform-Audited o db t)
