-- ===== src/Alerts/Peak.antt =====
-- The peak severity of an alert, as the worker evolves it.
use icmp_mon.Base.{
  ◌++◌, [], ◌∷◌, ◌≤◌, ◌<◌, ◌≡◌, ◌≢◌, refl, sym, ◌∙◌, subst, String, List, Option, none, some, false,
  ◌==◌, ==_iff, branch, Bool-cases, inl, inr, some-inj, arith, ltb, ltb→lt, ltb→le,
}
use icmp_mon.Types.Alert.{AlertSeverity, level}
use icmp_mon.Alerts.{
  Alert, AlertEvent, Db, find_alert, update_alert, change, escalate_alert, escalated,
  deescalate_alert, deescalated, update_alert_metrics, measured,
}
use icmp_mon.Alerts.Lookup.{find_alert-own, find_alert-other}
use icmp_mon.Alerts.Worker.{evolve_alert}

-- The peak is at least the severity and at least the initial severity.
pub record Peaked {Float : Type 0} (a : Alert Float) : Type 0 where
  pub severity_peak : level a.severity ≤ level a.peak_severity
  pub initial_peak : level a.initial_severity ≤ level a.peak_severity

-- Every alert that a lookup finds is.
abbrev pub AllPeaked : {Float : Type 0} → Db Float → Type 0
AllPeaked {Float} db = (id : String) (a : Alert Float) → find_alert id db.alerts ≡ some a → Peaked a

module _ {Float : Type 0} where
  changed-Peaked :
      (id : String) (f : Alert Float → Alert Float) (db : Db Float) (log : List AlertEvent)
      (a : Alert Float)
      → find_alert id db.alerts ≡ some a
      → ((r : Alert Float) → (f r).id ≡ r.id)
      → Peaked (f a)
      → AllPeaked db
      → AllPeaked (record { alerts = update_alert id f db.alerts; events = log })
  changed-Peaked id f db log a h k p all other b found = elim (Bool-cases (id == other)) [
    | inl q ↦
        let same = (==_iff id other).0 q in
        subst Peaked
          (some-inj (
            sym (
              subst (λ x. find_alert x (update_alert id f db.alerts) ≡ some (f a)) same
                (find_alert-own id f db.alerts a k h))
            ∙ found))
          p
    | inr q ↦
        all other b
          (sym (find_alert-other id other f db.alerts k (λ o. apart id other q (sym o))) ∙ found)
  ]
    where
      apart : (x y : String) → (x == y) ≡ false → x ≢ y
      apart x y e o = ground (arith, (==_iff x y).1 o, e)

  change-Peaked :
      (id : String) (f : Alert Float → Alert Float) (e : AlertEvent) (db : Db Float)
      (a : Alert Float)
      → find_alert id db.alerts ≡ some a
      → ((r : Alert Float) → (f r).id ≡ r.id)
      → Peaked (f a)
      → AllPeaked db
      → AllPeaked (change id f e db)
  unfolding change
  change-Peaked id f e db a h k p all =
      subst (λ o. AllPeaked (with_row o)) (sym h)
        (changed-Peaked id f db (db.events ++ (e ∷ [])) a h k p all)
    where
      with_row : Option (Alert Float) → Db Float
      with_row o = elim o [
        | none ↦ db
        | some r ↦ record { alerts = update_alert id f db.alerts; events = db.events ++ (e ∷ []) }
      ]

  escalated-Peaked :
      (severity : AlertSeverity) (latency loss : Option Float) (a : Alert Float)
      → Peaked a
      → Peaked (escalated severity latency loss a)
  escalated-Peaked severity latency loss a p = record {
    severity_peak =
        branch (λ s. level severity ≤ level s) (ltb (level a.peak_severity) (level severity))
          (λ _. omega arith) (λ e. ltb→le _ _ e);
    initial_peak =
        branch (λ s. level a.initial_severity ≤ level s)
          (ltb (level a.peak_severity) (level severity))
          (λ e. omega (arith, ltb→lt (level a.peak_severity) (level severity) e, p.initial_peak))
          (λ _. p.initial_peak);
  }

  deescalated-Peaked :
      (severity : AlertSeverity) (latency loss : Option Float) (a : Alert Float)
      → level severity < level a.severity
      → Peaked a
      → Peaked (deescalated severity latency loss a)
  deescalated-Peaked severity latency loss a h p = record {
    severity_peak = omega (arith, h, p.severity_peak);
    initial_peak = p.initial_peak;
  }

  measured-Peaked :
      (latency loss : Option Float) (a : Alert Float) → Peaked a → Peaked (measured latency loss a)
  measured-Peaked latency loss a p = record {
    severity_peak = p.severity_peak;
    initial_peak = p.initial_peak;
  }

-- Evolving an alert of the table, to whatever severity, keeps every alert's peak severity at least
-- its severity and at least its initial severity.
pub evolve_alert-Peaked :
    {Float : Type 0} (alert : Alert Float) (severity : AlertSeverity) (latency loss : Float)
    (db : Db Float)
    → find_alert alert.id db.alerts ≡ some alert
    → AllPeaked db
    → AllPeaked (evolve_alert alert severity latency loss db)
unfolding evolve_alert escalate_alert deescalate_alert update_alert_metrics
evolve_alert-Peaked {Float} alert severity latency loss db h all =
    let p = all alert.id alert h in
    branch keeps (ltb (level alert.severity) (level severity))
      (λ _.
        change-Peaked alert.id (escalated severity (some latency) (some loss)) _ db alert h
          (λ _. refl) (escalated-Peaked severity (some latency) (some loss) alert p) all)
      (λ _.
        branch keeps (ltb (level severity) (level alert.severity))
          (λ e.
            change-Peaked alert.id (deescalated severity (some latency) (some loss)) _ db alert h
              (λ _. refl)
              (deescalated-Peaked severity (some latency) (some loss) alert (ltb→lt _ _ e) p) all)
          (λ _.
            changed-Peaked alert.id (measured (some latency) (some loss)) db db.events alert h
              (λ _. refl) (measured-Peaked (some latency) (some loss) alert p) all))
  where
    keeps : (Db Float → Db Float) → Type 0
    keeps f = AllPeaked (f db)
