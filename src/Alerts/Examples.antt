-- ===== src/Alerts/Examples.antt =====
-- One alert, with natural numbers for its metrics, on which the theorems about alerts are used.
use icmp_mon.Base.{
  if-false, ◌∙◌, if-true, sym, some-inj, subst, ◌==◌, Bool-cases, ◌≢◌, ℕ, ◌≡◌, refl, List, [], ◌∷◌,
  Option, none, some, arith, inl, inr,
}
use icmp_mon.Types.Alert.{
  critical, warning, info, AlertStatus, active, acknowledged, availability, level,
}
use icmp_mon.Alerts.{Alert, Db, find_alert}
use icmp_mon.Alerts.Worker.{evolve_alert, check_resolutions}
use icmp_mon.Alerts.Audit.{
  Audited, Op, creates, escalates, resolves, reopens, resolves_subnet, perform_all,
  perform_all-Audited,
}
use icmp_mon.Alerts.Peak.{Peaked, AllPeaked, evolve_alert-Peaked}
use icmp_mon.Alerts.Resolutions.{check_resolutions-acknowledged}

abbrev alert : AlertStatus → Alert ℕ
alert status = record {
  id = "x";
  target_id = "t";
  alert_type = availability;
  severity = warning;
  status = status;
  initial_severity = warning;
  peak_severity = warning;
  initial_latency_ms = some 5;
  initial_packet_loss = some 1;
  peak_latency_ms = some 5;
  peak_packet_loss = some 1;
  current_latency_ms = some 5;
  current_packet_loss = some 1;
  detected_at = 0;
  acknowledged_at = none;
  acknowledged_by = "";
  resolved_at = none;
  correlation_key = "target:t";
}

abbrev empty : Db ℕ
empty = record { alerts = []; events = [] }

abbrev holding : Alert ℕ → Db ℕ
holding a = record { alerts = a ∷ []; events = [] }

abbrev ops : List (Op ℕ)
ops =
    creates (alert active)
    ∷ escalates "x" critical (some 9) none
    ∷ resolves 7 "x"
    ∷ reopens "x" info none none
    ∷ resolves_subnet 9 (λ target. target == "t")
    ∷ []

perform_all-Audited_example : Audited (perform_all ops empty)
perform_all-Audited_example = perform_all-Audited ops empty (record { trail = λ id. refl })

none-some : (a : Alert ℕ) → ◌≢◌ {A = Option (Alert ℕ)} none (some a)
none-some a = ground arith

holding-AllPeaked : AllPeaked (holding (alert active))
unfolding level
holding-AllPeaked id a found = elim (Bool-cases ("x" == id)) [
  | inl e ↦
      subst Peaked (some-inj (sym (if-true _ _ _ e) ∙ found))
        (record { severity_peak = omega arith; initial_peak = omega arith })
  | inr e ↦ absurd (none-some _ (sym (if-false _ _ _ e) ∙ found))
]

evolve_alert-Peaked_example :
    AllPeaked (evolve_alert (alert active) critical 9 2 (holding (alert active)))
evolve_alert-Peaked_example =
    evolve_alert-Peaked (alert active) critical 9 2 (holding (alert active)) refl holding-AllPeaked

check_resolutions-acknowledged_example :
    find_alert "x" (check_resolutions 7 ("t" ∷ []) (holding (alert acknowledged))).alerts
    ≡ some (alert acknowledged)
check_resolutions-acknowledged_example =
    check_resolutions-acknowledged 7 ("t" ∷ []) (holding (alert acknowledged)) (alert acknowledged)
      ((λ m. m), tt) refl refl
