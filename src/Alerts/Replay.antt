-- ===== src/Alerts/Replay.antt =====
-- What the events of an alert tell of its severity and its status, read from first to last.
use icmp_mon.Base.{
  Bool, true, map, contains, ap₂, ℕ, ◌≡◌, refl, sym, ap, ◌∙◌, String, List, [], ◌∷◌, ◌++◌, Option,
  none, some, false, if◌then◌else◌, ◌==◌, ==_iff, branch, if-true, if-false, Bool-cases, inl, inr,
}
use icmp_mon.Types.Alert.{AlertSeverity, AlertStatus, resolved}
use icmp_mon.Alerts.{
  Alert, AlertEvent, find_alert, update_alert, resolved_row, measured, resolved_event,
}

-- What is known of an alert after an event.
abbrev pub replaced {ℓ} : {A : Type ℓ} → Option A → A → A
replaced none old = old
replaced (some new) old = new

abbrev pub begun : Option AlertSeverity → Option AlertStatus → Option (AlertSeverity × AlertStatus)
begun (some severity) (some status) = some (severity, status)
begun (some severity) none = none
begun none status = none

abbrev pub after_event :
    AlertEvent → Option (AlertSeverity × AlertStatus) → Option (AlertSeverity × AlertStatus)
after_event e none = begun e.new_severity e.new_status
after_event e (some (severity, status)) =
    some (replaced e.new_severity severity, replaced e.new_status status)

-- Reading the events of an alert from first to last.
abbrev pub replay :
    String
    → List AlertEvent
    → Option (AlertSeverity × AlertStatus)
    → Option (AlertSeverity × AlertStatus)
replay id [] known = known
replay id (e ∷ events) known =
    replay id events (if e.alert_id == id then after_event e known else known)

abbrev pub state_of : {Float : Type 0} → Option (Alert Float) → Option (AlertSeverity × AlertStatus)
state_of none = none
state_of (some a) = some (a.severity, a.status)

pub replay-append :
    (id : String) (events : List AlertEvent) (e : AlertEvent)
    (known : Option (AlertSeverity × AlertStatus))
    → replay id (events ++ (e ∷ [])) known ≡ (
        if e.alert_id == id then after_event e (replay id events known) else replay id events known)
replay-append id [] e known = refl
replay-append id (x ∷ events) e known =
    replay-append id events e (if x.alert_id == id then after_event x known else known)

-- What is known of an alert that is resolved.
abbrev pub resolve_known :
    Option (AlertSeverity × AlertStatus) → Option (AlertSeverity × AlertStatus)
resolve_known none = none
resolve_known (some (severity, status)) = some (severity, resolved)

resolve_known-twice :
    (known : Option (AlertSeverity × AlertStatus)) (b : Bool)
    → (if b then resolve_known (resolve_known known) else resolve_known known) ≡ resolve_known known
resolve_known-twice none true = refl
resolve_known-twice none false = refl
resolve_known-twice (some (severity, status)) true = refl
resolve_known-twice (some (severity, status)) false = refl

after_event-resolved :
    (id : String) (known : Option (AlertSeverity × AlertStatus))
    → after_event (resolved_event id) known ≡ resolve_known known
after_event-resolved id none = refl
after_event-resolved id (some (severity, status)) = refl

-- Reading the events of a bulk resolution.
pub replay-resolved :
    (other : String) (events : List AlertEvent) (ids : List String)
    (known : Option (AlertSeverity × AlertStatus))
    → replay other (events ++ map resolved_event ids) known ≡ (
        if contains ids other
        then resolve_known (replay other events known)
        else replay other events known)
replay-resolved other [] [] known = refl
replay-resolved other [] (id ∷ ids) known = elim (Bool-cases (id == other)) [
  | inl e ↦
      ap (replay other (map resolved_event ids))
        (if-true _ known _ e ∙ after_event-resolved id known)
      ∙ replay-resolved other [] ids (resolve_known known)
      ∙ resolve_known-twice known (contains ids other)
      ∙ sym (ap (λ b. if b then resolve_known known else known) (if-true _ _ _ e))
  | inr e ↦
      ap (replay other (map resolved_event ids)) (if-false _ known _ e)
      ∙ replay-resolved other [] ids known
      ∙ sym (ap (λ b. if b then resolve_known known else known) (if-false _ _ _ e))
]
replay-resolved other (x ∷ events) ids known =
    replay-resolved other events ids (if x.alert_id == other then after_event x known else known)

module _ {Float : Type 0} where
  -- A change of the metrics alone.
  pub state_of-measured :
      (id : String) (latency loss : Option Float) (rows : List (Alert Float)) (other : String)
      → state_of (find_alert other (update_alert id (measured latency loss) rows))
        ≡ state_of (find_alert other rows)
  unfolding update_alert
  state_of-measured id latency loss [] other = refl
  state_of-measured id latency loss (r ∷ rows) other =
      let rest = state_of-measured id latency loss rows other in
      branch
        (λ x.
          state_of (find_alert other (x ∷ update_alert id (measured latency loss) rows))
          ≡ state_of (find_alert other (r ∷ rows)))
        (r.id == id)
        (λ _. elim (Bool-cases (r.id == other)) [
          | inl e ↦ ap state_of (if-true _ _ _ e) ∙ sym (ap state_of (if-true _ _ _ e))
          | inr e ↦ ap state_of (if-false _ _ _ e) ∙ rest ∙ sym (ap state_of (if-false _ _ _ e))
        ])
        (λ _. elim (Bool-cases (r.id == other)) [
          | inl e ↦ ap state_of (if-true _ _ _ e) ∙ sym (ap state_of (if-true _ _ _ e))
          | inr e ↦ ap state_of (if-false _ _ _ e) ∙ rest ∙ sym (ap state_of (if-false _ _ _ e))
        ])

  pub state_of-resolved :
      (now : ℕ) (other : String) (ids : List String) (rows : List (Alert Float))
      → state_of
          (find_alert other (map (λ a. if contains ids a.id then resolved_row now a else a) rows))
        ≡ (if contains ids other
            then resolve_known (state_of (find_alert other rows))
            else state_of (find_alert other rows))
  state_of-resolved now other ids [] = elim (Bool-cases (contains ids other)) [
    | inl e ↦ rw e refl
    | inr e ↦ rw e refl
  ]
  state_of-resolved now other ids (r ∷ rows) =
      let changed_row : Alert Float = if contains ids r.id then resolved_row now r else r in
      let same : changed_row.id ≡ r.id =
        branch (λ (x : Alert Float). x.id ≡ r.id) (contains ids r.id) (λ _. refl) (λ _. refl) in
      elim (Bool-cases (r.id == other)) [
        | inl e ↦
            ap state_of (if-true _ _ _ (ap (λ i. i == other) same ∙ e))
            ∙ state_of-row now ids r
            ∙ ap₂
                (λ i (o : Option (Alert Float)).
                  if contains ids i then resolve_known (state_of o) else state_of o)
                ((==_iff r.id other).0 e) (sym (if-true (some r) (find_alert other rows) _ e))
        | inr e ↦
            ap state_of (if-false _ _ _ (ap (λ i. i == other) same ∙ e))
            ∙ state_of-resolved now other ids rows
            ∙ ap
                (λ (o : Option (Alert Float)).
                  if contains ids other then resolve_known (state_of o) else state_of o)
                (sym (if-false (some r) (find_alert other rows) _ e))
      ]
    where
      state_of-row :
          (now : ℕ) (ids : List String) (a : Alert Float)
          → state_of (some (if contains ids a.id then resolved_row now a else a))
            ≡ (if contains ids a.id then resolve_known (state_of (some a)) else state_of (some a))
      state_of-row now ids a = elim (Bool-cases (contains ids a.id)) [
        | inl e ↦ rw e refl
        | inr e ↦ rw e refl
      ]
