-- ===== src/Lifecycle/Lookup.antt =====
-- The row that a lookup by id finds, after a statement or a transition on the rows of an id.
use icmp_mon.Base.{
  inr, inl, Option-cases, if-false, some-inj, if-true, ==-false, ℕ, ◌≡◌, ◌≢◌, refl, sym, ap, ◌∙◌,
  String, List, [], ◌∷◌, none, some, if◌then◌else◌, ◌==◌, ==_iff, arith, branch,
}
use icmp_mon.Types.Target.{Target, MonitoringState}
use icmp_mon.Lifecycle.{
  transition_found, Db, find_target, update_target, moved, transition_target_state, committed,
  same_state,
}

-- A row that is found carries the id.
pub find_target-id :
    (id : String) (rows : List Target) (t : Target) → find_target id rows ≡ some t → t.id ≡ id
find_target-id id [] t h = ground arith
find_target-id id (r ∷ rows) t h = ground (arith, h, ==_iff r.id id, find_target-id id rows t)

pub find_target-own :
    (id : String) (f : Target → Target) (rows : List Target) (t : Target)
    → ((r : Target) → (f r).id ≡ r.id)
    → find_target id rows ≡ some t
    → find_target id (update_target id f rows) ≡ some (f t)
unfolding update_target
find_target-own id f [] t k h = ground arith
find_target-own id f (r ∷ rows) t k h =
    branch
      (λ x. (if x.id == id then some x else find_target id (update_target id f rows)) ≡ some (f t))
      (r.id == id)
      (λ e.
        if-true _ _ ((f r).id == id) (ap (λ i. i == id) (k r) ∙ e)
        ∙ ap (λ x. some (f x)) (some-inj (sym (if-true _ _ (r.id == id) e) ∙ h)))
      (λ e.
        if-false _ _ (r.id == id) e
        ∙ find_target-own id f rows t k (sym (if-false _ _ (r.id == id) e) ∙ h))

pub find_target-other :
    (id other : String) (f : Target → Target) (rows : List Target)
    → ((r : Target) → (f r).id ≡ r.id)
    → other ≢ id
    → find_target other (update_target id f rows) ≡ find_target other rows
unfolding update_target
find_target-other id other f [] k ne = refl
find_target-other id other f (r ∷ rows) k ne =
    let rest = find_target-other id other f rows k ne in
    branch
      (λ x.
        (if x.id == other then some x else find_target other (update_target id f rows))
        ≡ find_target other (r ∷ rows))
      (r.id == id)
      (λ e.
        let differs = ==-false r.id other (λ o. ne (sym o ∙ (==_iff r.id id).0 e)) in
        if-false _ _ ((f r).id == other) (ap (λ i. i == other) (k r) ∙ differs)
        ∙ rest
        ∙ sym (if-false _ _ (r.id == other) differs))
      (λ e. ap (λ x. if r.id == other then some r else x) rest)

-- What a transition leaves where the row is there.
pub transition-found :
    (now : ℕ) (id : String) (state : MonitoringState) (reason origin : String) (db : Db)
    (t : Target)
    → find_target id db.targets ≡ some t
    → committed db (transition_target_state now id state reason origin db)
      ≡ transition_found now id state reason origin db t
unfolding transition_target_state
transition-found now id state reason origin db t h =
    ap
      (λ o.
        committed db (elim o [
          | none ↦ none
          | some r ↦ some (transition_found now id state reason origin db r)
        ]))
      h

-- The target's row after a transition.
pub transition-own :
    (now : ℕ) (id : String) (state : MonitoringState) (reason origin : String) (db : Db)
    (t : Target)
    → find_target id db.targets ≡ some t
    → find_target id (committed db (transition_target_state now id state reason origin db)).targets
      ≡ some (if same_state t.monitoring_state state then t else moved now state t)
transition-own now id state reason origin db t h =
    ap (λ d. find_target id d.targets) (transition-found now id state reason origin db t h)
    ∙ branch
        (λ (d : Db).
          find_target id d.targets
          ≡ some (if same_state t.monitoring_state state then t else moved now state t))
        (same_state t.monitoring_state state)
        (λ e. h ∙ ap some (sym (if-true _ _ (same_state t.monitoring_state state) e)))
        (λ e.
          find_target-own id (moved now state) db.targets t (λ r. refl) h
          ∙ ap some (sym (if-false _ _ (same_state t.monitoring_state state) e)))

-- The rows of other targets after a transition.
pub transition-other :
    (now : ℕ) (id other : String) (state : MonitoringState) (reason origin : String) (db : Db)
    → other ≢ id
    → find_target other
        (committed db (transition_target_state now id state reason origin db)).targets
      ≡ find_target other db.targets
unfolding transition_target_state
transition-other now id other state reason origin db ne =
    elim (Option-cases (find_target id db.targets)) [
      | inl e ↦
          ap
            (λ o.
              find_target other
                (committed db (elim o [
                  | none ↦ none
                  | some r ↦ some (transition_found now id state reason origin db r)
                ])).targets)
            e
      | inr (t, e) ↦
          ap (λ d. find_target other d.targets) (transition-found now id state reason origin db t e)
          ∙ branch (λ (d : Db). find_target other d.targets ≡ find_target other db.targets)
              (same_state t.monitoring_state state) (λ _. refl)
              (λ _. find_target-other id other (moved now state) db.targets (λ r. refl) ne)
    ]
