-- ===== src/Alerts/Lookup.antt =====
-- The alert that a lookup by id finds, after a change or an insertion.
use icmp_mon.Base.{
  inr, inl, Bool-cases, ◌≡◌, ◌≢◌, refl, sym, ap, ◌∙◌, String, List, [], ◌∷◌, ◌++◌, Option, none,
  some, if◌then◌else◌, ◌==◌, ==_iff, ==-false, branch, if-true, if-false, some-inj, arith,
}
use icmp_mon.Alerts.{Alert, find_alert, update_alert}

module _ {Float : Type 0} where
  pub find_alert-id :
      (id : String) (rows : List (Alert Float)) (a : Alert Float)
      → find_alert id rows ≡ some a
      → a.id ≡ id
  find_alert-id id [] a h = ground arith
  find_alert-id id (r ∷ rows) a h = elim (Bool-cases (r.id == id)) [
    | inl e ↦
        sym (ap (λ (x : Alert Float). x.id) (some-inj (sym (if-true _ _ _ e) ∙ h)))
        ∙ (==_iff r.id id).0 e
    | inr e ↦ find_alert-id id rows a (sym (if-false _ _ _ e) ∙ h)
  ]

  pub find_alert-own :
      (id : String) (f : Alert Float → Alert Float) (rows : List (Alert Float)) (a : Alert Float)
      → ((r : Alert Float) → (f r).id ≡ r.id)
      → find_alert id rows ≡ some a
      → find_alert id (update_alert id f rows) ≡ some (f a)
  unfolding update_alert
  find_alert-own id f [] a k h = ground arith
  find_alert-own id f (r ∷ rows) a k h =
      branch (λ x. find_alert id (x ∷ update_alert id f rows) ≡ some (f a)) (r.id == id)
        (λ e.
          if-true _ _ ((f r).id == id) (ap (λ i. i == id) (k r) ∙ e)
          ∙ ap (λ x. some (f x)) (some-inj (sym (if-true _ _ (r.id == id) e) ∙ h)))
        (λ e.
          if-false _ _ (r.id == id) e
          ∙ find_alert-own id f rows a k (sym (if-false _ _ (r.id == id) e) ∙ h))

  pub find_alert-other :
      (id other : String) (f : Alert Float → Alert Float) (rows : List (Alert Float))
      → ((r : Alert Float) → (f r).id ≡ r.id)
      → other ≢ id
      → find_alert other (update_alert id f rows) ≡ find_alert other rows
  unfolding update_alert
  find_alert-other id other f [] k ne = refl
  find_alert-other id other f (r ∷ rows) k ne =
      let rest = find_alert-other id other f rows k ne in
      branch (λ x. find_alert other (x ∷ update_alert id f rows) ≡ find_alert other (r ∷ rows))
        (r.id == id)
        (λ e.
          let differs = ==-false r.id other (λ o. ne (sym o ∙ (==_iff r.id id).0 e)) in
          if-false _ _ ((f r).id == other) (ap (λ i. i == other) (k r) ∙ differs)
          ∙ rest
          ∙ sym (if-false _ _ (r.id == other) differs))
        (λ _. ap (λ x. if r.id == other then some r else x) rest)

  -- A new row is found last.
  pub find_alert-append :
      (id : String) (rows : List (Alert Float)) (a : Alert Float)
      → find_alert id (rows ++ (a ∷ []))
        ≡ elim (find_alert id rows) [ some r ↦ some r | none ↦ if a.id == id then some a else none ]
  find_alert-append id [] a = refl
  find_alert-append id (r ∷ rows) a = elim (Bool-cases (r.id == id)) [
    | inl e ↦ if-true _ _ _ e ∙ sym (ap or_new (if-true _ _ _ e))
    | inr e ↦ if-false _ _ _ e ∙ find_alert-append id rows a ∙ sym (ap or_new (if-false _ _ _ e))
  ]
    where
      or_new : Option (Alert Float) → Option (Alert Float)
      or_new o = elim o [ some r ↦ some r | none ↦ if a.id == id then some a else none ]
