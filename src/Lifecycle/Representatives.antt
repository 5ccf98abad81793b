-- ===== src/Lifecycle/Representatives.antt =====
-- The representatives of a subnet: the election, and the failover to a standby target.
use icmp_mon.Base.{
  none, if-false, inr, if-true, inl, Bool-cases, ℕ, ◌≡◌, ◌≢◌, refl, sym, ap, ◌∙◌, String, List, [],
  ◌∷◌, map, some, Bool, true, false, if◌then◌else◌, arith, All, branch, ==_iff, ◌==◌, ◌&&◌,
}
use icmp_mon.Types.Target.{Target, active}
use icmp_mon.Lifecycle.{Db, find_target, update_target}
use icmp_mon.Lifecycle.Worker.{
  elect_representative, in_subnet, promote_standby_to_representative, oldest_standby,
}
use icmp_mon.Lifecycle.Lookup.{find_target-own, find_target-other}

and-false : (b : Bool) → (b && false) ≡ false
and-false b = ground arith

false-true : false ≢ true
false-true = ground arith

-- The flag of a representative in the subnet is one of the row of this id.
abbrev pub OnlyRepresentative : String → String → Target → Type 0
OnlyRepresentative subnet id r = (in_subnet subnet r && r.is_representative) ≡ true → r.id ≡ id

abbrev cleared : String → Target → Target
cleared subnet t =
    if in_subnet subnet t && t.is_representative then record t { is_representative = false } else t

abbrev elected : ℕ → Target → Target
elected now t = record t {
  is_representative = true;
  monitoring_state = active;
  state_changed_at = now;
}

cleared-off :
    (subnet : String) (r : Target)
    → (in_subnet subnet (cleared subnet r) && (cleared subnet r).is_representative) ≡ false
cleared-off subnet r = elim (Bool-cases (in_subnet subnet r && r.is_representative)) [
  | inl e ↦
      ap (λ (x : Target). in_subnet subnet x && x.is_representative) (if-true _ _ _ e)
      ∙ and-false (in_subnet subnet r)
  | inr e ↦ ap (λ (x : Target). in_subnet subnet x && x.is_representative) (if-false _ _ _ e) ∙ e
]

elect-rows :
    (now : ℕ) (subnet id : String) (rows : List Target)
    → All
        (OnlyRepresentative subnet id)
        (update_target id (elected now) (map (cleared subnet) rows))
unfolding update_target
elect-rows now subnet id [] = tt
elect-rows now subnet id (r ∷ rows) = (
  branch (OnlyRepresentative subnet id) ((cleared subnet r).id == id)
      (λ e _. (==_iff (cleared subnet r).id id).0 e)
      (λ _ h. absurd (false-true (sym (cleared-off subnet r) ∙ h))),
  elect-rows now subnet id rows,
)

cleared-id : (subnet : String) (r : Target) → (cleared subnet r).id ≡ r.id
cleared-id subnet r =
    branch (λ (x : Target). x.id ≡ r.id) (in_subnet subnet r && r.is_representative) (λ _. refl)
      (λ _. refl)

find_target-cleared :
    (subnet id : String) (rows : List Target) (t : Target)
    → find_target id rows ≡ some t
    → find_target id (map (cleared subnet) rows) ≡ some (cleared subnet t)
find_target-cleared subnet id [] t h = ground arith
find_target-cleared subnet id (r ∷ rows) t h = elim (Bool-cases (r.id == id)) [
  | inl e ↦
      if-true (some (cleared subnet r)) _ ((cleared subnet r).id == id)
        (ap (λ i. i == id) (cleared-id subnet r) ∙ e)
      ∙ ap (λ o. elim o [ none ↦ none | some x ↦ some (cleared subnet x) ])
          (sym (if-true (some r) _ (r.id == id) e) ∙ h)
  | inr e ↦
      if-false (some (cleared subnet r)) _ ((cleared subnet r).id == id)
        (ap (λ i. i == id) (cleared-id subnet r) ∙ e)
      ∙ find_target-cleared subnet id rows t (sym (if-false (some r) _ (r.id == id) e) ∙ h)
]

-- After an election each representative of the subnet has the id of the elected target, and the row
-- that was found under this id, if there was one, is found as an active representative, its subnet
-- kept.
pub elect_representative-only :
    (now : ℕ) (subnet id : String) (db : Db)
    → All (OnlyRepresentative subnet id) (elect_representative now subnet id db).targets
      × ((t : Target)
          → find_target id db.targets ≡ some t
          → (u : Target) × (find_target id (elect_representative now subnet id db).targets ≡ some u)
            × (u.is_representative ≡ true)
            × (u.monitoring_state ≡ active)
            × (u.subnet_id ≡ t.subnet_id))
unfolding elect_representative
elect_representative-only now subnet id db = (
  elect-rows now subnet id db.targets,
  λ t h. (
    elected now (cleared subnet t),
    find_target-own id (elected now) (map (cleared subnet) db.targets) (cleared subnet t)
        (λ r. refl) (find_target-cleared subnet id db.targets t h),
    refl,
    refl,
    branch (λ (x : Target). x.subnet_id ≡ t.subnet_id) (in_subnet subnet t && t.is_representative)
        (λ _. refl) (λ _. refl),
  ),
)

-- A failover promotes the standby target to a representative and leaves the failed representative's
-- row as it is, so that the subnet has two representatives.
pub promote-two :
    (ip_before : String → String → Bool) (now : ℕ) (subnet : String) (db : Db) (c t : Target)
    → oldest_standby ip_before subnet db ≡ some c
    → find_target c.id db.targets ≡ some c
    → find_target t.id db.targets ≡ some t
    → t.id ≢ c.id
    → (d : Db) × (u : Target) × (promote_standby_to_representative ip_before now subnet db
        ≡ some (c, d))
      × (find_target c.id d.targets ≡ some u)
      × (u.is_representative ≡ true)
      × (find_target t.id d.targets ≡ some t)
unfolding promote_standby_to_representative
promote-two ip_before now subnet db c t h found failed ne =
    let promoted : Target → Target = λ r. record r {
      is_representative = true;
      monitoring_state = active;
      state_changed_at = now;
    } in
    (
      record db { targets = update_target c.id promoted db.targets },
      promoted c,
      rw (h, promote_standby_to_representative) refl,
      find_target-own c.id promoted db.targets c (λ r. refl) found,
      refl,
      find_target-other c.id t.id promoted db.targets (λ r. refl) ne ∙ failed,
    )
