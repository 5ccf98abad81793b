-- ===== src/Lifecycle/Row.antt =====
-- What a probe result does to the row of its target, described without the tables, and the proof
-- that `ProcessProbeResult` does that to the target's row and nothing to the others.
use icmp_mon.Base.{
  Bool-cases, ◌⊎◌, inr, inl, Option-cases, if-false, if-true, ℕ, ◌+◌, ◌≡◌, ◌≢◌, refl, sym, ap, ◌∙◌,
  subst, String, Option, none, some, Bool, true, false, if◌then◌else◌, leb, arith, branch,
}
use icmp_mon.Types.Target.{
  Target, MonitoringState, unset, unknown, active, standby, degraded, down, unresponsive, excluded,
  inactive, is_null,
}
use icmp_mon.Lifecycle.Lookup.{
  find_target-id, find_target-own, find_target-other, transition-own, transition-other,
}
use icmp_mon.Lifecycle.{
  process_found, Db, find_target, update_target, moved, responded, attempted,
  transition_target_state, update_target_last_response, committed, recovery,
  handle_successful_probe, handle_failed_probe, increment_discovery_attempts, process_probe_result,
  max_discovery_attempts, same_state,
}

-- The state after a response.
abbrev pub after_response : MonitoringState → MonitoringState
after_response unset = unset
after_response standby = standby
after_response _ = active

-- The row of a target that is not archived, after a probe.
unfoldable pub probed : ℕ → Bool → ℕ → Target → Target
probed now true time t =
    if same_state t.monitoring_state (after_response t.monitoring_state)
    then responded time t
    else moved now (after_response t.monitoring_state) (responded time t)
probed now false time t =
    if same_state t.monitoring_state unknown
    then if leb max_discovery_attempts (t.discovery_attempts + 1)
      then moved now unresponsive (attempted t)
      else attempted t
    else t

-- The row after a probe; an archived target is left alone.
unfoldable pub after_probe : ℕ → Bool → ℕ → Target → Target
after_probe now success time t = if is_null t.archived_at then probed now success time t else t

-- The switch against the description: it is silent exactly where the state is to stay.
Recovers : MonitoringState → Type 0
Recovers s =
    ((recovery s ≡ none) × (same_state s (after_response s) ≡ true))
    ⊎ ((r : String × String) × (recovery s ≡ some r)
        × (same_state s (after_response s) ≡ false)
        × (after_response s ≡ active)
        × (same_state s active ≡ false))

recovery-Recovers : (s : MonitoringState) → Recovers s
unfolding recovery Recovers
recovery-Recovers unset = inl (refl, refl)
recovery-Recovers unknown = inr (_, refl, refl, refl, refl)
recovery-Recovers active = inl (refl, refl)
recovery-Recovers standby = inl (refl, refl)
recovery-Recovers degraded = inr (_, refl, refl, refl, refl)
recovery-Recovers down = inr (_, refl, refl, refl, refl)
recovery-Recovers unresponsive = inr (_, refl, refl, refl, refl)
recovery-Recovers excluded = inr (_, refl, refl, refl, refl)
recovery-Recovers inactive = inr (_, refl, refl, refl, refl)

unknown-awake :
    (s : MonitoringState) → same_state s unknown ≡ true → same_state s unresponsive ≡ false
unknown-awake s h = ground (arith, h)

module _ (now time : ℕ) (db : Db) (t : Target) where
  touched : Db
  touched = update_target_last_response t.id time db

  success_with : Option (String × String) → Db
  success_with o = elim o [
    | none ↦ touched
    | some (reason, origin) ↦
        committed touched (transition_target_state now t.id active reason origin touched)
  ]

  success-own :
      find_target t.id db.targets ≡ some t
      → find_target t.id (handle_successful_probe now t time db).targets
        ≡ some (probed now true time t)
  unfolding handle_successful_probe update_target_last_response probed Recovers touched success_with
  success-own h =
      let s = t.monitoring_state in
      let found = find_target-own t.id (responded time) db.targets t (λ r. refl) h in
      elim (recovery-Recovers s) [
        | inl (e, same) ↦
            ap (λ o. find_target t.id (success_with o).targets) e
            ∙ found
            ∙ ap some (sym (if-true _ _ (same_state s (after_response s)) same))
        | inr (r, e, differs, to, away) ↦
            ap (λ o. find_target t.id (success_with o).targets) e
            ∙ transition-own now t.id active r.0 r.1 touched (responded time t) found
            ∙ ap some (
                if-false _ _ (same_state s active) away
                ∙ ap (λ x. moved now x (responded time t)) (sym to)
                ∙ sym (if-false _ _ (same_state s (after_response s)) differs))
      ]

  counted : Db
  counted = record db { targets = update_target t.id attempted db.targets }

  count_with : Option (ℕ × Db) → Db
  count_with o = elim o [
    | none ↦ db
    | some (attempts, d) ↦
        if leb max_discovery_attempts attempts
        then committed d (
            transition_target_state now t.id unresponsive "no response after discovery attempts"
              "discovery" d)
        else d
  ]

  abbrev found_attempts : Option Target → Option (ℕ × Db)
  found_attempts o = elim o [ none ↦ none | some r ↦ some (r.discovery_attempts + 1, counted) ]

  increment-found :
      find_target t.id db.targets ≡ some t
      → increment_discovery_attempts t.id db ≡ some (t.discovery_attempts + 1, counted)
  unfolding increment_discovery_attempts counted
  increment-found h = ap found_attempts h

  -- A failed probe of a target that is still being discovered.
  counts-own :
      same_state t.monitoring_state unknown ≡ true
      → find_target t.id db.targets ≡ some t
      → find_target t.id (count_with (increment_discovery_attempts t.id db)).targets
        ≡ some (
            if leb max_discovery_attempts (t.discovery_attempts + 1)
            then moved now unresponsive (attempted t)
            else attempted t)
  unfolding count_with counted
  counts-own u h =
      let limit = leb max_discovery_attempts (t.discovery_attempts + 1) in
      let found = find_target-own t.id attempted db.targets t (λ r. refl) h in
      ap (λ o. find_target t.id (count_with o).targets) (increment-found h)
      ∙ elim (Bool-cases limit) [
        | inl e ↦
            ap (λ (d : Db). find_target t.id d.targets) (if-true _ _ limit e)
            ∙ transition-own now t.id unresponsive _ _ counted (attempted t) found
            ∙ ap some (
                if-false _ _ (same_state t.monitoring_state unresponsive)
                  (unknown-awake t.monitoring_state u)
                ∙ sym (if-true _ _ limit e))
        | inr e ↦
            ap (λ (d : Db). find_target t.id d.targets) (if-false _ _ limit e)
            ∙ found
            ∙ ap some (sym (if-false _ _ limit e))
      ]

  failure-own :
      find_target t.id db.targets ≡ some t
      → find_target t.id (handle_failed_probe now t db).targets ≡ some (probed now false time t)
  unfolding handle_failed_probe probed count_with
  failure-own h =
      let u = same_state t.monitoring_state unknown in
      elim (Bool-cases u) [
        | inl e ↦
            ap (λ d. find_target t.id d.targets)
              (if-true (count_with (increment_discovery_attempts t.id db)) db u e)
            ∙ counts-own e h
            ∙ ap some (sym (if-true _ _ u e))
        | inr e ↦
            ap (λ d. find_target t.id d.targets)
              (if-false (count_with (increment_discovery_attempts t.id db)) db u e)
            ∙ h
            ∙ ap some (sym (if-false _ _ u e))
      ]

  success-other :
      (other : String)
      → other ≢ t.id
      → find_target other (handle_successful_probe now t time db).targets
        ≡ find_target other db.targets
  unfolding handle_successful_probe update_target_last_response touched success_with
  success-other other ne =
      let rest = find_target-other t.id other (responded time) db.targets (λ r. refl) ne in
      elim (Option-cases (recovery t.monitoring_state)) [
        | inl e ↦ ap (λ o. find_target other (success_with o).targets) e ∙ rest
        | inr (r, e) ↦
            ap (λ o. find_target other (success_with o).targets) e
            ∙ transition-other now t.id other active r.0 r.1 touched ne
            ∙ rest
      ]

  failure-other :
      (other : String)
      → other ≢ t.id
      → find_target other (handle_failed_probe now t db).targets ≡ find_target other db.targets
  unfolding handle_failed_probe increment_discovery_attempts count_with counted
  failure-other other ne =
      let rest = find_target-other t.id other attempted db.targets (λ r. refl) ne in
      branch (λ (d : Db). find_target other d.targets ≡ find_target other db.targets)
        (same_state t.monitoring_state unknown)
        (λ _. elim (Option-cases (find_target t.id db.targets)) [
          | inl e ↦ ap (λ o. find_target other (count_with (found_attempts o)).targets) e
          | inr (r, e) ↦
              ap (λ o. find_target other (count_with (found_attempts o)).targets) e
              ∙ branch (λ (d : Db). find_target other d.targets ≡ find_target other db.targets)
                  (leb max_discovery_attempts (r.discovery_attempts + 1))
                  (λ _. transition-other now t.id other unresponsive _ _ counted ne ∙ rest)
                  (λ _. rest)
        ])
        (λ _. refl)

process_with : ℕ → Bool → ℕ → Db → Option Target → Db
process_with now success time db o = elim o [
  | none ↦ db
  | some t ↦ process_found now success time db t
]

found-own :
    (now : ℕ) (success : Bool) (time : ℕ) (db : Db) (t : Target)
    → find_target t.id db.targets ≡ some t
    → find_target t.id (process_found now success time db t).targets
      ≡ some (after_probe now success time t)
unfolding after_probe
found-own now true time db t h = elim (Bool-cases (is_null t.archived_at)) [
  | inl e ↦
      ap (λ (d : Db). find_target t.id d.targets) (if-true _ _ _ e)
      ∙ success-own now time db t h
      ∙ ap some (sym (if-true _ _ _ e))
  | inr e ↦
      ap (λ (d : Db). find_target t.id d.targets) (if-false _ _ _ e)
      ∙ h
      ∙ ap some (sym (if-false _ _ _ e))
]
found-own now false time db t h = elim (Bool-cases (is_null t.archived_at)) [
  | inl e ↦
      ap (λ (d : Db). find_target t.id d.targets) (if-true _ _ _ e)
      ∙ failure-own now time db t h
      ∙ ap some (sym (if-true _ _ _ e))
  | inr e ↦
      ap (λ (d : Db). find_target t.id d.targets) (if-false _ _ _ e)
      ∙ h
      ∙ ap some (sym (if-false _ _ _ e))
]

-- A probe result changes the row of its target as `after_probe` says, whatever the row's state.
pub process_probe_result-row :
    (now : ℕ) (id : String) (success : Bool) (time : ℕ) (db : Db) (t : Target)
    → find_target id db.targets ≡ some t
    → find_target id (process_probe_result now id success time db).targets
      ≡ some (after_probe now success time t)
unfolding process_probe_result process_with
process_probe_result-row now id success time db t h =
    let same = find_target-id id db.targets t h in
    ap (λ o. find_target id (process_with now success time db o).targets) h
    ∙ subst
        (λ i.
          find_target i (process_found now success time db t).targets
          ≡ some (after_probe now success time t))
        same
        (found-own now success time db t
          (subst (λ i. find_target i db.targets ≡ some t) (sym same) h))

found-other :
    (now : ℕ) (success : Bool) (time : ℕ) (db : Db) (t : Target) (other : String)
    → other ≢ t.id
    → find_target other (process_found now success time db t).targets ≡ find_target other db.targets
found-other now true time db t other ne =
    branch (λ (d : Db). find_target other d.targets ≡ find_target other db.targets)
      (is_null t.archived_at) (λ _. success-other now time db t other ne) (λ _. refl)
found-other now false time db t other ne =
    branch (λ (d : Db). find_target other d.targets ≡ find_target other db.targets)
      (is_null t.archived_at) (λ _. failure-other now time db t other ne) (λ _. refl)

-- A probe result leaves the row of every other target alone.
pub process_probe_result-other :
    (now : ℕ) (id : String) (success : Bool) (time : ℕ) (db : Db) (other : String)
    → other ≢ id
    → find_target other (process_probe_result now id success time db).targets
      ≡ find_target other db.targets
unfolding process_probe_result process_with
process_probe_result-other now id success time db other ne =
    elim (Option-cases (find_target id db.targets)) [
      | inl e ↦ ap (λ o. find_target other (process_with now success time db o).targets) e
      | inr (t, e) ↦
          ap (λ o. find_target other (process_with now success time db o).targets) e
          ∙ found-other now success time db t other (λ q. ne (q ∙ find_target-id id db.targets t e))
    ]
