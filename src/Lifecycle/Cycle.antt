-- ===== src/Lifecycle/Cycle.antt =====
-- The state worker's cycle keeps what `Invariant` states of the tables.
use icmp_mon.Base.{
  take, some-inj, [], ◌∷◌, inr, sym, subst, inl, false, All, List, Option-cases, not, In, ◌≢◌,
  arith, ◌&&◌, true, map, ◌≡◌, Bool, ℕ, refl, String, Option, none, some, if◌then◌else◌, branch,
  any,
}
use icmp_mon.Types.Target.{is_standby, Target, is_customer}
use icmp_mon.Lifecycle.{
  unresponsive, find_target, down, transition_target_state, moved, update_target, same_state,
  transition_found, committed, is_null, excluded, is_active, standby, MonitoringState, Db,
}
use icmp_mon.Lifecycle.Worker.{
  targets_for_excluded, targets_for_unresponsive, needs_smart_recheck, set_target_tier, each,
  Config, transition_to_excluded, goes_down, transition_to_unresponsive, targets_for_smart_recheck,
  queue_smart_recheck, in_subnet, run_once, promote_standby_to_representative, targets_for_down,
  take_down, transition_to_down, handle_representative_failure, oldest_standby, needs_baseline,
  targets_for_baseline, establish_baselines, set_target_baseline, elect_representative,
  transition_target_to_standby, elect_representative_if_needed, establish_baseline, represents,
}
use icmp_mon.Lifecycle.Invariant.{Good-transition, Sound, Good, Good-untouched}
use icmp_mon.Lifecycle.Rows.{
  transitions-Good, promote-Good, same-row, keep-Chosen, Chosen, All-order_by, cleared-keeps, awake,
  Fails-map, All-map, cleared, each-Good, elected, Fails, Fails-update, waits, elect-Good,
  standby-Good,
}

based-Sound :
    (now : ℕ) (r : Target) → Sound r → Sound (record r { baseline_established_at = some now })
based-Sound now r s = record { down_baseline = λ _. refl; review_excluded = s.review_excluded }

choose-Good :
    {names : List String} (now : ℕ) (t : Target) (subnet : Option String) (db : Db)
    → Fails waits t db
    → Good names db
    → Good names (elim subnet [
      | none ↦ db
      | some s ↦
          if any (represents s) db.targets
          then transition_target_to_standby now t.id db
          else elect_representative now s t.id db
    ])
choose-Good now t none db q g = g
choose-Good now t (some s) db q g =
    branch (Good _) (any (represents s) db.targets) (λ _. standby-Good now t db q g)
      (λ _. elect-Good now s t db q g)

establish-Good :
    {names : List String} (now : ℕ) (t : Target) (db : Db)
    → Fails waits t db
    → Good names db
    → Good names (establish_baseline now t db)
unfolding establish_baseline set_target_baseline elect_representative_if_needed
establish-Good now t db q g =
    let based = set_target_baseline now t.id db in
    let fine =
      Good-untouched t.id (λ r. record r { baseline_established_at = some now }) db (λ r. refl)
        (based-Sound now) g in
    branch (Good _) (is_customer t.ip_type)
      (λ _.
        choose-Good now t t.subnet_id based
          (Fails-update waits t t.id (λ r. record r { baseline_established_at = some now }) db
            (λ r. (refl, refl)) q)
          fine)
      (λ _. fine)

choose-Fails :
    (now : ℕ) (t u : Target) (subnet : Option String) (db : Db)
    → Fails waits u db
    → Fails waits u (elim subnet [
      | none ↦ db
      | some s ↦
          if any (represents s) db.targets
          then transition_target_to_standby now t.id db
          else elect_representative now s t.id db
    ])
unfolding transition_target_to_standby elect_representative
choose-Fails now t u none db q = q
choose-Fails now t u (some s) db q =
    branch (Fails waits u) (any (represents s) db.targets)
      (λ _.
        Fails-update waits u t.id
          (λ r. record r { monitoring_state = standby; state_changed_at = now }) db
          (λ r. (refl, refl)) q)
      (λ _.
        Fails-update waits u t.id (elected now) (record db { targets = map (cleared s) db.targets })
          (λ r. (refl, refl)) (Fails-map waits u (cleared s) db.targets (cleared-keeps s) q))

establish-Fails :
    (now : ℕ) (t u : Target) (db : Db)
    → Fails waits u db
    → Fails waits u (establish_baseline now t db)
unfolding establish_baseline set_target_baseline elect_representative_if_needed
establish-Fails now t u db q =
    let fine =
      Fails-update waits u t.id (λ r. record r { baseline_established_at = some now }) db
        (λ r. (refl, refl)) q in
    branch (Fails waits u) (is_customer t.ip_type)
      (λ _. choose-Fails now t u t.subnet_id (set_target_baseline now t.id db) fine) (λ _. fine)

active-excluded : (s : MonitoringState) → is_active s ≡ true → s ≢ excluded
active-excluded s h e = ground (arith, h, e)

and-left : (a b : Bool) → (a && b) ≡ true → a ≡ true
and-left a b h = ground (arith, h)

baselines-Good :
    {names : List String} (now threshold : ℕ) (db : Db)
    → Good names db
    → Good names (establish_baselines now threshold db)
unfolding establish_baselines targets_for_baseline
baselines-Good now threshold db g =
    each-Good (Fails waits) (establish_baseline now) (targets_for_baseline now threshold db) db
      (λ t d q. establish-Good now t d q) (λ t u d. establish-Fails now t u d)
      (All-map
        (λ t (p, m).
          awake t db g m
            (active-excluded t.monitoring_state (and-left _ _ (and-left _ _ (and-left _ _ p)))))
        _
        (All-order_by (Chosen (needs_baseline now threshold) db.targets) _ _
          (keep-Chosen (needs_baseline now threshold) db.targets db.targets (λ t m. m))))
      g

-- The rows of an id have a baseline.
abbrev bare : Target → Bool
bare r = is_null r.baseline_established_at

Fails-transition :
    (now : ℕ) (u : Target) (id : String) (s : MonitoringState) (reason origin : String) (db : Db)
    (o : Option Target)
    → Fails bare u db
    → Fails bare u (
        committed db
          (elim o [ none ↦ none | some t ↦ some (transition_found now id s reason origin db t) ]))
Fails-transition now u id s reason origin db none q = q
Fails-transition now u id s reason origin db (some t) q =
    branch (Fails bare u) (same_state t.monitoring_state s) (λ _. q)
      (λ _. Fails-update bare u id (moved now s) db (λ r. (refl, refl)) q)

and-right : (a b : Bool) → (a && b) ≡ true → b ≡ true
and-right a b h = ground (arith, h)

standby-excluded : (s : MonitoringState) → is_standby s ≡ true → s ≢ excluded
standby-excluded s h e = ground (arith, h, e)

head-All :
    (P : Target → Type 0) (rows : List Target) (c : Target)
    → All P rows
    → ◌≡◌ {A = Option Target} (elim rows [ [] ↦ none | t ∷ _ ↦ some t ]) (some c)
    → P c
head-All P [] c h e = ground (arith, e)
head-All P (r ∷ rows) c (h, _) e = subst P (some-inj e) h

-- A loop's round goes on from the transition, if there was one.
round-keeps :
    (P : Db → Type 0) (db : Db) (o : Option Db) (rep : Bool) (f : Db → Db)
    → P (committed db o)
    → ((d : Db) → P d → P (f d))
    → P (elim o [ none ↦ db | some d ↦ if rep then f d else d ])
round-keeps P db none rep f h k = h
round-keeps P db (some d) rep f h k = branch P rep (λ _. k d h) (λ _. h)

abbrev promoted_with : ℕ → Db → Option Target → Option (Target × Db)
promoted_with now db o = elim o [
  | none ↦ none
  | some t ↦ some (t, record db { targets = update_target t.id (elected now) db.targets })
]

abbrev db_of : Db → Option (Target × Db) → Db
db_of db o = elim o [ none ↦ db | some (promoted, d) ↦ d ]

not-true : (b : Bool) → not b ≡ true → b ≡ false
not-true b h = ground (arith, h)

recheck-Good : {names : List String} (db : Db) → Good names db → Good names (queue_smart_recheck db)
unfolding queue_smart_recheck targets_for_smart_recheck
recheck-Good {names} db g =
    branch recheck_keeps (any (needs_smart_recheck db) db.targets) (λ _. g) (λ _. g)
  where
    recheck_keeps : Option (List Target) → Type 0
    recheck_keeps o = Good names (elim o [
      | none ↦ db
      | some ts ↦ each (λ t. set_target_tier t.id "smart_recheck") (take 1000 ts) db
    ])

module _ (ip_before : String → String → Bool) where
  failure-in :
      (P : Db → Type 0) (now : ℕ) (subnet : Option String) (db : Db)
      → ((s : String) (c : Target)
          → oldest_standby ip_before s db ≡ some c
          → P (record db { targets = update_target c.id (elected now) db.targets }))
      → P db
      → P (elim subnet [
        | none ↦ db
        | some s ↦ db_of db (promoted_with now db (oldest_standby ip_before s db))
      ])
  failure-in P now none db k h = h
  failure-in P now (some s) db k h = elim (Option-cases (oldest_standby ip_before s db)) [
    | inl e ↦ subst (λ o. P (db_of db (promoted_with now db o))) (sym e) h
    | inr (c, e) ↦ subst (λ o. P (db_of db (promoted_with now db o))) (sym e) (k s c e)
  ]

  -- A promotion, with any property that it keeps.
  failure-keeps :
      (P : Db → Type 0) (now : ℕ) (t : Target) (db : Db)
      → ((s : String) (c : Target)
          → oldest_standby ip_before s db ≡ some c
          → P (record db { targets = update_target c.id (elected now) db.targets }))
      → P db
      → P (handle_representative_failure ip_before now t db)
  unfolding handle_representative_failure promote_standby_to_representative
  failure-keeps P now t db k h = failure-in P now t.subnet_id db k h

  oldest_standby-In :
      (s : String) (db : Db) (c : Target)
      → oldest_standby ip_before s db ≡ some c
      → In c db.targets × (c.monitoring_state ≢ excluded)
  unfolding oldest_standby
  oldest_standby-In s db c h =
      let chosen =
        head-All (Chosen test db.targets) _ c
          (All-order_by (Chosen test db.targets) _ _
            (keep-Chosen test db.targets db.targets (λ t m. m)))
          h in
      (chosen.1, standby-excluded c.monitoring_state (and-right _ _ (and-left _ _ chosen.0)))
    where
      test : Target → Bool
      test t = in_subnet s t && is_standby t.monitoring_state && is_null t.archived_at

  take_down-Good :
      {names : List String} (now : ℕ) (t : Target) (db : Db)
      → Fails bare t db
      → Good names db
      → Good names (take_down ip_before now t db)
  unfolding take_down
  take_down-Good now t db q g =
      round-keeps (Good _) db _ t.is_representative (handle_representative_failure ip_before now t)
        (Good-transition now t.id down "no probe response" "state_worker" db
          (All-map (λ r h _. h) db.targets q) g)
        (λ d fine.
          failure-keeps (Good _) now t d
            (λ s c e. let (m, ne) = oldest_standby-In s d c e in promote-Good now c d m ne fine)
            fine)

  take_down-Fails :
      (now : ℕ) (t u : Target) (db : Db)
      → Fails bare u db
      → Fails bare u (take_down ip_before now t db)
  unfolding take_down transition_target_state
  take_down-Fails now t u db q =
      round-keeps (Fails bare u) db _ t.is_representative
        (handle_representative_failure ip_before now t)
        (Fails-transition now u t.id down "no probe response" "state_worker" db
          (find_target t.id db.targets) q)
        (λ d fine.
          failure-keeps (Fails bare u) now t d
            (λ s c e. Fails-update bare u c.id (elected now) d (λ r. (refl, refl)) fine) fine)

  down-Good :
      {names : List String} (now threshold : ℕ) (db : Db)
      → Good names db
      → Good names (transition_to_down ip_before now threshold db)
  unfolding transition_to_down targets_for_down
  down-Good now threshold db g =
      each-Good (Fails bare) (take_down ip_before now) (targets_for_down now threshold db) db
        (λ t d q. take_down-Good now t d q) (λ t u d. take_down-Fails now t u d)
        (All-map
          (λ t (p, m).
            same-row (λ r. bare r ≡ false) t db.targets g.unique m
              (not-true _ (and-right _ _ (and-left _ _ p))))
          _
          (All-order_by (Chosen (goes_down now threshold) db.targets) _ _
            (keep-Chosen (goes_down now threshold) db.targets db.targets (λ t m. m))))
        g

silent-Good :
    {names : List String} (now threshold : ℕ) (db : Db)
    → Good names db
    → Good names (transition_to_unresponsive now threshold db)
unfolding transition_to_unresponsive
silent-Good now threshold db =
    transitions-Good now unresponsive "no probe response (no baseline established)"
      (targets_for_unresponsive now threshold db) db (λ e. ground (arith, e))

excluded-Good :
    {names : List String} (now threshold : ℕ) (db : Db)
    → Good names db
    → Good names (transition_to_excluded now threshold db)
unfolding transition_to_excluded
excluded-Good now threshold db =
    transitions-Good now excluded "unresponsive" (targets_for_excluded now threshold db) db
      (λ e. ground (arith, e))

-- A cycle of the state worker keeps the tables good: the ids of the rows are those that they were, in
-- the same order and distinct, a target that is down had a baseline, and one that waits for review is
-- excluded.
pub run_once-Good :
    {names : List String} (ip_before : String → String → Bool) (config : Config) (now : ℕ) (db : Db)
    → Good names db
    → Good names (run_once ip_before config now db)
unfolding run_once
run_once-Good ip_before config now db g =
    let done = excluded-Good now config.excluded_threshold _ (
      silent-Good now config.unresponsive_threshold _ (
        down-Good ip_before now config.down_threshold _
          (baselines-Good now config.baseline_threshold db g))) in
    branch (Good _) config.smart_recheck_enabled (λ _. recheck-Good _ done) (λ _. done)
