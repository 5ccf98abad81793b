-- ===== src/Lifecycle/Invariant.antt =====
-- What the tables keep true under probe results. Cycle continues with the state worker.
use icmp_mon.Base.{
  ◌∙◌, leb, Option-cases, ap₂, ℕ, ◌+◌, ◌≡◌, ◌≢◌, refl, sym, ap, subst, String, List, [], ◌∷◌, map,
  Option, none, some, Bool, true, false, if◌then◌else◌, arith, All, Distinct, inl, inr, branch,
  ==_iff, ◌==◌,
}
use icmp_mon.Types.Target.{
  TargetStateTransition, Target, MonitoringState, unknown, unresponsive, excluded, down, active,
  is_null, is_excluded,
}
use icmp_mon.Lifecycle.{
  Result, process_found, handle_successful_probe, handle_failed_probe, update_target_last_response,
  increment_discovery_attempts, recovery, max_discovery_attempts, same_state, Db, find_target,
  update_target, moved, transition_target_state, transition_found, committed, responded, attempted,
  process_probe_result, process_probe_results_batch,
}

-- A target that is down had a baseline, and one that waits for review is excluded.
pub record Sound (t : Target) : Type 0 where
  pub down_baseline : t.monitoring_state ≡ down → is_null t.baseline_established_at ≡ false
  pub review_excluded : t.needs_review ≡ true → t.monitoring_state ≡ excluded

abbrev pub ids : List Target → List String
ids rows = map (λ t. t.id) rows

-- The ids of the rows are the given ones, rows with one id are one row, and every row is sound.
pub record Good (names : List String) (db : Db) : Type 0 where
  pub same : ids db.targets ≡ names
  pub unique : Distinct (ids db.targets)
  pub sound : All Sound db.targets

-- A change of the rows of one id keeps `P` on all rows, where these rows satisfy `Q`.
pub All-update :
    {P Q : Target → Type 0} (id : String) (f : Target → Target) (rows : List Target)
    → ((r : Target) → r.id ≡ id → Q r → P r → P (f r))
    → All Q rows
    → All P rows
    → All P (update_target id f rows)
unfolding update_target
All-update id f [] k q h = tt
All-update {P} id f (r ∷ rows) k (q, qs) (h, hs) = (
  branch P (r.id == id) (λ e. k r ((==_iff r.id id).0 e) q h) (λ _. h),
  All-update id f rows k qs hs,
)

pub ids-update :
    (id : String) (f : Target → Target) (rows : List Target)
    → ((r : Target) → (f r).id ≡ r.id)
    → ids (update_target id f rows) ≡ ids rows
unfolding update_target
ids-update id f [] k = refl
ids-update id f (r ∷ rows) k =
    ap₂ (λ i is. i ∷ is) (branch (λ (x : Target). x.id ≡ r.id) (r.id == id) (λ _. k r) (λ _. refl))
      (ids-update id f rows k)

-- A statement that changes the rows of one id keeps the tables good if it keeps these rows sound.
pub Good-update :
    {names : List String} {Q : Target → Type 0} (id : String) (f : Target → Target) (db : Db)
    (log : List TargetStateTransition)
    → ((r : Target) → (f r).id ≡ r.id)
    → ((r : Target) → r.id ≡ id → Q r → Sound r → Sound (f r))
    → All Q db.targets
    → Good names db
    → Good names (record { targets = update_target id f db.targets; history = log })
Good-update id f db log k s q g = record {
  same = ids-update id f db.targets k ∙ g.same;
  unique = subst Distinct (sym (ids-update id f db.targets k)) g.unique;
  sound = All-update id f db.targets s q g.sound;
}

excluded-only : (s : MonitoringState) → is_excluded s ≡ true → s ≡ excluded
excluded-only s h = ground (arith, h)

moved-Sound :
    (now : ℕ) (s : MonitoringState) (r : Target)
    → (s ≡ down → is_null r.baseline_established_at ≡ false)
    → Sound (moved now s r)
moved-Sound now s r h = record { down_baseline = h; review_excluded = excluded-only s }

-- The rows of an id have a baseline if the state is DOWN.
abbrev pub Ready : MonitoringState → String → Target → Type 0
Ready s id r = s ≡ down → r.id ≡ id → is_null r.baseline_established_at ≡ false

-- A transition keeps the tables good; one to DOWN needs the baseline of the rows that it changes.
pub Good-transition :
    {names : List String} (now : ℕ) (id : String) (s : MonitoringState) (reason origin : String)
    (db : Db)
    → All (Ready s id) db.targets
    → Good names db
    → Good names (committed db (transition_target_state now id s reason origin db))
unfolding transition_target_state
Good-transition now id s reason origin db q g = elim (Option-cases (find_target id db.targets)) [
  | inl e ↦ subst (Good _) (sym (ap (λ o. committed db (with_row o)) e)) g
  | inr (t, e) ↦ subst (Good _) (sym (ap (λ o. committed db (with_row o)) e)) (
      branch (Good _) (same_state t.monitoring_state s) (λ _. g)
        (λ _.
          Good-update id (moved now s) db _ (λ r. refl)
            (λ r i h _. moved-Sound now s r (λ d. h d i)) q g))
]
  where
    with_row : Option Target → Option Db
    with_row o = elim o [
      | none ↦ none
      | some t ↦ some (transition_found now id s reason origin db t)
    ]

-- A transition to another state than DOWN needs nothing.
pub Ready-other :
    (s : MonitoringState) (id : String) (rows : List Target) → s ≢ down → All (Ready s id) rows
Ready-other s id [] ne = tt
Ready-other s id (r ∷ rows) ne = ((λ e. absurd (ne e)), Ready-other s id rows ne)

All-Unit : (rows : List Target) → All {0, 0} (λ _. Unit) rows
All-Unit [] = tt
All-Unit (r ∷ rows) = (tt, All-Unit rows)

-- A change that touches neither the state, nor the review flag, nor the baseline.
pub Good-untouched :
    {names : List String} (id : String) (f : Target → Target) (db : Db)
    → ((r : Target) → (f r).id ≡ r.id)
    → ((r : Target) → Sound r → Sound (f r))
    → Good names db
    → Good names (record db { targets = update_target id f db.targets })
Good-untouched id f db k s g =
    Good-update {Q = λ _. Unit} id f db db.history k (λ r _ _. s r) (All-Unit db.targets) g

responded-Sound : (time : ℕ) (r : Target) → Sound r → Sound (responded time r)
responded-Sound time r s = record {
  down_baseline = s.down_baseline;
  review_excluded = s.review_excluded;
}

attempted-Sound : (r : Target) → Sound r → Sound (attempted r)
attempted-Sound r s = record {
  down_baseline = s.down_baseline;
  review_excluded = s.review_excluded;
}

recover-Good :
    {names : List String} (now : ℕ) (id : String) (db : Db) (o : Option (String × String))
    → Good names db
    → Good names (elim o [
      | none ↦ db
      | some (reason, origin) ↦
          committed db (transition_target_state now id active reason origin db)
    ])
recover-Good now id db none g = g
recover-Good now id db (some (reason, origin)) g =
    Good-transition now id active reason origin db
      (Ready-other active id db.targets (λ e. ground (arith, e))) g

success-Good :
    {names : List String} (now time : ℕ) (t : Target) (db : Db)
    → Good names db
    → Good names (handle_successful_probe now t time db)
unfolding handle_successful_probe update_target_last_response
success-Good now time t db g =
    recover-Good now t.id (update_target_last_response t.id time db) (recovery t.monitoring_state)
      (Good-untouched t.id (responded time) db (λ r. refl) (responded-Sound time) g)

abbrev attempts_of : String → Db → Option Target → Option (ℕ × Db)
attempts_of id db o = elim o [
  | none ↦ none
  | some r ↦
      some (r.discovery_attempts + 1, record db { targets = update_target id attempted db.targets })
]

abbrev count_with : ℕ → String → Db → Option (ℕ × Db) → Db
count_with now id db o = elim o [
  | none ↦ db
  | some (attempts, d) ↦
      if leb max_discovery_attempts attempts
      then committed d (
          transition_target_state now id unresponsive "no response after discovery attempts"
            "discovery" d)
      else d
]

count-Good :
    {names : List String} (now : ℕ) (id : String) (db : Db) (o : Option Target)
    → Good names db
    → Good names (count_with now id db (attempts_of id db o))
count-Good now id db none g = g
count-Good now id db (some r) g =
    let counted : Db = record db { targets = update_target id attempted db.targets } in
    let fine = Good-untouched id attempted db (λ r. refl) attempted-Sound g in
    branch (Good _) (leb max_discovery_attempts (r.discovery_attempts + 1))
      (λ _.
        Good-transition now id unresponsive _ _ counted
          (Ready-other unresponsive id counted.targets (λ e. ground (arith, e))) fine)
      (λ _. fine)

failure-Good :
    {names : List String} (now : ℕ) (t : Target) (db : Db)
    → Good names db
    → Good names (handle_failed_probe now t db)
unfolding handle_failed_probe increment_discovery_attempts
failure-Good now t db g =
    branch (Good _) (same_state t.monitoring_state unknown)
      (λ _. count-Good now t.id db (find_target t.id db.targets) g) (λ _. g)

found-Good :
    {names : List String} (now : ℕ) (success : Bool) (time : ℕ) (db : Db) (t : Target)
    → Good names db
    → Good names (process_found now success time db t)
found-Good now true time db t g =
    branch (Good _) (is_null t.archived_at) (λ _. success-Good now time t db g) (λ _. g)
found-Good now false time db t g =
    branch (Good _) (is_null t.archived_at) (λ _. failure-Good now t db g) (λ _. g)

process-Good :
    {names : List String} (now : ℕ) (success : Bool) (time : ℕ) (db : Db) (o : Option Target)
    → Good names db
    → Good names (elim o [ none ↦ db | some t ↦ process_found now success time db t ])
process-Good now success time db none g = g
process-Good now success time db (some t) g = found-Good now success time db t g

-- A batch of probe results keeps the tables good: the ids of the rows are those that they were, in
-- the same order and distinct, a target that is down had a baseline, and one that waits for review is
-- excluded.
pub process_probe_results_batch-Good :
    {names : List String} (now : ℕ) (results : List Result) (db : Db)
    → Good names db
    → Good names (process_probe_results_batch now results db)
unfolding process_probe_results_batch process_probe_result
process_probe_results_batch-Good now [] db g = g
process_probe_results_batch-Good now (r ∷ results) db g =
    process_probe_results_batch-Good now results _
      (process-Good now r.success r.timestamp db (find_target r.target_id db.targets) g)
