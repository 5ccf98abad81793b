-- ===== src/Evaluator/Streak.antt =====
-- `evaluatePairWithData` over a whole history of observations: the run of anomalies at its end.
use icmp_mon.Base.{
  ◌<◌, if-false, ltb→le, if-true, ℕ, suc, ◌≡◌, refl, sym, ap, ◌∙◌, subst, List, [], ◌∷◌, Option,
  none, some, true, false, if◌then◌else◌, ltb, eqb, length, arith, Bool-cases, inl, inr,
}
use icmp_mon.Evaluator.{
  calculate_status, FloatOps, Config, ProbeStats, Baseline, Status, TargetState, Level, healthy,
  warned, critical, is_anomaly, status_of, in_a_row, level_of, counted, baseline_or_new,
  anomalies_after, start_after, evaluate_pair_with_data, evaluated,
}

-- What one round of the worker reads of a pair.
pub record Observation (Float : Type 0) : Type 0 where
  pub time : ℕ
  pub stats : ProbeStats Float
  pub baseline : Option (Baseline Float)

module _ {Float : Type 0} (ops : FloatOps Float) (config : Config Float) where
  -- The state that the rounds leave, from the oldest, the last of the list, to the newest.
  abbrev pub state_after : List (Observation Float) → Option (TargetState Float)
  state_after [] = none
  state_after (o ∷ past) =
      let before = state_after past in
      elim (evaluate_pair_with_data ops config o.time (some o.stats) o.baseline before) [
        | none ↦ before
        | some s ↦ some s
      ]

  abbrev pub level_in : Observation Float → Level
  level_in o = level_of ops config o.stats (baseline_or_new ops config o.stats o.baseline)

  -- The anomalies at the end of the history that no healthy observation interrupts; rounds without a
  -- probe do not count.
  abbrev pub last_run : List (Observation Float) → List (Observation Float)
  last_run [] = []
  last_run (o ∷ past) =
      let rest = last_run past in
      if eqb o.stats.total_count 0 then rest else if is_anomaly (level_in o) then o ∷ rest else []

  abbrev pub oldest : List (Observation Float) → Option ℕ
  oldest [] = none
  oldest (o ∷ past) = elim (oldest past) [ none ↦ some o.time | some at ↦ some at ]

  -- What the state of a pair says of the run of anomalies at the end of its history.
  abbrev pub Tells : Option (TargetState Float) → List (Observation Float) → Type 0
  Tells none run = run ≡ []
  Tells (some s) run = (s.consecutive_anomalies ≡ length run) × (s.anomaly_start ≡ oldest run)

  abbrev extended : Level → Observation Float → List (Observation Float) → List (Observation Float)
  extended l o run = if is_anomaly l then o ∷ run else []

  in_a_row-suc : (counter n : ℕ) → counter ≡ n → in_a_row (some counter) ≡ suc n
  in_a_row-suc counter n e = elim (Bool-cases (ltb 0 counter)) [
    | inl q ↦ if-true _ _ _ q ∙ (omega arith)
    | inr q ↦ let zero_counter = ltb→le 0 counter q in if-false _ _ _ q ∙ (omega arith)
  ]

  abbrev Extends :
      Level → Observation Float → Option (TargetState Float) → List (Observation Float) → Type 0
  Extends l o before run =
      (anomalies_after ops config (is_anomaly l) before ≡ length (extended l o run))
      × ((start_after ops config o.time (is_anomaly l) before ≡ oldest (extended l o run))
          × (status_of config.consecutive_failures_for_down l (in_a_row (counted ops config before))
              ≡ status_of config.consecutive_failures_for_down l (length (extended l o run))))

  run-grows :
      (f : ℕ → Status) (o : Observation Float) (before : Option (TargetState Float))
      (run : List (Observation Float))
      → Tells before run
      → (anomalies_after ops config true before ≡ length (o ∷ run))
        × ((start_after ops config o.time true before ≡ oldest (o ∷ run))
            × (f (in_a_row (counted ops config before)) ≡ f (length (o ∷ run))))
  run-grows f o none run t = (
    ap (λ (r : List (Observation Float)). length (o ∷ r)) (sym t),
    (
      ap (λ (r : List (Observation Float)). oldest (o ∷ r)) (sym t),
      ap (λ (r : List (Observation Float)). f (length (o ∷ r))) (sym t),
    ),
  )
  run-grows f o (some s) run (count, start) = (
    (omega arith),
    (
      ap (λ (at : Option ℕ). elim at as (λ _. Option ℕ) [ none ↦ some o.time | some t ↦ some t ])
          start,
      ap f (in_a_row-suc s.consecutive_anomalies (length run) count),
    ),
  )

  run-Extends :
      (l : Level) (o : Observation Float) (before : Option (TargetState Float))
      (run : List (Observation Float))
      → Tells before run
      → Extends l o before run
  unfolding status_of
  run-Extends healthy o before run t = (refl, (refl, refl))
  run-Extends warned o before run t =
      run-grows (status_of config.consecutive_failures_for_down warned) o before run t
  run-Extends critical o before run t =
      run-grows (status_of config.consecutive_failures_for_down critical) o before run t

  -- The state and the run after one more observation that counts a probe.
  abbrev pub Observed : Observation Float → List (Observation Float) → TargetState Float → Type 0
  Observed o past s =
      (state_after (o ∷ past) ≡ some s)
      × ((s.consecutive_anomalies ≡ length (last_run (o ∷ past)))
          × ((s.anomaly_start ≡ oldest (last_run (o ∷ past)))
              × (s.status
                  ≡ status_of config.consecutive_failures_for_down (level_in o)
                      (length (last_run (o ∷ past))))))

  observed :
      (o : Observation Float) (past : List (Observation Float))
      → eqb o.stats.total_count 0 ≡ false
      → Tells (state_after past) (last_run past)
      → (s : TargetState Float) × Observed o past s
  unfolding evaluate_pair_with_data evaluated calculate_status
  observed o past q t =
      let now =
        if-false none (some (evaluated ops config o.time o.stats o.baseline (state_after past)))
          (eqb o.stats.total_count 0) q in
      let grown = run-Extends (level_in o) o (state_after past) (last_run past) t in
      let run = sym (if-false (last_run past) (extended (level_in o) o (last_run past)) _ q) in
      (
        evaluated ops config o.time o.stats o.baseline (state_after past),
        (
          ap
              (λ e. elim e as (λ _. Option (TargetState Float)) [
                | none ↦ state_after past
                | some s ↦ some s
              ])
              now,
          (
            grown.0 ∙ ap length run,
            (
              grown.1.0 ∙ ap oldest run,
              grown.1.1
                  ∙ ap
                      (λ (r : List (Observation Float)).
                        status_of config.consecutive_failures_for_down (level_in o) (length r))
                      run,
            ),
          ),
        ),
      )

  tells : (history : List (Observation Float)) → Tells (state_after history) (last_run history)
  unfolding evaluate_pair_with_data
  tells [] = refl
  tells (o ∷ past) = elim (Bool-cases (eqb o.stats.total_count 0)) [
    | inl q ↦
        subst
          (λ b.
            Tells
              (elim (if b
                  then none
                  else some (evaluated ops config o.time o.stats o.baseline (state_after past)))
                as (λ _. Option (TargetState Float)) [ none ↦ state_after past | some s ↦ some s ])
              (if b then last_run past else extended (level_in o) o (last_run past)))
          (sym q) (tells past)
    | inr q ↦
        let (s, (e, (count, (start, status)))) = observed o past q (tells past) in
        subst (λ st. Tells st (last_run (o ∷ past))) (sym e) (count, start)
  ]

  -- After an observation that counts a probe there is a state. It counts the anomalies since the last
  -- healthy observation, its anomaly starts at the oldest of them, and its status is the one that the
  -- level of the newest observation has for that many anomalies in a row.
  pub state_after-run :
      (o : Observation Float) (past : List (Observation Float))
      → 0 < o.stats.total_count
      → (s : TargetState Float) × Observed o past s
  state_after-run o past h = observed o past (ground arith) (tells past)
