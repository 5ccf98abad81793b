-- ===== src/Lifecycle/Discovery.antt =====
-- The discovery of targets: runs of failed probes, through `ProcessProbeResultsBatch`.
use icmp_mon.Base.{
  branch, ge→ltb, if-false, lt→ltb, ap₂, if-true, ℕ, suc, ◌+◌, ◌<◌, min, ◌≡◌, refl, sym, ap, ◌∙◌,
  String, List, [], ◌∷◌, some, true, false, if◌then◌else◌, leb, ltb, arith, All, length, Bool-cases,
  inl, inr, leb→gt, leb→le,
}
use icmp_mon.Types.Target.{Target, unknown, unresponsive, is_null}
use icmp_mon.Lifecycle.{
  Db, Result, find_target, moved, attempted, process_probe_results_batch, process_probe_result,
  max_discovery_attempts, same_state,
}
use icmp_mon.Lifecycle.Row.{after_probe, probed, process_probe_result-row}

-- Failed results of one target.
abbrev pub FailuresOf : String → List Result → Type 0
FailuresOf id results = All (λ r. (r.target_id ≡ id) × (r.success ≡ false)) results

step :
    (now : ℕ) (id : String) (r : Result) (db : Db) (t u : Target)
    → (r.target_id ≡ id) × (r.success ≡ false)
    → find_target id db.targets ≡ some t
    → after_probe now false r.timestamp t ≡ u
    → find_target id (process_probe_result now r.target_id r.success r.timestamp db).targets
      ≡ some u
step now id r db t u (e, f) h a =
    ap₂ (λ i b. find_target id (process_probe_result now i b r.timestamp db).targets) e f
    ∙ process_probe_result-row now id false r.timestamp db t h
    ∙ ap some a

settled :
    (now time : ℕ) (t : Target)
    → t.monitoring_state ≡ unresponsive
    → after_probe now false time t ≡ t
unfolding after_probe probed
settled now time t h =
    branch (λ x. x ≡ t) (is_null t.archived_at)
      (λ _. if-false _ _ (same_state t.monitoring_state unknown) (ap (λ s. same_state s unknown) h))
      (λ _. refl)

stays :
    (now : ℕ) (id : String) (results : List Result) (db : Db) (t : Target)
    → FailuresOf id results
    → t.monitoring_state ≡ unresponsive
    → find_target id db.targets ≡ some t
    → find_target id (process_probe_results_batch now results db).targets ≡ some t
unfolding process_probe_results_batch
stays now id [] db t f s h = h
stays now id (r ∷ results) db t (f, fs) s h =
    stays now id results _ t fs s (step now id r db t t f h (settled now r.timestamp t s))

one_more :
    (now time : ℕ) (t : Target)
    → t.monitoring_state ≡ unknown
    → is_null t.archived_at ≡ true
    → after_probe now false time t ≡ (
        if leb max_discovery_attempts (t.discovery_attempts + 1)
        then moved now unresponsive (attempted t)
        else attempted t)
unfolding after_probe probed
one_more now time t s a =
    if-true _ _ (is_null t.archived_at) a
    ∙ if-true _ _ (same_state t.monitoring_state unknown) (ap (λ x. same_state x unknown) s)

-- Failed probes of a target that is still unknown and has had fewer than five failures: it is
-- marked unresponsive exactly when the failures reach five, whatever number of probes follows, and
-- the count of attempts stops there.
pub process_probe_results_batch-discovery :
    (now : ℕ) (id : String) (results : List Result) (db : Db) (t : Target)
    → FailuresOf id results
    → find_target id db.targets ≡ some t
    → t.monitoring_state ≡ unknown
    → is_null t.archived_at ≡ true
    → t.discovery_attempts < max_discovery_attempts
    → (u : Target) × (find_target id (process_probe_results_batch now results db).targets ≡ some u)
      × (u.monitoring_state ≡ (
          if ltb (t.discovery_attempts + length results) max_discovery_attempts
          then unknown
          else unresponsive))
      × (u.discovery_attempts ≡ min max_discovery_attempts (t.discovery_attempts + length results))
unfolding process_probe_results_batch
process_probe_results_batch-discovery now id [] db t f h s a lt = (
  t,
  h,
  s ∙ sym (if-true _ _ _ (lt→ltb (t.discovery_attempts + 0) max_discovery_attempts (omega arith))),
  omega arith,
)
process_probe_results_batch-discovery now id (r ∷ results) db t (f, fs) h s a lt =
    let limit = leb max_discovery_attempts (t.discovery_attempts + 1) in
    elim (Bool-cases limit) [
      | inl e ↦
          let u = moved now unresponsive (attempted t) in
          (
            u,
            stays now id results _ u fs refl
                (step now id r db t u f h (one_more now r.timestamp t s a ∙ if-true _ _ limit e)),
            sym (
                if-false _ _ _ (
                  ge→ltb (t.discovery_attempts + suc (length results)) max_discovery_attempts
                    (omega (arith, leb→le max_discovery_attempts (t.discovery_attempts + 1) e)))),
            omega (arith, leb→le max_discovery_attempts (t.discovery_attempts + 1) e),
          )
      | inr e ↦
          let (u, found, state, count) =
            process_probe_results_batch-discovery now id results _ (attempted t) fs
              (step now id r db t (attempted t) f h
                (one_more now r.timestamp t s a ∙ if-false _ _ limit e))
              s a (leb→gt _ _ e) in
          (
            u,
            found,
            state
                ∙ ap (λ n. if ltb n max_discovery_attempts then unknown else unresponsive)
                    {x = t.discovery_attempts + 1 + length results}
                    {y = t.discovery_attempts + suc (length results)} (omega arith),
            omega (arith, count),
          )
    ]
