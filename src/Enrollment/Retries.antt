-- ===== src/Enrollment/Retries.antt =====
-- How often an enrollment can be retried, with whatever runs in between.
use icmp_mon.Base.{
  ℕ, suc, ◌+◌, ◌≤◌, ◌<◌, ◌≡◌, refl, ◌∙◌, String, List, [], ◌∷◌, Bool, true, false, Option, some,
  arith, branch, ◌&&◌, drop,
}
use icmp_mon.Enrollment.{Enrollment, State, Row, update_row, in_schema, row_after}
use icmp_mon.Enrollment.Requests.{ok, retry}
use icmp_mon.Enrollment.Host.{
  Service, Work, Outcome, StepError, done, blocked, panicked, failed_with, enrollment_cancelled,
}
use icmp_mon.Enrollment.Run.{
  after_stage, begun, marked, Stage, stages, Turn, Run, Ending, run_stage, save, handle_error,
  run_steps, begin_at, run_remaining_steps, run_enrollment, opening, closing, with_start, finished,
  registering,
}
use icmp_mon.Enrollment.Frame.{run_stage-retries}

-- The counter of the enrollment and of its row is `c`, and the row allows `m` retries.
pub record Counted (c m : ℕ) (r : Run) : Type 0 where
  pub held : r.work.enrollment.retry_count ≡ c
  pub stored : r.row.retry_count ≡ c
  pub allowed : r.row.max_retries ≡ m

module _ (c m : ℕ) where
  save-Counted :
      (b : Bool) (change : Enrollment → Enrollment) (r : Run)
      → (change r.work.enrollment).retry_count ≡ r.work.enrollment.retry_count
      → Counted c m r
      → Counted c m (save b change r)
  unfolding save update_row
  save-Counted b change r keeps k =
      let e = change r.work.enrollment in
      branch
        (λ (u : Option Row).
          Counted c m
            (record r { work = record r.work { enrollment = e }; row = row_after r.row u }))
        (b && in_schema e.state)
        (λ _. record { held = keeps ∙ k.held; stored = keeps ∙ k.held; allowed = k.allowed })
        (λ _. record { held = keeps ∙ k.held; stored = k.stored; allowed = k.allowed })

  handle_error-Counted :
      (service : Service) (b : Bool) (err : StepError) (r : Run)
      → Counted c m r
      → Counted c m (handle_error service b err r).1
  unfolding handle_error
  handle_error-Counted service b err r k =
      let s =
        save-Counted b (λ e. record e { state = State.failed; last_error = service.error_text err })
          r refl k in
      record { held = s.held; stored = s.stored; allowed = s.allowed }

  module _ (service : Service) (turns : Stage → Turn) (listening : Bool) (password : String)
      (now : ℕ) where
    after_stage-Counted :
        (stage : Stage) (rest : List Stage) (place : ℕ) (started : Run) (w : Work) (o : Outcome)
        → Counted c m (record started { work = w })
        → ((r : Run)
            → Counted c m r
            → Counted c m (run_steps service turns listening password now rest (place + 1) r).1)
        → Counted c m
            (after_stage service turns listening password now stage rest place started w o).1
    after_stage-Counted stage rest place started w done k ih =
        let s =
          save-Counted (turns stage).saves (marked stage) (record started { work = w }) refl k in
        ih (closing (turns stage) place stage w started)
          (record { held = s.held; stored = s.stored; allowed = s.allowed })
    after_stage-Counted stage rest place started w blocked k ih = k
    after_stage-Counted stage rest place started w panicked k ih = k
    after_stage-Counted stage rest place started w (failed_with err) k ih =
        handle_error-Counted service (turns stage).saves err (record started { work = w }) k

    run_steps-Counted :
        (rest : List Stage) (place : ℕ) (r : Run)
        → Counted c m r
        → Counted c m (run_steps service turns listening password now rest place r).1
    unfolding run_steps
    run_steps-Counted [] place r k =
        let s = save-Counted (turns registering).saves (finished now) r refl k in
        record { held = s.held; stored = s.stored; allowed = s.allowed }
    run_steps-Counted (stage ∷ rest) place r k =
        let s = save-Counted (turns stage).saves (begun stage) r refl k in
        let started = opening (turns stage) place stage r in
        let result = run_stage service (turns stage).host listening password stage started.work in
        let same =
          run_stage-retries service (turns stage).host listening password stage started.work in
        elim (turns stage).cancelled
          as (λ b.
            Counted c m
              (elim b as (λ _. Ending × Run) [
                | true ↦ handle_error service (turns stage).saves enrollment_cancelled r
                | false ↦
                    after_stage service turns listening password now stage rest place started
                      result.1 result.0
              ]).1) [
                | true ↦ handle_error-Counted service (turns stage).saves enrollment_cancelled r k
                | false ↦
                    after_stage-Counted stage rest place started result.1 result.0
                      (record { held = same ∙ s.held; stored = s.stored; allowed = s.allowed })
                      (λ r' k'. run_steps-Counted rest (place + 1) r' k')
              ]

    run_enrollment-Counted :
        (r : Run)
        → Counted c m r
        → Counted c m (run_enrollment service turns listening password now r).1
    unfolding run_enrollment run_remaining_steps
    run_enrollment-Counted r k =
        let r' = with_start now r in
        run_steps-Counted (drop (begin_at r') stages) (begin_at r') r'
          (record { held = k.held; stored = k.stored; allowed = k.allowed })

-- The rows that `n` retries lead to, each with a run of the enrollment that it hands on.
pub data Retried (row : Row) : ℕ → Row → Type 0 where
  not_yet : Retried row 0 row
  once_more :
      {n : ℕ} {mid updated : Row} {e : Enrollment} (gets answers : Bool) (service : Service)
      (turns : Stage → Turn) (listening : Bool) (password : String) (now : ℕ) (w : Work)
      → Retried row n mid
      → retry gets answers (some mid) ≡ ok (e, updated)
      → Retried row
          (suc n)
          (run_enrollment service turns listening password now
            (record { work = record w { enrollment = e }; row = updated; sent = [] })).1.row

-- What an accepted retry tells of the row, and what it hands on.
retry-accepted :
    (gets answers : Bool) (row updated : Row) (e : Enrollment)
    → retry gets answers (some row) ≡ ok (e, updated)
    → (row.retry_count < row.max_retries)
      × (e.retry_count ≡ row.retry_count + 1)
      × (updated.retry_count ≡ row.retry_count + 1)
      × (updated.max_retries ≡ row.max_retries)
unfolding retry update_row
retry-accepted gets answers row updated e h = ground arith

Retried-Bounded :
    {row : Row} {n : ℕ} {last : Row}
    → Retried row n last
    → row.retry_count ≤ row.max_retries
    → (last.retry_count ≡ row.retry_count + n)
      × (last.max_retries ≡ row.max_retries)
      × (row.retry_count + n ≤ row.max_retries)
Retried-Bounded not_yet h = (omega arith, refl, omega arith)
Retried-Bounded {row = row}
      (once_more {n = n} {mid = mid} {updated = updated} {e = e} gets answers service turns
        listening password now w before accepted)
      h =
    let ih = Retried-Bounded before h in
    let a = retry-accepted gets answers mid updated e accepted in
    let k =
      run_enrollment-Counted (row.retry_count + suc n) row.max_retries service turns listening
        password now (record { work = record w { enrollment = e }; row = updated; sent = [] })
        (record {
          held = omega (arith, a, ih);
          stored = omega (arith, a, ih);
          allowed = a.3 ∙ ih.1;
        }) in
    (k.stored, k.allowed, omega (arith, a, ih))

-- However its runs go, an enrollment is retried at most as often as its row allows, and the row
-- counts every retry.
pub Retried-bounds :
    {row : Row} {n : ℕ} {last : Row}
    → Retried row n last
    → row.retry_count ≡ 0
    → (n ≤ row.max_retries) × (last.retry_count ≡ n)
Retried-bounds r h = let b = Retried-Bounded r (omega arith) in (omega (arith, b), omega (arith, b))
