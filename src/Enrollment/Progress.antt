-- ===== src/Enrollment/Progress.antt =====
-- The loop over the stages goes on where the enrollment stopped, and leaves the stages in order.
use icmp_mon.Base.{
  ℕ, zero, suc, ◌+◌, ◌≤◌, ◌<◌, ◌≡◌, refl, sym, ap, ◌∙◌, subst, String, List, [], ◌∷◌, ◌++◌, map,
  Bool, true, false, some, arith, take, drop, length, get_elem?, take-suc, length-drop, le_trans,
}
use mathlib.Core.List.{map-append}
use icmp_mon.Enrollment.{Enrollment, State, update_row}
use icmp_mon.Enrollment.Host.{
  Service, Work, Outcome, StepError, done, blocked, panicked, failed_with, enrollment_cancelled,
}
use icmp_mon.Enrollment.Run.{
  after_stage, Stage, stages, name_of, Turn, Run, Ending, completed, hung, crashed, stopped,
  run_stage, save, handle_error, run_steps, begin_at, run_remaining_steps, start_index, opening,
  closing, emit, complete_event, finished, registering,
}
use icmp_mon.Enrollment.Frame.{Same, run_stage-Same}

-- The names of the first stages.
abbrev pub first : ℕ → List String
first k = map name_of (take k stages)

-- The enrollment has completed the first `k` stages, and does not try the key first.
pub record Completed (k : ℕ) (e : Enrollment) : Type 0 where
  pub steps : e.steps_completed ≡ first k
  pub no_key_first : e.try_key_first ≡ false

pub start_index-first : (k : ℕ) → k ≤ 9 → start_index (first k) stages 0 0 ≡ k
start_index-first zero h = refl
start_index-first (suc zero) h = refl
start_index-first (suc (suc zero)) h = refl
start_index-first (suc (suc (suc zero))) h = refl
start_index-first (suc (suc (suc (suc zero)))) h = refl
start_index-first (suc (suc (suc (suc (suc zero))))) h = refl
start_index-first (suc (suc (suc (suc (suc (suc zero)))))) h = refl
start_index-first (suc (suc (suc (suc (suc (suc (suc zero))))))) h = refl
start_index-first (suc (suc (suc (suc (suc (suc (suc (suc zero)))))))) h = refl
start_index-first (suc (suc (suc (suc (suc (suc (suc (suc (suc zero))))))))) h = refl
start_index-first (suc (suc (suc (suc (suc (suc (suc (suc (suc (suc k)))))))))) h =
    absurd (omega arith)

drop-cons :
    {A : Type 0} (k : ℕ) (xs : List A) (x : A) (rest : List A)
    → drop k xs ≡ x ∷ rest
    → (get_elem? xs k ≡ some x) × (drop (suc k) xs ≡ rest)
drop-cons zero [] x rest e = (cc, cc)
drop-cons zero (y ∷ ys) x rest e = (cc, cc)
drop-cons (suc k) [] x rest e = (cc, cc)
drop-cons (suc k) (y ∷ ys) x rest e = drop-cons k ys x rest e

drop-nil : {A : Type 0} (k : ℕ) (xs : List A) → drop k xs ≡ [] → length xs ≤ k
drop-nil zero [] e = omega arith
drop-nil zero (y ∷ ys) e = cc
drop-nil (suc k) [] e = omega arith
drop-nil (suc k) (y ∷ ys) e = omega (arith, drop-nil k ys e)

-- How a run has ended, when the first `k` stages are completed, with what the row tells: completed
-- with all nine, and otherwise with fewer.
abbrev pub Ended : ℕ → Ending → Run → Type 0
Ended k completed r =
    (k ≡ 9)
    × (r.work.enrollment.state ≡ State.complete)
    × (r.row.state ≡ State.complete)
    × (r.row.steps_completed ≡ first k)
Ended k (stopped err) r =
    (k < 9)
    × (r.work.enrollment.state ≡ State.failed)
    × (r.row.state ≡ State.failed)
    × (r.row.steps_completed ≡ first k)
Ended k hung r = k < 9
Ended k crashed r = k < 9

-- A run that began after `j` stages leaves the first `k` completed, none of the `j` is lost.
pub record Advanced (j : ℕ) (result : Ending × Run) : Type 0 where
  pub k : ℕ
  pub kept : j ≤ k
  pub bounded : k ≤ 9
  pub now_completed : Completed k result.1.work.enrollment
  pub ended : Ended k result.0 result.1

Completed-Same :
    (k : ℕ) (before after : Work)
    → Same before after
    → Completed k before.enrollment
    → Completed k after.enrollment
Completed-Same k before after s c = record {
  steps = s.steps ∙ c.steps;
  no_key_first = s.key_first ∙ c.no_key_first;
}

handle_error-Advanced :
    (service : Service) (err : StepError) (j : ℕ) (r : Run)
    → j < 9
    → Completed j r.work.enrollment
    → Advanced j (handle_error service true err r)
unfolding handle_error update_row
handle_error-Advanced service err j r h c = record {
  k = j;
  kept = omega arith;
  bounded = omega arith;
  now_completed = record { steps = c.steps; no_key_first = c.no_key_first };
  ended = (h, refl, refl, c.steps);
}

finished-Advanced :
    (j now : ℕ) (b : Bool) (r : Run)
    → j ≡ 9
    → b ≡ true
    → Completed j r.work.enrollment
    → Advanced j (completed, emit complete_event "" 100 (save b (finished now) r))
unfolding save update_row
finished-Advanced j now true r h e c = record {
  k = j;
  kept = omega arith;
  bounded = omega arith;
  now_completed = record { steps = c.steps; no_key_first = c.no_key_first };
  ended = (h, refl, refl, c.steps);
}
finished-Advanced j now false r h e c = cc

add_one : (n : ℕ) → n + 1 ≡ suc n
add_one n = omega arith

first-suc :
    (j : ℕ) (stage : Stage)
    → get_elem? stages j ≡ some stage
    → first (j + 1) ≡ first j ++ (name_of stage ∷ [])
first-suc j stage e =
    ap first (add_one j)
    ∙ ap (map name_of) (take-suc j stages e)
    ∙ map-append name_of (take j stages) (stage ∷ [])

Advanced-weaken : (i j : ℕ) (result : Ending × Run) → i ≤ j → Advanced j result → Advanced i result
Advanced-weaken i j result h a = record {
  k = a.k;
  kept = le_trans i j a.k h a.kept;
  bounded = a.bounded;
  now_completed = a.now_completed;
  ended = a.ended;
}

module _ (service : Service) (turns : Stage → Turn) (listening : Bool) (password : String)
    (now : ℕ) where
  after_stage-Advanced :
      (stage : Stage) (rest : List Stage) (j : ℕ) (started : Run) (w : Work) (o : Outcome)
      → ((s : Stage) → (turns s).saves ≡ true)
      → j < 9
      → get_elem? stages j ≡ some stage
      → Completed j w.enrollment
      → ((r : Run)
          → Completed (j + 1) r.work.enrollment
          → Advanced (j + 1) (run_steps service turns listening password now rest (j + 1) r))
      → Advanced j (after_stage service turns listening password now stage rest j started w o)
  unfolding save
  after_stage-Advanced stage rest j started w done saves h at c ih =
      Advanced-weaken j (j + 1) _ (omega arith) (
        ih (closing (turns stage) j stage w started) (record {
          steps =
              ap (λ (steps : List String). steps ++ (name_of stage ∷ [])) c.steps
              ∙ sym (first-suc j stage at);
          no_key_first = c.no_key_first;
        }))
  after_stage-Advanced stage rest j started w blocked saves h at c ih = record {
    k = j;
    kept = omega arith;
    bounded = omega arith;
    now_completed = c;
    ended = h;
  }
  after_stage-Advanced stage rest j started w panicked saves h at c ih = record {
    k = j;
    kept = omega arith;
    bounded = omega arith;
    now_completed = c;
    ended = h;
  }
  after_stage-Advanced stage rest j started w (failed_with err) saves h at c ih =
      subst (λ b. Advanced j (handle_error service b err (record started { work = w })))
        (sym (saves stage)) (handle_error-Advanced service err j (record started { work = w }) h c)

  run_steps-Advanced :
      (rest : List Stage) (j : ℕ) (r : Run)
      → ((s : Stage) → (turns s).saves ≡ true)
      → j ≤ 9
      → drop j stages ≡ rest
      → Completed j r.work.enrollment
      → Advanced j (run_steps service turns listening password now rest j r)
  unfolding run_steps save
  run_steps-Advanced [] j r saves h d c =
      finished-Advanced j now (turns registering).saves r (omega (arith, drop-nil j stages d))
        (saves registering) c
  run_steps-Advanced (stage ∷ rest) j r saves h d c =
      let next = drop-cons j stages stage rest d in
      let below : j < 9 = omega (arith, length-drop j stages, ap length d) in
      let started = opening (turns stage) j stage r in
      let same =
        run_stage-Same service (turns stage).host listening password stage started.work
          c.no_key_first in
      let result = run_stage service (turns stage).host listening password stage started.work in
      elim (turns stage).cancelled
        as (λ b. Advanced j (elim b as (λ _. Ending × Run) [
          | true ↦ handle_error service (turns stage).saves enrollment_cancelled r
          | false ↦
              after_stage service turns listening password now stage rest j started result.1
                result.0
        ])) [
          | true ↦
              subst (λ b. Advanced j (handle_error service b enrollment_cancelled r))
                (sym (saves stage)) (handle_error-Advanced service enrollment_cancelled j r below c)
          | false ↦
              after_stage-Advanced stage rest j started result.1 result.0 saves below next.0
                (Completed-Same j started.work result.1 same
                  (record { steps = c.steps; no_key_first = c.no_key_first }))
                (λ r' c'.
                  run_steps-Advanced rest (j + 1) r' saves (omega arith)
                    (ap (λ n. drop n stages) (add_one j) ∙ next.1) c')
        ]

  -- A run of an enrollment whose first `j` steps are completed, where the updates of the row succeed
  -- and the key is not tried first, begins with the next step. Afterwards the first `k` steps are
  -- completed for some `k` between `j` and nine, and the run has ended as completed exactly if `k` is
  -- nine: a run that stops with an error, hangs or crashes has completed fewer. The state is complete
  -- or, after an error, failed, and the row says the same.
  pub run_remaining_steps-Advanced :
      (j : ℕ) (r : Run)
      → ((s : Stage) → (turns s).saves ≡ true)
      → j ≤ 9
      → Completed j r.work.enrollment
      → (begin_at r ≡ j) × Advanced j (run_remaining_steps service turns listening password now r)
  unfolding run_remaining_steps
  run_remaining_steps-Advanced j r saves h c =
      let at = ap (λ steps. start_index steps stages 0 0) c.steps ∙ start_index-first j h in
      (
        at,
        subst (λ n. Advanced j (run_steps service turns listening password now (drop n stages) n r))
            (sym at) (run_steps-Advanced (drop j stages) j r saves h refl c),
      )
