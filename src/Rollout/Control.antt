-- ===== src/Rollout/Control.antt =====
-- engine.go: `PauseRollout`, `ResumeRollout`, `RollbackRollout` and the end of `executeRollout`, on the
-- row of one rollout and the context of its execution.
pub mod Outcome
use icmp_mon.Base.{ℕ, String, Option, none, some, Bool, true, false, not, if◌then◌else◌}
use icmp_mon.Rollout.{Rollout, Status, Row, to_store_rollout, to_rollout_rollout, update_row}

-- The row of the table `rollouts`, and the entry of `active`: whether its context is cancelled.
pub record Engine : Type 0 where
  pub row : Option Row
  pub active : Option Bool

-- Whether the two queries of an operation succeed, on a context that is not cancelled.
pub record Queries : Type 0 where
  pub gets : Bool
  pub updates : Bool

pub data Reply : Type 0 where
  done not_active not_found not_paused query_failed : Reply

-- `UpdateRollout`
unfoldable pub update_rollout : ℕ → Rollout → Engine → Engine
update_rollout now r e = record e {
  row = elim e.row [ none ↦ none | some old ↦ some (update_row old (to_store_rollout r) now) ];
}

-- The change that an operation writes back, after `GetRollout`.
abbrev pub rewrite : ℕ → Queries → (Rollout → Rollout) → Engine → Reply × Engine
rewrite now q change e = if not q.gets then (query_failed, e) else elim e.row [
  | none ↦ (not_found, e)
  | some row ↦
      if q.updates
      then (done, update_rollout now (change (to_rollout_rollout row)) e)
      else (query_failed, e)
]

abbrev cancel : Engine → Engine
cancel e = record e { active = elim e.active [ none ↦ none | some c ↦ some true ] }

abbrev pub to_paused : ℕ → Rollout → Rollout
to_paused now r = record r { status = Status.paused; paused_at = some now; updated_at = now }

abbrev pub to_resumed : ℕ → Rollout → Rollout
to_resumed now r = record r { status = Status.in_progress; paused_at = none; updated_at = now }

abbrev pub to_rolled_back : ℕ → String → Rollout → Rollout
to_rolled_back now reason r = record r {
  status = Status.rolled_back;
  rolled_back_at = some now;
  rollback_reason = reason;
  updated_at = now;
}

-- `PauseRollout`
unfoldable pub pause_rollout : ℕ → Queries → Engine → Reply × Engine
unfolding update_rollout
pause_rollout now q e = elim e.active [
  | none ↦ (not_active, e)
  | some c ↦ rewrite now q (to_paused now) (cancel e)
]

abbrev pub is_paused : Status → Bool
is_paused Status.paused = true
is_paused _ = false

-- `ResumeRollout`; the execution that it starts has a new context.
unfoldable pub resume_rollout : ℕ → Queries → Engine → Reply × Engine
unfolding update_rollout
resume_rollout now q e = if not q.gets then (query_failed, e) else elim e.row [
  | none ↦ (not_found, e)
  | some row ↦
      if not (is_paused row.status)
      then (not_paused, e)
      else if q.updates
      then (
        done,
        record (update_rollout now (to_resumed now (to_rollout_rollout row)) e) {
          active = some false;
        },
      )
      else (query_failed, e)
]

-- `RollbackRollout`
unfoldable pub rollback_rollout : ℕ → String → Queries → Engine → Reply × Engine
unfolding update_rollout
rollback_rollout now reason q e = rewrite now q (to_rolled_back now reason) (cancel e)

-- The queries on the context of the execution: a cancelled one answers `on_cancelled`.
abbrev pub queries_of : Bool → Option Bool → Queries
queries_of on_cancelled (some true) = record { gets = on_cancelled; updates = on_cancelled }
queries_of on_cancelled _ = record { gets = true; updates = true }

abbrev pub end_state : ℕ → Option String → Rollout → Rollout
end_state now none r = record r {
  status = Status.completed;
  completed_at = some now;
  updated_at = now;
}
end_state now (some err) r = record r { last_error = err; status = Status.failed; updated_at = now }

-- The rollback of a failed execution: its context is cancelled before the rollback's queries.
abbrev pub rollback_own : ℕ → Bool → Option String → Bool → Engine → Engine
rollback_own now on_cancelled (some err) true e =
    (rollback_rollout now err (queries_of on_cancelled (cancel e).active) e).1
rollback_own now on_cancelled exec_err auto_rollback e = e

abbrev pub ended : ℕ → Bool → Option String → Bool → Rollout → Engine → Engine
ended now on_cancelled exec_err auto_rollback r e =
    let rolled = rollback_own now on_cancelled exec_err auto_rollback e in
    let written =
      if (queries_of on_cancelled rolled.active).updates
      then update_rollout now (end_state now exec_err r) rolled
      else rolled in
    record written { active = none }

-- What `executeRollout` does after the waves, with the rollout that it holds.
unfoldable pub end_execution : ℕ → Bool → Option String → Rollout → Engine → Engine
unfolding rollback_rollout update_rollout
end_execution now on_cancelled exec_err r e =
    ended now on_cancelled exec_err r.config.auto_rollback r e
