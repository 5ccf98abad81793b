-- ===== src/Enrollment/Rollback.antt =====
-- control-plane/internal/enrollment/rollback.go: the changes of an enrollment are reverted from the
-- last to the first.
use icmp_mon.Base.{
  ℕ, ◌+◌, String, List, [], ◌∷◌, ◌++◌, Option, none, some, Bool, true, false, not, if◌then◌else◌,
  ◌==◌, ◌&&◌, length, reverse, eqb,
}
use icmp_mon.Enrollment.{State, Change, Row}
use icmp_mon.Enrollment.Requests.{Reply, ok, refused, RequestError, with_enrollment, is_failed}

pub record RollbackResult : Type 0 where
  pub total_changes : ℕ
  pub reverted_changes : ℕ
  pub failed_changes : ℕ
  pub errors : List String
  -- The commands that `RunWithSudo` was given, in order.
  pub commands : List String

-- Whether the loop runs the command of a change.
abbrev pub reverts : Change → Bool
reverts c = c.revertible && not (c.revert_cmd == "")

abbrev pub attempt : (String → Bool) → Change → RollbackResult → RollbackResult
attempt runs c r =
    if runs c.revert_cmd
    then record r {
      reverted_changes = r.reverted_changes + 1;
      commands = r.commands ++ (c.revert_cmd ∷ []);
    }
    else record r {
      failed_changes = r.failed_changes + 1;
      errors = r.errors ++ (c.change_type ∷ []);
      commands = r.commands ++ (c.revert_cmd ∷ []);
    }

-- The loop, over the changes from the last to the first; `runs` tells whether a command succeeds.
unfoldable pub revert_from : (String → Bool) → List Change → RollbackResult → RollbackResult
revert_from runs [] r = r
revert_from runs (c ∷ changes) r =
    revert_from runs changes (if reverts c then attempt runs c r else r)

abbrev pub no_result : ℕ → RollbackResult
no_result total = record {
  total_changes = total;
  reverted_changes = 0;
  failed_changes = 0;
  errors = [];
  commands = [];
}

pub data RollbackError : Type 0 where
  not_loaded : RequestError → RollbackError
  cannot_connect no_method : RollbackError

-- The connections that the rollback tries: by the key, then by a password.
pub record Access : Type 0 where
  pub key_connects : Bool
  pub password_connects : String → Bool

abbrev pub connect : Access → String → Option RollbackError
connect access password =
    if access.key_connects
    then none
    else if password == ""
    then some no_method
    else if access.password_connects password
    then none
    else some cannot_connect

abbrev pub Outcome : Type 0
Outcome = Reply (Option RollbackError × RollbackResult)

abbrev pub connected :
    Option RollbackError → (String → Bool) → List Change → Option RollbackError × RollbackResult
unfolding revert_from
connected (some err) runs changes = (some err, no_result 0)
connected none runs changes =
    (none, revert_from runs (reverse changes) (no_result (length changes)))

-- `Rollback` for the changes of the enrollment that it has loaded; an error leaves no result.
unfoldable pub rollback_changes :
    Access → String → (String → Bool) → List Change → Option RollbackError × RollbackResult
unfolding revert_from
rollback_changes access password runs changes =
    if eqb (length changes) 0
    then (none, no_result 0)
    else connected (connect access password) runs changes

-- `Rollback`
unfoldable pub rollback : Bool → Access → String → (String → Bool) → Option Row → Outcome
unfolding rollback_changes
rollback gets access password runs stored =
    with_enrollment gets stored (λ e row. ok (rollback_changes access password runs e.changes))

abbrev is_cancelled : State → Bool
is_cancelled State.cancelled = true
is_cancelled _ = false

-- `CleanupFailedEnrollment`; what the rollback answers only changes log lines. `refused not_failed`
-- stands for every state but failed and cancelled; the second load answers by itself.
unfoldable pub cleanup_failed_enrollment :
    Bool → Bool → Access → String → (String → Bool) → Option Row → Reply (Option Outcome)
unfolding rollback
cleanup_failed_enrollment gets gets_again access password runs stored =
    with_enrollment gets stored (λ e row.
      if not (is_failed e.state) && not (is_cancelled e.state)
      then refused RequestError.not_failed
      else ok (some (rollback gets_again access password runs stored)))
