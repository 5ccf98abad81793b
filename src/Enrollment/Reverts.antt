-- ===== src/Enrollment/Reverts.antt =====
-- What `Rollback` runs and counts, for an enrollment that holds its changes.
use icmp_mon.Base.{
  ◌∙◌, eqb, if-false, if-true, Option, subst, none, true, ap, reverse, ◌+◌, ◌≡◌, refl, sym, String,
  List, [], ◌∷◌, ◌++◌, map, Bool, not, arith, length, keep, count_where, append_assoc, ◌&&◌,
  length-append, append-nil, Bool-cases, inl, inr,
}
use icmp_mon.Enrollment.{Change}
use icmp_mon.Enrollment.Rollback.{
  connect, connected, RollbackError, Access, no_result, rollback_changes, RollbackResult, reverts,
  revert_from,
}

abbrev succeeds : (String → Bool) → Change → Bool
succeeds runs c = reverts c && runs c.revert_cmd

abbrev fails : (String → Bool) → Change → Bool
fails runs c = reverts c && not (runs c.revert_cmd)

abbrev commands_of : List Change → List String
commands_of changes = map (λ c. c.revert_cmd) (keep reverts changes)

-- What the loop adds to a result for a list of changes.
pub record Reverted (runs : String → Bool) (changes : List Change) (before after : RollbackResult)
    : Type 0 where
  pub commands : after.commands ≡ before.commands ++ commands_of changes
  pub reverted :
      after.reverted_changes ≡ before.reverted_changes + count_where (succeeds runs) changes
  pub failed : after.failed_changes ≡ before.failed_changes + count_where (fails runs) changes
  pub errors :
      length after.errors + before.failed_changes ≡ length before.errors + after.failed_changes
  pub total : after.total_changes ≡ before.total_changes

revert_from-Reverted :
    (runs : String → Bool) (changes : List Change) (r : RollbackResult)
    → Reverted runs changes r (revert_from runs changes r)
unfolding revert_from
revert_from-Reverted runs [] r = record {
  commands = sym (append-nil r.commands);
  reverted = omega arith;
  failed = omega arith;
  errors = omega arith;
  total = refl;
}
revert_from-Reverted runs (c ∷ changes) r = elim (Bool-cases (reverts c)) [
  | inr skip ↦ let ih = revert_from-Reverted runs changes r in ground (arith)
  | inl q ↦ elim (Bool-cases (runs c.revert_cmd)) [
    | inl works ↦
        let r' = record r {
          reverted_changes = r.reverted_changes + 1;
          commands = r.commands ++ (c.revert_cmd ∷ []);
        } in
        let ih = revert_from-Reverted runs changes r' in
        ground (arith, append_assoc r.commands (c.revert_cmd ∷ []) (commands_of changes))
    | inr breaks ↦
        let r' = record r {
          failed_changes = r.failed_changes + 1;
          errors = r.errors ++ (c.change_type ∷ []);
          commands = r.commands ++ (c.revert_cmd ∷ []);
        } in
        let ih = revert_from-Reverted runs changes r' in
        ground (
          arith,
          append_assoc r.commands (c.revert_cmd ∷ []) (commands_of changes),
          length-append r.errors (c.change_type ∷ []),
        )
  ]
]

length-commands_of :
    (runs : String → Bool) (changes : List Change)
    → count_where (succeeds runs) changes + count_where (fails runs) changes
      ≡ length (commands_of changes)
length-commands_of runs [] = refl
length-commands_of runs (c ∷ changes) = ground (arith, length-commands_of runs changes)

-- The parts of a rollback's result, for the changes in the order in which they were made.
pub record RolledBack (runs : String → Bool) (changes : List Change) (r : RollbackResult)
    : Type 0 where
  pub commands : r.commands ≡ commands_of (reverse changes)
  pub reverted : r.reverted_changes ≡ count_where (succeeds runs) (reverse changes)
  pub failed : r.failed_changes ≡ count_where (fails runs) (reverse changes)
  pub counted : r.reverted_changes + r.failed_changes ≡ length r.commands
  pub errors : length r.errors ≡ r.failed_changes
  pub total : r.total_changes ≡ length changes

from_empty :
    (runs : String → Bool) (changes : List Change)
    → RolledBack runs changes (revert_from runs (reverse changes) (no_result (length changes)))
from_empty runs changes =
    let d = revert_from-Reverted runs (reverse changes) (no_result (length changes)) in
    let n = length-commands_of runs (reverse changes) in
    record {
      commands = d.commands;
      reverted = omega (arith, d.reverted);
      failed = omega (arith, d.failed);
      counted = omega (arith, d.reverted, d.failed, n, ap length d.commands);
      errors = omega (arith, d.errors);
      total = d.total;
    }

-- A rollback that connects by the key runs the commands of the changes that are revertible and have
-- one, from the last change to the first. It counts those that succeed as reverted and the others as
-- failed, with an error for each of these, and stops at none; the total is the number of changes.
pub rollback_changes-reverts :
    (access : Access) (password : String) (runs : String → Bool) (changes : List Change)
    → access.key_connects ≡ true
    → ((rollback_changes access password runs changes).0 ≡ none)
      × RolledBack runs changes (rollback_changes access password runs changes).1
unfolding rollback_changes revert_from
rollback_changes-reverts access password runs [] h = (refl, from_empty runs [])
rollback_changes-reverts access password runs (c ∷ changes) h =
    let entered : rollback_changes access password runs (c ∷ changes)
        ≡ connected (connect access password) runs (c ∷ changes) =
      if-false (none, no_result 0) (connected (connect access password) runs (c ∷ changes))
        (eqb (length (c ∷ changes)) 0) (ground arith) in
    let reached : connected (connect access password) runs (c ∷ changes)
        ≡ connected none runs (c ∷ changes) =
      ap (λ (o : Option RollbackError). connected o runs (c ∷ changes))
        (if-true none _ access.key_connects h) in
    subst
      (λ (r : Option RollbackError × RollbackResult).
        (r.0 ≡ none) × RolledBack runs (c ∷ changes) r.1)
      (sym (entered ∙ reached)) (refl, from_empty runs (c ∷ changes))
