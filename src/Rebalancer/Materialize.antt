-- ===== src/Rebalancer/Materialize.antt =====
-- `MaterializeAllAssignmentsWithCount` with `DeleteAllAssignments` and `BulkCreateAssignments`: the
-- table is emptied and filled with the assignments of every target, in batches.
use icmp_mon.Base.{
  ℕ, zero, suc, ◌+◌, String, List, [], ◌∷◌, ◌++◌, map, Option, none, some, Bool, true, false, not,
  if◌then◌else◌, eqb, ◌==◌, length, take, drop, lookup, keep,
}
use icmp_mon.Types.Agent.{Agent, is_active}
use icmp_mon.Types.Tier.{Tier}
use icmp_mon.Types.Target.{Target, is_null}
use icmp_mon.Assignments.{filter_agents, select_agents_for_target, not_empty}
use icmp_mon.Rebalancer.{TargetAssignment, AssignedBy, Db, assignment_for, tier_map}

-- The count of a policy, with the default.
abbrev pub count_or_default : Tier → ℕ
count_or_default tier = if eqb tier.agent_selection.count 0 then 4 else tier.agent_selection.count

-- The agents of one target; `none` is an index out of range.
unfoldable pub selected_agents : List Agent → Tier → Target → Option (List Agent)
unfolding filter_agents select_agents_for_target
selected_agents active tier target =
    let eligible = filter_agents active tier.agent_selection in
    if not (not_empty eligible)
    then some []
    else if tier.agent_selection.strategy == "all"
    then some eligible
    else select_agents_for_target target.ip eligible (count_or_default tier)

abbrev pub initial_for : Target → Tier → Agent → TargetAssignment
initial_for target tier agent = assignment_for target.id agent.id tier.name AssignedBy.initial

abbrev pub assignments_with : Target → Tier → Option (List Agent) → Option (List TargetAssignment)
assignments_with target tier none = none
assignments_with target tier (some agents) = some (map (initial_for target tier) agents)

abbrev pub found_with : List Agent → Target → Option Tier → Option (List TargetAssignment)
found_with active target none = some []
found_with active target (some tier) =
    assignments_with target tier (selected_agents active tier target)

-- The body of the loop over the targets.
unfoldable pub assignments_of_target :
    List Agent → List (String × Tier) → Target → Option (List TargetAssignment)
unfolding selected_agents
assignments_of_target active tiers target =
    if not (is_null target.archived_at)
    then some []
    else found_with active target (lookup target.tier tiers)

abbrev pub append_found :
    Option (List TargetAssignment) → Option (List TargetAssignment) → Option (List TargetAssignment)
append_found none rest = none
append_found (some found) none = none
append_found (some found) (some rest) = some (found ++ rest)

-- `allAssignments`
unfoldable pub collect_assignments :
    List Agent → List (String × Tier) → List Target → Option (List TargetAssignment)
unfolding assignments_of_target
collect_assignments active tiers [] = some []
collect_assignments active tiers (target ∷ targets) =
    append_found (assignments_of_target active tiers target)
      (collect_assignments active tiers targets)

-- The rows of a batch get the next generated ids, and one time.
abbrev pub with_ids : (ℕ → String) → ℕ → ℕ → List TargetAssignment → List TargetAssignment
with_ids ids at k [] = []
with_ids ids at k (a ∷ batch) =
    record a { id = ids k; assigned_at = at } ∷ with_ids ids at (k + 1) batch

-- The outcome of the inserts: the number of rows created, and whether every batch was.
pub record Inserted : Type 0 where
  pub created : ℕ
  pub complete : Bool
  pub db : Db

-- The loop over the batches; `copies` tells of each whether `BulkCreateAssignments` succeeds. `fuel`
-- bounds the number of batches, and stops with what is created so far.
unfoldable pub insert_batches :
    (ℕ → String) → ℕ → (ℕ → Bool) → ℕ → ℕ → List TargetAssignment → ℕ → Db → Inserted
insert_batches ids size copies fuel offset [] created db = record {
  created = created;
  complete = true;
  db = db;
}
insert_batches ids size copies zero offset (a ∷ assignments) created db = record {
  created = created;
  complete = false;
  db = db;
}
insert_batches ids size copies (suc fuel) offset (a ∷ assignments) created db =
    let batch = take size (a ∷ assignments) in
    let next = record db {
      rows = db.rows ++ with_ids ids (db.clock db.generated) db.generated batch;
      generated = db.generated + length batch;
    } in
    elim (copies offset) [
      | false ↦ record { created = created; complete = false; db = db }
      | true ↦
          insert_batches ids size copies fuel (offset + size) (drop size (a ∷ assignments))
            (created + length batch) next
    ]

abbrev pub batch_size : ℕ
batch_size = 10000

-- What follows the three listings, on the emptied table.
abbrev pub fill :
    (ℕ → String) → (ℕ → Bool) → Option (List TargetAssignment) → Db → Option Inserted × Db
unfolding insert_batches
fill ids copies none empty = (none, empty)
fill ids copies (some all) empty =
    let inserted = insert_batches ids batch_size copies (length all) 0 all 0 empty in
    (some inserted, inserted.db)

abbrev pub active_of : List Agent → List Agent
active_of agents = keep (λ agent. is_active agent.status) agents

abbrev pub materialize_into :
    (ℕ → String)
    → (ℕ → Bool)
    → Option (List Target)
    → Option (List Agent)
    → Option (List Tier)
    → Db
    → Option Inserted × Db
unfolding collect_assignments insert_batches
materialize_into ids copies none agents tiers empty = (none, empty)
materialize_into ids copies (some targets) none tiers empty = (none, empty)
materialize_into ids copies (some targets) (some agents) none empty = (none, empty)
materialize_into ids copies (some targets) (some agents) (some tiers) empty =
    fill ids copies (collect_assignments (active_of agents) (tier_map tiers) targets) empty

-- `MaterializeAllAssignmentsWithCount`, with the answers of its queries. After an error the table
-- is as it then is.
unfoldable pub materialize_all :
    (ℕ → String)
    → (ℕ → Bool)
    → Bool
    → Option (List Target)
    → Option (List Agent)
    → Option (List Tier)
    → Db
    → Option Inserted × Db
unfolding collect_assignments insert_batches
materialize_all ids copies clears targets agents tiers db =
    if not clears
    then (none, db)
    else materialize_into ids copies targets agents tiers (record db { rows = [] })
