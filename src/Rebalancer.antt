-- ===== src/Rebalancer.antt =====
-- control-plane/internal/service/rebalancer.go: the stored assignments of targets to agents, on the
-- table of control-plane/internal/store/store_assignments.go. The ids that the database generates are
-- a sequence; rows stand in the order of their insertion; a query's failure is an argument. Where
-- ORDER BY leaves the order of rows open, it is that of the table. The
-- eligibility, the filter, the selection and the hash repeat those of the service.
pub mod Offers
pub mod Materialize
pub mod Agreement
pub mod Stored
pub mod Lookup
pub mod Kept
pub mod Successor
pub mod Failover
pub mod Handover
pub mod Recovery
pub mod Worker
pub mod Detection
pub mod Transitions
mod Examples
use icmp_mon.Base.{
  ℕ, zero, suc, ◌+◌, String, List, [], ◌∷◌, ◌++◌, map, Option, none, some, Bool, true, false, not,
  if◌then◌else◌, ltb, eqb, ◌==◌, ◌&&◌, length, keep, any, lookup,
}
use icmp_mon.Types.Agent.{Agent, is_active}
use icmp_mon.Types.Tier.{Tier}
use icmp_mon.Types.Target.{Target}
use icmp_mon.Assignments.{is_eligible, filter_agents, select_agents_for_target, not_empty}

pub data AssignedBy : Type 0 where
  initial rebalancer failover manual : AssignedBy

pub record TargetAssignment : Type 0 where
  pub id : String
  pub target_id : String
  pub agent_id : String
  pub tier : String
  pub assigned_at : ℕ
  pub assigned_by : AssignedBy

pub data Action : Type 0 where
  assigned unassigned reassigned : Action

pub record AssignmentHistory : Type 0 where
  pub target_id : String
  pub agent_id : String
  pub action : Action
  pub old_agent_id : String

-- The two tables, how many ids have been generated, and the time at which each of them is.
pub record Db : Type 0 where
  pub rows : List TargetAssignment
  pub history : List AssignmentHistory
  pub generated : ℕ
  pub clock : ℕ → ℕ

-- An assignment that is not stored yet: its id is empty, and its time is not set.
abbrev pub assignment_for : String → String → String → AssignedBy → TargetAssignment
assignment_for target_id agent_id tier by = record {
  id = "";
  target_id = target_id;
  agent_id = agent_id;
  tier = tier;
  assigned_at = 0;
  assigned_by = by;
}

abbrev pub same_pair : TargetAssignment → TargetAssignment → Bool
same_pair a row = row.target_id == a.target_id && row.agent_id == a.agent_id

-- `CreateAssignment` without an id: `ON CONFLICT (target_id, agent_id) DO UPDATE`.
unfoldable pub upsert : String → TargetAssignment → List TargetAssignment → List TargetAssignment
upsert new_id a [] = record a { id = new_id } ∷ []
upsert new_id a (row ∷ rows) =
    if same_pair a row
    then record row { tier = a.tier; assigned_at = a.assigned_at; assigned_by = a.assigned_by }
      ∷ rows
    else row ∷ upsert new_id a rows

-- `time.Now()` for the time of the assignment.
abbrev pub stamped : Db → TargetAssignment → TargetAssignment
stamped db a = record a { assigned_at = db.clock db.generated }

unfoldable pub create_assignment : (ℕ → String) → TargetAssignment → Db → Db
unfolding upsert
create_assignment ids a db = record db {
  rows = upsert (ids db.generated) (stamped db a) db.rows;
  generated = db.generated + 1;
}

-- `DeleteAssignment`
unfoldable pub delete_assignment : String → Db → Db
delete_assignment id db = record db { rows = keep (λ row. not (row.id == id)) db.rows }

-- `ORDER BY assigned_at`
unfoldable pub insert_by_time : TargetAssignment → List TargetAssignment → List TargetAssignment
insert_by_time a [] = a ∷ []
insert_by_time a (row ∷ rows) =
    if ltb row.assigned_at a.assigned_at then row ∷ insert_by_time a rows else a ∷ row ∷ rows

unfoldable pub by_time : List TargetAssignment → List TargetAssignment
unfolding insert_by_time
by_time [] = []
by_time (row ∷ rows) = insert_by_time row (by_time rows)

-- `GetAssignmentsByAgent`
unfoldable pub get_assignments_by_agent : String → List TargetAssignment → List TargetAssignment
unfolding by_time
get_assignments_by_agent agent_id rows = by_time (keep (λ row. row.agent_id == agent_id) rows)

-- `GetActiveAssignmentsByTarget`, whose order its caller does not look at; `online` is the database's
-- `is_agent_online`.
unfoldable pub get_active_assignments_by_target :
    (String → Bool) → String → List TargetAssignment → List TargetAssignment
get_active_assignments_by_target online target_id rows =
    keep (λ row. row.target_id == target_id && online row.agent_id) rows

-- `LogAssignmentHistory`, whose error is not looked at.
abbrev pub log_history : Bool → AssignmentHistory → Db → Db
log_history logs entry db = if logs then record db { history = db.history ++ (entry ∷ []) } else db

abbrev pub tier_map : List Tier → List (String × Tier)
tier_map tiers = map (λ tier. (tier.name, tier)) tiers

-- What the other tables and the database answer: the id that is generated next, a target by its id,
-- whether a row can be created, deleted, read or logged, and whether an agent is online.
pub record World : Type 0 where
  pub ids : ℕ → String
  pub get_target : String → Option Target
  pub creates : TargetAssignment → Bool
  pub deletes : String → Bool
  pub reads : String → Bool
  pub logs : Bool
  pub online : String → Bool

-- The first of a selection; an index out of range, which does not occur, selects nothing.
abbrev pub first_selected : Option (List Agent) → Option Agent
first_selected none = none
first_selected (some []) = none
first_selected (some (agent ∷ agents)) = some agent

abbrev pub successor_for : List Agent → Tier → Option Target → Option Agent
successor_for active tier none = none
successor_for active tier (some target) =
    let eligible = filter_agents active tier.agent_selection in
    if not (not_empty eligible)
    then none
    else first_selected (select_agents_for_target target.ip eligible 1)

abbrev pub successor_under : World → List Agent → TargetAssignment → Option Tier → Option Agent
successor_under world active a none = none
successor_under world active a (some tier) =
    successor_for active tier (world.get_target a.target_id)

-- The agent that takes over an assignment, or none where the loop goes on to the next assignment.
unfoldable pub successor :
    World → List Agent → List (String × Tier) → TargetAssignment → Option Agent
unfolding filter_agents select_agents_for_target
successor world active tiers a = successor_under world active a (lookup a.tier tiers)

abbrev pub moved : World → String → Agent → TargetAssignment → Db → Db
moved world failed_id agent a db =
    let created =
      create_assignment world.ids (assignment_for a.target_id agent.id a.tier AssignedBy.failover)
        db in
    let deleted = if world.deletes a.id then delete_assignment a.id created else created in
    log_history world.logs
      (record {
        target_id = a.target_id;
        agent_id = agent.id;
        action = Action.reassigned;
        old_agent_id = failed_id;
      })
      deleted

abbrev pub handed_to : World → String → TargetAssignment → Db → Option Agent → Db
handed_to world failed_id a db none = db
handed_to world failed_id a db (some agent) =
    if not (world.creates (assignment_for a.target_id agent.id a.tier AssignedBy.failover))
    then db
    else moved world failed_id agent a db

-- The body of the loop of `HandleAgentFailure`.
unfoldable pub redistribute :
    World → String → List Agent → List (String × Tier) → TargetAssignment → Db → Db
unfolding successor create_assignment delete_assignment
redistribute world failed_id active tiers a db =
    handed_to world failed_id a db (successor world active tiers a)

unfoldable pub redistribute_all :
    World → String → List Agent → List (String × Tier) → List TargetAssignment → Db → Db
unfolding redistribute
redistribute_all world failed_id active tiers [] db = db
redistribute_all world failed_id active tiers (a ∷ assignments) db =
    redistribute_all world failed_id active tiers assignments
      (redistribute world failed_id active tiers a db)

pub data FailoverError : Type 0 where
  no_assignments no_agents no_tiers no_active_agents : FailoverError

abbrev pub others : String → List Agent → List Agent
others failed_id agents =
    keep (λ agent. not (agent.id == failed_id) && is_active agent.status) agents

abbrev pub redistribute_to :
    World
    → String
    → List TargetAssignment
    → List Agent
    → Option (List Tier)
    → Db
    → Option FailoverError × Db
redistribute_to world failed_id assignments active none db = (some no_tiers, db)
redistribute_to world failed_id assignments active (some tiers) db =
    (none, redistribute_all world failed_id active (tier_map tiers) assignments db)

abbrev pub redistribute_among :
    World
    → String
    → List TargetAssignment
    → Option (List Agent)
    → Option (List Tier)
    → Db
    → Option FailoverError × Db
redistribute_among world failed_id assignments none tiers db = (some no_agents, db)
redistribute_among world failed_id assignments (some agents) tiers db =
    if eqb (length (others failed_id agents)) 0
    then (some no_active_agents, db)
    else redistribute_to world failed_id assignments (others failed_id agents) tiers db

-- `HandleAgentFailure`, with the answers of its three queries. An error comes before any change.
unfoldable pub handle_agent_failure :
    World
    → String
    → Bool
    → Option (List Agent)
    → Option (List Tier)
    → Db
    → Option FailoverError × Db
unfolding redistribute_all get_assignments_by_agent
handle_agent_failure world failed_id gets agents tiers db =
    let assignments = get_assignments_by_agent failed_id db.rows in
    if not gets
    then (some no_assignments, db)
    else if eqb (length assignments) 0
    then (none, db)
    else redistribute_among world failed_id assignments agents tiers db
