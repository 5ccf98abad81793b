-- ===== src/Lib.antt =====
-- icmp-mon: a monitoring system. A control plane assigns targets to agents, agents probe them and
-- ship results, workers evaluate the results and move targets and alerts through their states, and
-- new agent versions are rolled out in waves. This library models the decisions of these parts.
--
--   Base         tests on numbers and strings, lists, and the lemmas that the parts share
--   Types        pkg/types: the records and enumerations; Tier.Validate, AlertMatch.Matches
--   Assignments  control-plane/internal/service/service.go (isEligible, filterAgents,
--                selectAgentsForTarget, simpleHash, shouldAssign, calculateAssignments) and
--                state_machine.go (GetEffectiveTier). An agent asks for its assignments; each agent
--                decides for itself by the same deterministic choice, so that the fleet agrees.
--                Specified says in other terms what GetEffectiveTier and shouldAssign decide.
--   Rollout      control-plane/internal/rollout/engine.go, with the table of update states
--                (control-plane/internal/store/rollout.go) and the conversions of
--                control-plane/cmd/server/main.go. Table is the table and the wait for a wave,
--                Waves the staged and canary runs, Notices the answer to an
--                agent that asks for an update, Control the pause, the resume, the rollback
--                and the end of an execution; Progress, Canary, Reports, Adapter and
--                Notices/Offers and Control/Outcome prove.
--   Lifecycle    control-plane/internal/service/state_machine.go (probe results) and
--                control-plane/internal/worker/state_worker.go (Worker), on the tables that
--                control-plane/internal/store/store_subnets.go keeps. Row describes the effect of a
--                probe on its row, Lookup and Rows are lemmas on the tables; Discovery, Invariant,
--                Cycle and Representatives prove.
--   Subnets      the two routines `calculateUsableIPs`, of
--                control-plane/internal/service/service_subnets.go and
--                control-plane/internal/worker/pilot_sync.go; Hosts proves.
--   Agent        agent/internal/shipper/shipper.go (Shipper, as steps that calls of Add and Flush interleave)
--                and agent/internal/scheduler/scheduler.go (Scheduler). Accounts proves of the shipper.
--   Alerts       control-plane/internal/store/store_alerts.go and
--                control-plane/internal/worker/alert_worker.go (Worker): alerts, their events and
--                their evolution. A float64 is a type parameter. Lookup and Replay have lemmas; Audit, Peak
--                and Resolutions prove.
--   Evaluator    control-plane/internal/worker/evaluator_worker.go (calculateState,
--                evaluatePairWithData): the status of a pair of agent and target from its statistics
--                and its baseline. A float64 is a type with the operations used; Streak proves.
--   Enrollment   control-plane/internal/enrollment/service.go, steps.go (Steps) and rollback.go
--                (Rollback), with the conversions of control-plane/cmd/server/main.go and the table
--                of control-plane/internal/store/enrollment.go. Requests starts, retries, resumes and
--                cancels, Run is the loop over the nine steps. The host, the keys and the
--                registration answer through the record `Enrollment.Host.Host`, for each step anew.
--                Frame has what a step changes; Progress, Retries, Sessions, Reverts and Reload prove.
--   Rebalancer   control-plane/internal/service/rebalancer.go, on the table of
--                control-plane/internal/store/store_assignments.go: the failover and the recovery of
--                an agent (Offers), and Materialize, which fills the table. It repeats the choice of
--                Assignments, and Agreement and Stored compare the two. Worker is
--                control-plane/internal/worker/assignment_worker.go, which calls the first two. Lookup
--                and Kept are lemmas on the table, Successor and Detection on the loops; Failover,
--                Handover, Recovery and Transitions prove.
--   Pilot        control-plane/internal/worker/pilot_sync.go (Sync, Seeding): the subnets follow the
--                IP pools of Pilot, on the tables of control-plane/internal/store. Keyed, Lookup and Following
--                show what the subnets become, Archived and Retired what is archived, Cancelled what a
--                cancelled service leaves, Untyped what the table does not keep. The usable addresses
--                are those of Subnets; the parsing of addresses and the ids are parameters.
--
-- Native naturals stand for counts, durations (nanoseconds) and times; a uint32 accumulator is
-- reduced by `% 2 ^ 32`. Maps are association lists. A query of the database is a parameter or an
-- argument of the operation that uses its answer, and `none` is a failed query. Time, cancellation
-- and the agents' reports reach a rollout through the record `Rollout.Waves.Env`; a wait reads a
-- list of events and returns `still_waiting` where the list ends before it decides. Two
-- loops with a step count their rounds: the hosts of a network, whose number the code computes, and
-- the batches of a probe cycle, where the number of targets is enough; the inserts of a
-- materialization count down from the number of assignments.
--
-- Not modelled: the HTTP handlers, the shell commands of the SSH installer, secrets, the client of
-- Pilot, the metrics queries, the agent's updater and the user interface, which move data between
-- libraries.
pub mod Base
pub mod Types
pub mod Assignments
pub mod Rollout
pub mod Lifecycle
pub mod Subnets
pub mod Agent
pub mod Alerts
pub mod Evaluator
pub mod Enrollment
pub mod Rebalancer
pub mod Pilot
