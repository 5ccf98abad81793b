-- ===== src/Rollout/Notices.antt =====
-- engine.go, `ShouldUpdateAgent`: which rollout an agent that asks is told about, and how the notices
-- and the reports of the table of update states decide it.
pub mod Offers
use icmp_mon.Base.{
  ℕ, ◌≡◌, ◌≢◌, ◌↔◌, refl, sym, ap, ◌∙◌, String, List, [], ◌∷◌, map, Option, none, some, Bool, true,
  false, not, if◌then◌else◌, ◌==◌, ◌&&◌, ◌+++◌, ==_self, ==-false, ==_iff, any, branch, if-true,
  if-false, arith, Distinct, In, Bool-cases, subst, Option-cases, some-inj, inl, inr,
}
use icmp_mon.Rollout.{Rollout, Status, AgentUpdateState, UpdateStatus, Release}
use icmp_mon.Rollout.Table.{set_agent_state, notify_agent_update, report_agent_update}

pub record UpdateNotification : Type 0 where
  pub rollout_id : String
  pub release_id : String
  pub version : String
  pub checksum : String
  pub size : ℕ
  pub download_url : String

unfoldable pub notification_of : Rollout → Release → UpdateNotification
notification_of r release = record {
  rollout_id = r.id;
  release_id = r.release_id;
  version = release.version;
  checksum = release.checksum;
  size = release.size;
  download_url = "/api/v1/releases/" +++ r.release_id +++ "/download";
}

abbrev pub is_updating : UpdateStatus → Bool
is_updating UpdateStatus.updating = true
is_updating _ = false

abbrev pub is_in_progress : Status → Bool
is_in_progress Status.in_progress = true
is_in_progress _ = false

-- The loop over the states of one rollout; `release` answers `GetRelease`, `none` for an error too.
unfoldable pub notice_in :
    String → Option Release → Rollout → List AgentUpdateState → Option UpdateNotification
notice_in agent_id release r [] = none
notice_in agent_id release r (s ∷ states) =
    let rest = notice_in agent_id release r states in
    if s.agent_id == agent_id && is_updating s.status
    then elim release [ none ↦ rest | some found ↦ some (notification_of r found) ]
    else rest

-- What one pass of the loop over the rollouts finds; `none` is a failed query of the states.
unfoldable pub notice_of :
    String
    → (String → Option Release)
    → (String → Option (List AgentUpdateState))
    → Rollout
    → Option UpdateNotification
unfolding notice_in
notice_of agent_id release states_of r =
    if not (is_in_progress r.status) then none else elim (states_of r.id) [
      | none ↦ none
      | some states ↦ notice_in agent_id (release r.release_id) r states
    ]

abbrev pub first_notice :
    String
    → (String → Option Release)
    → (String → Option (List AgentUpdateState))
    → List Rollout
    → Option UpdateNotification
first_notice agent_id release states_of [] = none
first_notice agent_id release states_of (r ∷ rollouts) =
    let rest = first_notice agent_id release states_of rollouts in
    elim (notice_of agent_id release states_of r) [ none ↦ rest | some n ↦ some n ]

-- `ShouldUpdateAgent`, with the answer of `ListActiveRollouts`; an outer `none` is its error.
unfoldable pub should_update_agent :
    String
    → (String → Option Release)
    → (String → Option (List AgentUpdateState))
    → Option (List Rollout)
    → Option (Option UpdateNotification)
should_update_agent agent_id release states_of none = none
should_update_agent agent_id release states_of (some rollouts) =
    some (first_notice agent_id release states_of rollouts)

abbrev pub offers : String → List AgentUpdateState → Bool
offers agent_id = any (λ s. s.agent_id == agent_id && is_updating s.status)
