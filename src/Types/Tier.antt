-- ===== src/Types/Tier.antt =====
-- pkg/types/types.go: `Tier`, `AgentSelectionPolicy`, `DiversityRequirement`, `ExpectedOutcome`,
-- and `Tier.Validate`.
use icmp_mon.Base.{ℕ, String, List, Option, none, some, Bool, if◌then◌else◌, leb, not, ◌&&◌, ◌==◌}

pub record ExpectedOutcome : Type 0 where
  pub should_succeed : Bool
  pub alert_severity : String
  pub alert_message : String

pub record DiversityRequirement : Type 0 where
  pub min_regions : ℕ
  pub min_providers : ℕ

pub record AgentSelectionPolicy : Type 0 where
  pub strategy : String
  pub count : ℕ
  pub regions : List String
  pub exclude_regions : List String
  pub providers : List String
  pub require_tags : List (String × String)
  pub exclude_tags : List (String × String)
  pub diversity : Option DiversityRequirement

pub record Tier : Type 0 where
  pub name : String
  pub display_name : String
  pub probe_interval : ℕ
  pub probe_timeout : ℕ
  pub probe_retries : ℕ
  pub agent_selection : AgentSelectionPolicy
  pub default_expected_outcome : Option ExpectedOutcome

pub data TierError : Type 0 where
  name_required interval_not_positive timeout_not_positive bad_strategy count_not_positive :
      TierError

-- `Tier.Validate`; `none` is the nil error.
unfoldable pub validate : Tier → Option TierError
validate t =
    if t.name == ""
    then some name_required
    else if leb t.probe_interval 0
    then some interval_not_positive
    else if leb t.probe_timeout 0
    then some timeout_not_positive
    else if not (t.agent_selection.strategy == "all")
        && not (t.agent_selection.strategy == "distributed")
    then some bad_strategy
    else if (t.agent_selection.strategy == "distributed") && leb t.agent_selection.count 0
    then some count_not_positive
    else none
