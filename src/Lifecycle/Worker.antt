-- ===== src/Lifecycle/Worker.antt =====
-- control-plane/internal/worker/state_worker.go, with its queries in
-- control-plane/internal/store/store_subnets.go. Times and durations are in nanoseconds. A query
-- with ORDER BY sorts by insertion; rows with equal keys, whose order SQL leaves open, keep that of the
-- table. The order of addresses, which PostgreSQL defines, is a parameter. The texts of the reasons leave out the
-- duration that the code prints into them.
use icmp_mon.Base.{
  take, ℕ, ◌+◌, ◌*◌, String, List, [], ◌∷◌, map, Option, none, some, Bool, true, false,
  if◌then◌else◌, ltb, ◌==◌, keep, ◌&&◌, ◌||◌, not, any,
}
use icmp_mon.Types.Target.{
  Target, active, standby, down, unresponsive, excluded, is_null, is_active, is_customer, is_down,
  is_standby,
}
use icmp_mon.Lifecycle.{Db, update_target, transition_target_state, committed, same_state}

pub record Config : Type 0 where
  pub baseline_threshold : ℕ
  pub down_threshold : ℕ
  pub unresponsive_threshold : ℕ
  pub excluded_threshold : ℕ
  pub smart_recheck_enabled : Bool

abbrev pub minute : ℕ
minute = 60000000000

-- `DefaultStateWorkerConfig`
abbrev pub default_config : Config
default_config = record {
  baseline_threshold = minute;
  down_threshold = 15 * minute;
  unresponsive_threshold = 15 * minute;
  excluded_threshold = 24 * 60 * minute;
  smart_recheck_enabled = true;
}

-- `column < NOW() - $1::interval`, which NULL does not satisfy.
abbrev pub older : ℕ → ℕ → Option ℕ → Bool
older now threshold none = false
older now threshold (some at) = ltb (at + threshold) now

abbrev pub in_subnet : String → Target → Bool
in_subnet subnet t = elim t.subnet_id [ none ↦ false | some s ↦ s == subnet ]

-- ORDER BY, with `before a b` if `a` must stand before `b`.
unfoldable pub insert_row : (Target → Target → Bool) → Target → List Target → List Target
insert_row before t [] = t ∷ []
insert_row before t (r ∷ rows) = if before r t then r ∷ insert_row before t rows else t ∷ r ∷ rows

unfoldable pub order_by : (Target → Target → Bool) → List Target → List Target
unfolding insert_row
order_by before [] = []
order_by before (t ∷ rows) = insert_row before t (order_by before rows)

abbrev time_before : Option ℕ → Option ℕ → Bool
time_before (some a) (some b) = ltb a b
time_before (some a) none = true
time_before none b = false

-- `GetTargetsForBaselineCheck`
abbrev pub needs_baseline : ℕ → ℕ → Target → Bool
needs_baseline now threshold t =
    is_active t.monitoring_state
    && is_null t.archived_at
    && is_null t.baseline_established_at
    && older now threshold t.first_response_at

unfoldable pub targets_for_baseline : ℕ → ℕ → Db → List Target
unfolding order_by
targets_for_baseline now threshold db =
    order_by (λ a b. time_before a.first_response_at b.first_response_at)
      (keep (needs_baseline now threshold) db.targets)

-- `GetTargetsForDownTransition`
abbrev pub goes_down : ℕ → ℕ → Target → Bool
goes_down now threshold t =
    is_active t.monitoring_state
    && is_null t.archived_at
    && not (is_null t.baseline_established_at)
    && older now threshold t.last_response_at

unfoldable pub targets_for_down : ℕ → ℕ → Db → List Target
unfolding order_by
targets_for_down now threshold db =
    order_by (λ a b. time_before a.last_response_at b.last_response_at)
      (keep (goes_down now threshold) db.targets)

-- `GetTargetsForUnresponsiveTransition`
abbrev pub goes_unresponsive : ℕ → ℕ → Target → Bool
goes_unresponsive now threshold t =
    is_active t.monitoring_state
    && is_null t.archived_at
    && is_null t.baseline_established_at
    && older now threshold t.last_response_at

unfoldable pub targets_for_unresponsive : ℕ → ℕ → Db → List Target
unfolding order_by
targets_for_unresponsive now threshold db =
    order_by (λ a b. time_before a.last_response_at b.last_response_at)
      (keep (goes_unresponsive now threshold) db.targets)

-- `GetTargetsForExcludedTransition`
abbrev pub goes_excluded : ℕ → ℕ → Target → Bool
goes_excluded now threshold t =
    is_down t.monitoring_state
    && is_null t.archived_at
    && ltb (t.state_changed_at + threshold) now
    && (is_null t.ip_type || is_customer t.ip_type)

unfoldable pub targets_for_excluded : ℕ → ℕ → Db → List Target
unfolding order_by
targets_for_excluded now threshold db =
    order_by (λ a b. ltb a.state_changed_at b.state_changed_at)
      (keep (goes_excluded now threshold) db.targets)

-- `SetTargetBaseline`
unfoldable pub set_target_baseline : ℕ → String → Db → Db
unfolding update_target
set_target_baseline now id db = record db {
  targets = update_target id (λ t. record t { baseline_established_at = some now }) db.targets;
}

-- `GetSubnetRepresentative`
abbrev pub represents : String → Target → Bool
represents subnet t =
    in_subnet subnet t && t.is_representative && is_customer t.ip_type && is_null t.archived_at

-- `ElectRepresentative`
unfoldable pub elect_representative : ℕ → String → String → Db → Db
unfolding update_target
elect_representative now subnet id db =
    let cleared =
      map
        (λ t.
          if in_subnet subnet t && t.is_representative
          then record t { is_representative = false }
          else t)
        db.targets in
    record db {
      targets =
          update_target id
            (λ t. record t {
              is_representative = true;
              monitoring_state = active;
              state_changed_at = now;
            })
            cleared;
    }

-- `TransitionTargetToStandby`
unfoldable pub transition_target_to_standby : ℕ → String → Db → Db
unfolding update_target
transition_target_to_standby now id db = record db {
  targets =
      update_target id (λ t. record t { monitoring_state = standby; state_changed_at = now })
        db.targets;
}

-- `electRepresentativeIfNeeded`
unfoldable pub elect_representative_if_needed : ℕ → Target → Db → Db
unfolding elect_representative transition_target_to_standby
elect_representative_if_needed now target db = elim target.subnet_id [
  | none ↦ db
  | some subnet ↦
      if any (represents subnet) db.targets
      then transition_target_to_standby now target.id db
      else elect_representative now subnet target.id db
]

-- The body of the loop of `establishBaselines`.
unfoldable pub establish_baseline : ℕ → Target → Db → Db
unfolding set_target_baseline elect_representative_if_needed
establish_baseline now t db =
    let based = set_target_baseline now t.id db in
    if is_customer t.ip_type then elect_representative_if_needed now t based else based

-- A loop over the rows of a query.
abbrev pub each : (Target → Db → Db) → List Target → Db → Db
each f [] db = db
each f (t ∷ ts) db = each f ts (f t db)

-- `establishBaselines`
unfoldable pub establish_baselines : ℕ → ℕ → Db → Db
unfolding targets_for_baseline establish_baseline
establish_baselines now threshold db =
    each (establish_baseline now) (targets_for_baseline now threshold db) db

-- `transitionToUnresponsive`
unfoldable pub transition_to_unresponsive : ℕ → ℕ → Db → Db
unfolding targets_for_unresponsive
transition_to_unresponsive now threshold db =
    each
      (λ t d. committed d (
        transition_target_state now t.id unresponsive "no probe response (no baseline established)"
          "state_worker" d))
      (targets_for_unresponsive now threshold db) db

-- `transitionToExcluded`
unfoldable pub transition_to_excluded : ℕ → ℕ → Db → Db
unfolding targets_for_excluded
transition_to_excluded now threshold db =
    each
      (λ t d.
        committed d (transition_target_state now t.id excluded "unresponsive" "state_worker" d))
      (targets_for_excluded now threshold db) db

-- `GetTargetsForSmartRecheck` selects 23 columns and `scanTargets` scans 24: a row that is found
-- is an error, and the worker then queues nothing.
unfoldable pub needs_smart_recheck : Db → Target → Bool
needs_smart_recheck db t =
    (same_state t.monitoring_state excluded || same_state t.monitoring_state unresponsive)
    && is_null t.archived_at
    && not (t.tier == "smart_recheck")
    && elim t.subnet_id [
      | none ↦ false
      | some subnet ↦ not (
          any
            (λ a.
              in_subnet subnet a
              && is_null a.archived_at
              && is_active a.monitoring_state
              && is_customer a.ip_type)
            db.targets)
    ]

unfoldable pub targets_for_smart_recheck : Db → Option (List Target)
unfolding needs_smart_recheck
targets_for_smart_recheck db = if any (needs_smart_recheck db) db.targets then none else some []

-- `SetTargetTier`
unfoldable pub set_target_tier : String → String → Db → Db
unfolding update_target
set_target_tier id tier db = record db {
  targets = update_target id (λ t. record t { tier = tier }) db.targets;
}

-- `queueSmartRecheck`
unfoldable pub queue_smart_recheck : Db → Db
unfolding targets_for_smart_recheck set_target_tier
queue_smart_recheck db = elim (targets_for_smart_recheck db) [
  | none ↦ db
  | some ts ↦ each (λ t. set_target_tier t.id "smart_recheck") (take 1000 ts) db
]

module _ (ip_before : String → String → Bool) where
  -- The oldest standby target of the subnet.
  unfoldable pub oldest_standby : String → Db → Option Target
  oldest_standby subnet db =
      elim (order_by
        (λ a b.
          time_before a.baseline_established_at b.baseline_established_at
          || (not (time_before b.baseline_established_at a.baseline_established_at)
              && ip_before a.ip b.ip))
        (keep (λ t. in_subnet subnet t && is_standby t.monitoring_state && is_null t.archived_at)
          db.targets)) [ [] ↦ none | t ∷ _ ↦ some t ]

  -- `PromoteStandbyToRepresentative`, with the target that it promotes.
  unfoldable pub promote_standby_to_representative : ℕ → String → Db → Option (Target × Db)
  promote_standby_to_representative now subnet db = elim (oldest_standby subnet db) [
    | none ↦ none
    | some t ↦ some (
      t,
      record db {
        targets =
            update_target t.id
              (λ r. record r {
                is_representative = true;
                monitoring_state = active;
                state_changed_at = now;
              })
              db.targets;
      },
    )
  ]

  -- `handleRepresentativeFailure`
  unfoldable pub handle_representative_failure : ℕ → Target → Db → Db
  handle_representative_failure now target db = elim target.subnet_id [
    | none ↦ db
    | some subnet ↦ elim (promote_standby_to_representative now subnet db) [
      | none ↦ db
      | some (promoted, d) ↦ d
    ]
  ]

  -- The body of the loop of `transitionToDown`.
  unfoldable pub take_down : ℕ → Target → Db → Db
  take_down now t db =
      elim (transition_target_state now t.id down "no probe response" "state_worker" db) [
        | none ↦ db
        | some d ↦ if t.is_representative then handle_representative_failure now t d else d
      ]

  -- `transitionToDown`
  unfoldable pub transition_to_down : ℕ → ℕ → Db → Db
  transition_to_down now threshold db = each (take_down now) (targets_for_down now threshold db) db

  -- `runOnce`
  unfoldable pub run_once : Config → ℕ → Db → Db
  run_once config now db =
      let moved_on = transition_to_excluded now config.excluded_threshold (
        transition_to_unresponsive now config.unresponsive_threshold (
          transition_to_down now config.down_threshold
            (establish_baselines now config.baseline_threshold db))) in
      if config.smart_recheck_enabled then queue_smart_recheck moved_on else moved_on
