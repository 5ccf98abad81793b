-- ===== src/Evaluator/Examples.antt =====
-- Three observations of one pair, with natural numbers for float64.
use icmp_mon.Base.{ℕ, ◌-◌, ◌/◌, ◌≡◌, ltb, leb, refl, [], ◌∷◌, Option, none, some, arith}
use icmp_mon.Evaluator.{
  FloatOps, Config, TargetState, level_of, status_of, evaluate_pair_with_data, down, Status,
}
use icmp_mon.Evaluator.Streak.{Observation, Observed, state_after, state_after-run}

abbrev ops : FloatOps ℕ
ops = record {
  at_least = λ a b. leb b a;
  positive = λ a. ltb 0 a;
  subtract = λ a b. a - b;
  divide = λ a b. a / b;
  hundred = 100;
}

abbrev config : Config ℕ
config = record {
  min_samples_for_baseline = 10;
  z_score_warning_threshold = 3;
  z_score_critical_threshold = 5;
  packet_loss_warning_pct = 5;
  packet_loss_critical_pct = 20;
  consecutive_failures_for_down = 3;
}

abbrev losing : ℕ → ℕ → Observation ℕ
losing time loss = record {
  time = time;
  stats = record {
    total_count = 5;
    success_count = 4;
    packet_loss_pct = loss;
    avg_latency_ms = 7;
    max_latency_ms = 9;
    p50_latency_ms = 7;
    p95_latency_ms = 8;
    stddev_ms = 1;
    last_probe_time = time;
  };
  baseline = none;
}

abbrev status_in : Option (TargetState ℕ) → Option Status
status_in none = none
status_in (some s) = some s.status

state_after-run_example :
    (s : TargetState ℕ) × Observed ops config
      (losing 4 50)
      (losing 3 10 ∷ losing 2 10 ∷ losing 1 0 ∷ [])
      s
state_after-run_example =
    state_after-run ops config (losing 4 50) (losing 3 10 ∷ losing 2 10 ∷ losing 1 0 ∷ [])
      (ground arith)

down_after_three :
    status_in (state_after ops config (losing 4 50 ∷ losing 3 10 ∷ losing 2 10 ∷ losing 1 0 ∷ []))
    ≡ some down
unfolding level_of status_of evaluate_pair_with_data
down_after_three = refl
