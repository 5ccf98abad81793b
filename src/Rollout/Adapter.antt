-- ===== src/Rollout/Adapter.antt =====
-- The server's conversions between the engine's rollouts and the store's rows.
use icmp_mon.Base.{◌≡◌, arith}
use icmp_mon.Rollout.{Rollout, bare_config, to_store_rollout, to_rollout_rollout}

-- What the engine reads back of a rollout that it has stored: every count, time, state and audit
-- field is kept, and the current wave too; of the configuration only the strategy is left, with
-- every other setting at Go's zero value, and the version, the number of waves and the last error
-- are lost.
pub to_rollout-to_store :
    (r : Rollout)
    → to_rollout_rollout (to_store_rollout r) ≡ record r {
      version = "";
      config = bare_config r.config.strategy;
      total_waves = 0;
      last_error = "";
    }
unfolding to_rollout_rollout to_store_rollout
to_rollout-to_store r = ground arith
