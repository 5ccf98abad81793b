-- ===== src/Rollout/Control/Outcome.antt =====
-- control-plane/internal/rollout/engine.go: what a pause and a resume leave of a row.
use icmp_mon.Base.{ℕ, Option, none, some, true, ltb, if◌then◌else◌}
use icmp_mon.Rollout.{wave_or_zero}
use icmp_mon.Rollout.Control.{Queries}

abbrev pub all_well : Queries
all_well = record { gets = true; updates = true }

abbrev stored_wave : Option ℕ → Option ℕ
stored_wave w = if ltb 0 (wave_or_zero w) then some (wave_or_zero w) else none
