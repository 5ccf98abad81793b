-- ===== src/Agent/Examples.antt =====
-- A small buffer and a few assignments, on which the theorems about the agent are used.
use icmp_mon.Base.{ℕ, ◌≡◌, refl, String, List, [], ◌∷◌, none, true, false, arith, All}
use icmp_mon.Types.Probe.{Assignment}
use icmp_mon.Agent.Shipper.{
  flush_answered, flush, send_signal, Event, adds, signals, flushes, flush_settles, received_signal,
  context_done, takes, answered, new_shipper, run, step, add, on_select, take_buffer, settle,
}
use icmp_mon.Agent.Accounts.{Accounted, run-Accounted}
use icmp_mon.Agent.Scheduler.{batches, concat, Sized, batches-concat}

-- Two results fill the buffer, a call of `Flush` takes them before their signal is sent, a third comes
-- while they are on their way, and the shutdown ships it.
abbrev events : List (Event ℕ)
events =
    adds (1 ∷ 2 ∷ [])
    ∷ flushes
    ∷ signals
    ∷ received_signal
    ∷ takes
    ∷ adds (3 ∷ [])
    ∷ flush_settles 0 true
    ∷ context_done
    ∷ takes
    ∷ answered false
    ∷ []

shipped_two : (run 2 events (new_shipper {A = ℕ})).shipped ≡ 2
unfolding run step add on_select take_buffer settle send_signal flush flush_answered
shipped_two = refl

run-Accounted_example : Accounted 2 (run 2 events (new_shipper {A = ℕ}))
run-Accounted_example =
    run-Accounted 2 events (new_shipper {A = ℕ}) (omega arith)
      (record { in_order = refl; counted = refl; signal = λ h. absurd (omega (arith, h)) })

abbrev three : List ℕ
three = 1 ∷ 2 ∷ 3 ∷ []

batches-concat_example : (concat (batches three 2) ≡ three) × All (Sized 2) (batches three 2)
batches-concat_example = batches-concat three 2 (omega arith)

abbrev probe : String → String → Assignment
probe id tier = record {
  target_id = id;
  ip = id;
  tier = tier;
  probe_type = "icmp_ping";
  probe_interval = 30;
  probe_timeout = 5;
  probe_retries = 0;
  probe_params = "";
  tags = [];
  expected_outcome = none;
}
