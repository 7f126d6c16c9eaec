-- ===== src/Examples/Workers.antt =====
-- Runs of the backend's permits, pause gate, health and byte budgets.
use dashboard_quip_network.Prelude.{
  ◌+◌, ◌≤◌, ◌≡◌, ◌↔◌, refl, true, false, not, ◌||◌, some, List, [], ◌∷◌, arith, ok, err, is_some,
}
use dashboard_quip_network.Admission
use dashboard_quip_network.Admission.{
  Permit, AdmissionError, full, claim, try_live, try_backfill, finish_backfill, release,
}
use dashboard_quip_network.Admission.Steps as Permits
use dashboard_quip_network.Admission.Steps.{
  System, Step, Reach, idle, Reach-bounded, live_reserve, idle_counters, try_backfill-refused,
  release-try_backfill,
}
use dashboard_quip_network.SyncGate.{
  Observation, MethodMetrics, evaluate, paused_now, resume_hysteresis,
}
use dashboard_quip_network.SyncGate.Hysteresis.{gate_after, CalmFor, resumes_iff}
use dashboard_quip_network.Health
use dashboard_quip_network.Health.{
  snapshot, task_exited, file_writer, connecting, ready, from_secs, elapsed,
}
use dashboard_quip_network.Health.Progress
use dashboard_quip_network.Health.Progress.{
  Event, run, behind, is_current, run-waiting, snapshot-ready_iff,
}
use dashboard_quip_network.Budget
use dashboard_quip_network.Budget.{Kind, Charge, counter, limit}
use dashboard_quip_network.Budget.Steps as Charges
use dashboard_quip_network.Budget.Steps.{Reach-IsBalanced, held}

-- Four permits, one of them reserved for live work.
abbrev four : Admission.State
four = record { total = 4; backfill = 3; active = 0; backfill_active = 0 }

four_made : Admission.new 4 1 ≡ ok four
unfolding Admission.new
four_made = refl

-- A backfill permit is on its way.
abbrev reserving : System
reserving = record {
  state = record four { backfill_active = 1 };
  live = 0;
  backfill = 0;
  reserving = 1;
  refused = 0;
  releasing = 0;
}

reserving_reached : Permits.Reach (idle four) reserving
unfolding claim
reserving_reached = Permits.next Permits.here (Permits.backfill_claimed refl)

Reach-bounded_example :
    (reserving.state.active ≡ reserving.live + reserving.backfill)
    × (reserving.live + reserving.backfill ≤ 4)
    × (reserving.backfill + 1 ≤ 4)
Reach-bounded_example = Reach-bounded 4 1 four reserving (omega arith) four_made reserving_reached

live_reserve_example :
    try_live reserving.state
    ≡ ok (
      record { backfill = false },
      record (reserving.state) { active = reserving.state.active + 1 },
    )
live_reserve_example =
    live_reserve 4 1 four reserving (omega arith) four_made reserving_reached (omega arith)

-- The backfill permit is admitted, dropped and released.
abbrev finished : System
finished = idle four

finished_reached : Permits.Reach (idle four) finished
unfolding claim
finished_reached =
    Permits.next
      (Permits.next (Permits.next reserving_reached (Permits.backfill_admitted (omega arith) refl))
        (Permits.backfill_dropped (omega arith)))
      (Permits.backfill_released (omega arith))

abbrev busy : Admission.State
busy = record { total = 4; backfill = 3; active = 4; backfill_active = 1 }

busy_refuses : (try_backfill busy).1 ≡ err full
unfolding try_backfill finish_backfill claim
busy_refuses = refl

four_grants : (try_backfill four).1 ≡ ok (record { backfill = true })
unfolding try_backfill finish_backfill claim
four_grants = refl

abbrev calm : Observation
calm = record {
  syncing = false;
  finalized = 100;
  best = 102;
  latency = record { average_micros = 900 };
}

abbrev lagging : Observation
lagging = record {
  syncing = false;
  finalized = 100;
  best = 140;
  latency = record { average_micros = 900 };
}

resumes_iff_example :
    ((evaluate (gate_after (calm ∷ lagging ∷ [])) calm).1.paused ≡ false)
    ↔ CalmFor resume_hysteresis (calm ∷ calm ∷ lagging ∷ [])
resumes_iff_example = resumes_iff (calm ∷ lagging ∷ []) calm

lagging_pauses : paused_now lagging ≡ true
unfolding paused_now
lagging_pauses = refl

abbrev methods : List MethodMetrics
methods =
    record { calls = 3; elapsed_micros = 900 } ∷ record { calls = 1; elapsed_micros = 300 } ∷ []

abbrev started : List Event
started =
    Progress.phase_set ready
    ∷ Progress.connection true
    ∷ Progress.head (some 12) (some 10) 5 []
    ∷ Progress.commit 10 6 []
    ∷ Progress.head (some 13) (some 11) 7 []
    ∷ Progress.polled (b'z' ∷ []) 8
    ∷ []

run-waiting_example :
    is_some ((run started (Health.new true 0)).waiting) ≡ behind (run started (Health.new true 0))
run-waiting_example = run-waiting started true 0

snapshot-ready_iff_example :
    (((snapshot 9 (run started (Health.new true 0))).is_ready ≡ true) ↔ (
      ((run started (Health.new true 0)).dead ≡ [])
      × ((run started (Health.new true 0)).phase ≡ ready)
      × (elapsed 9 (run started (Health.new true 0)).watchdog ≤ from_secs 15)
      × ((not (run started (Health.new true 0)).indexing
            || is_current 9 (run started (Health.new true 0)))
          ≡ true)))
    × ((snapshot 9 (run started (Health.new true 0))).is_ready ≡ true
        → (snapshot 9 (run started (Health.new true 0))).live ≡ true)
snapshot-ready_iff_example = snapshot-ready_iff 9 (run started (Health.new true 0))

abbrev one_charge : Charge
one_charge = record { kind = Budget.response; bytes = 4096 }

abbrev one_budget : Budget.Budget
one_budget = record {
  response = 4096;
  metadata = 0;
  block = 0;
  peak = 4096;
  active = 0;
  active_block = 0;
}

charge_reached : Charges.Reach (one_budget, one_charge ∷ [])
unfolding Budget.default Budget.reserve Budget.admitted Budget.counter Budget.set_counter
    Budget.raise_peak Budget.limit
charge_reached =
    Charges.next (Budget.default, []) (one_budget, one_charge ∷ []) Charges.start
      (Charges.take Budget.response 4096 Budget.default one_budget one_charge [] refl)

Reach-IsBalanced_example :
    ((k : Kind)
      → (counter k one_budget ≡ held k (one_charge ∷ [])) × (held k (one_charge ∷ []) ≤ limit k))
    × (one_budget.response + one_budget.metadata + one_budget.block ≤ one_budget.peak)
Reach-IsBalanced_example = Reach-IsBalanced (one_budget, one_charge ∷ []) charge_reached
