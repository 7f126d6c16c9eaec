-- ===== src/SyncGate.antt =====
-- crates/quip-dashboard/src/indexer/sync_gate.rs: when the backfill pauses. The sync state of the
-- validator is the one bit that the gate asks of it.
pub mod Hysteresis
use dashboard_quip_network.Prelude.{
  ℕ, ◌-◌, ◌/◌, Bool, true, false, ◌||◌, List, [], ◌∷◌, leb, ltb, ◌==◌, if◌then◌else◌,
}
use dashboard_quip_network.Prelude.Words.{u64_max, saturating_add}

abbrev pub latency_ceiling_micros : ℕ
latency_ceiling_micros = 5000000

abbrev pub live_lag_bound : ℕ
live_lag_bound = 32

abbrev pub resume_hysteresis : ℕ
resume_hysteresis = 10

pub record SyncGate : Type 0 where
  pub in_sync_runs : ℕ

pub record SyncGateDecision : Type 0 where
  pub paused : Bool

-- `SyncGate::default`
abbrev pub default : SyncGate
default = record { in_sync_runs = 0 }

-- The metrics of one RPC method; `elapsed_micros` is a u128.
pub record MethodMetrics : Type 0 where
  pub calls : ℕ
  pub elapsed_micros : ℕ

pub record Sample : Type 0 where
  pub average_micros : ℕ

-- The loop of `from_metrics`: the saturating sums of the microseconds and of the calls.
unfoldable pub sum_metrics : ℕ → ℕ → List MethodMetrics → Sample
sum_metrics micros calls [] = record { average_micros = if calls == 0 then 0 else micros / calls }
sum_metrics micros calls (m ∷ ms) =
    sum_metrics
      (saturating_add micros (if leb m.elapsed_micros u64_max then m.elapsed_micros else u64_max))
      (saturating_add calls m.calls) ms

unfoldable pub from_metrics : List MethodMetrics → Sample
from_metrics ms = sum_metrics 0 0 ms

-- One call of `evaluate`: the validator's sync bit, both heads and the latency sample.
pub record Observation : Type 0 where
  pub syncing : Bool
  pub finalized : ℕ
  pub best : ℕ
  pub latency : Sample

-- `paused_now`; `best - finalized` is the saturating difference.
unfoldable pub paused_now : Observation → Bool
paused_now o =
    o.syncing
    || leb live_lag_bound (o.best - o.finalized)
    || ltb latency_ceiling_micros o.latency.average_micros

unfoldable pub evaluate : SyncGate → Observation → SyncGate × SyncGateDecision
evaluate gate o =
    let pause = paused_now o in
    let runs = if pause then 0 else saturating_add gate.in_sync_runs 1 in
    (
      record { in_sync_runs = runs },
      record { paused = if pause then true else ltb runs resume_hysteresis },
    )
