-- ===== src/Budget.antt =====
-- crates/quip-dashboard/src/chain/budget.rs: the byte budgets of the payloads in flight. The
-- counters are atomics of a 64-bit `usize`; an operation is the sequence of its atomic steps.
pub mod Steps
use dashboard_quip_network.Prelude.{
  ℕ, ◌+◌, ◌*◌, Bool, true, false, Option, none, some, max, leb, if◌then◌else◌,
}
use dashboard_quip_network.Prelude.Words.{wrapping_sub, checked_add}

pub data Kind : Type 0 where
  response metadata block active active_block : Kind

unfoldable pub limit : Kind → ℕ
limit response = 12 * 1024 * 1024
limit metadata = 8 * 1024 * 1024
limit block = 4 * 1024 * 1024
limit active = 64 * 1024 * 1024
limit active_block = 64 * 1024 * 1024

pub record Budget : Type 0 where
  pub response : ℕ
  pub metadata : ℕ
  pub block : ℕ
  pub peak : ℕ
  pub active : ℕ
  pub active_block : ℕ

-- `Budget::default()`
unfoldable pub default : Budget
default = record { response = 0; metadata = 0; block = 0; peak = 0; active = 0; active_block = 0 }

pub record Charge : Type 0 where
  pub kind : Kind
  pub bytes : ℕ

unfoldable pub counter : Kind → Budget → ℕ
counter response b = b.response
counter metadata b = b.metadata
counter block b = b.block
counter active b = b.active
counter active_block b = b.active_block

-- A write of the counter.
unfoldable pub set_counter : Kind → ℕ → Budget → Budget
set_counter response n b = record b { response = n }
set_counter metadata n b = record b { metadata = n }
set_counter block n b = record b { block = n }
set_counter active n b = record b { active = n }
set_counter active_block n b = record b { active_block = n }

-- The closure of `fetch_update`: the checked sum, kept while it is within the limit.
unfoldable pub admitted : Kind → ℕ → ℕ → Option ℕ
admitted kind bytes used = elim (checked_add used bytes) [
  | none ↦ none
  | some next ↦ if leb next (limit kind) then some next else none
]

-- The load of three counters and `peak.fetch_max(total)`.
unfoldable pub raise_peak : Budget → Budget
raise_peak b = record b { peak = max b.peak (b.response + b.metadata + b.block) }

unfoldable pub reserve : Kind → ℕ → Budget → Option (Charge × Budget)
reserve kind bytes b = elim (admitted kind bytes (counter kind b)) [
  | none ↦ none
  | some next ↦ some (record { kind = kind; bytes = bytes }, raise_peak (set_counter kind next b))
]

-- `impl Drop for Charge`
unfoldable pub drop : Charge → Budget → Budget
drop c b = set_counter c.kind (wrapping_sub (counter c.kind b) c.bytes) b

pub record PayloadMetrics : Type 0 where
  pub response_bytes : ℕ
  pub metadata_bytes : ℕ
  pub block_bytes : ℕ
  pub in_flight_bytes : ℕ
  pub peak_bytes : ℕ

unfoldable pub metrics : Budget → PayloadMetrics
metrics b = record {
  response_bytes = b.response;
  metadata_bytes = b.metadata;
  block_bytes = b.block;
  in_flight_bytes = b.active + b.active_block;
  peak_bytes = b.peak;
}
