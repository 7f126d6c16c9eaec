-- ===== src/Admission.antt =====
-- crates/quip-dashboard/src/indexer/admission.rs: counted permits for live and backfill work.
-- The two counters are atomics, so each operation is a sequence of the atomic steps `claim` and
-- `wrapping_sub`; the functions here run them in a row, and `Steps` interleaves them.
pub mod Steps
use dashboard_quip_network.Prelude.{
  ℕ, ◌+◌, ◌-◌, Bool, true, false, ◌||◌, leb, ltb, ◌==◌, if◌then◌else◌, Result, ok, err, ◌>>◌, ◌>>=◌,
  refuse_if,
}
use dashboard_quip_network.Prelude.Words.{wrapping_sub}

pub data AdmissionError : Type 0 where
  full invalid_capacity : AdmissionError

pub record State : Type 0 where
  pub total : ℕ
  pub backfill : ℕ
  pub active : ℕ
  pub backfill_active : ℕ

-- A permit shares the state of its admission; it owns the flag.
pub record Permit : Type 0 where
  pub backfill : Bool

-- `Admission::default`
unfoldable pub default : State
default = record { total = 64; backfill = 56; active = 0; backfill_active = 0 }

unfoldable pub new : ℕ → ℕ → Result AdmissionError State
new total reserved_live = do
  refuse_if (total == 0 || ltb total reserved_live) invalid_capacity
  ok (record { total = total; backfill = total - reserved_live; active = 0; backfill_active = 0 })

-- The new value of the counter; a failed `fetch_update` leaves the counter as it is.
unfoldable pub claim : ℕ → ℕ → Result AdmissionError ℕ
claim counter limit = if ltb counter limit then ok (counter + 1) else err full

unfoldable pub try_live : State → Result AdmissionError (Permit × State)
try_live s = do
  active ← claim s.active s.total
  ok (record { backfill = false }, record s { active = active })

-- The second claim of `try_backfill`. When it fails, the first is taken back.
unfoldable pub finish_backfill :
    State → Result AdmissionError ℕ → State × Result AdmissionError Permit
finish_backfill s (ok active) = (record s { active = active }, ok (record { backfill = true }))
finish_backfill s (err e) = (record s { backfill_active = wrapping_sub s.backfill_active 1 }, err e)

unfoldable pub try_backfill : State → State × Result AdmissionError Permit
try_backfill s = elim (claim s.backfill_active s.backfill) [
  | ok held ↦ finish_backfill (record s { backfill_active = held }) (claim s.active s.total)
  | err e ↦ (s, err e)
]

-- `Permit::drop`
unfoldable pub release : Permit → State → State
release p s =
    let t = record s { active = wrapping_sub s.active 1 } in
    if p.backfill then record t { backfill_active = wrapping_sub t.backfill_active 1 } else t
