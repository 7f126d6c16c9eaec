-- ===== src/Admission/Steps.antt =====
-- Threads that share one `Admission`: every atomic operation of every thread is one step. `live`
-- and `backfill` count the permits held, the other counts the threads between two atomics.
use dashboard_quip_network.Prelude.{ℕ, ◌+◌, ◌-◌, ◌≤◌, ◌<◌, ◌≡◌, false, arith, ok, err}
use dashboard_quip_network.Prelude.Words.{wrapping_sub, u64_max}
use dashboard_quip_network.Admission.{
  AdmissionError, State, Permit, new, claim, try_live, try_backfill, finish_backfill, release,
}

pub record System : Type 0 where
  pub state : State
  pub live : ℕ
  pub backfill : ℕ
  -- holds a backfill slot, and is about to claim a global one
  pub reserving : ℕ
  -- was refused the global slot, and is about to give the backfill slot back
  pub refused : ℕ
  -- has dropped the global slot of a backfill permit, and is about to drop the backfill slot
  pub releasing : ℕ

abbrev set_active : System → ℕ → State
set_active t n = record (t.state) { active = n }

abbrev set_backfill_active : System → ℕ → State
set_backfill_active t n = record (t.state) { backfill_active = n }

pub data Step (t : System) : System → Type 0 where
  live_claimed :
      {n : ℕ}
      → claim t.state.active t.state.total ≡ ok n
      → Step t (record t { state = set_active t n; live = t.live + 1 })
  backfill_claimed :
      {n : ℕ}
      → claim t.state.backfill_active t.state.backfill ≡ ok n
      → Step t (record t { state = set_backfill_active t n; reserving = t.reserving + 1 })
  backfill_admitted :
      {n : ℕ}
      → 0 < t.reserving
      → claim t.state.active t.state.total ≡ ok n
      → Step t (record t {
        state = set_active t n;
        reserving = t.reserving - 1;
        backfill = t.backfill + 1;
      })
  backfill_refused :
      {e : AdmissionError}
      → 0 < t.reserving
      → claim t.state.active t.state.total ≡ err e
      → Step t (record t { reserving = t.reserving - 1; refused = t.refused + 1 })
  taken_back :
      0 < t.refused
      → Step t (record t {
        state = set_backfill_active t (wrapping_sub t.state.backfill_active 1);
        refused = t.refused - 1;
      })
  live_dropped :
      0 < t.live
      → Step t
          (record t { state = set_active t (wrapping_sub t.state.active 1); live = t.live - 1 })
  backfill_dropped :
      0 < t.backfill
      → Step t (record t {
        state = set_active t (wrapping_sub t.state.active 1);
        backfill = t.backfill - 1;
        releasing = t.releasing + 1;
      })
  backfill_released :
      0 < t.releasing
      → Step t (record t {
        state = set_backfill_active t (wrapping_sub t.state.backfill_active 1);
        releasing = t.releasing - 1;
      })

pub data Reach (s : System) : System → Type 0 where
  here : Reach s s
  next : {t u : System} → Reach s t → Step t u → Reach s u

abbrev pub idle : State → System
idle s = record { state = s; live = 0; backfill = 0; reserving = 0; refused = 0; releasing = 0 }

-- The counters are what the permits and the threads in between account for.
pub record IsAccounted (total limit : ℕ) (t : System) : Type 0 where
  pub total_fixed : t.state.total ≡ total
  pub limit_fixed : t.state.backfill ≡ limit
  pub active_counts : t.state.active ≡ t.live + t.backfill
  pub backfill_counts : t.state.backfill_active ≡ t.backfill + t.reserving + t.refused + t.releasing
  pub active_bounded : t.state.active ≤ total
  pub backfill_bounded : t.state.backfill_active ≤ limit

module _ (total limit : ℕ) (small : total ≤ u64_max) (fits : limit ≤ total) where
  Step-IsAccounted :
      {t u : System} → Step t u → IsAccounted total limit t → IsAccounted total limit u
  unfolding claim
  Step-IsAccounted (live_claimed e) a = ground arith
  Step-IsAccounted (backfill_claimed e) a = ground arith
  Step-IsAccounted (backfill_admitted p e) a = ground arith
  Step-IsAccounted (backfill_refused p e) a = ground arith
  Step-IsAccounted (taken_back p) a = ground arith
  Step-IsAccounted (live_dropped p) a = ground arith
  Step-IsAccounted (backfill_dropped p) a = ground arith
  Step-IsAccounted (backfill_released p) a = ground arith

  Reach-keeps : {s t : System} → IsAccounted total limit s → Reach s t → IsAccounted total limit t
  Reach-keeps a here = a
  Reach-keeps a (next r st) = Step-IsAccounted st (Reach-keeps a r)

new-IsAccounted :
    (total reserved : ℕ) (s : State)
    → new total reserved ≡ ok s
    → IsAccounted total (total - reserved) (idle s) × (reserved ≤ total)
unfolding new
new-IsAccounted total reserved s e = ground arith

-- From a new state of a u64 `total`, in every interleaving of the atomic steps the counters
-- account for the permits, at most `total` permits are held, and at most `total - reserved` of
-- them are for backfill.
pub Reach-bounded :
    (total reserved : ℕ) (s : State) (t : System)
    → total ≤ u64_max
    → new total reserved ≡ ok s
    → Reach (idle s) t
    → (t.state.active ≡ t.live + t.backfill)
      × (t.live + t.backfill ≤ total)
      × (t.backfill + reserved ≤ total)
Reach-bounded total reserved s t m e r =
    let i = new-IsAccounted total reserved s e in
    let a = Reach-keeps total (total - reserved) m (omega arith) i.0 r in
    omega (arith, a.active_counts, a.backfill_counts, a.active_bounded, a.backfill_bounded, i.1)

try_live-claims :
    (s : State)
    → s.active < s.total
    → try_live s ≡ ok (record { backfill = false }, record s { active = s.active + 1 })
unfolding try_live claim
try_live-claims s h = ground arith

-- From a new state of a u64 `total`, in every interleaving, while fewer than `reserved` live
-- permits are held a live claim succeeds and takes one slot.
pub live_reserve :
    (total reserved : ℕ) (s : State) (t : System)
    → total ≤ u64_max
    → new total reserved ≡ ok s
    → Reach (idle s) t
    → t.live < reserved
    → try_live t.state
      ≡ ok (record { backfill = false }, record (t.state) { active = t.state.active + 1 })
live_reserve total reserved s t m e r l =
    let i = new-IsAccounted total reserved s e in
    let a = Reach-keeps total (total - reserved) m (omega arith) i.0 r in
    try_live-claims t.state
      (omega (arith, a.active_counts, a.backfill_counts, a.backfill_bounded, a.total_fixed, i.1))

-- From a new state of a u64 `total`, in every interleaving, when no permit is held and no thread
-- is in between, the state is the new one again.
pub idle_counters :
    (total reserved : ℕ) (s : State) (t : System)
    → total ≤ u64_max
    → new total reserved ≡ ok s
    → Reach (idle s) t
    → t.live + t.backfill + t.reserving + t.refused + t.releasing ≡ 0
    → t.state ≡ s
unfolding new
idle_counters total reserved s t m e r z =
    let i = new-IsAccounted total reserved s e in
    let a = Reach-keeps total (total - reserved) m (omega arith) i.0 r in
    ground (arith, a.active_counts, a.backfill_counts, a.total_fixed, a.limit_fixed)

-- A refused backfill request on a counter below the word bound leaves both counters as they were.
pub try_backfill-refused :
    (s : State) {e : AdmissionError}
    → s.backfill_active < u64_max
    → (try_backfill s).1 ≡ err e
    → (try_backfill s).0 ≡ s
unfolding try_backfill finish_backfill claim
try_backfill-refused s m h = ground arith

-- A granted backfill permit that is dropped with nothing in between restores both counters, if
-- they are below the word bound.
pub release-try_backfill :
    (s : State) (p : Permit)
    → s.active < u64_max
    → s.backfill_active < u64_max
    → (try_backfill s).1 ≡ ok p
    → release p (try_backfill s).0 ≡ s
unfolding try_backfill finish_backfill claim release
release-try_backfill s p m n h = ground arith
