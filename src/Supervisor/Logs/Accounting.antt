-- ===== src/Supervisor/Logs/Accounting.antt =====
-- supervisor.rs: the lines on their way to the standard error, in every interleaving of the atomic
-- operations of `Logs::line`, run by the readers of the pipes, and of the writer thread.
use dashboard_quip_network.Prelude.{
  ℕ, suc, ◌+◌, ◌%◌, ◌≡◌, ◌≤◌, ◌<◌, List, [], ◌∷◌, ◌++◌, length, arith, length-append,
}
use dashboard_quip_network.Supervisor.Logs.{
  LogCounters, no_counters, add_pending, sub_pending, add_dropped,
}

-- The writer thread: waiting for a line, writing one, or done with one that is still pending.
pub data Writer : Type 0 where
  idle : Writer
  writing : List ℕ → Writer
  settled : Writer

-- The readers are counted by where they stand in `line`: past the addition to the pending lines, past
-- a refused `try_send`, or past the subtraction that follows. `entered`, `output` and `lost` tell what
-- happened so far.
pub record Pipeline : Type 0 where
  pub counters : LogCounters
  pub announced : ℕ
  pub refused : ℕ
  pub retracted : ℕ
  pub queue : List (List ℕ)
  pub writer : Writer
  pub entered : ℕ
  pub output : List (List ℕ)
  pub lost : ℕ

abbrev pub new_pipeline : Pipeline
new_pipeline = record {
  counters = no_counters;
  announced = 0;
  refused = 0;
  retracted = 0;
  queue = [];
  writer = idle;
  entered = 0;
  output = [];
  lost = 0;
}

-- Two pipes of each of three children.
abbrev pub readers : ℕ
readers = 6

pub data Step : ℕ → Pipeline → Pipeline → Type 0 where
  announce :
      (capacity : ℕ) (p : Pipeline)
      → p.announced + p.refused + p.retracted < readers
      → Step capacity p (record p {
        counters = add_pending p.counters;
        announced = p.announced + 1;
        entered = p.entered + 1;
      })
  accept :
      (capacity : ℕ) (p : Pipeline) (n : ℕ) (message : List ℕ)
      → p.announced ≡ suc n
      → length p.queue < capacity
      → Step capacity p (record p { announced = n; queue = p.queue ++ message ∷ [] })
  refuse :
      (capacity : ℕ) (p : Pipeline) (n : ℕ)
      → p.announced ≡ suc n
      → capacity ≤ length p.queue
      → Step capacity p (record p { announced = n; refused = p.refused + 1 })
  retract :
      (capacity : ℕ) (p : Pipeline) (n : ℕ)
      → p.refused ≡ suc n
      → Step capacity p
          (record p { counters = sub_pending p.counters; refused = n; retracted = p.retracted + 1 })
  lose :
      (capacity : ℕ) (p : Pipeline) (n : ℕ)
      → p.retracted ≡ suc n
      → Step capacity p
          (record p { counters = add_dropped p.counters; retracted = n; lost = p.lost + 1 })
  receive :
      (capacity : ℕ) (p : Pipeline) (message : List ℕ) (rest : List (List ℕ))
      → p.writer ≡ idle
      → p.queue ≡ message ∷ rest
      → Step capacity p (record p { queue = rest; writer = writing message })
  write :
      (capacity : ℕ) (p : Pipeline) (message : List ℕ)
      → p.writer ≡ writing message
      → Step capacity p (record p { writer = settled; output = p.output ++ message ∷ [] })
  write_error :
      (capacity : ℕ) (p : Pipeline) (message : List ℕ)
      → p.writer ≡ writing message
      → Step capacity p
          (record p { counters = add_dropped p.counters; writer = settled; lost = p.lost + 1 })
  settle :
      (capacity : ℕ) (p : Pipeline)
      → p.writer ≡ settled
      → Step capacity p (record p { counters = sub_pending p.counters; writer = idle })

pub data Reach : ℕ → Pipeline → Type 0 where
  start : (capacity : ℕ) → Reach capacity new_pipeline
  next : (capacity : ℕ) (p q : Pipeline) → Reach capacity p → Step capacity p q → Reach capacity q

abbrev pub busy : Writer → ℕ
busy idle = 0
busy (writing m) = 1
busy settled = 1

abbrev pub unwritten : Writer → ℕ
unwritten idle = 0
unwritten (writing m) = 1
unwritten settled = 0

-- The queue and the readers are bounded, the pending counter is what is under way, the dropped counter
-- is what was lost, and each line that entered is under way, written or lost.
abbrev pub IsAccounted : ℕ → Pipeline → Type 0
IsAccounted capacity p =
    (length p.queue ≤ capacity)
    × (p.announced + p.refused + p.retracted ≤ readers)
    × (p.counters.stderr_pending_lines ≡ p.announced + p.refused + length p.queue + busy p.writer)
    × (p.counters.stderr_dropped_lines ≡ p.lost % 18446744073709551616)
    × (p.entered
        ≡ p.announced
          + p.refused
          + p.retracted
          + length p.queue
          + unwritten p.writer
          + length p.output
          + p.lost)

Step-IsAccounted :
    (capacity : ℕ) (p q : Pipeline)
    → capacity ≤ 1024
    → Step capacity p q
    → IsAccounted capacity p
    → IsAccounted capacity q
unfolding add_pending sub_pending add_dropped
Step-IsAccounted capacity p q small (announce _ _ room) h = ground arith
Step-IsAccounted capacity p q small (accept _ _ n m e room) h =
    ground (arith, length-append p.queue (m ∷ []))
Step-IsAccounted capacity p q small (refuse _ _ n e full) h = ground arith
Step-IsAccounted capacity p q small (retract _ _ n e) h = ground arith
Step-IsAccounted capacity p q small (lose _ _ n e) h = ground arith
Step-IsAccounted capacity p q small (receive _ _ m rest w e) h = ground arith
Step-IsAccounted capacity p q small (write _ _ m w) h =
    ground (arith, length-append p.output (m ∷ []))
Step-IsAccounted capacity p q small (write_error _ _ m w) h = ground arith
Step-IsAccounted capacity p q small (settle _ _ w) h = ground arith

-- With a queue of at most 1024 lines, in every interleaving of the readers and the writer thread
-- the queue stays within its capacity, the pending counter is the number of lines under way, the
-- dropped counter is the number lost modulo 2^64, and each line that entered is under way,
-- written or lost.
pub Reach-IsAccounted :
    (capacity : ℕ) (p : Pipeline) → capacity ≤ 1024 → Reach capacity p → IsAccounted capacity p
Reach-IsAccounted capacity p small (start _) = ground arith
Reach-IsAccounted capacity p small (next _ before _ r s) =
    Step-IsAccounted capacity before p small s (Reach-IsAccounted capacity before small r)

-- With a queue of at most 1024 lines, when the pending counter reads zero nothing is queued or being
-- written, and each line that entered is written, lost, or about to be counted as lost.
pub Reach-drained :
    (capacity : ℕ) (p : Pipeline)
    → capacity ≤ 1024
    → Reach capacity p
    → p.counters.stderr_pending_lines ≡ 0
    → (p.queue ≡ []) × (p.writer ≡ idle) × (p.entered ≡ p.retracted + length p.output + p.lost)
Reach-drained capacity p small r none_pending =
    let h = Reach-IsAccounted capacity p small r in ground arith
