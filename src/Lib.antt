-- ===== src/Lib.antt =====
-- A verification library for the Rust backend of the Quip dashboard, which indexes a chain into a
-- database and serves it.
--
-- The parts that are modelled, and their files:
--   Coverage      crates/dashboard-store/src/coverage.rs, `impl Coverage` and the check of a stored
--                 coverage: which heights of a domain are indexed
--   Store         the transactions of the same file, with their types in types.rs: `Store.Meta` the
--                 table meta, `Store.Blocks` commit_block, `Store.Scans` the winner enumerations and
--                 commit_range, `Store.Generations` reindex, initialize_coverage and
--                 set_pruned_floor, `Store.Targets` the finalized target, `Store.Network` the
--                 network binding, `Store.Unavailable` the absence markers, `Store.Submissions` the
--                 submissions of miners.rs. `Store.Views` says what the table means
--   Plan          crates/quip-dashboard/src/indexer/coverage.rs: what the backfill fetches next
--   Admission     crates/quip-dashboard/src/indexer/admission.rs: permits for live and backfill work
--   SyncGate      crates/quip-dashboard/src/indexer/sync_gate.rs: when the backfill pauses
--   Health        crates/quip-dashboard/src/health.rs: liveness and readiness
--   Budget        crates/quip-dashboard/src/chain/budget.rs: bytes in flight
--   Decimal, Hash crates/dashboard-model/src/decimal.rs and hash.rs: heights and block hashes
--   Indexer       crates/quip-dashboard/src/indexer: errors and progress (mod.rs), `Indexer.Guards` the
--                 guards of a block (live.rs), `Indexer.Replay` the replay of a scan (backfill.rs),
--                 `Indexer.History` the search for the first block of a descriptor (reconcile.rs)
--   Miner         crates/quip-dashboard/src/miner/parse.rs: `Miner.Json` numbers and text,
--                 `Miner.Attempts` the trail of attempts, `Miner.Submission` the lookup of a submission;
--                 `Miner.Cache` (cache.rs) the slots of the cached answers
--   Supervisor    crates/quip-dashboard/src/supervisor.rs: `Supervisor.Reader` lines,
--                 `Supervisor.Logs` counters and queue, `Supervisor.Process` one child,
--                 `Supervisor.Run` the run up to the exit code
--   Errors        `StoreError`
--   Prelude       shared names: tests on numbers, lists, `Result`, text and machine words
--   Examples      runs at concrete inputs
--
-- The store is the heart: live indexing and the backfill commit blocks and ranges under the guard of
-- a generation, `Plan` reads the coverage that these transactions leave, and `reindex` starts a new
-- generation. A function of the model has the name of the function of the source; a part of a long
-- function has a name of its own.
--
-- A transaction is a function from the store to a result and the store after COMMIT; an error leaves
-- the store as it was. The table meta is a function of its keys, another table is a list of rows.
-- Text is a list of code points. A u64 is a number, with `u64_max`, saturating, checked and wrapping
-- operations in Prelude.Words where the source relies on the width. Clocks are arguments. The
-- atomics of Admission and Budget are step relations over single atomic operations and whole
-- operations, and so are the queue of the supervisor's logs and the locked sections of a cache.
-- Loops are structural recursion, over the answers of the system where it drives them. Fuel stands
-- in four places: 20 digits in `print_u64`, enough for the largest u64, 65 rounds in the search of
-- `Indexer.History`, enough for a range of 2^64 heights, the ten attempts of `spawn`, and in
-- `verify_pages` one round more than there are retained rows, enough as each page but the last has one.
--
-- Parameters stand for what the transactions call and this library does not model: `Json` for
-- serde_json, with the law that decoding inverts encoding, `Tables` for the writers of blocks.rs
-- and miners.rs, and `Records` for what their tables hold when a store is bound. Examples/Instances.antt
-- and Examples/Domains.antt have an instance of each.
--
-- Not modelled: the database engines and drivers, migrations, the record tables, the tasks of the
-- indexer around the parts above, the chain reader, the miner client and the memory charge of its
-- cache, the HTTP service, configuration and files, and the frontend. They are input and output
-- around the parts above, or glue over third-party code.
mod Prelude
pub mod Errors
pub mod Admission
pub mod Budget
pub mod Coverage
pub mod Decimal
pub mod Hash
pub mod Health
pub mod Indexer
pub mod Miner
pub mod Plan
pub mod Store
pub mod Supervisor
pub mod SyncGate
mod Examples
