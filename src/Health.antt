-- ===== src/Health.antt =====
-- crates/quip-dashboard/src/health.rs: the liveness of the required tasks and the readiness of the
-- service. The state behind the mutex is passed along; an `Instant` is a number of nanoseconds and
-- the clocks are arguments: `now` the monotonic one, `utc` the text of the other. The set `dead` is
-- a sorted list. A reason is a value in place of its English text.
pub mod Progress
use dashboard_quip_network.Prelude.{
  ℕ, ◌-◌, ◌*◌, ◌==◌, Bool, true, false, not, ◌&&◌, ◌||◌, Option, none, some, List, [], ◌∷◌, ◌++◌,
  map, max, ltb, leb, if◌then◌else◌, is_some, is_some_and, is_none_or, unwrap_or,
}
use dashboard_quip_network.Prelude.Texts.{same_text}
use dashboard_quip_network.Decimal.{Text, print_u64}

pub data RequiredTask : Type 0 where
  http indexer miner watchdog file_writer : RequiredTask

pub data Phase : Type 0 where
  local_startup connecting verifying ready stopping : Phase

-- The derived order and equality: the position of the variant.
abbrev pub task_rank : RequiredTask → ℕ
task_rank http = 0
task_rank indexer = 1
task_rank miner = 2
task_rank watchdog = 3
task_rank file_writer = 4

abbrev pub same_task : RequiredTask → RequiredTask → Bool
same_task a b = task_rank a == task_rank b

abbrev pub phase_rank : Phase → ℕ
phase_rank local_startup = 0
phase_rank connecting = 1
phase_rank verifying = 2
phase_rank ready = 3
phase_rank stopping = 4

abbrev pub same_phase : Phase → Phase → Bool
same_phase a b = phase_rank a == phase_rank b

pub data Reason : Type 0 where
  task_dead : RequiredTask → Reason
  startup_slow watchdog_stalled : Reason
  phase_is : Phase → Reason
  unsubscribed commits_stalled no_miner_poll : Reason

pub record HealthSnapshot : Type 0 where
  pub is_ok : Bool
  pub live : Bool
  pub is_ready : Bool
  pub phase : Phase
  pub last_status_fetch_at : Option Text
  pub last_block_insert_at : Option Text
  pub last_substrate_event_at : Option Text
  pub chain_connected : Bool
  pub best_block_height : Option Text
  pub finalized_block_height : Option Text
  pub last_committed_height : Option Text
  pub reasons : List Reason

pub record State : Type 0 where
  pub indexing : Bool
  pub phase : Phase
  pub started : ℕ
  pub watchdog : ℕ
  pub dead : List RequiredTask
  pub connected : Bool
  pub best : Option ℕ
  pub finalized : Option ℕ
  pub committed : Option ℕ
  pub waiting : Option ℕ
  pub miner_success : Option ℕ
  pub miner_utc : Option Text
  pub commit_utc : Option Text
  pub head_utc : Option Text

-- `Duration::from_secs`
abbrev pub from_secs : ℕ → ℕ
from_secs n = n * 1000000000

-- `since.elapsed()`, which is zero when the clock has not advanced.
abbrev pub elapsed : ℕ → ℕ → ℕ
elapsed now since = now - since

unfoldable pub new : Bool → ℕ → State
new indexing now = record {
  indexing = indexing;
  phase = local_startup;
  started = now;
  watchdog = now;
  dead = [];
  connected = false;
  best = none;
  finalized = none;
  committed = none;
  waiting = none;
  miner_success = none;
  miner_utc = none;
  commit_utc = none;
  head_utc = none;
}

unfoldable pub set_phase : Phase → State → State
set_phase phase s = record s { phase = phase }

unfoldable pub heartbeat : RequiredTask → ℕ → State → State
heartbeat task now s = if same_task task watchdog then record s { watchdog = now } else s

-- `BTreeSet::insert`
unfoldable pub insert_task : RequiredTask → List RequiredTask → List RequiredTask
insert_task t [] = t ∷ []
insert_task t (u ∷ us) =
    let rest = insert_task t us in
    if same_task t u
    then u ∷ us
    else if ltb (task_rank t) (task_rank u)
    then t ∷ u ∷ us
    else u ∷ rest

unfoldable pub task_exited : RequiredTask → State → State
task_exited task s =
    if s.indexing || same_task task http || same_task task watchdog || same_task task file_writer
    then record s { dead = insert_task task s.dead }
    else s

unfoldable pub connected : Bool → State → State
connected c s = record s { connected = c }

-- `prior.map_or(new, |prior| prior.max(new))` where a height was received
unfoldable pub highest : Option ℕ → Option ℕ → Option ℕ
highest none prior = prior
highest (some n) none = some n
highest (some n) (some prior) = some (max prior n)

unfoldable pub head_received : Option ℕ → Option ℕ → ℕ → Text → State → State
head_received best finalized now utc s =
    let best' = highest best s.best in
    let finalized' = highest finalized s.finalized in
    record s {
      head_utc = some utc;
      best = best';
      finalized = finalized';
      waiting =
          if ltb (unwrap_or s.committed 0) (unwrap_or finalized' 0) && not (is_some s.waiting)
          then some now
          else s.waiting;
    }

unfoldable pub committed : ℕ → ℕ → Text → State → State
committed height now utc s =
    if is_none_or s.committed (λ prior. ltb prior height)
    then record s {
      committed = some height;
      commit_utc = some utc;
      waiting = if ltb height (unwrap_or s.finalized 0) then some now else none;
    }
    else s

unfoldable pub miner_success : Text → ℕ → State → State
miner_success observed_at now s =
    if is_some_and s.miner_utc (λ t. same_text t observed_at)
    then s
    else record s { miner_success = some now; miner_utc = some observed_at }

abbrev reason_if : Bool → Reason → List Reason
reason_if test r = if test then r ∷ [] else []

abbrev pub is_empty {ℓ} : {A : Type ℓ} → List A → Bool
is_empty [] = true
is_empty (x ∷ xs) = false

abbrev print_height : Option ℕ → Option Text
print_height none = none
print_height (some n) = some (print_u64 n)

-- The reasons of the liveness check.
unfoldable pub live_reasons : ℕ → State → List Reason
live_reasons now s =
    map task_dead s.dead
    ++ (if same_phase s.phase local_startup
        then reason_if (ltb (from_secs 60) (elapsed now s.started)) startup_slow
        else reason_if (ltb (from_secs 15) (elapsed now s.watchdog)) watchdog_stalled)

-- The reasons that only readiness counts.
unfoldable pub ready_reasons : ℕ → State → List Reason
ready_reasons now s =
    reason_if (not (same_phase s.phase ready)) (phase_is s.phase)
    ++ (if s.indexing
        then reason_if (not s.connected) unsubscribed
          ++ reason_if (is_some_and s.waiting (λ since. ltb (from_secs 90) (elapsed now since)))
              commits_stalled
          ++ reason_if
              (is_none_or s.miner_success (λ since. ltb (from_secs 90) (elapsed now since)))
              no_miner_poll
        else [])

unfoldable pub snapshot : ℕ → State → HealthSnapshot
snapshot now s =
    let early = live_reasons now s in
    let all_reasons = early ++ ready_reasons now s in
    record {
      is_ok = is_empty all_reasons;
      live = is_empty early;
      is_ready = is_empty all_reasons;
      phase = s.phase;
      last_status_fetch_at = s.miner_utc;
      last_block_insert_at = s.commit_utc;
      last_substrate_event_at = s.head_utc;
      chain_connected = s.connected;
      best_block_height = print_height s.best;
      finalized_block_height = print_height s.finalized;
      last_committed_height = print_height s.committed;
      reasons = all_reasons;
    }
