-- ===== src/Supervisor/Run.antt =====
-- crates/quip-dashboard/src/supervisor.rs: `run` with `unexpected`, `stop` and `drain`, and the exit
-- code. The statuses of the children, the wake-ups and which timeouts passed are arguments; a run that
-- still waits has no result.
pub mod Exit
pub mod Stopping
pub mod Waiting
use dashboard_quip_network.Prelude.{
  ℕ, Bool, true, false, ◌&&◌, ◌||◌, not, Option, none, some, List, [], ◌∷◌, any, ltb, leb, ◌==◌,
  if◌then◌else◌, Result, ok, err, is_ok, refuse_if, ◌>>◌,
}
use dashboard_quip_network.Supervisor.Logs.{Role, collector, backend, caddy, LogStats, is_collector}
use dashboard_quip_network.Supervisor.Process.{
  IoError, WaitStatus, still_alive, ended, Signal, sigterm, sigint, other_error,
}

pub data ExitReason : Type 0 where
  signalled : Signal → ExitReason
  child_exited : Role → WaitStatus → ExitReason
  collector_exited : WaitStatus → ExitReason
  spawn_failed : Role → IoError → ExitReason
  internal : IoError → ExitReason

pub record Report : Type 0 where
  pub reason : ExitReason
  pub timed_out : Bool
  pub logs : LogStats

unfoldable pub exit_code_of : ExitReason → Bool → ℕ
exit_code_of (signalled s) timed_out = if timed_out then 124 else 0
exit_code_of (child_exited r s) timed_out = 1
exit_code_of (collector_exited s) timed_out = 70
exit_code_of (spawn_failed r e) timed_out = if e.not_found then 127 else 126
exit_code_of (internal e) timed_out = 71

unfoldable pub exit_code : Report → ℕ
exit_code report = exit_code_of report.reason report.timed_out

-- The durations of `Config` in nanoseconds.
unfoldable pub config_invalid : ℕ → ℕ → Bool
config_invalid shutdown_timeout log_capacity =
    shutdown_timeout == 0
    || ltb 20000000000 shutdown_timeout
    || not (leb 1 log_capacity && leb log_capacity 1024)

-- The answers of `status` in one round of checks, by the role of the child.
abbrev pub Statuses : Type 0
Statuses = Role → Result IoError WaitStatus

abbrev pub exit_of : Role → WaitStatus → ExitReason
exit_of collector s = collector_exited s
exit_of backend s = child_exited backend s
exit_of caddy s = child_exited caddy s

abbrev pub not_alive : Role → Result IoError WaitStatus → Option ExitReason
not_alive role (ok still_alive) = none
not_alive role (ok (ended n)) = some (exit_of role (ended n))
not_alive role (err e) = some (internal e)

abbrev pub or_else : Option ExitReason → Option ExitReason → Option ExitReason
or_else none later = later
or_else (some r) later = some r

-- `unexpected`: the first of the children that is not alive.
unfoldable pub unexpected : List Role → Statuses → Option ExitReason
unexpected [] seen = none
unexpected (child ∷ rest) seen = or_else (not_alive child (seen child)) (unexpected rest seen)

-- The loop over the three children: those that started, and the reason if one did not.
unfoldable pub start_children : List (Role × Result IoError ℕ) → List Role × Option ExitReason
start_children [] = ([], none)
start_children ((role, ok pid) ∷ rest) =
    let (children, reason) = start_children rest in (role ∷ children, reason)
start_children ((role, err e) ∷ rest) = ([], some (spawn_failed role e))

-- What `select!` returns in one round.
pub data Wake : Type 0 where
  term : Wake
  interrupt : Wake
  changes : Wake

abbrev pub wake_reason : Wake → Option ExitReason
wake_reason term = some (signalled sigterm)
wake_reason interrupt = some (signalled sigint)
wake_reason changes = none

-- The loop of `run`: in each round the statuses of the children that started, then a wake-up.
unfoldable pub supervise : List Role → List (Statuses × Wake) → Option ExitReason
supervise children [] = none
supervise children ((seen, wake) ∷ rounds) =
    or_else (unexpected children seen) (or_else (wake_reason wake) (supervise children rounds))

-- A status in `stop`, which is an error, alive or not.
abbrev pub is_running : Result IoError WaitStatus → Bool
is_running (ok still_alive) = true
is_running (ok (ended n)) = false
is_running (err e) = false

-- The loop of `stop`; in each round the statuses, and whether `graceful` passed before a change.
unfoldable pub stop_rounds : Bool → List Role → List (Statuses × Bool) → Option Bool
stop_rounds failed children [] = none
stop_rounds failed children ((seen, timed_out) ∷ rounds) =
    let failed' = failed || any (λ c. not (is_ok (seen c))) children in
    let later = stop_rounds failed' children rounds in
    if not (any (λ c. is_running (seen c)) children)
    then some failed'
    else if timed_out
    then some true
    else later

-- `stop`: `terms` and `reaps` are the results of `signal(SIGTERM)` and `kill_and_reap` of a child.
pub record StopRun : Type 0 where
  pub terms : Role → Result IoError (Unit {0})
  pub rounds : List (Statuses × Bool)
  pub reaps : Role → Result IoError (Unit {0})

abbrev pub or_failed : Option Bool → Bool → Option Bool
or_failed none b = none
or_failed (some a) b = some (a || b)

unfoldable pub stop : List Role → StopRun → Option Bool
stop children run =
    or_failed (stop_rounds (any (λ c. not (is_ok (run.terms c))) children) children run.rounds)
      (any (λ c. not (is_ok (run.reaps c))) children)

-- How a reader ends before the deadline of `drain`, or does not.
pub data ReaderEnd : Type 0 where
  finished : ReaderEnd
  panicked : ReaderEnd
  late : ReaderEnd

abbrev pub reader_failed : ReaderEnd → Bool
reader_failed finished = false
reader_failed panicked = true
reader_failed late = true

-- `readers` are those of each child.
unfoldable pub drain : List Role → (Role → List ReaderEnd) → Bool
drain children readers = any (λ c. any reader_failed (readers c)) children

-- What the shutdown of `run` meets: the services and the collector stop and drain, the queue of the
-- logs drains, the collector is checked once more, and the writer thread ends.
pub record Shutdown : Type 0 where
  pub services : StopRun
  pub service_readers : Role → List ReaderEnd
  pub logs_late : Bool
  pub collector_seen : Statuses
  pub collector : StopRun
  pub collector_readers : Role → List ReaderEnd
  pub writer_late : Bool

-- A signal is kept as the reason only where the collector, if it was started, is alive.
unfoldable pub final_reason : List Role → Statuses → ExitReason → ExitReason
final_reason [] seen reason = reason
final_reason (child ∷ rest) seen (signalled s) = elim (unexpected (child ∷ []) seen) [
  | none ↦ signalled s
  | some reason ↦ reason
]
final_reason (child ∷ rest) seen (child_exited r s) = child_exited r s
final_reason (child ∷ rest) seen (collector_exited s) = collector_exited s
final_reason (child ∷ rest) seen (spawn_failed r e) = spawn_failed r e
final_reason (child ∷ rest) seen (internal e) = internal e

-- The services are the children after the first; nothing is stopped where no child was started.
unfoldable pub stop_services : List Role → Shutdown → Option Bool
stop_services [] shutdown = some false
stop_services (child ∷ rest) shutdown =
    or_failed (or_failed (stop rest shutdown.services) (drain rest shutdown.service_readers))
      shutdown.logs_late

unfoldable pub stop_collector : List Role → Shutdown → Option Bool
stop_collector [] shutdown = some false
stop_collector (child ∷ rest) shutdown =
    or_failed (stop (child ∷ []) shutdown.collector) (drain (child ∷ []) shutdown.collector_readers)

-- `timed_out |= …` over the two phases.
abbrev pub both : Option Bool → Option Bool → Option Bool
both none b = none
both (some a) none = none
both (some a) (some b) = some (a || b)

abbrev pub report_of : Option Bool → ExitReason → LogStats → Option Report
report_of none reason stats = none
report_of (some timed_out) reason stats =
    some (record { reason = reason; timed_out = timed_out; logs = stats })

-- The rest of `run` once shutdown began.
unfoldable pub shut_down : List Role → ExitReason → Shutdown → LogStats → Option Report
shut_down children reason shutdown stats =
    report_of
      (or_failed (both (stop_services children shutdown) (stop_collector children shutdown))
        shutdown.writer_late)
      (final_reason children shutdown.collector_seen reason) stats

-- The results of `spawn` of the three children.
pub record Start : Type 0 where
  pub collector : Result IoError ℕ
  pub backend : Result IoError ℕ
  pub caddy : Result IoError ℕ

unfoldable pub begin_children : Start → List Role × Option ExitReason
begin_children start =
    start_children
      ((collector, start.collector) ∷ (backend, start.backend) ∷ (caddy, start.caddy) ∷ [])

-- The reason that ends the wait: a failed start, or what `supervise` finds.
unfoldable pub first_reason : Start → List (Statuses × Wake) → Option ExitReason
first_reason start rounds =
    or_else (begin_children start).1 (supervise (begin_children start).0 rounds)

abbrev pub after_wait : Option ExitReason → List Role → Shutdown → LogStats → Option Report
after_wait none children shutdown stats = none
after_wait (some reason) children shutdown stats = shut_down children reason shutdown stats

unfoldable pub run_children : Start → List (Statuses × Wake) → Shutdown → LogStats → Option Report
run_children start rounds shutdown stats =
    after_wait (first_reason start rounds) (begin_children start).0 shutdown stats

-- `setup` is the result of registering the signals and starting the logs.
unfoldable pub run :
    ℕ
    → ℕ
    → Result IoError (Unit {0})
    → Start
    → List (Statuses × Wake)
    → Shutdown
    → LogStats
    → Result IoError (Option Report)
run shutdown_timeout log_capacity setup start rounds shutdown stats =
    refuse_if (config_invalid shutdown_timeout log_capacity) other_error
    >> (setup >> ok (run_children start rounds shutdown stats))
