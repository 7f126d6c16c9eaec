-- ===== src/Supervisor/Process.antt =====
-- crates/quip-dashboard/src/supervisor.rs: one child, `OwnedChild` and `spawn`. What the system calls
-- answer is an argument; `status` repeats an interrupted `waitid`, so its answer is the first other one.
pub mod Ownership
use dashboard_quip_network.Prelude.{
  ℕ, zero, suc, ◌+◌, Bool, true, false, ◌||◌, not, Option, none, some, List, [], ◌∷◌, ◌++◌, leb,
  if◌then◌else◌, Result, ok, err, ◌>>◌,
}
use dashboard_quip_network.Supervisor.Logs.{Role}

-- What the supervisor asks of an `io::Error`.
pub record IoError : Type 0 where
  pub not_found : Bool
  pub text_busy : Bool

abbrev pub other_error : IoError
other_error = record { not_found = false; text_busy = false }

pub data WaitStatus : Type 0 where
  still_alive : WaitStatus
  ended : ℕ → WaitStatus

pub data Signal : Type 0 where
  sigterm : Signal
  sigint : Signal
  sigkill : Signal

-- The answer of `killpg`; `esrch` is a group without a process.
pub data KillAnswer : Type 0 where
  delivered : KillAnswer
  esrch : KillAnswer
  kill_failed : IoError → KillAnswer

-- The answer of `timeout_at(deadline, child.wait())`.
pub data WaitAnswer : Type 0 where
  deadline_passed : WaitAnswer
  reaped : WaitAnswer
  wait_failed : IoError → WaitAnswer

-- The child with the signals that went to its group, the oldest first.
pub record OwnedChild : Type 0 where
  pub role : Role
  pub group : Option ℕ
  pub sent : List (ℕ × Signal)

unfoldable pub status : OwnedChild → Result IoError WaitStatus → Result IoError WaitStatus
status child answer = elim child.group [ none ↦ err other_error | some group ↦ answer ]

unfoldable pub kill_result : KillAnswer → Result IoError (Unit {0})
kill_result delivered = ok tt
kill_result esrch = ok tt
kill_result (kill_failed e) = err e

-- The rest of `signal` after the status, on the group that the child has then.
unfoldable pub signal_group :
    Signal → KillAnswer → Option ℕ → OwnedChild → Result IoError (Unit {0}) × OwnedChild
signal_group value answer none child = (ok tt, child)
signal_group value answer (some group) child =
    (kill_result answer, record child { sent = child.sent ++ (group, value) ∷ [] })

unfoldable pub signal_after :
    Result IoError WaitStatus
    → Signal
    → KillAnswer
    → OwnedChild
    → Result IoError (Unit {0}) × OwnedChild
signal_after (err e) value answer child = (err e, record child { group = none })
signal_after (ok s) value answer child = signal_group value answer child.group child

unfoldable pub signal :
    Signal
    → Result IoError WaitStatus
    → KillAnswer
    → OwnedChild
    → Result IoError (Unit {0}) × OwnedChild
signal value waited answer child = signal_after (status child waited) value answer child

unfoldable pub wait_result : WaitAnswer → Result IoError (Unit {0})
wait_result deadline_passed = err other_error
wait_result reaped = ok tt
wait_result (wait_failed e) = err e

unfoldable pub kill_and_reap :
    Result IoError WaitStatus
    → KillAnswer
    → WaitAnswer
    → OwnedChild
    → Result IoError (Unit {0}) × OwnedChild
kill_and_reap waited answer reap child =
    let (result, child') = signal sigkill waited answer child in
    (result >> wait_result reap, record child' { group = none })

abbrev pub spawn_busy_attempts : ℕ
spawn_busy_attempts = 10

-- The body of the loop of `spawn` for one answer; `later` is what the loop does after the sleep.
abbrev pub after_exec :
    Result IoError ℕ → ℕ → Option (Result IoError ℕ × ℕ) → Option (Result IoError ℕ × ℕ)
after_exec (ok pid) attempt later = some (ok pid, attempt)
after_exec (err error) attempt later =
    if not error.text_busy || leb spawn_busy_attempts attempt
    then some (err error, attempt)
    else later

-- `exec n` is what the attempt after `n` failed ones answers; the result comes with the number of
-- attempts made.
unfoldable pub spawn_loop : (ℕ → Result IoError ℕ) → ℕ → ℕ → Option (Result IoError ℕ × ℕ)
spawn_loop exec zero attempt = none
spawn_loop exec (suc fuel) attempt =
    after_exec (exec attempt) (attempt + 1) (spawn_loop exec fuel (attempt + 1))

-- `spawn`, up to the readers of the pipes.
unfoldable pub spawn : (ℕ → Result IoError ℕ) → Option (Result IoError ℕ × ℕ)
spawn exec = spawn_loop exec spawn_busy_attempts 0
