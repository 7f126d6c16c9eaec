-- ===== src/Supervisor/Process/Ownership.antt =====
-- supervisor.rs: which signals a child gets, and how often a start is tried.
use dashboard_quip_network.Prelude.{
  ℕ, zero, suc, ◌+◌, ◌≡◌, ◌≢◌, ◌≤◌, ◌<◌, true, false, ◌||◌, not, none, some, List, [], ◌∷◌, leb,
  Result, ok, err, arith, refl, Bool-cases, inl, inr, ◌⊎◌, Result-cases, ap, sym, ◌∙◌, ◌==◌,
}
use mathlib.Core.Path.{Path}
use dashboard_quip_network.Supervisor.Process.{
  IoError, WaitStatus, Signal, sigkill, KillAnswer, WaitAnswer, OwnedChild, status, signal_after,
  signal, kill_and_reap, spawn_busy_attempts, spawn_loop, spawn,
}

-- One operation on a child, with the answers of the system.
pub data Operation : Type 0 where
  signalled : Signal → Result IoError WaitStatus → KillAnswer → Operation
  killed : Result IoError WaitStatus → KillAnswer → WaitAnswer → Operation

abbrev pub perform : Operation → OwnedChild → OwnedChild
perform (signalled value waited answer) child = (signal value waited answer child).1
perform (killed waited answer reap) child = (kill_and_reap waited answer reap child).1

abbrev pub perform_all : List Operation → OwnedChild → OwnedChild
perform_all [] child = child
perform_all (o ∷ os) child = perform_all os (perform o child)

-- What a child without a group stays.
abbrev IsReleased : List (ℕ × Signal) → OwnedChild → Type 0
IsReleased sent child = (child.group ≡ none) × (child.sent ≡ sent)

signal-IsReleased :
    (value : Signal) (waited : Result IoError WaitStatus) (answer : KillAnswer) (child : OwnedChild)
    (sent : List (ℕ × Signal))
    → IsReleased sent child
    → IsReleased sent (signal value waited answer child).1
unfolding signal signal_after status
signal-IsReleased value waited answer child sent (released, same) = rw released (refl, same)

kill_and_reap-IsReleased :
    (waited : Result IoError WaitStatus) (answer : KillAnswer) (reap : WaitAnswer)
    (child : OwnedChild)
    → IsReleased
        (kill_and_reap waited answer reap child).1.sent
        (kill_and_reap waited answer reap child).1
unfolding kill_and_reap
kill_and_reap-IsReleased waited answer reap child = (refl, refl)

perform-IsReleased :
    (o : Operation) (child : OwnedChild) (sent : List (ℕ × Signal))
    → IsReleased sent child
    → IsReleased sent (perform o child)
unfolding kill_and_reap
perform-IsReleased (signalled value waited answer) child sent h =
    signal-IsReleased value waited answer child sent h
perform-IsReleased (killed waited answer reap) child sent h =
    (refl, (signal-IsReleased sigkill waited answer child sent h).1)

perform_all-IsReleased :
    (os : List Operation) (child : OwnedChild) (sent : List (ℕ × Signal))
    → IsReleased sent child
    → IsReleased sent (perform_all os child)
perform_all-IsReleased [] child sent h = h
perform_all-IsReleased (o ∷ os) child sent h =
    perform_all-IsReleased os (perform o child) sent (perform-IsReleased o child sent h)

-- After `kill_and_reap` no later operation on the child sends a signal to its group.
pub kill_and_reap-final :
    (waited : Result IoError WaitStatus) (answer : KillAnswer) (reap : WaitAnswer)
    (child : OwnedChild) (later : List Operation)
    → let after = (kill_and_reap waited answer reap child).1 in
      (perform_all later after).sent ≡ after.sent
kill_and_reap-final waited answer reap child later =
    (perform_all-IsReleased later (kill_and_reap waited answer reap child).1
      (kill_and_reap waited answer reap child).1.sent
      (kill_and_reap-IsReleased waited answer reap child)).1

-- The attempts from `n` on, each refused as busy.
abbrev pub AllBusy : (ℕ → Result IoError ℕ) → ℕ → ℕ → Type 0
AllBusy exec from to =
    (k : ℕ) → from ≤ k → k < to → (e : IoError) × (exec k ≡ err e) × (e.text_busy ≡ true)

-- How the loop ends: at the last of the attempts made, which was not refused as busy or was the tenth.
abbrev pub IsLastOf : (ℕ → Result IoError ℕ) → ℕ → Result IoError ℕ × ℕ → Type 0
IsLastOf exec from (result, made) =
    (last : ℕ) × (made ≡ suc last)
    × (from ≤ last)
    × (made ≤ spawn_busy_attempts)
    × (exec last ≡ result)
    × AllBusy exec from last
    × ((e : IoError) → result ≡ err e → (e.text_busy ≡ false) ⊎ (made ≡ spawn_busy_attempts))

spawn_loop-ok :
    (exec : ℕ → Result IoError ℕ) (fuel attempt pid : ℕ)
    → exec attempt ≡ ok pid
    → spawn_loop exec (suc fuel) attempt ≡ some (ok pid, attempt + 1)
unfolding spawn_loop
spawn_loop-ok exec fuel attempt pid e = rw e refl

spawn_loop-err :
    (exec : ℕ → Result IoError ℕ) (fuel attempt : ℕ) (error : IoError)
    → exec attempt ≡ err error
    → (not error.text_busy || leb spawn_busy_attempts (attempt + 1)) ≡ true
    → spawn_loop exec (suc fuel) attempt ≡ some (err error, attempt + 1)
unfolding spawn_loop
spawn_loop-err exec fuel attempt error e stop = rw (e, stop) refl

spawn_loop-retry :
    (exec : ℕ → Result IoError ℕ) (fuel attempt : ℕ) (error : IoError)
    → exec attempt ≡ err error
    → (not error.text_busy || leb spawn_busy_attempts (attempt + 1)) ≡ false
    → spawn_loop exec (suc fuel) attempt ≡ spawn_loop exec fuel (attempt + 1)
unfolding spawn_loop
spawn_loop-retry exec fuel attempt error e again = rw (e, again) refl

compare-cases : (a b : ℕ) → (a ≡ b) ⊎ (a ≢ b)
compare-cases a b = elim (Bool-cases (a == b)) [
  | inl e ↦ inl (ground arith)
  | inr e ↦ inr (ground arith)
]

AllBusy-cons :
    (exec : ℕ → Result IoError ℕ) (from to : ℕ) (error : IoError)
    → exec from ≡ err error
    → error.text_busy ≡ true
    → AllBusy exec (from + 1) to
    → AllBusy exec from to
AllBusy-cons exec from to error e busy more k low high = elim (compare-cases from k) [
  | inl same ↦ (error, ap exec (sym same) ∙ e, busy)
  | inr apart ↦ more k (omega arith) high
]

stop_reason :
    (error error' : IoError) (attempt : ℕ)
    → attempt < spawn_busy_attempts
    → Path (Result IoError ℕ) (err error) (err error')
    → (not error.text_busy || leb spawn_busy_attempts (attempt + 1)) ≡ true
    → (error'.text_busy ≡ false) ⊎ (attempt + 1 ≡ spawn_busy_attempts)
stop_reason error error' attempt below same stop = ground arith

IsLastOf-retry :
    (exec : ℕ → Result IoError ℕ) (attempt : ℕ) (error : IoError) (r : Result IoError ℕ × ℕ)
    → exec attempt ≡ err error
    → error.text_busy ≡ true
    → IsLastOf exec (attempt + 1) r
    → IsLastOf exec attempt r
IsLastOf-retry exec attempt error r e busy (last, made, low, few, at, all_busy, why) =
    (last, made, omega arith, few, at, AllBusy-cons exec attempt last error e busy all_busy, why)

spawn_loop-IsLastOf :
    (exec : ℕ → Result IoError ℕ) (fuel attempt : ℕ)
    → attempt + fuel ≡ spawn_busy_attempts
    → attempt < spawn_busy_attempts
    → (r : Result IoError ℕ × ℕ) × (spawn_loop exec fuel attempt ≡ some r) × IsLastOf exec attempt r
spawn_loop-IsLastOf exec zero attempt e below = absurd (omega arith)
spawn_loop-IsLastOf exec (suc fuel) attempt e below = elim (Result-cases (exec attempt)) [
  | inl (pid, found) ↦ (
    (ok pid, attempt + 1),
    spawn_loop-ok exec fuel attempt pid found,
    (
      attempt,
      omega arith,
      omega arith,
      omega arith,
      found,
      λ k low high. absurd (omega arith),
      λ error clash. cc clash,
    ),
  )
  | inr (error, found) ↦
      elim (Bool-cases (not error.text_busy || leb spawn_busy_attempts (attempt + 1))) [
        | inl stop ↦ (
          (err error, attempt + 1),
          spawn_loop-err exec fuel attempt error found stop,
          (
            attempt,
            omega arith,
            omega arith,
            omega arith,
            found,
            λ k low high. absurd (omega arith),
            λ error' same. stop_reason error error' attempt below same stop,
          ),
        )
        | inr again ↦
            let (r, runs, is_last) =
              spawn_loop-IsLastOf exec fuel (attempt + 1) (omega arith) (ground arith) in
            (
              r,
              spawn_loop-retry exec fuel attempt error found again ∙ runs,
              IsLastOf-retry exec attempt error r found (ground arith) is_last,
            )
      ]
]

-- `spawn` ends after at most ten attempts with the answer of the last one; every attempt before
-- it was refused as busy, and if the last failed it was not busy or was the tenth.
pub spawn-IsLastOf :
    (exec : ℕ → Result IoError ℕ)
    → (r : Result IoError ℕ × ℕ) × (spawn exec ≡ some r) × IsLastOf exec 0 r
unfolding spawn
spawn-IsLastOf exec = spawn_loop-IsLastOf exec spawn_busy_attempts 0 refl (omega arith)
