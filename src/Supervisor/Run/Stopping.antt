-- ===== src/Supervisor/Run/Stopping.antt =====
-- supervisor.rs: what a stop and a drain that report no failure have done to each child.
use dashboard_quip_network.Prelude.{
  ℕ, ◌≡◌, ◌⊎◌, Bool, true, false, ◌||◌, not, Option, none, some, List, [], ◌∷◌, any, Result, ok,
  err, is_ok, All, All-map, if_true, if_false, inl, inr, refl, arith, sym, ◌∙◌, Bool-cases,
}
use mathlib.Core.Option.{some-injective}
use dashboard_quip_network.Supervisor.Logs.{Role}
use dashboard_quip_network.Supervisor.Process.{IoError, WaitStatus, still_alive, ended}
use dashboard_quip_network.Supervisor.Run.{
  Statuses, is_running, stop_rounds, StopRun, or_failed, stop, ReaderEnd, finished, panicked, late,
  reader_failed, drain,
}

-- In some round every child has ended; in the rounds before it the grace period had not passed, and
-- every status was read.
abbrev pub IsEnded : List Role → List (Statuses × Bool) → Type 0
IsEnded children [] = ⊥
IsEnded children ((seen, timed_out) ∷ rounds) =
    All (λ c. is_ok (seen c) ≡ true) children
    × (All (λ c. (n : ℕ) × (seen c ≡ ok (ended n))) children
        ⊎ ((timed_out ≡ false) × IsEnded children rounds))

-- Each child took SIGTERM, ended in time, and was reaped.
abbrev pub IsStopped : List Role → StopRun → Type 0
IsStopped children run =
    All (λ c. is_ok (run.terms c) ≡ true) children
    × IsEnded children run.rounds
    × All (λ c. is_ok (run.reaps c) ≡ true) children

-- Each reader of each child finished.
abbrev pub IsDrained : List Role → (Role → List ReaderEnd) → Type 0
IsDrained children readers = All (λ c. All (λ r. r ≡ finished) (readers c)) children

any-none : {A : Type 0} (p : A → Bool) (xs : List A) → any p xs ≡ false → All (λ x. p x ≡ false) xs
any-none p [] e = tt
any-none p (x ∷ xs) e = (ground arith, any-none p xs (ground arith))

none_failed :
    (f : Role → Result IoError (Unit {0})) (children : List Role)
    → any (λ c. not (is_ok (f c))) children ≡ false
    → All (λ c. is_ok (f c) ≡ true) children
none_failed f children e =
    All-map (λ c. not (is_ok (f c)) ≡ false) (λ c. is_ok (f c) ≡ true) (λ c h. ground arith)
      children (any-none (λ c. not (is_ok (f c))) children e)

none_unread :
    (seen : Statuses) (children : List Role)
    → any (λ c. not (is_ok (seen c))) children ≡ false
    → All (λ c. is_ok (seen c) ≡ true) children
none_unread seen children e =
    All-map (λ c. not (is_ok (seen c)) ≡ false) (λ c. is_ok (seen c) ≡ true) (λ c h. ground arith)
      children (any-none (λ c. not (is_ok (seen c))) children e)

is_running-ended :
    (o : Result IoError WaitStatus)
    → is_ok o ≡ true
    → is_running o ≡ false
    → (n : ℕ) × (o ≡ ok (ended n))
is_running-ended (ok still_alive) r e = cc e
is_running-ended (ok (ended n)) r e = (n, refl)
is_running-ended (err fault) r e = cc r

none_running :
    (seen : Statuses) (children : List Role)
    → any (λ c. not (is_ok (seen c))) children ≡ false
    → any (λ c. is_running (seen c)) children ≡ false
    → All (λ c. (n : ℕ) × (seen c ≡ ok (ended n))) children
none_running seen [] e f = tt
none_running seen (c ∷ children) e f = (
  is_running-ended (seen c) (ground arith) (ground arith),
  none_running seen children (ground arith) (ground arith),
)

stop_rounds-IsEnded :
    (failed : Bool) (children : List Role) (rounds : List (Statuses × Bool))
    → stop_rounds failed children rounds ≡ some false
    → (failed ≡ false) × IsEnded children rounds
unfolding stop_rounds
stop_rounds-IsEnded failed children [] e = cc e
stop_rounds-IsEnded failed children ((seen, timed_out) ∷ rounds) e =
    let unread = any (λ c. not (is_ok (seen c))) children in
    let running = any (λ c. is_running (seen c)) children in
    elim (Bool-cases (not running)) [
      | inl over ↦
          let quiet : (failed || unread) ≡ false =
            some-injective _ _ (sym (if_true (not running) _ _ over) ∙ e) in
          let all_read : unread ≡ false = ground arith in
          (
            ground arith,
            (
              none_unread seen children all_read,
              inl (none_running seen children all_read (ground arith)),
            ),
          )
      | inr on ↦
          let waited = sym (if_false (not running) _ _ on) ∙ e in
          elim (Bool-cases timed_out) [
            | inl expired ↦
                absurd (
                  ground (arith, some-injective _ _ (sym (if_true timed_out _ _ expired) ∙ waited)))
            | inr in_time ↦
                let (quiet, later) =
                  stop_rounds-IsEnded (failed || unread) children rounds
                    (sym (if_false timed_out _ _ in_time) ∙ waited) in
                (ground arith, (none_unread seen children (ground arith), inr (in_time, later)))
          ]
    ]

pub or_failed-false :
    (o : Option Bool) (b : Bool) → or_failed o b ≡ some false → (o ≡ some false) × (b ≡ false)
or_failed-false none b e = cc e
or_failed-false (some true) b e = cc e
or_failed-false (some false) true e = cc e
or_failed-false (some false) false e = (refl, refl)

pub stop-IsStopped :
    (children : List Role) (run : StopRun) → stop children run ≡ some false → IsStopped children run
unfolding stop
stop-IsStopped children run e =
    let failed = any (λ c. not (is_ok (run.terms c))) children in
    let (waited, reaped) =
      or_failed-false (stop_rounds failed children run.rounds)
        (any (λ c. not (is_ok (run.reaps c))) children) e in
    let (sent, gone) = stop_rounds-IsEnded failed children run.rounds waited in
    (none_failed run.terms children sent, gone, none_failed run.reaps children reaped)

reader_failed-finished : (r : ReaderEnd) → reader_failed r ≡ false → r ≡ finished
reader_failed-finished finished e = refl
reader_failed-finished panicked e = cc e
reader_failed-finished late e = cc e

pub drain-IsDrained :
    (children : List Role) (readers : Role → List ReaderEnd)
    → drain children readers ≡ false
    → IsDrained children readers
unfolding drain
drain-IsDrained children readers e =
    All-map (λ c. any reader_failed (readers c) ≡ false) (λ c. All (λ r. r ≡ finished) (readers c))
      (λ c h.
        All-map (λ r. reader_failed r ≡ false) (λ r. r ≡ finished) reader_failed-finished
          (readers c) (any-none reader_failed (readers c) h))
      children (any-none (λ c. any reader_failed (readers c)) children e)
