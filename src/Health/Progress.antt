-- ===== src/Health/Progress.antt =====
-- health.rs over sequences of calls: readiness, dead tasks and the stalled-work clock.
use dashboard_quip_network.Prelude.{
  ℕ, ◌≤◌, ◌≡◌, ◌↔◌, refl, Bool, true, false, not, ◌&&◌, ◌||◌, Option, none, some, List, [], ◌∷◌,
  ◌++◌, any, map, ltb, leb, if◌then◌else◌, arith, is_some, is_some_and, is_none_or, unwrap_or,
  Bool-cases, inl, inr, ◌∙◌,
}
use dashboard_quip_network.Decimal.{Text}
use dashboard_quip_network.Health.{
  RequiredTask, Phase, same_task, same_phase, local_startup, ready, State, new, set_phase,
  heartbeat, insert_task, task_exited, connected, Reason, task_dead, is_empty, highest,
  head_received, committed, miner_success, live_reasons, ready_reasons, snapshot, from_secs,
  elapsed, http, watchdog, file_writer,
}

-- A call of a method of `HealthState` that writes, with what it reads of the clocks.
pub data Event : Type 0 where
  phase_set : Phase → Event
  beat : RequiredTask → ℕ → Event
  exited : RequiredTask → Event
  connection : Bool → Event
  head : Option ℕ → Option ℕ → ℕ → Text → Event
  commit : ℕ → ℕ → Text → Event
  polled : Text → ℕ → Event

unfoldable pub apply : Event → State → State
apply (phase_set p) s = set_phase p s
apply (beat t now) s = heartbeat t now s
apply (exited t) s = task_exited t s
apply (connection c) s = connected c s
apply (head b f now utc) s = head_received b f now utc s
apply (commit h now utc) s = committed h now utc s
apply (polled at now) s = miner_success at now s

unfoldable pub run : List Event → State → State
run [] s = s
run (e ∷ es) s = run es (apply e s)

-- A finalized head is ahead of the committed height.
abbrev pub behind : State → Bool
behind s = ltb (unwrap_or s.committed 0) (unwrap_or s.finalized 0)

abbrev IsTimed : State → Type 0
IsTimed s = is_some s.waiting ≡ behind s

highest-le : (f p : Option ℕ) → unwrap_or p 0 ≤ unwrap_or (highest f p) 0
unfolding highest
highest-le none p = omega arith
highest-le (some n) none = omega arith
highest-le (some n) (some p) = ground arith

head_received-IsTimed :
    (b f : Option ℕ) (now : ℕ) (utc : Text) (s : State)
    → IsTimed s
    → IsTimed (head_received b f now utc s)
unfolding head_received
head_received-IsTimed b f now utc s h = ground (arith, highest-le f s.finalized)

committed-IsTimed :
    (n now : ℕ) (utc : Text) (s : State) → IsTimed s → IsTimed (committed n now utc s)
unfolding committed
committed-IsTimed n now utc s h =
    elim (Bool-cases (is_none_or s.committed (λ prior. ltb prior n))) [
      | inl e ↦ rw e (ground arith)
      | inr e ↦ rw e h
    ]

apply-IsTimed : (e : Event) (s : State) → IsTimed s → IsTimed (apply e s)
unfolding apply
apply-IsTimed (phase_set p) s h = unfold set_phase in h
apply-IsTimed (beat t now) s h = unfold heartbeat in ground arith
apply-IsTimed (exited t) s h = unfold task_exited in ground arith
apply-IsTimed (connection c) s h = unfold connected in h
apply-IsTimed (head b f now utc) s h = head_received-IsTimed b f now utc s h
apply-IsTimed (commit n now utc) s h = committed-IsTimed n now utc s h
apply-IsTimed (polled at now) s h = unfold miner_success in ground arith

run-keeps : (es : List Event) (s : State) → IsTimed s → IsTimed (run es s)
unfolding run
run-keeps [] s h = h
run-keeps (e ∷ es) s h = run-keeps es (apply e s) (apply-IsTimed e s h)

-- After any sequence of calls on a new health state, the stalled-work clock runs exactly while
-- the highest finalized height is above the highest committed one, a missing height counting as
-- zero.
pub run-waiting :
    (es : List Event) (indexing : Bool) (start : ℕ)
    → is_some ((run es (new indexing start)).waiting) ≡ behind (run es (new indexing start))
run-waiting es indexing start = run-keeps es (new indexing start) (unfold new in refl)

-- The task is recorded as dead.
abbrev pub is_dead : RequiredTask → List RequiredTask → Bool
is_dead t ts = any (λ u. same_task u t) ts

insert_task-dead :
    (t u : RequiredTask) (ts : List RequiredTask)
    → is_dead u (insert_task t ts) ≡ (same_task t u || is_dead u ts)
unfolding insert_task
insert_task-dead t u [] = refl
insert_task-dead t u (v ∷ vs) = ground (arith, insert_task-dead t u vs)

apply-dead :
    (e : Event) (t : RequiredTask) (s : State)
    → is_dead t s.dead ≡ true
    → is_dead t (apply e s).dead ≡ true
unfolding apply
apply-dead (phase_set p) t s h = unfold set_phase in h
apply-dead (beat u now) t s h = unfold heartbeat in ground arith
apply-dead (exited u) t s h = unfold task_exited in ground (arith, insert_task-dead u t s.dead)
apply-dead (connection c) t s h = unfold connected in h
apply-dead (head b f now utc) t s h = unfold head_received in h
apply-dead (commit n now utc) t s h = unfold committed in ground arith
apply-dead (polled at now) t s h = unfold miner_success in ground arith

run-dead :
    (es : List Event) (t : RequiredTask) (s : State)
    → is_dead t s.dead ≡ true
    → is_dead t (run es s).dead ≡ true
unfolding run
run-dead [] t s h = h
run-dead (e ∷ es) t s h = run-dead es t (apply e s) (apply-dead e t s h)

is_empty-append {ℓ} :
    {A : Type ℓ} (xs ys : List A) → is_empty (xs ++ ys) ≡ (is_empty xs && is_empty ys)
is_empty-append [] ys = refl
is_empty-append (x ∷ xs) ys = refl

dead-reasons :
    (t : RequiredTask) (ts : List RequiredTask) (rest : List Reason)
    → is_dead t ts ≡ true
    → is_empty (map task_dead ts ++ rest) ≡ false
dead-reasons t [] rest h = ground arith
dead-reasons t (u ∷ us) rest h = refl

dead-unlive :
    (t : RequiredTask) (now : ℕ) (s : State)
    → is_dead t s.dead ≡ true
    → (snapshot now s).live ≡ false
unfolding snapshot live_reasons
dead-unlive t now s h = dead-reasons t s.dead _ h

is_empty-map : (ts : List RequiredTask) → is_empty (map task_dead ts) ≡ is_empty ts
is_empty-map [] = refl
is_empty-map (t ∷ ts) = refl

is_empty_iff {ℓ} : {A : Type ℓ} (xs : List A) → (is_empty xs ≡ true) ↔ (xs ≡ [])
is_empty_iff [] = (λ e. refl, λ e. refl)
is_empty_iff (x ∷ xs) = (λ e. ground arith, λ e. ground arith)

-- Once a required task has exited, while indexing any of the five and otherwise the HTTP
-- listener, the watchdog or the file writer, no later call makes the service live again.
task_exited-stays :
    (es : List Event) (t : RequiredTask) (now : ℕ) (s : State)
    → (s.indexing || same_task t http || same_task t watchdog || same_task t file_writer) ≡ true
    → (snapshot now (run es (task_exited t s))).live ≡ false
task_exited-stays es t now s h =
    let dead : is_dead t (task_exited t s).dead ≡ true =
      unfold task_exited in rw h (ground (arith, insert_task-dead t t s.dead)) in
    dead-unlive t now (run es (task_exited t s)) (run-dead es t (task_exited t s) dead)

-- What indexing adds to the conditions of readiness.
abbrev pub is_current : ℕ → State → Bool
is_current now s =
    s.connected
    && not (is_some_and s.waiting (λ since. ltb (from_secs 90) (elapsed now since)))
    && is_some_and s.miner_success (λ since. leb (elapsed now since) (from_secs 90))

live-empty :
    (now : ℕ) (s : State)
    → is_empty (live_reasons now s) ≡ (
        is_empty s.dead
        && (if same_phase s.phase local_startup
            then leb (elapsed now s.started) (from_secs 60)
            else leb (elapsed now s.watchdog) (from_secs 15)))
unfolding live_reasons
live-empty now s =
    is_empty-append (map task_dead s.dead) _
    ∙ rw (is_empty-map s.dead) (elim (Bool-cases (same_phase s.phase local_startup)) [
      | inl e ↦ rw e (ground arith)
      | inr e ↦ rw e (ground arith)
    ])

ready-empty :
    (now : ℕ) (s : State)
    → is_empty (ready_reasons now s)
      ≡ (same_phase s.phase ready && (not s.indexing || is_current now s))
unfolding ready_reasons
ready-empty now s = ground arith

-- The service is ready exactly if no task is dead, the phase is Ready, the watchdog ticked in the
-- last 15 seconds and, while indexing, the subscription is up, no commit has been awaited for
-- more than 90 seconds and a miner poll succeeded in the last 90; and then it is live.
pub snapshot-ready_iff :
    (now : ℕ) (s : State)
    → (((snapshot now s).is_ready ≡ true) ↔ (
        (s.dead ≡ [])
        × (s.phase ≡ ready)
        × (elapsed now s.watchdog ≤ from_secs 15)
        × ((not s.indexing || is_current now s) ≡ true)))
      × ((snapshot now s).is_ready ≡ true → (snapshot now s).live ≡ true)
unfolding snapshot
snapshot-ready_iff now s =
    let both = is_empty-append (live_reasons now s) (ready_reasons now s) in
    let early = live-empty now s in
    let late = ready-empty now s in
    let none_dead = is_empty_iff s.dead in
    ((λ h. ground arith, λ h. ground arith), λ h. ground arith)
