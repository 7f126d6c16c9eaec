-- ===== src/Supervisor/Run/Exit.antt =====
-- supervisor.rs: when the supervisor exits with status zero.
use dashboard_quip_network.Prelude.{
  ℕ, ◌≡◌, ◌≢◌, Bool, true, false, Option, none, some, List, [], ◌∷◌, Result, ok, is_ok, inl, inr,
  refl, refuse_if-false, >>=-eq-ok, arith, ap, sym, subst, ◌∙◌,
}
use mathlib.Core.Option.{some-injective}
use dashboard_quip_network.Supervisor.Logs.{Role, collector, backend, caddy, LogStats}
use dashboard_quip_network.Supervisor.Process.{IoError, still_alive, Signal, other_error}
use dashboard_quip_network.Supervisor.Run.{
  ExitReason, signalled, child_exited, collector_exited, spawn_failed, internal, Report,
  exit_code_of, exit_code, Statuses, stop, drain, unexpected, start_children, Wake, supervise,
  or_failed, Shutdown, final_reason, stop_services, stop_collector, shut_down, both, report_of,
  after_wait, config_invalid, Start, begin_children, first_reason, run_children, run,
}
use dashboard_quip_network.Supervisor.Run.Stopping.{
  IsStopped, IsDrained, or_failed-false, stop-IsStopped, drain-IsDrained,
}
use dashboard_quip_network.Supervisor.Run.Waiting.{
  IsSignalled, or_else-inv, unexpected-none, unexpected-signalled, supervise-IsSignalled,
}

-- No child failed to start, so all three did.
begin_children-none :
    (start : Start)
    → (begin_children start).1 ≡ none
    → ((begin_children start).0 ≡ collector ∷ backend ∷ caddy ∷ [])
      × (is_ok start.collector ≡ true)
      × (is_ok start.backend ≡ true)
      × (is_ok start.caddy ≡ true)
unfolding begin_children start_children
begin_children-none start e = ground arith

begin_children-reason : (start : Start) (s : Signal) → (begin_children start).1 ≢ some (signalled s)
unfolding begin_children start_children
begin_children-reason start s e = ground arith

exit_code_of-zero :
    (reason : ExitReason) (timed_out : Bool)
    → exit_code_of reason timed_out ≡ 0
    → (s : Signal) × (reason ≡ signalled s) × (timed_out ≡ false)
unfolding exit_code_of
exit_code_of-zero (signalled s) true e = absurd (omega arith)
exit_code_of-zero (signalled s) false e = (s, refl, refl)
exit_code_of-zero (child_exited r w) timed_out e = absurd (omega arith)
exit_code_of-zero (collector_exited w) timed_out e = absurd (omega arith)
exit_code_of-zero (spawn_failed r error) timed_out e = absurd (ground arith)
exit_code_of-zero (internal error) timed_out e = absurd (omega arith)

final_reason-signalled :
    (child : Role) (rest : List Role) (seen : Statuses) (reason : ExitReason) (s : Signal)
    → final_reason (child ∷ rest) seen reason ≡ signalled s
    → (seen child ≡ ok still_alive) × (reason ≡ signalled s)
unfolding final_reason
final_reason-signalled child rest seen (signalled s') s e =
    kept (unexpected (child ∷ []) seen) refl e
  where
    kept :
        (o : Option ExitReason)
        → unexpected (child ∷ []) seen ≡ o
        → elim o [ none ↦ signalled s' | some reason ↦ reason ] ≡ signalled s
        → (seen child ≡ ok still_alive) × (signalled s' ≡ signalled s)
    kept none was f = ((unexpected-none (child ∷ []) seen was).0, f)
    kept (some reason) was f = absurd (unexpected-signalled (child ∷ []) seen s (was ∙ ap some f))
final_reason-signalled child rest seen (child_exited r w) s e = cc e
final_reason-signalled child rest seen (collector_exited w) s e = cc e
final_reason-signalled child rest seen (spawn_failed r error) s e = cc e
final_reason-signalled child rest seen (internal error) s e = cc e

-- A run that did everything it should.
abbrev pub IsClean : Start → List (Statuses × Wake) → Shutdown → Type 0
IsClean start rounds shutdown =
    (is_ok start.collector ≡ true)
    × (is_ok start.backend ≡ true)
    × (is_ok start.caddy ≡ true)
    × ((s : Signal) × IsSignalled (collector ∷ backend ∷ caddy ∷ []) s rounds)
    × IsStopped (backend ∷ caddy ∷ []) shutdown.services
    × IsDrained (backend ∷ caddy ∷ []) shutdown.service_readers
    × (shutdown.logs_late ≡ false)
    × (shutdown.collector_seen collector ≡ ok still_alive)
    × IsStopped (collector ∷ []) shutdown.collector
    × IsDrained (collector ∷ []) shutdown.collector_readers
    × (shutdown.writer_late ≡ false)

stop_services-inv :
    (child : Role) (rest : List Role) (shutdown : Shutdown)
    → stop_services (child ∷ rest) shutdown ≡ some false
    → IsStopped rest shutdown.services
      × IsDrained rest shutdown.service_readers
      × (shutdown.logs_late ≡ false)
unfolding stop_services
stop_services-inv child rest shutdown e =
    let stopped = stop rest shutdown.services in
    let drained = drain rest shutdown.service_readers in
    let (two, logs) = or_failed-false (or_failed stopped drained) shutdown.logs_late e in
    let (first, second) = or_failed-false stopped drained two in
    (
      stop-IsStopped rest shutdown.services first,
      drain-IsDrained rest shutdown.service_readers second,
      logs,
    )

stop_collector-inv :
    (child : Role) (rest : List Role) (shutdown : Shutdown)
    → stop_collector (child ∷ rest) shutdown ≡ some false
    → IsStopped (child ∷ []) shutdown.collector × IsDrained (child ∷ []) shutdown.collector_readers
unfolding stop_collector
stop_collector-inv child rest shutdown e =
    let (first, second) =
      or_failed-false (stop (child ∷ []) shutdown.collector)
        (drain (child ∷ []) shutdown.collector_readers) e in
    (
      stop-IsStopped (child ∷ []) shutdown.collector first,
      drain-IsDrained (child ∷ []) shutdown.collector_readers second,
    )

both-false : (a b : Option Bool) → both a b ≡ some false → (a ≡ some false) × (b ≡ some false)
both-false none b e = cc e
both-false (some true) none e = cc e
both-false (some true) (some b) e = cc e
both-false (some false) none e = cc e
both-false (some false) (some b) e = (refl, e)

report_of-zero :
    (o : Option Bool) (reason : ExitReason) (stats : LogStats) (report : Report)
    → report_of o reason stats ≡ some report
    → exit_code report ≡ 0
    → (o ≡ some false) × ((s : Signal) × (reason ≡ signalled s))
unfolding exit_code
report_of-zero none reason stats report e code = cc e
report_of-zero (some late) reason stats report e code =
    let (s, by_signal, in_time) = exit_code_of-zero reason late (
      subst (λ (r : Report). exit_code_of r.reason r.timed_out ≡ 0) (sym (some-injective _ _ e))
        code) in
    (rw in_time refl, (s, by_signal))

shut_down-zero :
    (children : List Role) (reason : ExitReason) (shutdown : Shutdown) (stats : LogStats)
    (report : Report)
    → shut_down children reason shutdown stats ≡ some report
    → exit_code report ≡ 0
    → (stop_services children shutdown ≡ some false)
      × (stop_collector children shutdown ≡ some false)
      × (shutdown.writer_late ≡ false)
      × ((s : Signal) × (final_reason children shutdown.collector_seen reason ≡ signalled s))
unfolding shut_down
shut_down-zero children reason shutdown stats report e code =
    let stopped = both (stop_services children shutdown) (stop_collector children shutdown) in
    let (in_time, by_signal) =
      report_of-zero (or_failed stopped shutdown.writer_late)
        (final_reason children shutdown.collector_seen reason) stats report e code in
    let (two, writer) = or_failed-false stopped shutdown.writer_late in_time in
    let (services, logs) =
      both-false (stop_services children shutdown) (stop_collector children shutdown) two in
    (services, logs, writer, by_signal)

after_wait-inv :
    (o : Option ExitReason) (children : List Role) (shutdown : Shutdown) (stats : LogStats)
    (report : Report)
    → after_wait o children shutdown stats ≡ some report
    → (reason : ExitReason) × (o ≡ some reason)
      × (shut_down children reason shutdown stats ≡ some report)
after_wait-inv none children shutdown stats report e = cc e
after_wait-inv (some reason) children shutdown stats report e = (reason, refl, e)

-- A run that a failed start ended has another code, as its reason is no signal.
first_reason-signalled :
    (start : Start) (rounds : List (Statuses × Wake)) (s : Signal)
    → first_reason start rounds ≡ some (signalled s)
    → ((begin_children start).1 ≡ none) × IsSignalled (begin_children start).0 s rounds
unfolding first_reason
first_reason-signalled start rounds s e =
    elim (or_else-inv (begin_children start).1 (supervise (begin_children start).0 rounds)
      (signalled s) e) [
        | inl failed ↦ absurd (begin_children-reason start s failed)
        | inr (none_failed, waited) ↦
            (none_failed, supervise-IsSignalled (begin_children start).0 rounds s waited)
      ]

final_reason-cases :
    (children : List Role) (seen : Statuses) (reason : ExitReason) (s : Signal)
    → final_reason children seen reason ≡ signalled s
    → reason ≡ signalled s
unfolding final_reason
final_reason-cases [] seen reason s e = e
final_reason-cases (child ∷ rest) seen reason s e =
    (final_reason-signalled child rest seen reason s e).1

run_children-IsClean :
    (start : Start) (rounds : List (Statuses × Wake)) (shutdown : Shutdown) (stats : LogStats)
    (report : Report)
    → run_children start rounds shutdown stats ≡ some report
    → exit_code report ≡ 0
    → IsClean start rounds shutdown
unfolding run_children
run_children-IsClean start rounds shutdown stats report e code =
    let children = (begin_children start).0 in
    let (reason, first, down) =
      after_wait-inv (first_reason start rounds) children shutdown stats report e in
    let (services, logs, writer, (s, final)) =
      shut_down-zero children reason shutdown stats report down code in
    let by_signal = final_reason-cases children shutdown.collector_seen reason s final in
    let (none_failed, waited) = first_reason-signalled start rounds s (first ∙ ap some by_signal) in
    let (all_three, first_ok, second_ok, third_ok) = begin_children-none start none_failed in
    let others : List Role = backend ∷ caddy ∷ [] in
    let (services_stopped, services_drained, logs_drained) =
      stop_services-inv collector others shutdown
        (subst (λ l. stop_services l shutdown ≡ some false) all_three services) in
    let (collector_stopped, collector_drained) =
      stop_collector-inv collector others shutdown
        (subst (λ l. stop_collector l shutdown ≡ some false) all_three logs) in
    let (alive, _) =
      final_reason-signalled collector others shutdown.collector_seen reason s (
        subst (λ l. final_reason l shutdown.collector_seen reason ≡ signalled s) all_three final) in
    (
      first_ok,
      second_ok,
      third_ok,
      (s, subst (λ l. IsSignalled l s rounds) all_three waited),
      services_stopped,
      services_drained,
      logs_drained,
      alive,
      collector_stopped,
      collector_drained,
      writer,
    )

-- If a run of the supervisor reports exit code zero, all three children started, and a signal
-- came in a round in which, as in all before it, all three were alive. Then each service and the
-- collector took SIGTERM, was seen ended before the grace period passed, with every status read,
-- and was reaped; all their readers finished; the queue of the logs and the writer were in time,
-- and the collector was still alive when it was checked after the services had stopped.
pub run-IsClean :
    (shutdown_timeout log_capacity : ℕ) (setup : Result IoError (Unit {0})) (start : Start)
    (rounds : List (Statuses × Wake)) (shutdown : Shutdown) (stats : LogStats) (report : Report)
    → run shutdown_timeout log_capacity setup start rounds shutdown stats ≡ ok (some report)
    → exit_code report ≡ 0
    → IsClean start rounds shutdown
unfolding run
run-IsClean shutdown_timeout log_capacity setup start rounds shutdown stats report e code =
    let (_, after_check) =
      refuse_if-false (config_invalid shutdown_timeout log_capacity) other_error _ e in
    let (_, _, ended_well) = >>=-eq-ok setup _ after_check in
    run_children-IsClean start rounds shutdown stats report (cc ended_well) code
