-- ===== src/Examples/Supervision.antt =====
-- Runs of the supervisor.
use dashboard_quip_network.Prelude.{
  ℕ, zero, suc, ◌+◌, ◌≡◌, true, false, some, List, [], ◌∷◌, Result, ok, err, refl, arith, All,
}
use dashboard_quip_network.Supervisor.Logs
use dashboard_quip_network.Supervisor.Logs.{LogCounters, add_pending}
use dashboard_quip_network.Supervisor.Logs.Accounting.{
  Pipeline, new_pipeline, announce, accept, Reach, start, next, IsAccounted, Reach-IsAccounted,
}
use dashboard_quip_network.Supervisor.Reader.{PipeRead, received, failed, read}
use dashboard_quip_network.Supervisor.Reader.Segments.{
  bytes_of, faulty, split, play, collect, IsLine, read-play, read-IsLine,
}
use dashboard_quip_network.Supervisor.Process.{IoError, still_alive, ended, sigterm, spawn}
use dashboard_quip_network.Supervisor.Process.Ownership.{IsLastOf, spawn-IsLastOf}
use dashboard_quip_network.Supervisor.Run
use dashboard_quip_network.Supervisor.Run.{
  ExitReason, signalled, Report, exit_code, Start, Shutdown, StopRun, finished, term, Wake,
  Statuses, run,
}
use dashboard_quip_network.Supervisor.Run.Exit.{IsClean, run-IsClean}

-- `ab`, a newline and `c` in two reads, and then an error.
abbrev two_reads : List PipeRead
two_reads = received (97 ∷ 98 ∷ []) ∷ received (10 ∷ 99 ∷ []) ∷ failed ∷ []

read-play_example :
    read collect two_reads []
    ≡ play collect
        (faulty two_reads)
        (split (bytes_of two_reads)).0
        (split (bytes_of two_reads)).1
        []
read-play_example = read-play collect two_reads []

read-IsLine_example : All IsLine (read collect two_reads [])
read-IsLine_example = read-IsLine two_reads

-- One line announced, accepted and taken by the writer.
abbrev one_announced : Pipeline
one_announced = record new_pipeline {
  counters = add_pending new_pipeline.counters;
  announced = 0 + 1;
  entered = 0 + 1;
}

abbrev one_queued : Pipeline
one_queued = record one_announced { announced = 0; queue = (97 ∷ []) ∷ [] }

one_queued-Reach : Reach 1 one_queued
one_queued-Reach =
    next 1 one_announced one_queued
      (next 1 new_pipeline one_announced (start 1) (announce 1 new_pipeline (omega arith)))
      (accept 1 one_announced 0 (97 ∷ []) refl (omega arith))

Reach-IsAccounted_example : IsAccounted 1 one_queued
Reach-IsAccounted_example = Reach-IsAccounted 1 one_queued (omega arith) one_queued-Reach

-- A program that is busy at the first attempt.
abbrev busy_once : ℕ → Result IoError ℕ
busy_once zero = err (record { not_found = false; text_busy = true })
busy_once (suc n) = ok 7

spawn-IsLastOf_example :
    (r : Result IoError ℕ × ℕ) × (spawn busy_once ≡ some r) × IsLastOf busy_once 0 r
spawn-IsLastOf_example = spawn-IsLastOf busy_once

-- All three children start, run until SIGTERM, and stop in time.
abbrev all_started : Start
all_started = record { collector = ok 10; backend = ok 11; caddy = ok 12 }

abbrev all_alive : Statuses
all_alive child = ok still_alive

abbrev one_round : List (Statuses × Wake)
one_round = (all_alive, term) ∷ []

-- The backend ends at once, the others after a change.
abbrev backend_ended : Statuses
backend_ended Logs.collector = ok still_alive
backend_ended Logs.backend = ok (ended 0)
backend_ended Logs.caddy = ok still_alive

abbrev quick_stop : StopRun
quick_stop = record {
  terms = λ child. ok tt;
  rounds = (backend_ended, false) ∷ (λ child. ok (ended 0), false) ∷ [];
  reaps = λ child. ok tt;
}

abbrev in_time : Shutdown
in_time = record {
  services = quick_stop;
  service_readers = λ child. finished ∷ finished ∷ [];
  logs_late = false;
  collector_seen = all_alive;
  collector = quick_stop;
  collector_readers = λ child. finished ∷ finished ∷ [];
  writer_late = false;
}

abbrev clean_report : Report
clean_report = record {
  reason = signalled sigterm;
  timed_out = false;
  logs = Logs.snapshot Logs.no_counters;
}

clean_run :
    run 20000000000 128 (ok tt) all_started one_round in_time (Logs.snapshot Logs.no_counters)
    ≡ ok (some clean_report)
unfolding run Run.config_invalid Run.run_children Run.first_reason Run.begin_children
    Run.start_children Run.supervise Run.unexpected Run.shut_down Run.stop_services
    Run.stop_collector Run.stop Run.stop_rounds Run.drain Run.final_reason
clean_run = refl

clean_code : exit_code clean_report ≡ 0
unfolding exit_code Run.exit_code_of
clean_code = refl

run-IsClean_example : IsClean all_started one_round in_time
run-IsClean_example =
    run-IsClean 20000000000 128 (ok tt) all_started one_round in_time
      (Logs.snapshot Logs.no_counters) clean_report clean_run clean_code
