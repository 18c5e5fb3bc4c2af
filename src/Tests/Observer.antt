-- ===== src/Tests/Observer.antt =====
-- Runs of the process observer.
use ferricov.Base.{ℕ, ◌≤◌, ◌≡◌, refl, true, false, List, [], ◌∷◌, none, some, All, replicate}
use ferricov.Base.Bytes.{Bytes, codes, bytes_eq, starts_with, split}
use ferricov.Observer.Loop.{
  Observation, observed, Wait, nothing_yet, stopped, exited, signaled, Round, unqualified,
  signal_probe, start, run, round, watch, at_deadline, at_kill_deadline, answer, after_seconds,
  ptrace_event_exec, sigtrap, sigterm, State,
}
use ferricov.Observer.Loop.Bound.{run-bounded}
use ferricov.Observer.Loop.Sends.{Holds}
use ferricov.Observer.Loop.Signals.{run-start}
use ferricov.Observer.Outcome.{Report, Attach, observe}

abbrev perl : Observation
perl = record {
  exe = codes "/usr/bin/perl";
  cwd = codes "/work";
  argv = codes "perl" ∷ codes "lcov" ∷ [];
  sha = replicate 64 b'a';
}

abbrev at : ℕ → Wait → Round
at now wait = record {
  now = now;
  is_gone = false;
  wait = wait;
  reading = observed perl;
  continues = true;
}

-- 10 ticks to a second, from 0 on, with a timeout of 2 seconds
abbrev exec_stop : Round
exec_stop = at 1 (stopped ptrace_event_exec sigtrap)

abbrev finished : Report
finished = record {
  code = some 3;
  observed_argv = some perl.argv;
  status = some (record {
    shape = record { exit_status = some 3; sig_num = none; timed_out = false; wait_code = some 3 };
    seen = perl;
    timeout = 2;
  });
  is_reaped = false;
}

abbrev attached : Attach
attached = record { stops = true; sets_options = true; goes_on = true }

exits :
    observe attached unqualified 10 0 2
      (codes "lcov" ∷ [])
      (exec_stop ∷ at 2 nothing_yet ∷ at 3 (exited 3) ∷ [])
    ≡ finished
unfolding observe round watch at_deadline at_kill_deadline answer bytes_eq starts_with split
exits = refl

-- The child exits after the deadline: the observer reports SIGTERM.
late_exit :
    (observe attached unqualified 10 0 2
      (codes "lcov" ∷ [])
      (exec_stop ∷ at 20 (exited 3) ∷ [])).status
    ≡ some (record {
      shape = record {
        exit_status = none;
        sig_num = some 15;
        timed_out = true;
        wait_code = some 143;
      };
      seen = perl;
      timeout = 2;
    })
unfolding observe round watch at_deadline at_kill_deadline answer bytes_eq starts_with split
late_exit = refl

run-start_example :
    Holds 10 (
      run signal_probe 10 20 start (exec_stop ∷ at 2 (stopped 0 sigterm) ∷ at 3 (signaled 15) ∷ []))
run-start_example =
    run-start signal_probe 10 20 (exec_stop ∷ at 2 (stopped 0 sigterm) ∷ at 3 (signaled 15) ∷ [])

abbrev waiting : State
waiting = record start { seen = some perl }

run-bounded_example :
    All (λ (r : Round). r.now ≤ after_seconds 10 20 15) (exec_stop ∷ at 2 nothing_yet ∷ [])
unfolding run round watch at_deadline at_kill_deadline answer
run-bounded_example =
    run-bounded unqualified 10 20 start (exec_stop ∷ at 2 nothing_yet ∷ []) {next = waiting} refl

abbrev environment : List (Bytes × Bytes)
environment = (codes "TZ", codes "UTC") ∷ (codes "LANG", codes "C=1") ∷ []
