-- ===== src/Observer/Loop.antt =====
-- The loop of `main` over the stops of the traced child. Times are in ticks, `second` to a second. What
-- the kernel answers in a round is a record, so that a run is a list of rounds.

pub mod Bound
pub mod Sends
pub mod Signals
use ferricov.Base.{
  ℕ, ◌+◌, ◌*◌, ◌==◌, ltb, leb, Bool, true, false, not, ◌&&◌, ◌||◌, List, [], ◌∷◌, ◌++◌, Option,
  none, some, if◌then◌else◌, max,
}
use ferricov.Base.Bytes.{Bytes, codes}

abbrev pub sigint : ℕ
sigint = 2

abbrev pub sigquit : ℕ
sigquit = 3

abbrev pub sigtrap : ℕ
sigtrap = 5

abbrev pub sigkill : ℕ
sigkill = 9

abbrev pub sigterm : ℕ
sigterm = 15

abbrev pub sigstop : ℕ
sigstop = 19

abbrev pub ptrace_event_exec : ℕ
ptrace_event_exec = 4

-- What is read of the child at an exec stop.
pub record Observation : Type 0 where
  pub exe : Bytes
  pub cwd : Bytes
  pub argv : List Bytes
  pub sha : Bytes

-- The reads at an exec stop return, find no process, or raise another OSError.
pub data Reading : Type 0 where
  observed : Observation → Reading
  disappeared identity_failure : Reading

-- What `os.waitpid(child_pid, os.WNOHANG)` answers.
pub data Wait : Type 0 where
  nothing_yet : Wait
  stopped : ℕ → ℕ → Wait
  exited : ℕ → Wait
  signaled : ℕ → Wait
  other_status : Wait
  no_child : Wait

pub record Round : Type 0 where
  pub now : ℕ
  -- os.kill raises ProcessLookupError
  pub is_gone : Bool
  pub wait : Wait
  pub reading : Reading
  -- PTRACE_CONT returns 0
  pub continues : Bool

pub data Qualification : Type 0 where
  unqualified signal_probe timeout_probe : Qualification

abbrev pub is_signal_probe : Qualification → Bool
is_signal_probe signal_probe = true
is_signal_probe _ = false

pub record State : Type 0 where
  pub term_sent : Bool
  pub kill_sent : Bool
  pub kill_deadline : Option ℕ
  pub timed_out : Bool
  -- `exec_seen` and the four values read with it
  pub seen : Option Observation
  pub exit_status : Option ℕ
  pub sig_num : Option ℕ
  pub wait_code : Option ℕ
  -- child_pid > 0
  pub is_live : Bool
  -- the signals that the loop has sent with os.kill, with their times
  pub sent : List (ℕ × ℕ)
  -- the signals that PTRACE_CONT has passed on
  pub passed_on : List ℕ

abbrev pub start : State
start = record {
  term_sent = false;
  kill_sent = false;
  kill_deadline = none;
  timed_out = false;
  seen = none;
  exit_status = none;
  sig_num = none;
  wait_code = none;
  is_live = true;
  sent = [];
  passed_on = [];
}

-- A round goes on with the loop, leaves it, returns a code, or raises.
pub data Turn : Type 0 where
  again : State → Turn
  leaves : State → Turn
  returns : ℕ → State → Turn
  raises : State → Turn

abbrev pub after_seconds : ℕ → ℕ → ℕ → ℕ
after_seconds second t n = t + n * second

abbrev pub is_seen : Option Observation → Bool
is_seen none = false
is_seen (some o) = true

abbrev pub send_term : ℕ → State → ℕ → State
send_term second st now = record st {
  term_sent = true;
  kill_deadline = some (after_seconds second now 10);
  sent = (now, sigterm) ∷ st.sent;
}

-- The deadline passed and nothing was sent.
unfoldable pub at_deadline : ℕ → ℕ → State → ℕ → State
at_deadline second deadline st now =
    if not st.term_sent && leb deadline now
    then record (send_term second st now) { timed_out = true }
    else st

abbrev is_past : Option ℕ → ℕ → Bool
is_past none now = false
is_past (some t) now = leb t now

unfoldable pub at_kill_deadline : State → ℕ → State
at_kill_deadline st now =
    if st.term_sent && (not st.kill_sent && is_past st.kill_deadline now)
    then record st { timed_out = true; kill_sent = true; sent = (now, sigkill) ∷ st.sent }
    else st

abbrev is_one_of : ℕ → List ℕ → Bool
is_one_of n [] = false
is_one_of n (m ∷ ms) = (n == m) || is_one_of n ms

-- The signal that the child gets when it goes on from a stop.
unfoldable pub deliver : ℕ → ℕ → ℕ
deliver event stop_sig =
    if not (event == 0) && (stop_sig == sigtrap)
    then 0
    else if is_one_of stop_sig (sigterm ∷ sigkill ∷ sigint ∷ sigquit ∷ [])
    then stop_sig
    else if is_one_of stop_sig (sigtrap ∷ sigstop ∷ []) && (event == 0)
    then 0
    else stop_sig

abbrev at_exec : State → Bool → Reading → Turn
at_exec st continues disappeared = returns 3 st
at_exec st continues identity_failure = returns 3 st
at_exec st false (observed o) = returns 2 (record st { seen = some o })
at_exec st true (observed o) = again (record st { seen = some o })

abbrev pass_on : ℕ → State → Turn
pass_on s st = again (record st { passed_on = s ∷ st.passed_on })

-- The answer of waitpid.
unfoldable pub answer : State → Round → Wait → Turn
unfolding deliver
answer st r nothing_yet = again st
answer st r (stopped event stop_sig) =
    if event == ptrace_event_exec
    then at_exec st r.continues r.reading
    else if r.continues
    then pass_on (deliver event stop_sig) st
    else returns 2 st
answer st r (exited code) =
    leaves (record st {
      exit_status = some code;
      wait_code = some code;
      sig_num = none;
      is_live = false;
    })
answer st r (signaled s) = leaves (record st {
  sig_num = some s;
  exit_status = none;
  wait_code = some (128 + s);
  is_live = false;
})
answer st r other_status = returns 2 st
answer st r no_child = raises st

-- The rest of a round, after the signal probe.
unfoldable pub watch : ℕ → ℕ → State → Round → Turn
watch second deadline st r =
    let next = at_kill_deadline (at_deadline second deadline st r.now) r.now in
    if ltb (after_seconds second deadline 15) r.now
    then returns 124 (record next { timed_out = true })
    else answer next r r.wait

-- One round. The signal probe's SIGTERM is sent outside any try.
unfoldable pub round : Qualification → ℕ → ℕ → State → Round → Turn
round q second deadline st r =
    if is_signal_probe q && (is_seen st.seen && not st.term_sent)
    then (if r.is_gone then raises st else watch second deadline (send_term second st r.now) r)
    else watch second deadline st r

-- The loop over the rounds; `again` at the end means that it is still running.
unfoldable pub run : Qualification → ℕ → ℕ → State → List Round → Turn
run q second deadline st [] = again st
run q second deadline st (r ∷ rs) = elim (round q second deadline st r) [
  | again next ↦ run q second deadline next rs
  | leaves next ↦ leaves next
  | returns code next ↦ returns code next
  | raises next ↦ raises next
]

-- `max(1, int(args.timeout_seconds))`
abbrev pub timeout_sec : ℕ → ℕ
timeout_sec n = max 1 n

abbrev pub deadline_of : ℕ → ℕ → ℕ → ℕ
deadline_of second started timeout = after_seconds second started (timeout_sec timeout)
