-- ===== src/Observer/Outcome.antt =====
-- What `main` does after its loop: the checks of the observed executable, the one shape of an outcome, and
-- the files that it writes. A file is the record of its fields.
pub mod Trusted
use ferricov.Base.{
  ℕ, ◌+◌, ◌==◌, ltb, leb, Bool, true, false, not, ◌&&◌, ◌||◌, List, [], ◌∷◌, ◌++◌, Option, none,
  some, if◌then◌else◌, replicate,
}
use ferricov.Base.Bytes.{Bytes, codes, bytes_eq, starts_with, split, mem}
use ferricov.Observer.Loop.{
  Observation, Round, Qualification, State, start, Turn, again, leaves, returns, raises, run,
  sigterm, deadline_of, timeout_sec,
}

-- `".." in Path(path).parts`
abbrev pub climbs : Bytes → Bool
climbs path = mem (codes "..") (split b'/' path)

-- A digest that stands for none.
abbrev pub is_sentinel : Bytes → Bool
is_sentinel sha =
    bytes_eq sha [] || (bytes_eq sha (replicate 64 b'f') || bytes_eq sha (replicate 64 b'0'))

abbrev pub is_empty : List Bytes → Bool
is_empty [] = true
is_empty (a ∷ as') = false

abbrev pub is_live_exec : Observation → Bool
is_live_exec o = not (is_empty o.argv) && starts_with (codes "/") o.exe

-- The tests on the paths and the digest, in their order.
unfoldable pub is_trusted : Observation → Bool
is_trusted o =
    not (climbs o.exe || climbs o.cwd) && (starts_with (codes "/") o.cwd && not (is_sentinel o.sha))

-- The shape that is reported.
pub record Shape : Type 0 where
  pub exit_status : Option ℕ
  pub sig_num : Option ℕ
  pub timed_out : Bool
  pub wait_code : Option ℕ

abbrev pub is_some : Option ℕ → Bool
is_some none = false
is_some (some n) = true

abbrev pub after_timeout : State → Option ℕ → Shape
after_timeout st none =
    if is_some st.exit_status && not st.term_sent
    then record {
      exit_status = st.exit_status;
      sig_num = none;
      timed_out = false;
      wait_code = st.wait_code;
    }
    else record {
      exit_status = none;
      sig_num = some sigterm;
      timed_out = true;
      wait_code = some (128 + sigterm);
    }
after_timeout st (some s) = record {
  exit_status = none;
  sig_num = some s;
  timed_out = true;
  wait_code = st.wait_code;
}

abbrev pub in_time : State → Option ℕ → Option ℕ → Shape
in_time st (some s) exit = record {
  exit_status = none;
  sig_num = some s;
  timed_out = false;
  wait_code = st.wait_code;
}
in_time st none (some code) = record {
  exit_status = some code;
  sig_num = none;
  timed_out = false;
  wait_code = st.wait_code;
}
in_time st none none = record {
  exit_status = some 1;
  sig_num = none;
  timed_out = false;
  wait_code = some 1;
}

unfoldable pub shape_of : State → Shape
shape_of st =
    if st.timed_out then after_timeout st st.sig_num else in_time st st.sig_num st.exit_status

-- The code of `return`: `min(128 + sig_num, 255)`, or `int(exit_status or 0)`.
abbrev least : ℕ → ℕ → ℕ
least a b = if ltb a b then a else b

abbrev code_for : Option ℕ → Option ℕ → ℕ
code_for (some s) exit = least (128 + s) 255
code_for none (some code) = code
code_for none none = 0

abbrev pub code_of : Shape → ℕ
code_of s = if s.timed_out then 124 else code_for s.sig_num s.exit_status

-- The status, the meta and the children files.
pub record Status : Type 0 where
  pub shape : Shape
  pub seen : Observation
  pub timeout : ℕ

pub record Report : Type 0 where
  -- none when an exception leaves `main`, or while the loop runs
  pub code : Option ℕ
  pub observed_argv : Option (List Bytes)
  pub status : Option Status
  -- `kill_and_reap` is called on the child
  pub is_reaped : Bool

abbrev pub closed : State → ℕ → Report
closed st code = record {
  code = some code;
  observed_argv = none;
  status = none;
  is_reaped = st.is_live;
}

abbrev pub or_subject : List Bytes → List Bytes → List Bytes
or_subject [] subject = subject
or_subject (a ∷ as') subject = a ∷ as'

abbrev pub with_exec : ℕ → List Bytes → State → Observation → Report
with_exec timeout subject st o =
    if not (is_live_exec o)
    then record (closed st 3) { observed_argv = some (or_subject o.argv subject) }
    else if not (is_trusted o)
    then closed st 3
    else record {
      code = some (code_of (shape_of st));
      observed_argv = some o.argv;
      status = some (record { shape = shape_of st; seen = o; timeout = timeout });
      is_reaped = st.is_live;
    }

-- After `break`.
unfoldable pub after_loop : ℕ → List Bytes → State → Option Observation → Report
unfolding is_trusted shape_of
after_loop timeout subject st none = record (closed st 3) { observed_argv = some subject }
after_loop timeout subject st (some o) = with_exec timeout subject st o

-- The `finally` clause reaps a child that may still live, however the loop ends.
abbrev pub report_of : ℕ → List Bytes → Turn → Report
report_of timeout subject (leaves st) = after_loop timeout subject st st.seen
report_of timeout subject (returns code st) = closed st code
report_of timeout subject (raises st) = record (closed st 0) { code = none }
report_of timeout subject (again st) = record (closed st 0) { code = none; is_reaped = false }

-- How the child is attached: it stops, and the two ptrace requests return 0.
pub record Attach : Type 0 where
  pub stops : Bool
  pub sets_options : Bool
  pub goes_on : Bool

abbrev pub is_attached : Attach → Bool
is_attached a = a.stops && (a.sets_options && a.goes_on)

-- The observer from the fork on, with its rounds.
unfoldable pub observe : Attach → Qualification → ℕ → ℕ → ℕ → List Bytes → List Round → Report
unfolding after_loop run
observe a q second started timeout subject rounds =
    if is_attached a
    then report_of (timeout_sec timeout) subject
        (run q second (deadline_of second started timeout) start rounds)
    else closed start 2
