-- ===== src/Observer/Loop/Bound.antt =====
-- The loop does not outlive its hard bound.
use ferricov.Base.{
  ℕ, ◌≤◌, ◌≡◌, refl, ltb, Bool, true, false, not, ◌&&◌, List, [], ◌∷◌, if◌then◌else◌, All, ltb→le,
}
use ferricov.Observer.Loop.{
  Round, Qualification, is_signal_probe, is_seen, State, send_term, Turn, again, leaves, returns,
  raises, after_seconds, at_deadline, at_kill_deadline, answer, watch, round, run,
}

gate :
    (late : Bool) (code : ℕ) (at_bound : State) (answered : Turn) {next : State}
    → (if late then returns code at_bound else answered) ≡ again next
    → late ≡ false
gate true code at_bound answered h = cc
gate false code at_bound answered h = refl

module _ (q : Qualification) (second deadline : ℕ) where
  abbrev bound : ℕ
  bound = after_seconds second deadline 15

  watch-again :
      (st : State) (r : Round) {next : State}
      → watch second deadline st r ≡ again next
      → r.now ≤ bound
  unfolding watch
  watch-again st r h = ltb→le bound r.now (
      gate (ltb bound r.now) 124
        (record (at_kill_deadline (at_deadline second deadline st r.now) r.now) {
          timed_out = true;
        })
        (answer (at_kill_deadline (at_deadline second deadline st r.now) r.now) r r.wait) h)

  probe-again :
      (probed gone : Bool) (st : State) (r : Round) {next : State}
      → (if probed
          then (if gone then raises st else watch second deadline (send_term second st r.now) r)
          else watch second deadline st r)
        ≡ again next
      → r.now ≤ bound
  probe-again true true st r h = cc
  probe-again true false st r h = watch-again (send_term second st r.now) r h
  probe-again false gone st r h = watch-again st r h

  round-again :
      (st : State) (r : Round) {next : State}
      → round q second deadline st r ≡ again next
      → r.now ≤ bound
  unfolding round
  round-again st r h =
      probe-again (is_signal_probe q && (is_seen st.seen && not st.term_sent)) r.is_gone st r h

  run-step :
      (t : Turn) (rs : List Round) {next : State}
      → (elim t [
        | again st ↦ run q second deadline st rs
        | leaves st ↦ leaves st
        | returns code st ↦ returns code st
        | raises st ↦ raises st
      ])
        ≡ again next
      → (st : State) × (t ≡ again st) × (run q second deadline st rs ≡ again next)
  run-step (again st) rs h = (st, refl, h)
  run-step (leaves st) rs h = cc
  run-step (returns code st) rs h = cc
  run-step (raises st) rs h = cc

  -- While the loop is still running, no round was later than 15 seconds after the deadline.
  pub run-bounded :
      (st : State) (rounds : List Round) {next : State}
      → run q second deadline st rounds ≡ again next
      → All (λ (r : Round). r.now ≤ after_seconds second deadline 15) rounds
  unfolding run
  run-bounded st [] h = tt
  run-bounded st (r ∷ rs) h =
      let (st', e, later) = run-step (round q second deadline st r) rs h in
      (round-again st r e, run-bounded st' rs later)
