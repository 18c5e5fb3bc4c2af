-- ===== src/Observer/Loop/Signals.antt =====
-- What the loop sends, and how it ends.
use ferricov.Base.{
  ℕ, ◌≤◌, ◌≡◌, refl, sym, subst, ltb, Bool, true, false, not, ◌&&◌, List, [], ◌∷◌, if◌then◌else◌,
  arith, Bool-cases, inl, inr,
}
use ferricov.Observer.Loop.{
  Round, Qualification, is_signal_probe, is_seen, State, start, send_term, Turn, again, leaves,
  returns, raises, after_seconds, at_deadline, at_kill_deadline, answer, watch, round, run,
}
use ferricov.Observer.Loop.Sends.{
  Inv, IsRunning, Holds, send_term-Inv, at_deadline-Inv, at_deadline-IsRunning,
  at_kill_deadline-Inv, at_kill_deadline-IsRunning, answer-Holds,
}

at_deadline-term :
    (second deadline : ℕ) (st : State) (now : ℕ)
    → deadline ≤ now
    → (at_deadline second deadline st now).term_sent ≡ true
unfolding at_deadline
at_deadline-term second deadline st now h = ground arith

at_kill_deadline-term :
    (st : State) (now : ℕ) → st.term_sent ≡ true → (at_kill_deadline st now).term_sent ≡ true
unfolding at_kill_deadline
at_kill_deadline-term st now h = ground arith

-- At the hard bound, SIGTERM has been sent.
late-term :
    (second deadline : ℕ) (st : State) (now : ℕ)
    → ltb (after_seconds second deadline 15) now ≡ true
    → (at_kill_deadline (at_deadline second deadline st now) now).term_sent ≡ true
late-term second deadline st now h =
    at_kill_deadline-term (at_deadline second deadline st now) now
      (at_deadline-term second deadline st now (ground arith))

module _ (second deadline : ℕ) (st : State) (i : Inv second st) (go : IsRunning st)
    (r : Round) where
  abbrev next : State
  next = at_kill_deadline (at_deadline second deadline st r.now) r.now

  next-Inv : Inv second next
  next-Inv =
      at_kill_deadline-Inv second (at_deadline second deadline st r.now)
        (at_deadline-Inv second st i go deadline r.now)
        (at_deadline-IsRunning second st i go deadline r.now) r.now

  next-IsRunning : IsRunning next
  next-IsRunning =
      at_kill_deadline-IsRunning second (at_deadline second deadline st r.now)
        (at_deadline-Inv second st i go deadline r.now)
        (at_deadline-IsRunning second st i go deadline r.now) r.now

  watch-Holds : Holds second (watch second deadline st r)
  unfolding watch
  watch-Holds = elim (Bool-cases (ltb (after_seconds second deadline 15) r.now)) [
    | inl late ↦
        subst
          (λ b.
            Holds second
              (if b then returns 124 (record next { timed_out = true }) else answer next r r.wait))
          (sym late)
          (
            record { sends = next-Inv.sends; timed = λ _. late-term second deadline st r.now late },
            record {
              no_exit = next-IsRunning.no_exit;
              no_signal = next-IsRunning.no_signal;
              is_alive = next-IsRunning.is_alive;
            },
          )
    | inr early ↦
        subst
          (λ b.
            Holds second
              (if b then returns 124 (record next { timed_out = true }) else answer next r r.wait))
          (sym early) (answer-Holds second next next-Inv next-IsRunning r r.wait)
  ]

module _ (q : Qualification) (second deadline : ℕ) where
  round-Holds :
      (st : State) (r : Round)
      → Inv second st
      → IsRunning st
      → Holds second (round q second deadline st r)
  unfolding round
  round-Holds st r i go = elim (Bool-cases probes) [
    | inl h ↦
        subst (λ b. Holds second (if b then probed else watch second deadline st r)) (sym h)
          (gone r.is_gone (ground arith))
    | inr h ↦
        subst (λ b. Holds second (if b then probed else watch second deadline st r)) (sym h)
          (watch-Holds second deadline st i go r)
  ]
    where
      probes : Bool
      probes = is_signal_probe q && (is_seen st.seen && not st.term_sent)

      probed : Turn
      probed = if r.is_gone then raises st else watch second deadline (send_term second st r.now) r

      gone :
          (b : Bool)
          → st.term_sent ≡ false
          → Holds second
              (if b then raises st else watch second deadline (send_term second st r.now) r)
      gone true e = (i, go)
      gone false e =
          watch-Holds second deadline (send_term second st r.now)
            (send_term-Inv second st i go r.now e)
            (record { no_exit = go.no_exit; no_signal = go.no_signal; is_alive = go.is_alive }) r

  run-Holds :
      (st : State) (rs : List Round)
      → Inv second st
      → IsRunning st
      → Holds second (run q second deadline st rs)
  unfolding run
  run-Holds st [] i go = (i, go)
  run-Holds st (r ∷ rs) i go =
      onward (round q second deadline st r) (round-Holds st r i go) (λ s j h. run-Holds s rs j h)
    where
      onward :
          (t : Turn)
          → Holds second t
          → ((s : State) → Inv second s → IsRunning s → Holds second (run q second deadline s rs))
          → Holds second (elim t [
            | again s ↦ run q second deadline s rs
            | leaves s ↦ leaves s
            | returns code s ↦ returns code s
            | raises s ↦ raises s
          ])
      onward (again s) (j, h) rest = rest s j h
      onward (leaves s) h rest = h
      onward (returns code s) h rest = h
      onward (raises s) h rest = h

-- However the rounds go, the loop sends nothing, or SIGTERM once, or SIGTERM once and SIGKILL once at least ten
-- seconds later; a run that has timed out has sent SIGTERM; the child is live while the loop runs, returns or
-- raises, and when it is left, the child has exited with a code or was ended by a signal, and not both.
pub run-start :
    (q : Qualification) (second deadline : ℕ) (rounds : List Round)
    → Holds second (run q second deadline start rounds)
run-start q second deadline rounds =
    run-Holds q second deadline start rounds (record { sends = (refl, refl); timed = λ h. cc })
      (record { no_exit = refl; no_signal = refl; is_alive = refl })
