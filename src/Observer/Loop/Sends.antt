-- ===== src/Observer/Loop/Sends.antt =====
-- The signals that are sent, and the answers of a round.
use ferricov.Base.{
  ℕ, ◌+◌, ◌≤◌, ◌≡◌, refl, sym, subst, ap, leb, ◌==◌, Bool, true, false, not, ◌&&◌, List, [], ◌∷◌,
  Option, some, none, if◌then◌else◌, arith, ◌⊎◌, Bool-cases, inl, inr,
}
use ferricov.Observer.Loop.{
  Round, Wait, nothing_yet, stopped, exited, signaled, other_status, no_child, Reading, observed,
  disappeared, identity_failure, State, send_term, Turn, again, leaves, returns, raises,
  after_seconds, at_deadline, at_kill_deadline, is_past, at_exec, answer, sigterm, sigkill,
  ptrace_event_exec,
}

-- Nothing was sent; or SIGTERM once; or SIGTERM and, at least ten seconds later, SIGKILL.
abbrev pub Sends : ℕ → List (ℕ × ℕ) → Bool → Bool → Option ℕ → Type 0
Sends second sent false kill d = (sent ≡ []) × (kill ≡ false)
Sends second sent true false d =
    (t : ℕ) × (sent ≡ (t, sigterm) ∷ []) × (d ≡ some (after_seconds second t 10))
Sends second sent true true d =
    (t : ℕ) × (u : ℕ) × (sent ≡ (u, sigkill) ∷ (t, sigterm) ∷ []) × (after_seconds second t 10 ≤ u)

pub record Inv (second : ℕ) (st : State) : Type 0 where
  pub sends : Sends second st.sent st.term_sent st.kill_sent st.kill_deadline
  pub timed : st.timed_out ≡ true → st.term_sent ≡ true

pub record IsRunning (st : State) : Type 0 where
  pub no_exit : st.exit_status ≡ none
  pub no_signal : st.sig_num ≡ none
  pub is_alive : st.is_live ≡ true

-- The child exited, or a signal ended it.
abbrev pub HasEnded : State → Type 0
HasEnded st =
    (st.is_live ≡ false)
    × (((code : ℕ) × (st.exit_status ≡ some code)
          × (st.sig_num ≡ none)
          × (st.wait_code ≡ some code))
        ⊎ ((s : ℕ) × (st.exit_status ≡ none)
            × (st.sig_num ≡ some s)
            × (st.wait_code ≡ some (128 + s))))

abbrev pub Holds : ℕ → Turn → Type 0
Holds second (again st) = Inv second st × IsRunning st
Holds second (leaves st) = Inv second st × HasEnded st
Holds second (returns code st) = Inv second st × IsRunning st
Holds second (raises st) = Inv second st × IsRunning st

module _ (second : ℕ) (st : State) (i : Inv second st) (go : IsRunning st) where
  sent_nothing : st.term_sent ≡ false → (st.sent ≡ []) × (st.kill_sent ≡ false)
  sent_nothing e = subst (λ b. Sends second st.sent b st.kill_sent st.kill_deadline) e i.sends

  pub send_term-Inv : (now : ℕ) → st.term_sent ≡ false → Inv second (send_term second st now)
  send_term-Inv now e =
      let (nothing, unkilled) = sent_nothing e in
      record {
        sends =
            subst
              (λ k.
                Sends second ((now, sigterm) ∷ st.sent) true k (some (after_seconds second now 10)))
              (sym unkilled) (now, ap (λ s. (now, sigterm) ∷ s) nothing, refl);
        timed = λ h. refl;
      }

  late-Inv :
      (now : ℕ)
      → st.term_sent ≡ false
      → Inv second (record (send_term second st now) { timed_out = true })
  late-Inv now e = record { sends = (send_term-Inv now e).sends; timed = λ h. refl }

  pub at_deadline-Inv : (deadline now : ℕ) → Inv second (at_deadline second deadline st now)
  unfolding at_deadline
  at_deadline-Inv deadline now = elim (Bool-cases (not st.term_sent && leb deadline now)) [
    | inl h ↦
        subst
          (λ b.
            Inv second (if b then record (send_term second st now) { timed_out = true } else st))
          (sym h) (late-Inv now (ground arith))
    | inr h ↦
        subst
          (λ b.
            Inv second (if b then record (send_term second st now) { timed_out = true } else st))
          (sym h) i
  ]

  pub at_deadline-IsRunning : (deadline now : ℕ) → IsRunning (at_deadline second deadline st now)
  unfolding at_deadline
  at_deadline-IsRunning deadline now = keep (not st.term_sent && leb deadline now)
    where
      keep :
          (b : Bool)
          → IsRunning (if b then record (send_term second st now) { timed_out = true } else st)
      keep true = record { no_exit = go.no_exit; no_signal = go.no_signal; is_alive = go.is_alive }
      keep false = go

  kills-Inv :
      (now : ℕ)
      → st.term_sent ≡ true
      → st.kill_sent ≡ false
      → is_past st.kill_deadline now ≡ true
      → Inv second
          (record st { timed_out = true; kill_sent = true; sent = (now, sigkill) ∷ st.sent })
  kills-Inv now term kill past = record {
    sends = killed st.kill_deadline first past;
    timed = λ h. term;
  }
    where
      first : Sends second st.sent true false st.kill_deadline
      first =
          subst (λ k. Sends second st.sent true k st.kill_deadline) kill
            (subst (λ b. Sends second st.sent b st.kill_sent st.kill_deadline) term i.sends)

      killed :
          (d : Option ℕ)
          → Sends second st.sent true false d
          → is_past d now ≡ true
          → Sends second ((now, sigkill) ∷ st.sent) st.term_sent true d
      killed none (t, sent, e) h = cc
      killed (some at) (t, sent, e) h =
          subst (λ b. Sends second ((now, sigkill) ∷ st.sent) b true (some at)) (sym term)
            (t, now, ap (λ s. (now, sigkill) ∷ s) sent, ground arith)

  pub at_kill_deadline-Inv : (now : ℕ) → Inv second (at_kill_deadline st now)
  unfolding at_kill_deadline
  at_kill_deadline-Inv now = elim (Bool-cases kills) [
    | inl h ↦
        subst (λ b. Inv second (if b then killed else st)) (sym h)
          (kills-Inv now (ground arith) (ground arith) (ground arith))
    | inr h ↦ subst (λ b. Inv second (if b then killed else st)) (sym h) i
  ]
    where
      kills : Bool
      kills = st.term_sent && (not st.kill_sent && is_past st.kill_deadline now)

      killed : State
      killed = record st { timed_out = true; kill_sent = true; sent = (now, sigkill) ∷ st.sent }

  pub at_kill_deadline-IsRunning : (now : ℕ) → IsRunning (at_kill_deadline st now)
  unfolding at_kill_deadline
  at_kill_deadline-IsRunning now =
      keep (st.term_sent && (not st.kill_sent && is_past st.kill_deadline now))
    where
      keep :
          (b : Bool)
          → IsRunning (
              if b
              then record st { timed_out = true; kill_sent = true; sent = (now, sigkill) ∷ st.sent }
              else st)
      keep true = record { no_exit = go.no_exit; no_signal = go.no_signal; is_alive = go.is_alive }
      keep false = go

  -- What the loop has sent does not depend on what it has seen.
  exec-Holds : (continues : Bool) (reading : Reading) → Holds second (at_exec st continues reading)
  exec-Holds continues disappeared = (i, go)
  exec-Holds continues identity_failure = (i, go)
  exec-Holds false (observed o) = (
    record { sends = i.sends; timed = i.timed },
    record { no_exit = go.no_exit; no_signal = go.no_signal; is_alive = go.is_alive },
  )
  exec-Holds true (observed o) = (
    record { sends = i.sends; timed = i.timed },
    record { no_exit = go.no_exit; no_signal = go.no_signal; is_alive = go.is_alive },
  )

  Holds-if :
      (b : Bool) (t u : Turn) → Holds second t → Holds second u → Holds second (if b then t else u)
  Holds-if true t u h k = h
  Holds-if false t u h k = k

  pub answer-Holds : (r : Round) (w : Wait) → Holds second (answer st r w)
  unfolding answer
  answer-Holds r nothing_yet = (i, go)
  answer-Holds r (stopped event stop_sig) =
      Holds-if (event == ptrace_event_exec) _ _ (exec-Holds r.continues r.reading) (
        Holds-if r.continues _ _
          (
            record { sends = i.sends; timed = i.timed },
            record { no_exit = go.no_exit; no_signal = go.no_signal; is_alive = go.is_alive },
          )
          (i, go))
  answer-Holds r (exited code) =
      (record { sends = i.sends; timed = i.timed }, (refl, inl (code, refl, refl, refl)))
  answer-Holds r (signaled s) =
      (record { sends = i.sends; timed = i.timed }, (refl, inr (s, refl, refl, refl)))
  answer-Holds r other_status = (i, go)
  answer-Holds r no_child = (i, go)
