-- ===== src/Cases/Resolve/RequireOrder.antt =====
-- Under POSIXLY_CORRECT a getopt parser stops at the first operand; otherwise it never stops.
use ferricov.Base.{
  ◌≡◌, ◌≢◌, refl, sym, subst, ap, ◌∙◌, ok, Bool, true, false, not, ◌&&◌, ◌||◌, List, [], ◌∷◌, ◌++◌,
  append_assoc, append-nil, Option, none, some, if◌then◌else◌, Bool-cases, inl, inr,
}
use ferricov.Base.Dict.{get}
use ferricov.Base.Bytes.{Bytes, codes, bytes_eq}
use ferricov.Cases.Policy.{Command, parser_policy_signature}
use ferricov.Cases.Token.{
  Token, Parser, State, append, opens, plain, reviewed_explicit_aliases, ignored,
  unparsed_after_require_order,
}
use ferricov.Cases.Resolve.{
  getopt_option, argparse_option, operand, read_free, read_waiting, read, read_all, start,
  mark_last, finish, signature_of, signature_with, parser_of, case_resolution_signature, value_of,
}
use ferricov.Cases.Match.{is_getopt, is_argparse, is_no_parser, is_dashed}
use ferricov.Cases.Resolve.Moves.{is_positional, InOrder, Moves, and-false, read_free-Moves, moves}

-- The first record of a run, and whether the parser has stopped after it.
abbrev Head : Bool → Bool → Token → Bool → Type 0
Head posix true r after = (r.resolution ≡ unparsed_after_require_order) × (after ≡ true)
Head posix false r after =
    (r.resolution ≢ unparsed_after_require_order) × (after ≡ (posix && is_positional r.resolution))

Head-InOrder :
    (posix stopped : Bool) (r : Token) (after : Bool) (rs : List Token)
    → Head posix stopped r after
    → InOrder posix after rs
    → InOrder posix stopped (r ∷ rs)
Head-InOrder posix true r after rs (e, k) h = (e, subst (λ b. InOrder posix b rs) k h)
Head-InOrder posix false r after rs (e, k) h = (e, subst (λ b. InOrder posix b rs) k h)

-- A stopped parser waits for no value.
abbrev IsIdle : State → Type 0
IsIdle st = st.getopt_stopped ≡ true → st.pending_value_for ≡ none

data Reads (p : Parser) (st next : State) : Type 0 where
  reads :
      (r : Token)
      → next.signature ≡ st.signature ++ r ∷ []
      → Head p.posix st.getopt_stopped r next.getopt_stopped
      → IsIdle next
      → Reads p st next

module _ (p : Parser) (getopt : is_getopt p.family ≡ true) where
  stopped-Reads :
      (st : State) (t : Bytes)
      → st.getopt_stopped ≡ true
      → st.pending_value_for ≡ none
      → Reads p st (append (plain t unparsed_after_require_order) st)
  unfolding opens
  stopped-Reads st t stopped idle =
      reads (plain t unparsed_after_require_order) refl (head st.getopt_stopped stopped) (λ _. idle)
    where
      head : (b : Bool) → b ≡ true → Head p.posix b (plain t unparsed_after_require_order) b
      head true e = (refl, refl)
      head false e = cc

  running-Reads : (st next : State) → st.getopt_stopped ≡ false → Moves p st next → Reads p st next
  running-Reads st next running (moves r parsed grown stopped idle) =
      reads r grown
        (subst (λ b. Head p.posix b r next.getopt_stopped) (sym running) (parsed, stopped)) idle

  value-Reads :
      (st : State) (t o : Bytes)
      → st.getopt_stopped ≡ false
      → Reads p st
          (record st { signature = st.signature ++ value_of t o ∷ []; pending_value_for = none })
  value-Reads st t o running =
      reads (value_of t o) refl
        (subst (λ b. Head p.posix b (value_of t o) b) (sym running)
          ((λ h. cc), sym (and-false p.posix)))
        (λ _. refl)

  waiting-Reads :
      (st : State) (t : Bytes) (o : Option Bytes)
      → IsIdle st
      → st.pending_value_for ≡ o
      → Reads p st (read_waiting p st t o)
  unfolding read_free
  waiting-Reads st t (some o) idle waiting = elim (Bool-cases st.getopt_stopped) [
    | inl stopped ↦ absurd (cc (idle stopped))
    | inr running ↦ value-Reads st t o running
  ]
  waiting-Reads st t none idle free = elim (Bool-cases st.getopt_stopped) [
    | inl stopped ↦
        subst
          (λ b. Reads p st (
            if b
            then append (plain t unparsed_after_require_order) st
            else if is_no_parser p.family
            then append (plain t ignored) st
            else if not (is_dashed t) || bytes_eq t (codes "-")
            then operand p st t
            else if is_argparse p.family
            then argparse_option p st t
            else getopt_option p st t))
          (sym (ap (λ b. b && st.getopt_stopped) getopt ∙ stopped))
          (stopped-Reads st t stopped free)
    | inr running ↦ running-Reads st _ running (read_free-Moves p getopt st t running free)
  ]

  read_all-InOrder :
      (st : State) (ts : List Bytes)
      → IsIdle st
      → (rs : List Token) × ((read_all p st ts).signature ≡ st.signature ++ rs)
        × InOrder p.posix st.getopt_stopped rs
  unfolding read_all read
  read_all-InOrder st [] idle = ([], sym (append-nil st.signature), tt)
  read_all-InOrder st (t ∷ ts) idle =
      more (waiting-Reads st t st.pending_value_for idle refl)
        (λ h. read_all-InOrder (read_waiting p st t st.pending_value_for) ts h)
    where
      more :
          Reads p st (read_waiting p st t st.pending_value_for)
          → (IsIdle (read_waiting p st t st.pending_value_for)
              → (rs : List Token) × ((read_all p
                    (read_waiting p st t st.pending_value_for)
                    ts).signature
                  ≡ (read_waiting p st t st.pending_value_for).signature ++ rs)
                × InOrder p.posix (read_waiting p st t st.pending_value_for).getopt_stopped rs)
          → (rs : List Token) × ((read_all p
                (read_waiting p st t st.pending_value_for)
                ts).signature
              ≡ st.signature ++ rs)
            × InOrder p.posix st.getopt_stopped rs
      more (reads r grown head idle') rest =
          let (rs, e, h) = rest idle' in
          (
            r ∷ rs,
            e ∙ (ap (λ s. s ++ rs) grown ∙ append_assoc st.signature (r ∷ []) rs),
            Head-InOrder p.posix st.getopt_stopped r _ rs head h,
          )

InOrder-mark_last :
    (posix stopped : Bool) (rs : List Token)
    → InOrder posix stopped rs
    → InOrder posix stopped (mark_last rs)
unfolding mark_last
InOrder-mark_last posix stopped [] h = h
InOrder-mark_last posix true (r ∷ []) h = h
InOrder-mark_last posix false (r ∷ []) h = h
InOrder-mark_last posix true (r ∷ s ∷ rs) (e, h) = (e, InOrder-mark_last posix true (s ∷ rs) h)
InOrder-mark_last posix false (r ∷ s ∷ rs) (e, h) = (e, InOrder-mark_last posix _ (s ∷ rs) h)

InOrder-finish :
    (posix : Bool) (rs : List Token) (o : Option Bytes)
    → InOrder posix false rs
    → InOrder posix false (finish rs o)
InOrder-finish posix rs none h = h
InOrder-finish posix rs (some o) h = InOrder-mark_last posix false rs h

-- In the signature of a command of a Getopt::Long family, under the profile posixly_correct every record after the
-- first operand is unparsed_after_require_order, and no record before it is. Under any other profile, none is.
pub case_resolution_signature-InOrder :
    (c : Command) (arguments : List Bytes) (profile : Bytes) {rs : List Token}
    → is_getopt (parser_policy_signature c).family ≡ true
    → case_resolution_signature c arguments profile ≡ ok rs
    → InOrder (bytes_eq profile (codes "posixly_correct")) false rs
unfolding case_resolution_signature
case_resolution_signature-InOrder c arguments profile {rs} getopt h =
    known (get c.name reviewed_explicit_aliases) h
  where
    ordered :
        (p : Parser) → is_getopt p.family ≡ true → InOrder p.posix false (signature_of p arguments)
    ordered p g =
        let (qs, e, k) = read_all-InOrder p g start arguments (λ h. cc) in
        InOrder-finish p.posix _ _ (subst (InOrder p.posix false) (sym e) k)

    known :
        (aliases : Option (List (Bytes × Bytes)))
        → signature_with c arguments profile aliases ≡ ok rs
        → InOrder (bytes_eq profile (codes "posixly_correct")) false rs
    known none e = cc
    known (some aliases) e =
        let found : signature_of (parser_of c aliases profile) arguments ≡ rs = cc in
        subst (InOrder (bytes_eq profile (codes "posixly_correct")) false) found
          (ordered (parser_of c aliases profile) getopt)
