-- ===== src/Cases/Resolve/Adds.antt =====
-- A token that is read adds one record.
use ferricov.Base.{
  ◌≡◌, ◌≢◌, refl, ap, ◌∙◌, Bool, true, false, List, [], ◌∷◌, ◌++◌, Option, none, some,
  if◌then◌else◌,
}
use ferricov.Base.Bytes.{Bytes, codes, starts_with}
use ferricov.Base.Dict.{get}
use ferricov.Cases.Token.{
  option_value, unparsed_after_require_order, ignored, rejected_after_option_boundary, or_else,
  Token, plain, Parser, State, append, opens,
}
use ferricov.Cases.Resolve.{
  operand, argparse_option, getopt_option, read_free, read_waiting, read, value_of,
}
use ferricov.Cases.Match.{
  argparse_dashed, long_token, cluster_token, abbreviated, named, getopt_dashed, operand_of,
  prefix_resolution, folded, lower,
}

-- What a record must be where the option `o` waits for a value, or none does.
abbrev pub Follows : Option Bytes → Token → Type 0
Follows (some o) r = (r.resolution ≡ option_value) × (r.option ≡ some o)
Follows none r = r.resolution ≢ option_value

-- The option that waits after the record.
abbrev pub waits : Option Bytes → Token → Option Bytes
waits (some o) r = none
waits none r = opens r

abbrev is_waiting : Option Bytes → Bool
is_waiting none = false
is_waiting (some o) = true

-- `missing_value` is set on the last record alone, and there when an option still waits.
abbrev pub Paired : Option Bytes → List Token → Type 0
Paired o [] = Unit {0}
Paired o (r ∷ []) = Follows o r × (r.missing_value ≡ is_waiting (waits o r))
Paired o (r ∷ s ∷ rs) = Follows o r × (r.missing_value ≡ false) × Paired (waits o r) (s ∷ rs)

-- A record of the loop for the token `t`, where no option waits.
abbrev IsOf : Bytes → Token → Type 0
IsOf t r = (r.token ≡ t) × (r.resolution ≢ option_value) × (r.missing_value ≡ false)

IsOf-if : {t : Bytes} (b : Bool) (r s : Token) → IsOf t r → IsOf t s → IsOf t (if b then r else s)
IsOf-if true r s h k = h
IsOf-if false r s h k = k

prefix_resolution-ne : (ts : List Bytes) → prefix_resolution ts ≢ option_value
prefix_resolution-ne [] h = cc
prefix_resolution-ne (t ∷ []) h = cc
prefix_resolution-ne (t ∷ u ∷ ts) h = cc

module _ (p : Parser) (t : Bytes) where
  long_token-IsOf : (body : Bytes) (o : Option Bytes) → IsOf t (long_token p t body o)
  long_token-IsOf body (some target) = (refl, (λ h. cc), refl)
  long_token-IsOf body none = (refl, prefix_resolution-ne _, refl)

  cluster_token-IsOf : (o : Option (List Bytes)) → IsOf t (cluster_token t o)
  cluster_token-IsOf (some targets) = (refl, (λ h. cc), refl)
  cluster_token-IsOf none = (refl, (λ h. cc), refl)

  argparse_dashed-IsOf : (o : Option Bytes) → IsOf t (argparse_dashed p t o)
  argparse_dashed-IsOf (some target) = (refl, (λ h. cc), refl)
  argparse_dashed-IsOf none =
      IsOf-if (starts_with (codes "--") t) _ _ (long_token-IsOf _ _) (cluster_token-IsOf _)

  abbreviated-IsOf : (ts : List Bytes) → IsOf t (abbreviated p t ts)
  unfolding abbreviated
  abbreviated-IsOf ts =
      IsOf-if p.posix _ _ (refl, (λ h. cc), refl)
        (IsOf-if _ _ _ (refl, (λ h. cc), refl) (refl, prefix_resolution-ne ts, refl))

  named-IsOf : (body : Bytes) (o : Option Bytes) → IsOf t (named p t body o)
  named-IsOf body (some target) = (refl, (λ h. cc), refl)
  named-IsOf body none = abbreviated-IsOf _

  getopt_dashed-IsOf : (o : Option Bytes) → IsOf t (getopt_dashed p t o)
  getopt_dashed-IsOf (some target) = (refl, (λ h. cc), refl)
  getopt_dashed-IsOf none =
      IsOf-if (starts_with (codes "--") t) _ _ (named-IsOf _ _)
        (IsOf-if _ _ _ (named-IsOf _ _) (refl, (λ h. cc), refl))

-- A state that has one record more, for the token `t`.
abbrev Adds : State → Bytes → State → Type 0
Adds st t next =
    (r : Token) × (r.token ≡ t)
    × (r.missing_value ≡ false)
    × Follows st.pending_value_for r
    × (next.signature ≡ st.signature ++ r ∷ [])
    × (next.pending_value_for ≡ waits st.pending_value_for r)

-- The same, for the handlers of a token that is no value.
data Appends (st : State) (t : Bytes) (next : State) : Type 0 where
  appends :
      (r : Token)
      → IsOf t r
      → next.signature ≡ st.signature ++ r ∷ []
      → next.pending_value_for ≡ or_else (opens r) st.pending_value_for
      → Appends st t next

Appends-if :
    {st : State} {t : Bytes} (b : Bool) {x y : State}
    → Appends st t x
    → Appends st t y
    → Appends st t (if b then x else y)
Appends-if true h k = h
Appends-if false h k = k

module _ (p : Parser) (st : State) (t : Bytes) where
  plainly : Appends st t (append (operand_of p t) st)
  plainly = appends (operand_of p t) (refl, (λ h. cc), refl) refl refl

  seen : Appends st t (record (append (operand_of p t) st) { argparse_positional_seen = true })
  seen = appends (operand_of p t) (refl, (λ h. cc), refl) refl refl

  stopped : Appends st t (record (append (operand_of p t) st) { getopt_stopped = true })
  stopped = appends (operand_of p t) (refl, (λ h. cc), refl) refl refl

  operand-Appends : Appends st t (operand p st t)
  unfolding operand
  operand-Appends =
      Appends-if _
        (appends (plain t rejected_after_option_boundary) (refl, (λ h. cc), refl) refl refl)
        (Appends-if _ seen (Appends-if _ stopped plainly))

  argparse_option-Appends : Appends st t (argparse_option p st t)
  unfolding argparse_option
  argparse_option-Appends =
      Appends-if _ (appends (operand_of p t) (refl, (λ h. cc), refl) refl refl) (
        appends (argparse_dashed p t (get t p.aliases)) (argparse_dashed-IsOf p t (get t p.aliases))
          refl refl)

  getopt_option-Appends : Appends st t (getopt_option p st t)
  unfolding getopt_option
  getopt_option-Appends =
      Appends-if _ (appends (operand_of p t) (refl, (λ h. cc), refl) refl refl) (
        appends (getopt_dashed p t (get (lower t) (folded p.aliases)))
          (getopt_dashed-IsOf p t (get (lower t) (folded p.aliases))) refl refl)

  read_free-Appends : Appends st t (read_free p st t)
  unfolding read_free
  read_free-Appends =
      Appends-if _
        (appends (plain t unparsed_after_require_order) (refl, (λ h. cc), refl) refl refl)
        (Appends-if _ (appends (plain t ignored) (refl, (λ h. cc), refl) refl refl) (
          Appends-if _ operand-Appends
            (Appends-if _ argparse_option-Appends getopt_option-Appends)))

or_else-none : (o : Option Bytes) → or_else o none ≡ o
or_else-none none = refl
or_else-none (some a) = refl

waiting-Adds :
    (p : Parser) (st : State) (t : Bytes) (o : Option Bytes)
    → st.pending_value_for ≡ o
    → (r : Token) × (r.token ≡ t)
      × (r.missing_value ≡ false)
      × Follows o r
      × ((read_waiting p st t o).signature ≡ st.signature ++ r ∷ [])
      × ((read_waiting p st t o).pending_value_for ≡ waits o r)
waiting-Adds p st t (some o) waiting = (value_of t o, refl, refl, (refl, refl), refl, refl)
waiting-Adds p st t none idle = added (read_free-Appends p st t)
  where
    added :
        Appends st t (read_free p st t)
        → (r : Token) × (r.token ≡ t)
          × (r.missing_value ≡ false)
          × Follows none r
          × ((read_free p st t).signature ≡ st.signature ++ r ∷ [])
          × ((read_free p st t).pending_value_for ≡ opens r)
    added (appends r (e, n, m) grown opened) =
        (r, e, m, n, grown, opened ∙ (ap (or_else (opens r)) idle ∙ or_else-none (opens r)))

pub read-Adds : (p : Parser) (st : State) (t : Bytes) → Adds st t (read p st t)
unfolding read
read-Adds p st t = waiting-Adds p st t st.pending_value_for refl
