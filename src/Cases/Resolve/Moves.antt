-- ===== src/Cases/Resolve/Moves.antt =====
-- How a record moves a parser that has not stopped.
use ferricov.Base.{
  ◌≡◌, ◌≢◌, refl, sym, ap, ◌∙◌, Bool, true, false, not, ◌&&◌, ◌||◌, List, [], ◌∷◌, ◌++◌, Option,
  none, some, if◌then◌else◌, arith,
}
use ferricov.Base.Dict.{get}
use ferricov.Base.Bytes.{Bytes, codes, bytes_eq, starts_with}
use ferricov.Cases.Token.{
  Token, Resolution, Parser, State, append, opens, positional, unparsed_after_require_order,
}
use ferricov.Cases.Resolve.{getopt_option, argparse_option, operand, read_free}
use ferricov.Cases.Match.{
  lower, abbreviated, named, getopt_dashed, operand_of, is_getopt, is_argparse, is_no_parser,
  folded, is_dashed, with_targets, exact_only_target, getopt-argparse, getopt-no_parser,
  prefix_resolution,
}

abbrev pub is_positional : Resolution → Bool
is_positional positional = true
is_positional _ = false

-- Once stopped, every record is unparsed. Before, none is, and a positional record stops the parser
-- where `posix` is set.
abbrev pub InOrder : Bool → Bool → List Token → Type 0
InOrder posix stopped [] = Unit {0}
InOrder posix true (r ∷ rs) = (r.resolution ≡ unparsed_after_require_order) × InOrder posix true rs
InOrder posix false (r ∷ rs) =
    (r.resolution ≢ unparsed_after_require_order)
    × InOrder posix (posix && is_positional r.resolution) rs

-- A record that is neither an operand nor unparsed.
data IsOption (r : Token) : Type 0 where
  is_option :
      is_positional r.resolution ≡ false → r.resolution ≢ unparsed_after_require_order → IsOption r

IsOption-if : (b : Bool) {r q : Token} → IsOption r → IsOption q → IsOption (if b then r else q)
IsOption-if true h k = h
IsOption-if false h k = k

module _ (p : Parser) (t : Bytes) where
  prefix-IsOption :
      (ts : List Bytes) (o : Option (List Bytes))
      → IsOption
          (record (with_targets t (prefix_resolution ts) ts) { bundling_reverse_targets = o })
  prefix-IsOption [] o = is_option refl (λ h. cc)
  prefix-IsOption (u ∷ []) o = is_option refl (λ h. cc)
  prefix-IsOption (u ∷ v ∷ ts) o = is_option refl (λ h. cc)

  abbreviated-IsOption : (ts : List Bytes) → IsOption (abbreviated p t ts)
  unfolding abbreviated
  abbreviated-IsOption ts =
      IsOption-if p.posix (is_option refl (λ h. cc))
        (IsOption-if (exact_only_target p ts) (is_option refl (λ h. cc)) (prefix-IsOption ts _))

  named-IsOption : (body : Bytes) (o : Option Bytes) → IsOption (named p t body o)
  named-IsOption body (some target) = is_option refl (λ h. cc)
  named-IsOption body none = abbreviated-IsOption _

  getopt_dashed-IsOption : is_dashed t ≡ true → (o : Option Bytes) → IsOption (getopt_dashed p t o)
  getopt_dashed-IsOption dashed (some target) = is_option refl (λ h. cc)
  getopt_dashed-IsOption dashed none =
      IsOption-if (starts_with (codes "--") t) (named-IsOption _ _) (rw dashed (named-IsOption _ _))

-- The next state after a record where the parser had not stopped and no option waited.
pub data Moves (p : Parser) (st next : State) : Type 0 where
  moves :
      (r : Token)
      → r.resolution ≢ unparsed_after_require_order
      → next.signature ≡ st.signature ++ r ∷ []
      → next.getopt_stopped ≡ (p.posix && is_positional r.resolution)
      → (next.getopt_stopped ≡ true → next.pending_value_for ≡ none)
      → Moves p st next

Moves-if :
    {p : Parser} {st : State} (b : Bool) {x y : State}
    → (b ≡ true → Moves p st x)
    → (b ≡ false → Moves p st y)
    → Moves p st (if b then x else y)
Moves-if true h k = h refl
Moves-if false h k = k refl

pub and-false : (b : Bool) → (b && false) ≡ false
and-false b = ground arith

module _ (p : Parser) (getopt : is_getopt p.family ≡ true) (st : State) (t : Bytes)
    (running : st.getopt_stopped ≡ false) (idle : st.pending_value_for ≡ none) where
  option-Moves : {r : Token} → IsOption r → Moves p st (append r st)
  option-Moves {r} (is_option free parsed) =
      moves r parsed refl (running ∙ (sym (and-false p.posix) ∙ ap (λ b. p.posix && b) (sym free)))
        (λ h. absurd (cc))

  stop-Moves :
      p.posix ≡ true → Moves p st (record (append (operand_of p t) st) { getopt_stopped = true })
  unfolding opens
  stop-Moves h = moves (operand_of p t) (λ e. cc) refl (rw h refl) (λ e. idle)

  operand-Moves : Moves p st (operand p st t)
  unfolding operand opens
  operand-Moves = rw (getopt-argparse p.family getopt) (
      Moves-if p.posix stop-Moves
        (λ h. moves (operand_of p t) (λ e. cc) refl (rw (running, h) refl) (λ e. idle)))

  getopt_option-Moves : is_dashed t ≡ true → Moves p st (getopt_option p st t)
  unfolding getopt_option
  getopt_option-Moves dashed =
      Moves-if (starts_with (codes "+") t && p.posix) (λ h. stop-Moves (ground arith))
        (λ h. option-Moves (getopt_dashed-IsOption p t dashed (get (lower t) (folded p.aliases))))

  pub read_free-Moves : Moves p st (read_free p st t)
  unfolding read_free
  read_free-Moves =
      Moves-if (is_getopt p.family && st.getopt_stopped) (λ h. absurd (ground arith))
        (λ _.
          Moves-if (is_no_parser p.family) (λ h. absurd (cc (getopt-no_parser p.family getopt)))
            (λ _.
              Moves-if (not (is_dashed t) || bytes_eq t (codes "-")) (λ h. operand-Moves)
                (λ h. dashed-Moves (ground arith))))
    where
      dashed-Moves :
          is_dashed t ≡ true
          → Moves p st
              (if is_argparse p.family then argparse_option p st t else getopt_option p st t)
      dashed-Moves h = rw (getopt-argparse p.family getopt) (getopt_option-Moves h)
