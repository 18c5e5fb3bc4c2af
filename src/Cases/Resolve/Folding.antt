-- ===== src/Cases/Resolve/Folding.antt =====
-- Getopt::Long reads a command line in the same way whatever the case of its letters.
use ferricov.Base.{
  ℕ, ◌≡◌, refl, sym, subst, ap, ◌∙◌, ok, Bool, true, false, ◌&&◌, ◌||◌, not, List, [], ◌∷◌, ◌++◌,
  map, map-append, Option, none, some, if◌then◌else◌, drop, Result, err,
}
use ferricov.Base.Dict.{get}
use ferricov.Base.Bytes.{Bytes, codes, bytes_eq}
use ferricov.Cases.Policy.{Command, parser_policy_signature}
use ferricov.Cases.Token.{
  Token, Resolution, unknown, Parser, State, append, opens, or_else, reviewed_explicit_aliases,
}
use ferricov.Cases.Resolve.{
  Error, getopt_option, operand, read_free, read_waiting, read, read_all, start, mark_last, finish,
  signature_with, parser_of, case_resolution_signature, value_of,
}
use ferricov.Cases.Match.{
  getopt-argparse, lower, reverse_bundle, abbreviated, named, getopt_named, getopt_dashed,
  is_getopt, folded, is_dashed, with_targets, exact_only_target, prefix_resolution,
}
use ferricov.Cases.Resolve.Letters.{
  lower_twice, starts_with-lower, bytes_eq-lower, drop-lower, length-lower,
}

-- A record without its token.
abbrev pub shape : Token → Token
shape r = record r { token = [] }

-- States that differ in the tokens of their records alone.
data Alike (s s' : State) : Type 0 where
  alike :
      map shape s.signature ≡ map shape s'.signature
      → s.pending_value_for ≡ s'.pending_value_for
      → s.getopt_stopped ≡ s'.getopt_stopped
      → Alike s s'

Alike-if :
    (b b' : Bool) {x y x' y' : State}
    → b ≡ b'
    → Alike x x'
    → Alike y y'
    → Alike (if b then x else y) (if b' then x' else y')
Alike-if true b' {x} {y} {x'} {y'} e h k = subst (λ b. Alike x (if b then x' else y')) e h
Alike-if false b' {x} {y} {x'} {y'} e h k = subst (λ b. Alike y (if b then x' else y')) e k

-- Records that differ in their tokens alone.
data Twins (r r' : Token) : Type 0 where
  twins : shape r ≡ shape r' → Twins r r'

Twins-if :
    (b b' : Bool) {r q r' q' : Token}
    → b ≡ b'
    → Twins r r'
    → Twins q q'
    → Twins (if b then r else q) (if b' then r' else q')
Twins-if true b' {r} {q} {r'} {q'} e h k = subst (λ b. Twins r (if b then r' else q')) e h
Twins-if false b' {r} {q} {r'} {q'} e h k = subst (λ b. Twins q (if b then r' else q')) e k

opens-shape : (r r' : Token) → shape r ≡ shape r' → opens r ≡ opens r'
unfolding opens
opens-shape r r' e = ap opens e

shapes-grow :
    (rs rs' : List Token) (r r' : Token)
    → map shape rs ≡ map shape rs'
    → shape r ≡ shape r'
    → map shape (rs ++ r ∷ []) ≡ map shape (rs' ++ r' ∷ [])
shapes-grow rs rs' r r' h e =
    map-append shape rs (r ∷ [])
    ∙ (ap (λ qs. qs ++ shape r ∷ []) h
        ∙ (ap (λ q. map shape rs' ++ q ∷ []) e ∙ sym (map-append shape rs' (r' ∷ []))))

append-Alike :
    {s s' : State} {r r' : Token} → Twins r r' → Alike s s' → Alike (append r s) (append r' s')
append-Alike {s} {s'} {r} {r'} (twins e) (alike sig pending stopped) =
    alike (shapes-grow s.signature s'.signature r r' sig e)
      (ap (or_else (opens r)) pending
        ∙ ap (λ o. or_else o s'.pending_value_for) (opens-shape r r' e))
      stopped

stopped-Alike :
    {s s' : State}
    → Alike s s'
    → Alike (record s { getopt_stopped = true }) (record s' { getopt_stopped = true })
stopped-Alike (alike sig pending stopped) = alike sig pending refl

module _ (p : Parser) (t : Bytes) where
  reverse_bundle-lower : reverse_bundle p (lower t) ≡ reverse_bundle p t
  reverse_bundle-lower =
      rw
        (
          starts_with-lower (codes "-") t (refl, tt),
          starts_with-lower (codes "--") t (refl, (refl, tt)),
          length-lower t,
          drop-lower 1 t,
          lower_twice (drop 1 t),
        )
        refl

  with_bundle :
      (r : Resolution) (ts : List Bytes)
      → Twins
          (record (with_targets (lower t) r ts) {
            bundling_reverse_targets = reverse_bundle p (lower t);
          })
          (record (with_targets t r ts) { bundling_reverse_targets = reverse_bundle p t })
  with_bundle r ts = twins (
      ap (λ b. record (with_targets [] r ts) { bundling_reverse_targets = b }) reverse_bundle-lower)

  abbreviated-lower : (ts : List Bytes) → Twins (abbreviated p (lower t) ts) (abbreviated p t ts)
  unfolding abbreviated
  abbreviated-lower ts = Twins-if p.posix p.posix refl (with_bundle unknown []) (
      Twins-if (exact_only_target p ts) (exact_only_target p ts) refl (twins refl)
        (with_bundle (prefix_resolution ts) ts))

  named-lower :
      (body : Bytes) (o : Option Bytes) → Twins (named p (lower t) body o) (named p t body o)
  named-lower body (some target) = twins refl
  named-lower body none = abbreviated-lower _

  getopt_named-lower :
      (body body' : Bytes)
      → body ≡ body'
      → Twins (getopt_named p (lower t) body) (getopt_named p t body')
  getopt_named-lower body body' e =
      subst (λ b. Twins (getopt_named p (lower t) body) (getopt_named p t b)) e (named-lower body _)

  twice : (n : ℕ) → lower (drop n (lower t)) ≡ lower (drop n t)
  twice n = ap lower (drop-lower n t) ∙ lower_twice (drop n t)

  is_dashed-lower : is_dashed (lower t) ≡ is_dashed t
  is_dashed-lower =
      rw (starts_with-lower (codes "-") t (refl, tt), starts_with-lower (codes "+") t (refl, tt))
        refl

  getopt_dashed-lower :
      (o : Option Bytes) → Twins (getopt_dashed p (lower t) o) (getopt_dashed p t o)
  getopt_dashed-lower (some target) = twins refl
  getopt_dashed-lower none =
      Twins-if _ _ (starts_with-lower (codes "--") t (refl, (refl, tt)))
        (getopt_named-lower _ _ (twice 2))
        (Twins-if _ _ is_dashed-lower (getopt_named-lower _ _ (twice 1)) (twins refl))

  getopt_option-lower :
      {s s' : State} → Alike s s' → Alike (getopt_option p s (lower t)) (getopt_option p s' t)
  unfolding getopt_option
  getopt_option-lower h =
      Alike-if _ _ (ap (λ b. b && p.posix) (starts_with-lower (codes "+") t (refl, tt)))
        (stopped-Alike (append-Alike (twins refl) h))
        (append-Alike
          (subst
            (λ n.
              Twins (getopt_dashed p (lower t) (get n (folded p.aliases)))
                (getopt_dashed p t (get (lower t) (folded p.aliases))))
            (sym (lower_twice t)) (getopt_dashed-lower (get (lower t) (folded p.aliases))))
          h)

module _ (p : Parser) (getopt : is_getopt p.family ≡ true) where
  operand-lower :
      {s s' : State} (t : Bytes) → Alike s s' → Alike (operand p s (lower t)) (operand p s' t)
  unfolding operand
  operand-lower t h = rw (getopt-argparse p.family getopt) (
      Alike-if _ _ refl (stopped-Alike (append-Alike (twins refl) h)) (append-Alike (twins refl) h))

  is_plain-lower :
      (t : Bytes)
      → (not (is_dashed (lower t)) || bytes_eq (lower t) (codes "-"))
        ≡ (not (is_dashed t) || bytes_eq t (codes "-"))
  is_plain-lower t = rw (is_dashed-lower p t, bytes_eq-lower t (codes "-") (refl, tt)) refl

  was_stopped : {s s' : State} → Alike s s' → s.getopt_stopped ≡ s'.getopt_stopped
  was_stopped (alike sig pending stopped) = stopped

  read_free-lower :
      {s s' : State} (t : Bytes) → Alike s s' → Alike (read_free p s (lower t)) (read_free p s' t)
  unfolding read_free
  read_free-lower t h =
      Alike-if _ _ (ap (λ b. is_getopt p.family && b) (was_stopped h)) (append-Alike (twins refl) h)
        (Alike-if _ _ refl (append-Alike (twins refl) h) (
          Alike-if _ _ (is_plain-lower t) (operand-lower t h)
            (rw (getopt-argparse p.family getopt) (getopt_option-lower p t h))))

  read_waiting-lower :
      {s s' : State} (t : Bytes) (o : Option Bytes)
      → Alike s s'
      → Alike (read_waiting p s (lower t) o) (read_waiting p s' t o)
  read_waiting-lower t none h = read_free-lower t h
  read_waiting-lower {s} {s'} t (some o) (alike sig pending stopped) =
      alike (shapes-grow s.signature s'.signature (value_of (lower t) o) (value_of t o) sig refl)
        refl stopped

  read_all-lower :
      (s s' : State) (ts : List Bytes)
      → Alike s s'
      → Alike (read_all p s (map lower ts)) (read_all p s' ts)
  unfolding read_all read
  read_all-lower s s' [] h = h
  read_all-lower s s' (t ∷ ts) (alike sig pending stopped) =
      read_all-lower (read_waiting p s (lower t) s.pending_value_for)
        (read_waiting p s' t s'.pending_value_for) ts
        (subst (λ o. Alike (read_waiting p s (lower t) s.pending_value_for) (read_waiting p s' t o))
          pending (read_waiting-lower t s.pending_value_for (alike sig pending stopped)))

shapes-mark_last : (rs : List Token) → map shape (mark_last rs) ≡ mark_last (map shape rs)
unfolding mark_last
shapes-mark_last [] = refl
shapes-mark_last (r ∷ []) = refl
shapes-mark_last (r ∷ s ∷ rs) = ap (λ qs. shape r ∷ qs) (shapes-mark_last (s ∷ rs))

shapes-finish :
    (rs : List Token) (o : Option Bytes) → map shape (finish rs o) ≡ finish (map shape rs) o
shapes-finish rs none = refl
shapes-finish rs (some o) = shapes-mark_last rs

finish-Alike :
    (s s' : State)
    → Alike s s'
    → map shape (finish s.signature s.pending_value_for)
      ≡ map shape (finish s'.signature s'.pending_value_for)
finish-Alike s s' (alike sig pending stopped) =
    shapes-finish s.signature s.pending_value_for
    ∙ (ap (λ rs. finish rs s.pending_value_for) sig
        ∙ (ap (finish (map shape s'.signature)) pending
            ∙ sym (shapes-finish s'.signature s'.pending_value_for)))

abbrev pub shapes : Result Error (List Token) → Result Error (List Token)
shapes (err e) = err e
shapes (ok rs) = ok (map shape rs)

-- For a command of the two Getopt::Long families, arguments in lower case have the signature of the arguments
-- as they are written, but for the tokens that its records repeat.
pub case_resolution_signature-lower :
    (c : Command) (arguments : List Bytes) (profile : Bytes)
    → is_getopt (parser_policy_signature c).family ≡ true
    → shapes (case_resolution_signature c (map lower arguments) profile)
      ≡ shapes (case_resolution_signature c arguments profile)
unfolding case_resolution_signature
case_resolution_signature-lower c arguments profile getopt =
    known (get c.name reviewed_explicit_aliases)
  where
    known :
        (aliases : Option (List (Bytes × Bytes)))
        → shapes (signature_with c (map lower arguments) profile aliases)
          ≡ shapes (signature_with c arguments profile aliases)
    known none = refl
    known (some aliases) = ap ok (
        finish-Alike _ _ (
          read_all-lower (parser_of c aliases profile) getopt start start arguments
            (alike refl refl refl)))
