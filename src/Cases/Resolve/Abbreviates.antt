-- ===== src/Cases/Resolve/Abbreviates.antt =====
-- What a getopt record says of the names and aliases of the command.
use ferricov.Base.{
  ◌≡◌, refl, subst, ok, Bool, true, false, not, ◌&&◌, ◌||◌, List, [], ◌∷◌, ◌++◌, Option, none, some,
  if◌then◌else◌, All, All-append,
}
use ferricov.Base.Dict.{get}
use ferricov.Base.Bytes.{Bytes, codes, bytes_eq}
use ferricov.Cases.Policy.{Command, parser_policy_signature}
use ferricov.Cases.Token.{
  Token, Resolution, Parser, State, append, reviewed_explicit_aliases, exact, exact_alias,
  unique_prefix, ambiguous_prefix, exact_only_prefix_rejected,
}
use ferricov.Cases.Resolve.{
  getopt_option, argparse_option, operand, read_free, read_waiting, read, read_all, start,
  mark_last, finish, signature_of, signature_with, parser_of, case_resolution_signature, value_of,
}
use ferricov.Cases.Match.{
  lower, is_getopt, is_argparse, is_no_parser, folded, is_dashed, getopt-argparse,
}
use ferricov.Cases.Resolve.Names.{Says, Fair, getopt_dashed-Fair, fair}

abbrev pub AllSay : Parser → List Token → Type 0
AllSay p rs = All (λ (r : Token). Says p r r.resolution) rs

data Every (p : Parser) (st : State) : Type 0 where
  every : AllSay p st.signature → Every p st

Every-if :
    {p : Parser} (b : Bool) {x y : State} → Every p x → Every p y → Every p (if b then x else y)
Every-if true h k = h
Every-if false h k = k

append-Every : {p : Parser} {st : State} {r : Token} → Fair p r → Every p st → Every p (append r st)
append-Every {p} {st} {r} (fair h) (every hs) =
    every (All-append (λ (q : Token). Says p q q.resolution) st.signature (r ∷ []) hs (h, tt))

stopped-Every :
    {p : Parser} {st : State} → Every p st → Every p (record st { getopt_stopped = true })
stopped-Every (every hs) = every hs

module _ (p : Parser) (getopt : is_getopt p.family ≡ true) (st : State) (t : Bytes)
    (h : Every p st) where
  operand-Every : Every p (operand p st t)
  unfolding operand
  operand-Every =
      rw (getopt-argparse p.family getopt)
        (Every-if _ (stopped-Every (append-Every (fair tt) h)) (append-Every (fair tt) h))

  getopt_option-Every : Every p (getopt_option p st t)
  unfolding getopt_option
  getopt_option-Every =
      Every-if _ (stopped-Every (append-Every (fair tt) h))
        (append-Every (getopt_dashed-Fair p t (get (lower t) (folded p.aliases)) refl) h)

  read_free-Every : Every p (read_free p st t)
  unfolding read_free
  read_free-Every = Every-if (is_getopt p.family && st.getopt_stopped) (append-Every (fair tt) h) (
      Every-if (is_no_parser p.family) (append-Every (fair tt) h)
        (Every-if (not (is_dashed t) || bytes_eq t (codes "-")) operand-Every dashed))
    where
      dashed :
          Every p (if is_argparse p.family then argparse_option p st t else getopt_option p st t)
      dashed = rw (getopt-argparse p.family getopt) getopt_option-Every

  read_waiting-Every : (o : Option Bytes) → Every p (read_waiting p st t o)
  read_waiting-Every none = read_free-Every
  read_waiting-Every (some o) = value h
    where
      value :
          Every p st
          → Every p (record st {
            signature = st.signature ++ value_of t o ∷ [];
            pending_value_for = none;
          })
      value (every hs) = every (
          All-append (λ (q : Token). Says p q q.resolution) st.signature (value_of t o ∷ []) hs
            (tt, tt))

read_all-Every :
    (p : Parser) (st : State) (ts : List Bytes)
    → is_getopt p.family ≡ true
    → Every p st
    → Every p (read_all p st ts)
unfolding read_all read
read_all-Every p st [] getopt h = h
read_all-Every p st (t ∷ ts) getopt h =
    read_all-Every p (read_waiting p st t st.pending_value_for) ts getopt
      (read_waiting-Every p getopt st t h st.pending_value_for)

Says-mark :
    (p : Parser) (r : Token) (x : Resolution)
    → Says p r x
    → Says p (record r { missing_value = true }) x
Says-mark p r exact h = h
Says-mark p r exact_alias h = h
Says-mark p r unique_prefix h = h
Says-mark p r exact_only_prefix_rejected h = h
Says-mark p r ambiguous_prefix h = h
Says-mark p r _ h = tt

AllSay-mark_last : (p : Parser) (rs : List Token) → AllSay p rs → AllSay p (mark_last rs)
unfolding mark_last
AllSay-mark_last p [] h = tt
AllSay-mark_last p (r ∷ []) (h, _) = (Says-mark p r r.resolution h, tt)
AllSay-mark_last p (r ∷ s ∷ rs) (h, hs) = (h, AllSay-mark_last p (s ∷ rs) hs)

AllSay-finish :
    (p : Parser) (st : State) (o : Option Bytes) → Every p st → AllSay p (finish st.signature o)
AllSay-finish p st none (every h) = h
AllSay-finish p st (some o) (every h) = AllSay-mark_last p st.signature h

-- In the signature of a command of a Getopt::Long family, a record that says exact or exact_alias has the target
-- of the token's name or alias. A unique_prefix or exact_only_prefix_rejected record has the only name that the
-- token abbreviates, and an ambiguous_prefix record has all of several names; none of the three is there under
-- the profile posixly_correct. The name of an exact-only option is in a rejected record and in no unique_prefix
-- record.
pub case_resolution_signature-AllSay :
    (c : Command) (arguments : List Bytes) (profile : Bytes) (aliases : List (Bytes × Bytes))
    {rs : List Token}
    → is_getopt (parser_policy_signature c).family ≡ true
    → get c.name reviewed_explicit_aliases ≡ some aliases
    → case_resolution_signature c arguments profile ≡ ok rs
    → AllSay (parser_of c aliases profile) rs
unfolding case_resolution_signature
case_resolution_signature-AllSay c arguments profile aliases {rs} getopt known h =
    subst (AllSay p) found (
      AllSay-finish p (read_all p start arguments) (read_all p start arguments).pending_value_for
        (read_all-Every p start arguments getopt (every tt)))
  where
    p : Parser
    p = parser_of c aliases profile

    found : signature_of p arguments ≡ rs
    found = let h' = subst (λ o. signature_with c arguments profile o ≡ ok rs) known h in cc
