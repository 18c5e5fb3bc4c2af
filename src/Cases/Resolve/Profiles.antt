-- ===== src/Cases/Resolve/Profiles.antt =====
-- argparse reads a command line in the same way whether POSIXLY_CORRECT is set or not.
use ferricov.Base.{◌≡◌, refl, ap, ◌∙◌, Bool, true, List, [], ◌∷◌, Option, none, some, ok}
use ferricov.Base.Bytes.{Bytes, codes, bytes_eq}
use ferricov.Base.Dict.{get}
use ferricov.Cases.Policy.{Command, argparse, parser_policy_signature}
use ferricov.Cases.Token.{Parser, State, reviewed_explicit_aliases}
use ferricov.Cases.Resolve.{
  operand, argparse_option, read_free, read_waiting, read, read_all, start, finish, parser_of,
  signature_of, signature_with, case_resolution_signature,
}
use ferricov.Cases.Match.{is_argparse, is_getopt, is_no_parser}

module _ (p : Parser) (posix : Bool) (e : p.family ≡ argparse) where
  abbrev other : Parser
  other = record p { posix = posix }

  reads_argparse : is_argparse p.family ≡ true
  reads_argparse = ap is_argparse e

  operand-other : (st : State) (t : Bytes) → operand other st t ≡ operand p st t
  unfolding operand
  operand-other st t = rw reads_argparse refl

  read_free-other : (st : State) (t : Bytes) → read_free other st t ≡ read_free p st t
  unfolding read_free argparse_option
  read_free-other st t =
      rw (ap is_getopt e, ap is_no_parser e, operand-other st t, reads_argparse) refl

  read_waiting-other :
      (st : State) (t : Bytes) (o : Option Bytes)
      → read_waiting other st t o ≡ read_waiting p st t o
  read_waiting-other st t none = read_free-other st t
  read_waiting-other st t (some o) = refl

  read_all-other : (st : State) (ts : List Bytes) → read_all other st ts ≡ read_all p st ts
  unfolding read_all read
  read_all-other st [] = refl
  read_all-other st (t ∷ ts) =
      ap (λ s. read_all other s ts) (read_waiting-other st t st.pending_value_for)
      ∙ read_all-other (read_waiting p st t st.pending_value_for) ts

  signature_of-other : (ts : List Bytes) → signature_of other ts ≡ signature_of p ts
  signature_of-other ts =
      ap (λ st. finish st.signature st.pending_value_for) (read_all-other start ts)

-- For a command of the argparse family, the signature is the same under every profile.
pub case_resolution_signature-argparse :
    (c : Command) (arguments : List Bytes) (profile profile' : Bytes)
    → (parser_policy_signature c).family ≡ argparse
    → case_resolution_signature c arguments profile ≡ case_resolution_signature c arguments profile'
unfolding case_resolution_signature
case_resolution_signature-argparse c arguments profile profile' e =
    known (get c.name reviewed_explicit_aliases)
  where
    known :
        (aliases : Option (List (Bytes × Bytes)))
        → signature_with c arguments profile aliases ≡ signature_with c arguments profile' aliases
    known none = refl
    known (some aliases) = ap ok (
        signature_of-other (parser_of c aliases profile')
          (bytes_eq profile (codes "posixly_correct")) e arguments)
