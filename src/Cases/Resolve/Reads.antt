-- ===== src/Cases/Resolve/Reads.antt =====
-- Every argument gets one record, and the value of an option is the argument after it.
use ferricov.Base.{
  ◌≡◌, refl, subst, sym, ap, ◌∙◌, true, false, List, [], ◌∷◌, ◌++◌, append_assoc, append-nil, map,
  Option, none, some, ok, inl, inr, Option-cases,
}
use ferricov.Base.Bytes.{Bytes}
use ferricov.Base.Dict.{get}
use ferricov.Cases.Policy.{Command}
use ferricov.Cases.Token.{Token, Parser, State, opens, reviewed_explicit_aliases}
use ferricov.Cases.Resolve.{
  read, read_all, start, mark_last, finish, signature_of, signature_with, parser_of,
  case_resolution_signature,
}
use ferricov.Cases.Resolve.Adds.{Follows, waits, Paired, read-Adds}

-- A run of records that starts where `o` waits and ends where `o'` does.
abbrev Chain : Option Bytes → List Token → Option Bytes → Type 0
Chain o [] o' = o ≡ o'
Chain o (r ∷ rs) o' = Follows o r × (r.missing_value ≡ false) × Chain (waits o r) rs o'

abbrev tokens : List Token → List Bytes
tokens rs = map (λ (r : Token). r.token) rs

read_all-Chain :
    (p : Parser) (st : State) (ts : List Bytes)
    → (rs : List Token) × (tokens rs ≡ ts)
      × ((read_all p st ts).signature ≡ st.signature ++ rs)
      × Chain st.pending_value_for rs (read_all p st ts).pending_value_for
unfolding read_all
read_all-Chain p st [] = ([], refl, sym (append-nil st.signature), refl)
read_all-Chain p st (t ∷ ts) =
    let (r, e, m, follows, added, waiting) = read-Adds p st t in
    let (rs, es, rest, chain) = read_all-Chain p (read p st t) ts in
    (
      r ∷ rs,
      cc,
      rest ∙ (ap (λ s. s ++ rs) added ∙ append_assoc st.signature (r ∷ []) rs),
      (
        follows,
        m,
        subst (λ o. Chain o rs (read_all p (read p st t) ts).pending_value_for) waiting chain,
      ),
    )

tokens-mark_last : (rs : List Token) → tokens (mark_last rs) ≡ tokens rs
unfolding mark_last
tokens-mark_last [] = refl
tokens-mark_last (r ∷ []) = refl
tokens-mark_last (r ∷ s ∷ rs) = ap (λ ts. r.token ∷ ts) (tokens-mark_last (s ∷ rs))

tokens-finish : (rs : List Token) (o : Option Bytes) → tokens (finish rs o) ≡ tokens rs
tokens-finish rs none = refl
tokens-finish rs (some o) = tokens-mark_last rs

Follows-mark :
    (o : Option Bytes) (r : Token) → Follows o r → Follows o (record r { missing_value = true })
Follows-mark none r h = h
Follows-mark (some o) r h = h

waits-mark :
    (o : Option Bytes) (r : Token) → waits o (record r { missing_value = true }) ≡ waits o r
unfolding opens
waits-mark none r = refl
waits-mark (some o) r = refl

Paired-mark_last :
    (o : Option Bytes) (rs : List Token) (w : Bytes) → Chain o rs (some w) → Paired o (mark_last rs)
unfolding mark_last
Paired-mark_last o [] w h = tt
Paired-mark_last o (r ∷ []) w (follows, m, e) =
    (Follows-mark o r follows, rw (waits-mark o r, e) refl)
Paired-mark_last o (r ∷ s ∷ []) w (follows, m, h) =
    (follows, m, Paired-mark_last (waits o r) (s ∷ []) w h)
Paired-mark_last o (r ∷ s ∷ q ∷ rs) w (follows, m, h) =
    (follows, m, Paired-mark_last (waits o r) (s ∷ q ∷ rs) w h)

Paired-Chain : (o : Option Bytes) (rs : List Token) → Chain o rs none → Paired o rs
Paired-Chain o [] h = tt
Paired-Chain o (r ∷ []) (follows, m, e) = (follows, m ∙ rw e refl)
Paired-Chain o (r ∷ s ∷ rs) (follows, m, h) = (follows, m, Paired-Chain (waits o r) (s ∷ rs) h)

Paired-finish : (rs : List Token) (o : Option Bytes) → Chain none rs o → Paired none (finish rs o)
Paired-finish rs none h = Paired-Chain none rs h
Paired-finish rs (some w) h = Paired-mark_last none rs w h

signature_of-Reads :
    (p : Parser) (arguments : List Bytes)
    → (tokens (signature_of p arguments) ≡ arguments) × Paired none (signature_of p arguments)
signature_of-Reads p arguments =
    let (rs, es, whole, chain) = read_all-Chain p start arguments in
    let o = (read_all p start arguments).pending_value_for in
    rw whole (tokens-finish rs o ∙ es, Paired-finish rs o chain)

-- The signature of a command line has one record for each argument, in order. Where an option waits for a value,
-- the record is that value; elsewhere it is no value. Only the last record may say that its value is missing, and
-- says so exactly when it leaves an option waiting.
pub case_resolution_signature-Reads :
    (c : Command) (arguments : List Bytes) (profile : Bytes) {rs : List Token}
    → case_resolution_signature c arguments profile ≡ ok rs
    → (map (λ (r : Token). r.token) rs ≡ arguments) × Paired none rs
unfolding case_resolution_signature
case_resolution_signature-Reads c arguments profile {rs} h =
    elim (Option-cases (get c.name reviewed_explicit_aliases)) [
      | inl missing ↦ absurd (unread missing)
      | inr (aliases, e) ↦
          subst (λ s. (tokens s ≡ arguments) × Paired none s) (found aliases e)
            (signature_of-Reads (parser_of c aliases profile) arguments)
    ]
  where
    unread : get c.name reviewed_explicit_aliases ≡ none → ⊥
    unread e = let h' = subst (λ o. signature_with c arguments profile o ≡ ok rs) e h in cc

    found :
        (aliases : List (Bytes × Bytes))
        → get c.name reviewed_explicit_aliases ≡ some aliases
        → signature_of (parser_of c aliases profile) arguments ≡ rs
    found aliases e = let h' = subst (λ o. signature_with c arguments profile o ≡ ok rs) e h in cc
