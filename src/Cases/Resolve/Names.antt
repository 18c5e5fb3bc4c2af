-- ===== src/Cases/Resolve/Names.antt =====
-- What a single getopt record says of the names and aliases of the command.
use ferricov.Base.{
  ◌<◌, ◌≡◌, refl, sym, subst, ap, Bool, true, false, List, [], ◌∷◌, Option, none, some,
  if◌then◌else◌, arith, length, drop,
}
use ferricov.Base.Dict.{get, sorted, insert_sorted, length-sorted}
use ferricov.Base.Bytes.{Bytes, codes, starts_with, mem}
use ferricov.Cases.Token.{
  Token, Resolution, Parser, exact, exact_alias, unique_prefix, ambiguous_prefix,
  exact_only_prefix_rejected,
}
use ferricov.Cases.Match.{
  lower, reverse_bundle, abbreviated, named, getopt_named, getopt_dashed, folded, candidates,
  is_dashed, with_targets, exact_only_target, prefix_resolution,
}

-- The text of a token after its dashes, in lower case.
abbrev pub body_of : Bytes → Bytes
body_of t = if starts_with (codes "--") t then lower (drop 2 t) else lower (drop 1 t)

-- The names that a token abbreviates.
abbrev pub abbreviates : Parser → Bytes → List Bytes
abbreviates p t = candidates (body_of t) (folded p.canonical)

-- What each resolution says of the command's names.
abbrev pub Says : Parser → Token → Resolution → Type 0
Says p r exact =
    (target : Bytes) × (r.targets ≡ some (target ∷ []))
    × (get (body_of r.token) (folded p.canonical) ≡ some target)
Says p r exact_alias =
    (target : Bytes) × (r.target ≡ some target)
    × (get (lower r.token) (folded p.aliases) ≡ some target)
Says p r unique_prefix =
    (target : Bytes) × (p.posix ≡ false)
    × (r.targets ≡ some (target ∷ []))
    × (abbreviates p r.token ≡ target ∷ [])
    × (mem target p.exact_only ≡ false)
Says p r exact_only_prefix_rejected =
    (target : Bytes) × (p.posix ≡ false)
    × (r.targets ≡ some (target ∷ []))
    × (abbreviates p r.token ≡ target ∷ [])
    × (mem target p.exact_only ≡ true)
Says p r ambiguous_prefix =
    (p.posix ≡ false)
    × (r.targets ≡ some (sorted (abbreviates p r.token)))
    × (1 < length (abbreviates p r.token))
Says p r _ = Unit {0}

sorted_one : (ss : List Bytes) (s : Bytes) → sorted ss ≡ s ∷ [] → ss ≡ s ∷ []
unfolding sorted insert_sorted
sorted_one [] s h = cc
sorted_one (t ∷ []) s h = h
sorted_one (t ∷ u ∷ ss) s h =
    absurd (omega (arith, length-sorted (t ∷ u ∷ ss), ap (λ l. length l) h))

pub data Fair (p : Parser) (r : Token) : Type 0 where
  fair : Says p r r.resolution → Fair p r

Fair-if :
    {p : Parser} (b : Bool) {r q : Token}
    → (b ≡ true → Fair p r)
    → (b ≡ false → Fair p q)
    → Fair p (if b then r else q)
Fair-if true h k = h refl
Fair-if false h k = k refl

module _ (p : Parser) (t : Bytes) where
  -- one, several or no names
  prefix-Fair :
      (ts : List Bytes)
      → sorted (abbreviates p t) ≡ ts
      → p.posix ≡ false
      → exact_only_target p ts ≡ false
      → Fair p (record (with_targets t (prefix_resolution ts) ts) {
        bundling_reverse_targets = reverse_bundle p t;
      })
  prefix-Fair [] e posix free = fair tt
  prefix-Fair (u ∷ []) e posix free = fair (u, posix, refl, sorted_one (abbreviates p t) u e, free)
  prefix-Fair (u ∷ v ∷ ts) e posix free =
      fair (
        posix,
        ap some (sym e),
        omega (arith, length-sorted (abbreviates p t), ap (λ l. length l) e),
      )

  rejected-Fair :
      (ts : List Bytes)
      → sorted (abbreviates p t) ≡ ts
      → p.posix ≡ false
      → exact_only_target p ts ≡ true
      → Fair p (with_targets t exact_only_prefix_rejected ts)
  rejected-Fair [] e posix only = cc
  rejected-Fair (u ∷ []) e posix only =
      fair (u, posix, refl, sorted_one (abbreviates p t) u e, only)
  rejected-Fair (u ∷ v ∷ ts) e posix only = cc

  abbreviated-Fair : Fair p (abbreviated p t (sorted (abbreviates p t)))
  unfolding abbreviated
  abbreviated-Fair =
      Fair-if p.posix (λ h. fair tt)
        (λ h.
          Fair-if (exact_only_target p (sorted (abbreviates p t)))
            (λ k. rejected-Fair (sorted (abbreviates p t)) refl h k)
            (λ k. prefix-Fair (sorted (abbreviates p t)) refl h k))

  named-Fair :
      (o : Option Bytes)
      → get (body_of t) (folded p.canonical) ≡ o
      → Fair p (named p t (body_of t) o)
  named-Fair (some target) e = fair (target, refl, e)
  named-Fair none e = abbreviated-Fair

  getopt_named-Fair : (body : Bytes) → body_of t ≡ body → Fair p (getopt_named p t body)
  getopt_named-Fair body e =
      subst (λ b. Fair p (getopt_named p t b)) e
        (named-Fair (get (body_of t) (folded p.canonical)) refl)

  pub getopt_dashed-Fair :
      (o : Option Bytes) → get (lower t) (folded p.aliases) ≡ o → Fair p (getopt_dashed p t o)
  getopt_dashed-Fair (some target) e = fair (target, refl, e)
  getopt_dashed-Fair none e =
      Fair-if (starts_with (codes "--") t) (λ h. getopt_named-Fair _ (rw h refl))
        (λ h. Fair-if (is_dashed t) (λ k. getopt_named-Fair _ (rw h refl)) (λ k. fair tt))
