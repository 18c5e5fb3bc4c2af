-- ===== src/Cases/Inventory/Members.antt =====
-- The members of a family, as `members` collects them.
use ferricov.Base.{
  ◌≡◌, refl, subst, true, ◌||◌, List, [], ◌∷◌, map, Option, none, some, Result, ok, arith, All,
  >>=-eq-ok, Bool-cases, inl, inr,
}
use ferricov.Base.Bytes.{Bytes, bytes_eq, bytes_eq→eq, mem}
use ferricov.Base.Same.{same, same_refl, same→eq}
use ferricov.Base.Dict.{get}
use ferricov.Cases.Policy.{Family, Policy, Command, parser_policy_signature}
use ferricov.Cases.Equality.{family_same, policy_same}
use ferricov.Cases.Inventory.{Error, keep_member, add_member, members}

-- A command of the family, with its signature.
abbrev pub IsMember : List (Bytes × Command) → Family → Bytes × Policy → Type 0
IsMember commands f (name, policy) =
    (c : Command) × (get name commands ≡ some c)
    × (parser_policy_signature c ≡ policy)
    × (policy.family ≡ f)

add_member-eq-ok :
    (f : Family) (name : Bytes) (o : Option Command) (call : Result Error (List (Bytes × Policy)))
    {ms : List (Bytes × Policy)}
    → add_member f name o call ≡ ok ms
    → (c : Command) × (rest : List (Bytes × Policy)) × (o ≡ some c)
      × (call ≡ ok rest)
      × (keep_member f name c rest ≡ ms)
add_member-eq-ok f name none call h = cc
add_member-eq-ok f name (some c) call h =
    let (rest, h1, h2) = >>=-eq-ok call _ h in (c, rest, refl, h1, cc)

module _ (f : Family) (commands : List (Bytes × Command)) where
  keep-IsMember :
      (name : Bytes) (c : Command) (rest : List (Bytes × Policy))
      → get name commands ≡ some c
      → All (IsMember commands f) rest
      → All (IsMember commands f) (keep_member f name c rest)
  keep-IsMember name c rest e h = elim (Bool-cases (same (parser_policy_signature c).family f)) [
    | inl here ↦ rw here ((c, e, refl, same→eq (parser_policy_signature c).family f here), h)
    | inr there ↦ rw there h
  ]

  pub members-IsMember :
      (names : List Bytes) {ms : List (Bytes × Policy)}
      → members f commands names ≡ ok ms
      → All (IsMember commands f) ms
  unfolding members
  members-IsMember [] {ms} h = let e : [] ≡ ms = cc in subst (All (IsMember commands f)) e tt
  members-IsMember (name ∷ names) h =
      let (c, rest, e, h1, h2) =
        add_member-eq-ok f name (get name commands) (members f commands names) h in
      subst (All (IsMember commands f)) h2 (keep-IsMember name c rest e (members-IsMember names h1))

  abbrev names_of : List (Bytes × Policy) → List Bytes
  names_of ms = map (λ m. m.0) ms

  mem-keep :
      (name other : Bytes) (c : Command) (rest : List (Bytes × Policy))
      → mem name (names_of rest) ≡ true
      → mem name (names_of (keep_member f other c rest)) ≡ true
  mem-keep name other c rest h = elim (Bool-cases (same (parser_policy_signature c).family f)) [
    | inl here ↦ rw (here, h) (ground arith)
    | inr there ↦ rw there h
  ]

  -- Every command that is asked for is there, and is a member if it is of the family.
  pub members_complete :
      (name : Bytes) (names : List Bytes) {ms : List (Bytes × Policy)}
      → members f commands names ≡ ok ms
      → mem name names ≡ true
      → (c : Command) × (get name commands ≡ some c)
        × ((parser_policy_signature c).family ≡ f → mem name (names_of ms) ≡ true)
  unfolding members
  members_complete name [] h m = cc
  members_complete name (n ∷ names) {ms} h m =
      let (c, rest, e, h1, h2) =
        add_member-eq-ok f n (get n commands) (members f commands names) h in
      elim (Bool-cases (bytes_eq n name)) [
        | inl here ↦
            let same_name : n ≡ name = bytes_eq→eq n name here in
            (
              c,
              subst (λ k. get k commands ≡ some c) same_name e,
              λ of_family.
                  subst (λ ms. mem name (names_of ms) ≡ true) h2
                    (rw (of_family, same_refl f) (rw here refl)),
            )
        | inr there ↦
            let (d, found, among) =
              members_complete name names h1 (subst (λ b. (b || mem name names) ≡ true) there m) in
            (
              d,
              found,
              λ of_family.
                  subst (λ ms. mem name (names_of ms) ≡ true) h2
                    (mem-keep name n c rest (among of_family)),
            )
      ]
