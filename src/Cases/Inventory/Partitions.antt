-- ===== src/Cases/Inventory/Partitions.antt =====
-- What `build_family_equivalence` returns is a partition of COMMANDS with one policy to a part.
use ferricov.Base.{
  ◌≡◌, refl, sym, subst, ap, ◌∙◌, Bool, true, ◌&&◌, ◌||◌, List, [], ◌∷◌, map, some, ok, require,
  arith, all, any, All, all→All, >>=-eq-ok, >>-eq-ok, require-eq-ok, Bool-cases, inl, inr,
}
use ferricov.Base.Bytes.{Bytes, mem}
use ferricov.Base.Same.{same, same_refl, same→eq}
use ferricov.Base.Dict.{get}
use ferricov.Cases.Policy.{
  Family, shared_getopt_long, direct_getopt_long, argparse, no_parser, Policy, Command,
  parser_policy_signature,
}
use ferricov.Cases.Equality.{family_same, policy_same}
use ferricov.Cases.Inventory.{
  commands_in_order, family_equivalence_ids, family_not_equivalent, Maps, inventory_maps, Partition,
  members, partition_of, partitions_from, build_family_equivalence,
}
use ferricov.Cases.Inventory.Members.{IsMember, members-IsMember, members_complete}

-- A part has commands of one family and one policy.
abbrev pub IsPartition : List (Bytes × Command) → Partition → Type 0
IsPartition commands p =
    All
      (λ name.
        (c : Command) × (get name commands ≡ some c)
        × (parser_policy_signature c ≡ p.policy)
        × ((parser_policy_signature c).family ≡ p.family))
      p.commands

-- The command is in the part of its family.
abbrev pub is_placed : Bytes → Family → List Partition → Bool
is_placed name f ps = any (λ p. same p.family f && mem name p.commands) ps

placed-first :
    (name : Bytes) (f : Family) (p : Partition) (ps : List Partition)
    → p.family ≡ f
    → mem name p.commands ≡ true
    → is_placed name f (p ∷ ps) ≡ true
placed-first name f p ps e m = rw (e, m) (rw (same_refl f) refl)

placed-later :
    (name : Bytes) (f : Family) (p : Partition) (ps : List Partition)
    → is_placed name f ps ≡ true
    → is_placed name f (p ∷ ps) ≡ true
placed-later name f p ps h = rw h (ground arith)

module _ (canonical_hash : Policy → Bytes) (commands : List (Bytes × Command)) where
  rest-IsPartition :
      (f : Family) (first : Policy) (ms : List (Bytes × Policy))
      → All (IsMember commands f) ms
      → All (λ m. same m.1 first ≡ true) ms
      → All
          (λ name.
            (c : Command) × (get name commands ≡ some c)
            × (parser_policy_signature c ≡ first)
            × ((parser_policy_signature c).family ≡ f))
          (map (λ m. m.0) ms)
  rest-IsPartition f first [] h k = tt
  rest-IsPartition f first ((name, policy) ∷ ms) ((c, e, s, g), h) (k, ks) = (
    (c, e, s ∙ same→eq policy first k, ap (λ q. q.family) s ∙ g),
    rest-IsPartition f first ms h ks,
  )

  partition_of-lem :
      (f : Family) (id : Bytes) (ms : List (Bytes × Policy)) {p : Partition}
      → partition_of canonical_hash f id ms ≡ ok p
      → All (IsMember commands f) ms
      → IsPartition commands p × (p.family ≡ f) × (p.commands ≡ map (λ m. m.0) ms)
  unfolding partition_of
  partition_of-lem f id [] h k = cc
  partition_of-lem f id ((name, first) ∷ ms) {p} h ((c, e, s, g), k) =
      let (h1, h2) = >>-eq-ok (require (all (λ m. same m.1 first) ms) family_not_equivalent) _ h in
      let made : Partition = record {
        id = id;
        family = f;
        commands = name ∷ map (λ m. m.0) ms;
        policy_sha256 = canonical_hash first;
        policy = first;
      } in
      let is_made : made ≡ p = cc in
      subst
        (λ p.
          IsPartition commands p
          × (p.family ≡ f)
          × (p.commands ≡ map (λ m. m.0) ((name, first) ∷ ms)))
        is_made
        (
          (
            (c, e, s, ap (λ q. q.family) s ∙ g),
            rest-IsPartition f first ms k (all→All (λ m. same m.1 first) ms (require-eq-ok _ _ h1)),
          ),
          refl,
          refl,
        )

  abbrev has_family : Family → List (Family × Bytes) → Bool
  has_family f ids = any (λ item. same item.0 f) ids

  partitions_from-lem :
      (ids : List (Family × Bytes)) {ps : List Partition}
      → partitions_from canonical_hash commands ids ≡ ok ps
      → All (IsPartition commands) ps
  unfolding partitions_from
  partitions_from-lem [] {ps} h = let e : [] ≡ ps = cc in subst (All (IsPartition commands)) e tt
  partitions_from-lem ((f, id) ∷ ids) {ps} h =
      let (ms, h1, k1) = >>=-eq-ok (members f commands commands_in_order) _ h in
      let (p, h2, k2) = >>=-eq-ok (partition_of canonical_hash f id ms) _ k1 in
      let (qs, h3, k3) = >>=-eq-ok (partitions_from canonical_hash commands ids) _ k2 in
      let e : p ∷ qs ≡ ps = cc in
      subst (All (IsPartition commands)) e (
        (partition_of-lem f id ms h2 (members-IsMember f commands commands_in_order h1)).0,
        partitions_from-lem ids h3,
      )

  partitions_from-placed :
      (name : Bytes) (c : Command) (ids : List (Family × Bytes)) {ps : List Partition}
      → partitions_from canonical_hash commands ids ≡ ok ps
      → mem name commands_in_order ≡ true
      → get name commands ≡ some c
      → has_family (parser_policy_signature c).family ids ≡ true
      → is_placed name (parser_policy_signature c).family ps ≡ true
  unfolding partitions_from
  partitions_from-placed name c [] h m e k = cc
  partitions_from-placed name c ((f, id) ∷ ids) {ps} h m e k =
      let (ms, h1, k1) = >>=-eq-ok (members f commands commands_in_order) _ h in
      let (p, h2, k2) = >>=-eq-ok (partition_of canonical_hash f id ms) _ k1 in
      let (qs, h3, k3) = >>=-eq-ok (partitions_from canonical_hash commands ids) _ k2 in
      let made : p ∷ qs ≡ ps = cc in
      let (d, found, among) = members_complete f commands name commands_in_order h1 m in
      let (_, of_p, names) =
        partition_of-lem f id ms h2 (members-IsMember f commands commands_in_order h1) in
      subst (λ ps. is_placed name (parser_policy_signature c).family ps ≡ true) made
        (elim (Bool-cases (same f (parser_policy_signature c).family)) [
          | inl here ↦
              let of_c : f ≡ (parser_policy_signature c).family =
                same→eq f (parser_policy_signature c).family here in
              let d-c : d ≡ c = cc in
              placed-first name (parser_policy_signature c).family p qs (of_p ∙ of_c) (
                subst (λ ns. mem name ns ≡ true) (sym names)
                  (among (ap (λ b. (parser_policy_signature b).family) d-c ∙ sym of_c)))
          | inr there ↦ placed-later name (parser_policy_signature c).family p qs (
              partitions_from-placed name c ids h3 m e (
                subst (λ b. (b || has_family (parser_policy_signature c).family ids) ≡ true) there
                  k))
        ])

every_family : (f : Family) → any (λ item. same item.0 f) family_equivalence_ids ≡ true
every_family shared_getopt_long = refl
every_family direct_getopt_long = refl
every_family argparse = refl
every_family no_parser = refl

-- When `build_family_equivalence` returns, each part's commands all have the part's policy and family, and every
-- command of COMMANDS is in the inventory and in a part of its family.
pub build_family_equivalence-ok :
    (canonical_hash : Policy → Bytes) (inventory : List Command) {maps : Maps} {ps : List Partition}
    → inventory_maps inventory ≡ ok maps
    → build_family_equivalence canonical_hash inventory ≡ ok ps
    → All (IsPartition maps.commands) ps
      × ((name : Bytes)
          → mem name commands_in_order ≡ true
          → (c : Command) × (get name maps.commands ≡ some c)
            × (is_placed name (parser_policy_signature c).family ps ≡ true))
unfolding build_family_equivalence partitions_from
build_family_equivalence-ok canonical_hash inventory {maps} {ps} known h =
    let (maps', h1, h2) = >>=-eq-ok (inventory_maps inventory) _ h in
    let same_maps : maps' ≡ maps = cc in
    let built : partitions_from canonical_hash maps.commands family_equivalence_ids ≡ ok ps =
      subst (λ m. partitions_from canonical_hash m.commands family_equivalence_ids ≡ ok ps)
        same_maps h2 in
    (
      partitions_from-lem canonical_hash maps.commands family_equivalence_ids built,
      λ name m. placed built name m,
    )
  where
    placed :
        partitions_from canonical_hash maps.commands family_equivalence_ids ≡ ok ps
        → (name : Bytes) → mem name commands_in_order ≡ true
        → (c : Command) × (get name maps.commands ≡ some c)
          × (is_placed name (parser_policy_signature c).family ps ≡ true)
    placed built name m =
        let (ms, h1, _) =
          >>=-eq-ok (members shared_getopt_long maps.commands commands_in_order) _ built in
        let (c, e, _) =
          members_complete shared_getopt_long maps.commands name commands_in_order h1 m in
        (
          c,
          e,
          partitions_from-placed canonical_hash maps.commands name c family_equivalence_ids built m
              e (every_family (parser_policy_signature c).family),
        )
