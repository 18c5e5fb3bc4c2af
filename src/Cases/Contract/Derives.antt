-- ===== src/Cases/Contract/Derives.antt =====
-- What the checks of an equivalence accept is what the generator derives.
use ferricov.Base.{
  ◌≡◌, refl, subst, ap, ◌↔◌, true, ◌||◌, List, [], ◌∷◌, some, ok, require, if◌then◌else◌, arith,
  >>=-eq-ok, >>-eq-ok, pass, step, require-eq-ok, Bool-cases, inl, inr,
}
use ferricov.Base.Bytes.{Bytes, codes, bytes_eq, bytes_eq→eq, mem}
use ferricov.Base.Same.{same, same_refl, same→eq, bytes_same, option_same, list_same}
use ferricov.Cases.Policy.{Command}
use ferricov.Cases.Token.{Token}
use ferricov.Cases.Equality.{token_same}
use ferricov.Cases.Inventory.{Partition}
use ferricov.Cases.Contract.{check_derived}
use ferricov.Cases.Records.{
  Case, Link, Derived, profile_drift, claims_drift, scope_drift, resolution_drift, coverage_drift,
  executed_command_absent, profile_of, signature_for, covered, claims, derive,
}

module _ (commands : List (Bytes × Command)) (arguments : List Bytes) (profile : Bytes) where
  -- A command is covered when it is among those that are compared, and has the signature.
  mem-covered :
      (base : List Token) (name : Bytes) (cs : List Bytes) {names : List Bytes}
      → signature_for commands arguments profile name ≡ ok base
      → covered commands arguments profile base cs ≡ ok names
      → mem name cs ≡ true
      → mem name names ≡ true
  unfolding covered
  mem-covered base name [] reads h m = cc
  mem-covered base name (c ∷ cs) {names} reads h m =
      let (rs, first, h1) = >>=-eq-ok (signature_for commands arguments profile c) _ h in
      let (rest, later, h2) = >>=-eq-ok (covered commands arguments profile base cs) _ h1 in
      let e : (if same rs base then c ∷ rest else rest) ≡ names = cc in
      subst (λ ns. mem name ns ≡ true) e
        (elim (Bool-cases (bytes_eq c name)) [
          | inl here ↦ kept rs rest here first
          | inr there ↦ behind rs rest (
              mem-covered base name cs reads later (subst (λ b. (b || mem name cs) ≡ true) there m))
        ])
    where
      kept :
          (rs : List Token) (rest : List Bytes)
          → bytes_eq c name ≡ true
          → signature_for commands arguments profile c ≡ ok rs
          → mem name (if same rs base then c ∷ rest else rest) ≡ true
      kept rs rest here first =
          let c-name = bytes_eq→eq c name here in
          let rs-base : rs ≡ base = cc in rw (rs-base, same_refl base) (rw here refl)

      behind :
          (rs : List Token) (rest : List Bytes)
          → mem name rest ≡ true
          → mem name (if same rs base then c ∷ rest else rest) ≡ true
      behind rs rest h = elim (Bool-cases (same rs base)) [
        | inl k ↦ rw (k, h) ground arith
        | inr k ↦ rw k h
      ]

module _ (commands : List (Bytes × Command)) (partition : Partition) (case : Case) (l : Link)
    (executed : l.command ≡ case.command) where
  abbrev profile : Bytes
  profile = profile_of l.suite_id

  check_derived→derive :
      (d : Derived)
      → check_derived commands partition case l d ≡ ok tt
      → derive commands partition case.arguments l ≡ ok d
  unfolding check_derived derive
  check_derived→derive d h =
      let (h1, k1) =
        >>-eq-ok (require (same d.equivalence_profile (some profile)) profile_drift) _ h in
      let (h2, k2) = >>-eq-ok (require (same d.equivalence_claims (claims l)) claims_drift) _ k1 in
      let (h3, k3) =
        >>-eq-ok (require (same d.inference_scope (some (codes "parser_resolution"))) scope_drift) _
          k2 in
      let (base, h4, k4) =
        >>=-eq-ok (signature_for commands case.arguments profile case.command) _ k3 in
      let (h5, k5) =
        >>-eq-ok (require (same d.probe_resolution (some base)) resolution_drift) _ k4 in
      let (names, h6, k6) =
        >>=-eq-ok (covered commands case.arguments profile base partition.commands) _ k5 in
      let (h7, k7) = >>-eq-ok (require (same d.covered_commands names) coverage_drift) _ k6 in
      let e1 = same→eq d.equivalence_profile (some profile) (require-eq-ok _ _ h1) in
      let e2 = same→eq d.equivalence_claims (claims l) (require-eq-ok _ _ h2) in
      let e3 =
        same→eq d.inference_scope (some (codes "parser_resolution")) (require-eq-ok _ _ h3) in
      let e5 = same→eq d.probe_resolution (some base) (require-eq-ok _ _ h5) in
      let e7 = same→eq d.covered_commands names (require-eq-ok _ _ h7) in
      rw (executed, h4) (rw h6 (ap ok cc))

  derive→check_derived :
      (d : Derived)
      → mem case.command partition.commands ≡ true
      → derive commands partition case.arguments l ≡ ok d
      → check_derived commands partition case l d ≡ ok tt
  unfolding check_derived derive
  derive→check_derived d there h =
      let (base, h1, k1) =
        >>=-eq-ok (signature_for commands case.arguments profile l.command) _ h in
      let (names, h2, k2) =
        >>=-eq-ok (covered commands case.arguments profile base partition.commands) _ k1 in
      let reads : signature_for commands case.arguments profile case.command ≡ ok base =
        subst (λ c. signature_for commands case.arguments profile c ≡ ok base) executed h1 in
      let made : Derived = record {
        equivalence_profile = some profile;
        equivalence_claims = claims l;
        covered_commands = names;
        inference_scope = some (codes "parser_resolution");
        probe_resolution = some base;
      } in
      let is_made : made ≡ d = cc in
      subst (λ d. check_derived commands partition case l d ≡ ok tt) is_made
        (pass _ (same_refl (some profile)) (
          pass _ (same_refl (claims l)) (
            pass _ (same_refl (some (codes "parser_resolution"))) (
              step _ reads (
                pass _ (same_refl (some base)) (
                  step _ h2 (
                    pass _ (same_refl names) (
                      ap (λ b. require b executed_command_absent)
                        (mem-covered commands case.arguments profile base case.command
                          partition.commands reads h2 there)))))))))

-- For a case whose command is the link's and is among the partition's, the checks of `validate_contract` on the
-- derived fields accept exactly the fields that `build_case_contract` derives.
pub check_derived-derive :
    (commands : List (Bytes × Command)) (partition : Partition) (case : Case) (l : Link)
    (d : Derived)
    → l.command ≡ case.command
    → mem case.command partition.commands ≡ true
    → (check_derived commands partition case l d ≡ ok tt)
      ↔ (derive commands partition case.arguments l ≡ ok d)
check_derived-derive commands partition case l d executed there = (
  check_derived→derive commands partition case l executed d,
  derive→check_derived commands partition case l executed d there,
)
