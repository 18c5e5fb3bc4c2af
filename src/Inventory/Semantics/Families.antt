-- ===== src/Inventory/Semantics/Families.antt =====
-- In an accepted inventory every pinned command is there, with the policy of its pinned family.
use ferricov.Base.{
  ◌≡◌, refl, subst, ap, ◌∙◌, Bool, true, List, [], ◌∷◌, map, Option, none, some, ok, all, All,
  >>-eq-ok, require-eq-ok, Bool-cases, Option-cases, inl, inr,
}
use ferricov.Base.Bytes.{Bytes, bytes_eq, bytes_eq→eq, mem}
use ferricov.Base.Dict.{get, dict_of}
use ferricov.Base.Dict.Items.{get-put_all, get-put_all-mem}
use ferricov.Base.Sets.{both, subset, set_eq, keys}
use ferricov.Base.Same.{same, same→eq}
use ferricov.Cases.Policy.{Family, Command, parser_policy_signature}
use ferricov.Cases.Equality.{family_same, policy_same}
use ferricov.Inventory.Pins.{Pins, policy_of, policy_for, expected_parser_policy}
use ferricov.Inventory.Commands.{policy_mismatch, check_policy, check_command}
use ferricov.Inventory.Semantics.{Inventory}
use ferricov.Inventory.Semantics.Passes.{Passes}

abbrev pub commands_by_name : List Command → List (Bytes × Command)
commands_by_name cs = dict_of (map (λ c. (c.name, c)) cs)

all-mem :
    (p : Bytes → Bool) (xs : List Bytes) (x : Bytes)
    → all p xs ≡ true
    → mem x xs ≡ true
    → p x ≡ true
all-mem p [] x h m = cc
all-mem p (y ∷ ys) x h m = elim (Bool-cases (bytes_eq y x)) [
  | inl here ↦ subst (λ z. p z ≡ true) (bytes_eq→eq y x here) (both {a = p y} h).0
  | inr later ↦ all-mem p ys x (both {a = p y} h).1 (rw later at m)
]

names-keys :
    (cs : List Command)
    → keys (map (λ (c : Command). (c.name, c)) cs) ≡ map (λ (c : Command). c.name) cs
names-keys [] = refl
names-keys (c ∷ cs) = ap (λ ns. c.name ∷ ns) (names-keys cs)

check_policy-eq :
    (c : Command) (f : Family) (o : Option Family)
    → o ≡ some f
    → check_policy c (policy_for o) ≡ ok tt
    → parser_policy_signature c ≡ policy_of f
check_policy-eq c f none e h = cc
check_policy-eq c f (some g) e h =
    same→eq (parser_policy_signature c) (policy_of g)
      (require-eq-ok (same (parser_policy_signature c) (policy_of g)) policy_mismatch h)
    ∙ ap policy_of (cc)

module _ (pins : Pins) (i : Inventory) (passes : Passes pins i) where
  -- The name of the command of a name, and its checks.
  Found : Bytes → Command → Type 0
  Found name c = (name ≡ c.name) × (check_command pins c ≡ ok tt)

  Found-items :
      (cs : List Command)
      → All (λ c. check_command pins c ≡ ok tt) cs
      → All (λ (item : Bytes × Command). Found item.0 item.1) (map (λ c. (c.name, c)) cs)
  unfolding Found
  Found-items [] h = tt
  Found-items (c ∷ cs) (h, hs) = ((refl, h), Found-items cs hs)

  pub command-IsPinned :
      (name : Bytes) (f : Family)
      → mem name (keys pins.commands) ≡ true
      → get name pins.policy_families ≡ some f
      → (c : Command) × (get name (commands_by_name i.commands) ≡ some c)
        × (parser_policy_signature c ≡ policy_of f)
  unfolding get Found set_eq subset check_command expected_parser_policy
  command-IsPinned name f m e =
      let names = map (λ (c : Command). c.name) i.commands in
      let named =
        all-mem (λ x. mem x names) (keys pins.commands) name
          (both {a = subset names (keys pins.commands)} passes.names).1 m in
      let there =
        get-put_all-mem (map (λ c. (c.name, c)) i.commands) [] name
          (rw (names-keys i.commands, named) refl) in
      elim (Option-cases (get name (commands_by_name i.commands))) [
        | inl absent ↦ let wrong = rw absent at there in cc
        | inr (c, found) ↦
            let (same_name, checked) =
              get-put_all Found (map (λ c. (c.name, c)) i.commands) [] name
                (Found-items i.commands passes.each_command) (λ j w h. cc) found in
            let (policy, _) =
              >>-eq-ok (check_policy c (policy_for (get c.name pins.policy_families))) _ checked in
            (
              c,
              found,
              check_policy-eq c f (get c.name pins.policy_families)
                  (subst (λ n. get n pins.policy_families ≡ some f) same_name e) policy,
            )
      ]
