-- ===== src/Cases/Equality.antt =====
-- Python's `==` on resolution records, parser policies and their values.
use ferricov.Base.{
  arith, ℕ, zero, suc, ◌≡◌, refl, sym, ap, ◌∙◌, Bool, true, false, List, [], ◌∷◌, Option, none,
  some, ◌==◌, ==_refl, ==→eq,
}
use ferricov.Base.Bytes.{Bytes, codes}
use ferricov.Base.Same.{Same, bytes_same, option_same, list_same, pair_same, along}
use ferricov.Cases.Policy.{
  Family, shared_getopt_long, direct_getopt_long, argparse, no_parser, Policy,
}
use ferricov.Cases.Token.{
  positional, rejected_after_option_boundary, exact, exact_alias, unique_prefix, ambiguous_prefix,
  unknown, short_cluster, unparsed_after_require_order, ignored, option_value,
  exact_only_prefix_rejected, Resolution, Token,
}

abbrev pub nat_same : Same ℕ
nat_same = record { test = ◌==◌; test_refl = ==_refl; test→eq = ==→eq }

abbrev pub bit : Bool → ℕ
bit true = 1
bit false = 0

pub bit-injective : (a b : Bool) → bit a ≡ bit b → a ≡ b
bit-injective true true e = refl
bit-injective false false e = refl
bit-injective true false e = absurd (omega (arith, e))
bit-injective false true e = absurd (omega (arith, e))

instance abbrev pub bool_same : Same Bool
bool_same = along nat_same bit bit-injective

abbrev pub family_number : Family → ℕ
family_number shared_getopt_long = 0
family_number direct_getopt_long = 1
family_number argparse = 2
family_number no_parser = 3

pub family_of : ℕ → Family
family_of zero = shared_getopt_long
family_of (suc zero) = direct_getopt_long
family_of (suc (suc zero)) = argparse
family_of _ = no_parser

pub family_of-number : (f : Family) → family_of (family_number f) ≡ f
unfolding family_of
family_of-number shared_getopt_long = refl
family_of-number direct_getopt_long = refl
family_of-number argparse = refl
family_of-number no_parser = refl

instance abbrev pub family_same : Same Family
family_same =
    along nat_same family_number
      (λ f g e. sym (family_of-number f) ∙ (ap family_of e ∙ family_of-number g))

abbrev pub resolution_number : Resolution → ℕ
resolution_number positional = 0
resolution_number rejected_after_option_boundary = 1
resolution_number exact = 2
resolution_number exact_alias = 3
resolution_number unique_prefix = 4
resolution_number ambiguous_prefix = 5
resolution_number unknown = 6
resolution_number short_cluster = 7
resolution_number unparsed_after_require_order = 8
resolution_number ignored = 9
resolution_number option_value = 10
resolution_number exact_only_prefix_rejected = 11

pub resolution_of : ℕ → Resolution
resolution_of zero = positional
resolution_of (suc zero) = rejected_after_option_boundary
resolution_of (suc (suc zero)) = exact
resolution_of (suc (suc (suc zero))) = exact_alias
resolution_of (suc (suc (suc (suc zero)))) = unique_prefix
resolution_of (suc (suc (suc (suc (suc zero))))) = ambiguous_prefix
resolution_of (suc (suc (suc (suc (suc (suc zero)))))) = unknown
resolution_of (suc (suc (suc (suc (suc (suc (suc zero))))))) = short_cluster
resolution_of (suc (suc (suc (suc (suc (suc (suc (suc zero)))))))) = unparsed_after_require_order
resolution_of (suc (suc (suc (suc (suc (suc (suc (suc (suc zero))))))))) = ignored
resolution_of (suc (suc (suc (suc (suc (suc (suc (suc (suc (suc zero)))))))))) = option_value
resolution_of _ = exact_only_prefix_rejected

pub resolution_of-number : (r : Resolution) → resolution_of (resolution_number r) ≡ r
unfolding resolution_of
resolution_of-number positional = refl
resolution_of-number rejected_after_option_boundary = refl
resolution_of-number exact = refl
resolution_of-number exact_alias = refl
resolution_of-number unique_prefix = refl
resolution_of-number ambiguous_prefix = refl
resolution_of-number unknown = refl
resolution_of-number short_cluster = refl
resolution_of-number unparsed_after_require_order = refl
resolution_of-number ignored = refl
resolution_of-number option_value = refl
resolution_of-number exact_only_prefix_rejected = refl

instance abbrev pub resolution_same : Same Resolution
resolution_same =
    along nat_same resolution_number
      (λ r s e. sym (resolution_of-number r) ∙ (ap resolution_of e ∙ resolution_of-number s))

-- The fields of a record, in two parts.
abbrev pub Names : Type 0
Names = (Bytes × Resolution) × (Option Bytes × Option Bytes)

abbrev pub Rest : Type 0
Rest = (Option Bool × Bool) × (Option (List Bytes) × Option (List Bytes))

abbrev pub token_fields : Token → Names × Rest
token_fields r = (
  ((r.token, r.resolution), (r.option, r.target)),
  ((r.positionals_defined, r.missing_value), (r.targets, r.bundling_reverse_targets)),
)

pub token-injective : (r s : Token) → token_fields r ≡ token_fields s → r ≡ s
token-injective r s e = cc

instance abbrev pub token_same : Same Token
token_same = along pair_same token_fields token-injective

-- A value of the policy.
pub data Field : Type 0 where
  null : Field
  flag : Bool → Field
  text : Bytes → Field
  texts : List Bytes → Field

abbrev pub field_code : Field → ((Bool × Bool) × Bool) × (Bytes × List Bytes)
field_code null = (((false, false), false), ([], []))
field_code (flag b) = (((false, true), b), ([], []))
field_code (text s) = (((true, false), false), (s, []))
field_code (texts ss) = (((true, true), false), ([], ss))

pub field-injective : (a b : Field) → field_code a ≡ field_code b → a ≡ b
field-injective null null e = refl
field-injective (flag a) (flag b) e = cc
field-injective (text a) (text b) e = cc
field-injective (texts a) (texts b) e = cc
field-injective _ _ e = cc

instance abbrev pub field_same : Same Field
field_same = along pair_same field_code field-injective

abbrev pub family_name : Family → Bytes
family_name shared_getopt_long = codes "shared_getopt_long"
family_name direct_getopt_long = codes "direct_getopt_long"
family_name argparse = codes "argparse"
family_name no_parser = codes "none"

abbrev sensitivity : Option Bool → Field
sensitivity none = null
sensitivity (some b) = flag b

-- The policy as a dictionary.
abbrev pub policy_items : Policy → List (Bytes × Field)
policy_items p =
    (codes "family", text (family_name p.family))
    ∷ (codes "auto_abbrev", text p.auto_abbrev)
    ∷ (codes "case_sensitive", sensitivity p.case_sensitive)
    ∷ (codes "accepted_long_prefixes", texts p.accepted_long_prefixes)
    ∷ (codes "plus_prefix_behavior", text p.plus_prefix_behavior)
    ∷ (codes "option_ordering", text p.option_ordering)
    ∷ (codes "bundling", text p.bundling)
    ∷ (codes "posixly_correct_effect", text p.posixly_correct_effect)
    ∷ (codes "exact_only_options", texts p.exact_only_options)
    ∷ []

abbrev pub Behaviour : Type 0
Behaviour = (Bytes × Bytes) × (Bytes × Bytes)

abbrev pub policy_fields :
    Policy → ((Family × Bytes) × Option Bool) × ((List Bytes × List Bytes) × Behaviour)
policy_fields p = (
  ((p.family, p.auto_abbrev), p.case_sensitive),
  (
    (p.accepted_long_prefixes, p.exact_only_options),
    ((p.plus_prefix_behavior, p.option_ordering), (p.bundling, p.posixly_correct_effect)),
  ),
)

pub policy-injective : (p q : Policy) → policy_fields p ≡ policy_fields q → p ≡ q
policy-injective p q e = cc

instance abbrev pub policy_same : Same Policy
policy_same = along pair_same policy_fields policy-injective
