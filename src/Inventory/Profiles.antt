-- ===== src/Inventory/Profiles.antt =====
-- The checks on the generated tokens and on the targets of their abbreviations.
use ferricov.Base.{
  Bool, false, ◌&&◌, List, [], ◌∷◌, map, Option, none, some, Result, ◌>>◌, require, if◌then◌else◌,
  all,
}
use ferricov.Base.Bytes.{Bytes}
use ferricov.Base.Dict.{get, dict_of}
use ferricov.Base.Sets.{keys_eq}
use ferricov.Base.Same.{same, option_same}
use ferricov.Cases.Policy.{Entry, Profiles, is_defined}
use ferricov.Inventory.Pins.{Pins, profiles_same, expected_profile_parser_resolutions}
use ferricov.Inventory.Commands.{
  Error, is_generated, generated_tokens_without_profiles, profile_resolution_drift,
  target_not_parser_backed,
}

unfoldable pub generated_items : List Entry → List (Bytes × Entry)
generated_items [] = []
generated_items (o ∷ os) =
    if is_generated o then (o.id, o) ∷ generated_items os else generated_items os

abbrev pub add_profiled :
    Bytes → Option Profiles → List (Bytes × Profiles) → List (Bytes × Profiles)
add_profiled id none rest = rest
add_profiled id (some p) rest = (id, p) ∷ rest

unfoldable pub profiled_items : List Entry → List (Bytes × Profiles)
profiled_items [] = []
profiled_items (o ∷ os) = add_profiled o.id o.profile_parser_resolution (profiled_items os)

unfoldable pub check_profiles : Pins → List Entry → Result Error (Unit {0})
unfolding generated_items profiled_items expected_profile_parser_resolutions
check_profiles pins options = do
  let generated = dict_of (generated_items options)
  let profiled = dict_of (profiled_items options)
  let expected = expected_profile_parser_resolutions pins
  require (keys_eq generated profiled && keys_eq profiled expected)
      generated_tokens_without_profiles
  require (all (λ item. same (get item.0 profiled) (some item.1)) expected) profile_resolution_drift

abbrev pub is_backed : Option Entry → Bool
is_backed none = false
is_backed (some o) = is_defined o

unfoldable pub check_targets : Pins → List Entry → Result Error (Unit {0})
check_targets pins options =
    require
      (all (λ item. is_backed (get item.1 (dict_of (map (λ (o : Entry). (o.id, o)) options))))
        pins.unique_abbreviation_targets)
      target_not_parser_backed
