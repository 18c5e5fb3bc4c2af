-- ===== src/Tests/Json.antt =====
-- Runs of the JSON comparison on small documents.
use ferricov.Base.{◌≡◌, refl, true, false, [], ◌∷◌, err}
use ferricov.Base.Bytes.{codes, bytes_eq}
use ferricov.Base.Int.{pos}
use ferricov.Json.Value.{
  Value, boolean, integer, array, object, no_items, item, Members, no_members, member, has, get,
  keys_within, count, int_eq, IsUnique,
}
use ferricov.Json.Equal.{Document, json_values_equal, reject_duplicate_json_keys}
use ferricov.Json.Observe.{SameView}
use ferricov.Json.Sound.{json_values_equal-SameView}
use ferricov.Json.Complete.{SameView-json_values_equal}

abbrev one : Value
one = integer (pos 1)

abbrev left : Value
left = object (member (codes "id") one (member (codes "ok") (boolean true) no_members))

abbrev right : Value
right = object (member (codes "ok") (boolean true) (member (codes "id") one no_members))

-- `True == 1` and `1 == 1.0` in Python; neither is accepted here.
cross_types :
    json_values_equal (array (item (boolean true) no_items)) (array (item one no_items)) ≡ false
unfolding json_values_equal count
cross_types = refl

left-right : json_values_equal left right ≡ true
unfolding json_values_equal bytes_eq has get keys_within int_eq
left-right = refl

json_values_equal-SameView_example : SameView left right
json_values_equal-SameView_example = json_values_equal-SameView left right left-right

left-IsUnique : IsUnique left
unfolding IsUnique has bytes_eq
left-IsUnique = (refl, tt, (refl, tt, tt))

SameView-json_values_equal_example : json_values_equal left right ≡ true
SameView-json_values_equal_example =
    SameView-json_values_equal left right left-IsUnique
      (json_values_equal-SameView left right left-right)

abbrev pairs : Document
pairs = (codes "id", one) ∷ (codes "ok", boolean true) ∷ []

abbrev collected : Members
collected = member (codes "id") one (member (codes "ok") (boolean true) no_members)

twice_the_key :
    reject_duplicate_json_keys ((codes "id", one) ∷ (codes "id", one) ∷ []) ≡ err (codes "id")
unfolding reject_duplicate_json_keys has bytes_eq
twice_the_key = refl
