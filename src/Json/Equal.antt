-- ===== src/Json/Equal.antt =====
-- `json_values_equal` and `reject_duplicate_json_keys` of compat/fixtures/m0-tracefiles/validation_common.py.
use ferricov.Base.{
  Bool, true, false, ◌&&◌, Option, none, some, Result, ok, err, List, [], ◌∷◌, if◌then◌else◌, ◌==◌,
}
use ferricov.Base.Bytes.{Bytes, bytes_eq}
use ferricov.Json.Value.{
  float_eq, int_eq, same_bool, Value, null, boolean, integer, float, string, array, object, Items,
  item, Members, no_members, member, count, get, has, keys_within,
}

abbrev pub on_some : (Value → Bool) → Option Value → Bool
on_some f none = false
on_some f (some w) = f w

unfoldable mutual
  pub json_values_equal : Value → Value → Bool
  json_values_equal null null = true
  json_values_equal (boolean a) (boolean b) = same_bool a b
  json_values_equal (integer m) (integer n) = int_eq m n
  json_values_equal (float x) (float y) = float_eq x y
  json_values_equal (string s) (string t) = bytes_eq s t
  json_values_equal (array vs) (array ws) = (count vs == count ws) && items_equal vs ws
  json_values_equal (object fs) (object gs) =
      (keys_within fs gs && keys_within gs fs) && members_equal fs gs
  json_values_equal _ _ = false

  -- the pairs of `zip(left, right)`
  pub items_equal : Items → Items → Bool
  items_equal (item v vs) (item w ws) = json_values_equal v w && items_equal vs ws
  items_equal _ _ = true

  -- `json_values_equal(left[key], right[key])` for every key of `left`
  pub members_equal : Members → Members → Bool
  members_equal no_members gs = true
  members_equal (member k v fs) gs =
      on_some (λ w. json_values_equal v w) (get k gs) && members_equal fs gs

abbrev pub Document : Type 0
Document = List (Bytes × Value)

-- `document[key] = value`, for a key that is not in it
unfoldable pub append_member : Members → Bytes → Value → Members
append_member no_members k v = member k v no_members
append_member (member l w fs) k v = member l w (append_member fs k v)

unfoldable pub collect : Members → Document → Result Bytes Members
unfolding has append_member
collect document [] = ok document
collect document ((k, v) ∷ pairs) =
    if has k document then err k else collect (append_member document k v) pairs

-- the error is the duplicate key
unfoldable pub reject_duplicate_json_keys : Document → Result Bytes Members
unfolding collect
reject_duplicate_json_keys pairs = collect no_members pairs
