-- ===== src/Json/Value.antt =====
-- The values that Python's json.loads gives, with the order of an object's members.
use ferricov.Base.{
  ℕ, ◌≡◌, Bool, true, false, ◌&&◌, ◌||◌, not, Option, none, some, if◌then◌else◌, ◌==◌,
}
use ferricov.Base.Bytes.{Bytes, bytes_eq}
use ferricov.Base.Int.{ℤ, pos, negsuc}

-- A double: a finite one is a sign and a number of units of 2 ^ -1074.
pub data Float : Type 0 where
  nan : Float
  infinity : Bool → Float
  finite : Bool → ℕ → Float

abbrev pub same_bool : Bool → Bool → Bool
same_bool true b = b
same_bool false b = not b

-- `==` on floats: nan is unlike itself, and the two zeros are alike.
unfoldable pub float_eq : Float → Float → Bool
float_eq (infinity s) (infinity t) = same_bool s t
float_eq (finite s m) (finite t n) = (m == n) && ((m == 0) || same_bool s t)
float_eq _ _ = false

unfoldable pub int_eq : ℤ → ℤ → Bool
int_eq (pos m) (pos n) = m == n
int_eq (negsuc m) (negsuc n) = m == n
int_eq _ _ = false

mutual
  pub data Value : Type 0 where
    null : Value
    boolean : Bool → Value
    integer : ℤ → Value
    float : Float → Value
    string : Bytes → Value
    array : Items → Value
    object : Members → Value

  pub data Items : Type 0 where
    no_items : Items
    item : Value → Items → Items

  pub data Members : Type 0 where
    no_members : Members
    member : Bytes → Value → Members → Members

unfoldable pub count : Items → ℕ
count no_items = 0
count (item v vs) = ℕ.suc (count vs)

-- `document.get(key)`
unfoldable pub get : Bytes → Members → Option Value
unfolding bytes_eq
get k no_members = none
get k (member l v fs) = if bytes_eq l k then some v else get k fs

-- `key in document`
unfoldable pub has : Bytes → Members → Bool
unfolding bytes_eq
has k no_members = false
has k (member l v fs) = bytes_eq l k || has k fs

-- Every key of the first object is one of the second.
unfoldable pub keys_within : Members → Members → Bool
unfolding has
keys_within no_members gs = true
keys_within (member k v fs) gs = has k gs && keys_within fs gs

-- `array[index]`
unfoldable pub at : ℕ → Items → Option Value
at i no_items = none
at ℕ.zero (item v vs) = some v
at (ℕ.suc i) (item v vs) = at i vs

-- A dict never holds a key twice, at any depth.
unfoldable mutual
  pub IsUnique : Value → Type 0
  IsUnique (array vs) = AllUnique vs
  IsUnique (object fs) = UniqueKeys fs
  IsUnique _ = Unit

  pub AllUnique : Items → Type 0
  AllUnique no_items = Unit
  AllUnique (item v vs) = IsUnique v × AllUnique vs

  pub UniqueKeys : Members → Type 0
  UniqueKeys no_members = Unit
  UniqueKeys (member k v fs) = (has k fs ≡ false) × IsUnique v × UniqueKeys fs
