-- ===== src/Json/Observe.antt =====
-- `json_values_equal` against what can be observed of two documents.
use ferricov.Base.{
  ℕ, zero, suc, ◌≡◌, refl, sym, ap, ◌∙◌, subst, ◌⊎◌, Bool, true, false, ◌&&◌, Option, none, some,
  List, [], ◌∷◌, ◌==◌, Bool-cases, Option-cases, inl, inr, arith, false≢true,
}
use ferricov.Base.Bytes.{Bytes, bytes_eq, bytes_eq→eq}
use ferricov.Json.Value.{
  float_eq, int_eq, same_bool, Value, null, boolean, integer, float, string, array, object, Items,
  no_items, item, Members, no_members, member, count, get, has, keys_within, at,
}
use ferricov.Json.Equal.{json_values_equal, items_equal, members_equal, on_some}

-- A step into a document.
pub data Entry : Type 0 where
  key : Bytes → Entry
  index : ℕ → Entry

abbrev pub and_then : (Value → Option Value) → Option Value → Option Value
and_then f none = none
and_then f (some v) = f v

-- The value at the end of a path.
unfoldable pub reach : List Entry → Value → Option Value
reach [] v = some v
reach (key k ∷ p) (object fs) = and_then (λ v. reach p v) (get k fs)
reach (index i ∷ p) (array vs) = and_then (λ v. reach p v) (at i vs)
reach (_ ∷ p) v = none

-- Two values show the same at their root: the same kind, and the same scalar or number of items.
unfoldable pub alike : Value → Value → Bool
unfolding int_eq float_eq bytes_eq count
alike null null = true
alike (boolean a) (boolean b) = same_bool a b
alike (integer m) (integer n) = int_eq m n
alike (float x) (float y) = float_eq x y
alike (string s) (string t) = bytes_eq s t
alike (array vs) (array ws) = count vs == count ws
alike (object fs) (object gs) = true
alike _ _ = false

unfoldable pub both_alike : Option Value → Option Value → Bool
unfolding alike
both_alike none none = true
both_alike (some v) (some w) = alike v w
both_alike _ _ = false

-- Every path is in both documents, or in neither, and shows the same in both.
abbrev pub SameView : Value → Value → Type 0
SameView v w = (p : List Entry) → both_alike (reach p v) (reach p w) ≡ true

module _ (k l : Bytes) (v : Value) (fs : Members) where
  pub get_here : bytes_eq l k ≡ true → get k (member l v fs) ≡ some v
  unfolding get
  get_here same = rw same refl

  pub get_later : bytes_eq l k ≡ false → get k (member l v fs) ≡ get k fs
  unfolding get
  get_later differ = rw differ refl

pub has→get : (k : Bytes) (fs : Members) → has k fs ≡ true → (v : Value) × (get k fs ≡ some v)
unfolding has
has→get k no_members h = cc
has→get k (member l v fs) h = elim (Bool-cases (bytes_eq l k)) [
  | inl same ↦ (v, get_here k l v fs same)
  | inr differ ↦ let (w, e) = has→get k fs (ground arith) in (w, get_later k l v fs differ ∙ e)
]

pub get→has : (k : Bytes) (fs : Members) (v : Value) → get k fs ≡ some v → has k fs ≡ true
unfolding has get
get→has k no_members v h = cc
get→has k (member l w fs) v h = elim (Bool-cases (bytes_eq l k)) [
  | inl same ↦ rw same refl
  | inr differ ↦ rw differ (get→has k fs v (sym (get_later k l w fs differ) ∙ h))
]

pub keys_within-has :
    (k : Bytes) (fs gs : Members) → keys_within fs gs ≡ true → has k fs ≡ true → has k gs ≡ true
unfolding has keys_within
keys_within-has k no_members gs h here = cc
keys_within-has k (member l v fs) gs h here = elim (Bool-cases (bytes_eq l k)) [
  | inl same ↦ subst (λ q. has q gs ≡ true) (bytes_eq→eq l k same) (ground arith)
  | inr differ ↦ keys_within-has k fs gs (ground arith) (ground arith)
]

on_some-true :
    (f : Value → Bool) (o : Option Value)
    → on_some f o ≡ true
    → (w : Value) × (o ≡ some w) × (f w ≡ true)
on_some-true f none h = cc
on_some-true f (some w) h = (w, refl, h)

pub &&-true : (a b : Bool) → (a && b) ≡ true → (a ≡ true) × (b ≡ true)
&&-true a b h = (ground arith, ground arith)

pub get-none : (k : Bytes) (fs : Members) → has k fs ≡ false → get k fs ≡ none
get-none k fs h = elim (Option-cases (get k fs)) [
  | inl e ↦ e
  | inr (v, e) ↦ absurd (false≢true (sym h ∙ get→has k fs v e))
]

pub members_equal-get :
    (k : Bytes) (fs gs : Members) (v : Value)
    → members_equal fs gs ≡ true
    → get k fs ≡ some v
    → (w : Value) × (get k gs ≡ some w) × (json_values_equal v w ≡ true)
unfolding members_equal get
members_equal-get k no_members gs v h e = cc
members_equal-get k (member l u fs) gs v h e =
    let (first, rest) =
      &&-true (on_some (λ w. json_values_equal u w) (get l gs)) (members_equal fs gs) h in
    elim (Bool-cases (bytes_eq l k)) [
      | inl same ↦
          let (w, found, equal) = on_some-true (λ w. json_values_equal u w) (get l gs) first in
          let e' : v ≡ u = (cc (sym e ∙ get_here k l u fs same)) in
          (w, ap (λ q. get q gs) (sym (bytes_eq→eq l k same)) ∙ found, rw e' equal)
      | inr differ ↦ members_equal-get k fs gs v rest (sym (get_later k l u fs differ) ∙ e)
    ]

pub items_equal-at :
    (i : ℕ) (vs ws : Items)
    → count vs ≡ count ws
    → items_equal vs ws ≡ true
    → ((at i vs ≡ none) × (at i ws ≡ none))
      ⊎ ((v : Value) × (w : Value) × (at i vs ≡ some v)
          × (at i ws ≡ some w)
          × (json_values_equal v w ≡ true))
unfolding items_equal at count
items_equal-at i no_items no_items n h = inl (refl, refl)
items_equal-at i no_items (item w ws) n h = absurd (omega arith)
items_equal-at i (item v vs) no_items n h = absurd (omega arith)
items_equal-at zero (item v vs) (item w ws) n h = inr (v, w, refl, refl, ground arith)
items_equal-at (suc i) (item v vs) (item w ws) n h =
    items_equal-at i vs ws (omega arith) (ground arith)
