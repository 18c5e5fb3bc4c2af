-- ===== src/Json/Sound.antt =====
use ferricov.Base.{
  ℕ, ◌≡◌, refl, sym, ◌∙◌, true, List, [], ◌∷◌, ==→eq, Bool-cases, inl, inr, arith, false≢true,
}
use ferricov.Base.Bytes.{Bytes}
use ferricov.Json.Value.{
  Value, null, boolean, integer, float, string, array, object, Items, Members, count, has,
}
use ferricov.Json.Equal.{json_values_equal}
use ferricov.Json.Observe.{
  Entry, key, index, reach, alike, both_alike, SameView, has→get, keys_within-has,
  members_equal-get, items_equal-at, get-none,
}

equal-alike : (v w : Value) → json_values_equal v w ≡ true → alike v w ≡ true
unfolding json_values_equal alike
equal-alike null null h = refl
equal-alike (boolean a) (boolean b) h = h
equal-alike (integer m) (integer n) h = h
equal-alike (float x) (float y) h = h
equal-alike (string s) (string t) h = h
equal-alike (array vs) (array ws) h = ground arith
equal-alike (object fs) (object gs) h = refl
equal-alike _ _ h = cc

module _ (p : List Entry)
    (next : (v w : Value)
      → json_values_equal v w ≡ true
      → both_alike (reach p v) (reach p w) ≡ true) where
  into_object :
      (k : Bytes) (fs gs : Members)
      → json_values_equal (object fs) (object gs) ≡ true
      → both_alike (reach (key k ∷ p) (object fs)) (reach (key k ∷ p) (object gs)) ≡ true
  unfolding json_values_equal reach both_alike
  into_object k fs gs h = elim (Bool-cases (has k fs)) [
    | inl here ↦
        let (v, e) = has→get k fs here in
        let (w, e', equal) = members_equal-get k fs gs v (ground arith) e in
        rw (e, e') (next v w equal)
    | inr missing ↦ elim (Bool-cases (has k gs)) [
      | inl there ↦ absurd (false≢true (sym missing ∙ keys_within-has k gs fs (ground arith) there))
      | inr none' ↦ rw (get-none k fs missing, get-none k gs none') refl
    ]
  ]

  into_array :
      (i : ℕ) (vs ws : Items)
      → json_values_equal (array vs) (array ws) ≡ true
      → both_alike (reach (index i ∷ p) (array vs)) (reach (index i ∷ p) (array ws)) ≡ true
  unfolding json_values_equal reach both_alike
  into_array i vs ws h =
      elim (items_equal-at i vs ws (==→eq (count vs) (count ws) (ground arith)) (ground arith)) [
        | inl (e, e') ↦ rw (e, e') refl
        | inr (v, w, e, e', equal) ↦ rw (e, e') (next v w equal)
      ]

equal-reach :
    (p : List Entry) (v w : Value)
    → json_values_equal v w ≡ true
    → both_alike (reach p v) (reach p w) ≡ true
unfolding reach both_alike json_values_equal
equal-reach [] v w h = equal-alike v w h
equal-reach (key k ∷ p) (object fs) (object gs) h =
    into_object p (λ v w e. equal-reach p v w e) k fs gs h
equal-reach (index i ∷ p) (array vs) (array ws) h =
    into_array p (λ v w e. equal-reach p v w e) i vs ws h
equal-reach (key k ∷ p) null null h = refl
equal-reach (key k ∷ p) (boolean a) (boolean b) h = refl
equal-reach (key k ∷ p) (integer m) (integer n) h = refl
equal-reach (key k ∷ p) (float x) (float y) h = refl
equal-reach (key k ∷ p) (string t) (string u) h = refl
equal-reach (key k ∷ p) (array vs) (array ws) h = refl
equal-reach (index i ∷ p) null null h = refl
equal-reach (index i ∷ p) (boolean a) (boolean b) h = refl
equal-reach (index i ∷ p) (integer m) (integer n) h = refl
equal-reach (index i ∷ p) (float x) (float y) h = refl
equal-reach (index i ∷ p) (string t) (string u) h = refl
equal-reach (index i ∷ p) (object fs) (object gs) h = refl
equal-reach (_ ∷ p) _ _ h = cc

-- Documents that `json_values_equal` accepts show the same at every path.
pub json_values_equal-SameView : (v w : Value) → json_values_equal v w ≡ true → SameView v w
json_values_equal-SameView v w h p = equal-reach p v w h
