-- ===== src/Json/Complete.antt =====
use ferricov.Base.{
  ℕ, zero, suc, ◌≡◌, refl, sym, ◌∙◌, subst, true, false, Option, none, some, List, [], ◌∷◌, ==→eq,
  Bool-cases, inl, inr, arith, false≢true,
}
use ferricov.Base.Bytes.{Bytes, bytes_eq, bytes_eq_refl, bytes_eq→eq}
use ferricov.Json.Value.{
  Value, null, boolean, integer, float, string, array, object, Items, item, Members, no_members,
  member, count, get, has, keys_within, at, IsUnique, AllUnique, UniqueKeys,
}
use ferricov.Json.Equal.{json_values_equal, items_equal, members_equal}
use ferricov.Json.Observe.{
  Entry, and_then, get_here, get_later, key, index, reach, both_alike, SameView, has→get, get→has,
}

-- Two objects show the same below the keys of the first.
SameBelow : Members → Members → Type 0
SameBelow fs gs =
    (k : Bytes) (p : List Entry)
    → has k fs ≡ true
    → both_alike (and_then (λ v. reach p v) (get k fs)) (and_then (λ w. reach p w) (get k gs))
      ≡ true

both_alike-some :
    (v : Value) (o : Option Value) → both_alike (some v) o ≡ true → (w : Value) × (o ≡ some w)
unfolding both_alike
both_alike-some v none h = cc
both_alike-some v (some w) h = (w, refl)

some-both_alike :
    (o : Option Value) (w : Value) → both_alike o (some w) ≡ true → (v : Value) × (o ≡ some v)
unfolding both_alike
some-both_alike none w h = cc
some-both_alike (some v) w h = (v, refl)

and_then-root : (o : Option Value) → and_then (λ v. reach [] v) o ≡ o
unfolding reach
and_then-root none = refl
and_then-root (some v) = refl

-- A key of the one object that shows the same in the other is there as well.
shown :
    (fs gs : Members) (k : Bytes)
    → both_alike (and_then (λ v. reach [] v) (get k fs)) (and_then (λ w. reach [] w) (get k gs))
      ≡ true
    → both_alike (get k fs) (get k gs) ≡ true
shown fs gs k h = rw (sym (and_then-root (get k fs)), sym (and_then-root (get k gs))) h

shown-has :
    (fs gs : Members) (k : Bytes)
    → both_alike (get k fs) (get k gs) ≡ true
    → has k fs ≡ true
    → has k gs ≡ true
shown-has fs gs k h here =
    let (v, e) = has→get k fs here in
    let (w, e') = both_alike-some v (get k gs) (subst (λ o. both_alike o (get k gs) ≡ true) e h) in
    get→has k gs w e'

has-shown :
    (fs gs : Members) (k : Bytes)
    → both_alike (get k fs) (get k gs) ≡ true
    → has k gs ≡ true
    → has k fs ≡ true
has-shown fs gs k h here =
    let (w, e) = has→get k gs here in
    let (v, e') = some-both_alike (get k fs) w (subst (λ o. both_alike (get k fs) o ≡ true) e h) in
    get→has k fs v e'

below_at :
    (fs gs : Members)
    → SameBelow fs gs
    → (k : Bytes) (v w : Value) → get k fs ≡ some v
    → get k gs ≡ some w
    → SameView v w
unfolding SameBelow
below_at fs gs h k v w e e' p =
    subst (λ o. both_alike (reach p v) (and_then (λ w. reach p w) o) ≡ true) e'
      (subst
        (λ o.
          both_alike (and_then (λ v. reach p v) o) (and_then (λ w. reach p w) (get k gs)) ≡ true)
        e (h k p (get→has k fs v e)))

keys_within-found :
    (fs gs : Members) → ((k : Bytes) → has k fs ≡ true → has k gs ≡ true) → keys_within fs gs ≡ true
unfolding keys_within has
keys_within-found no_members gs h = refl
keys_within-found (member k v fs) gs h =
    let here = h k (rw (bytes_eq_refl k) refl) in
    let rest = keys_within-found fs gs (λ q there. h q (rw there ground arith)) in ground arith

SameBelow-rest :
    (k : Bytes) (v : Value) (fs gs : Members)
    → has k fs ≡ false
    → SameBelow (member k v fs) gs
    → SameBelow fs gs
unfolding SameBelow has
SameBelow-rest k v fs gs fresh h q p there =
    let apart : bytes_eq k q ≡ false = elim (Bool-cases (bytes_eq k q)) [
      | inl same ↦
          absurd (
            false≢true
              (sym fresh ∙ subst (λ r. has r fs ≡ true) (sym (bytes_eq→eq k q same)) there))
      | inr differ ↦ differ
    ] in
    rw (sym (get_later q k v fs apart)) (h q p (rw there ground arith))

mutual
  unfolding json_values_equal IsUnique SameBelow reach both_alike count at

  complete : (v w : Value) → IsUnique v → SameView v w → json_values_equal v w ≡ true
  complete null null u h = refl
  complete (boolean a) (boolean b) u h = h []
  complete (integer m) (integer n) u h = h []
  complete (float x) (float y) u h = h []
  complete (string s) (string t) u h = h []
  complete (array vs) (array ws) u h =
      let same = h [] in
      rw same (items_complete vs ws u (==→eq (count vs) (count ws) same) (λ i p. h (index i ∷ p)))
  complete (object fs) (object gs) u h =
      let below = members_complete fs gs u (λ k p here. h (key k ∷ p)) in
      let there =
        keys_within-found fs gs (λ k. shown-has fs gs k (shown fs gs k (h (key k ∷ [])))) in
      let back =
        keys_within-found gs fs (λ k. has-shown fs gs k (shown fs gs k (h (key k ∷ [])))) in
      ground arith
  complete _ _ u h = cc (h [])

  items_complete :
      (vs ws : Items)
      → AllUnique vs
      → count vs ≡ count ws
      → ((i : ℕ) (p : List Entry)
          → both_alike (and_then (λ v. reach p v) (at i vs)) (and_then (λ w. reach p w) (at i ws))
            ≡ true)
      → items_equal vs ws ≡ true
  items_complete (item v vs) (item w ws) (u, us) n h =
      let first = complete v w u (λ p. h zero p) in
      let rest = items_complete vs ws us (omega arith) (λ i p. h (suc i) p) in ground arith
  items_complete _ _ us n h = refl

  members_complete :
      (fs gs : Members) → UniqueKeys fs → SameBelow fs gs → members_equal fs gs ≡ true
  members_complete no_members gs u h = refl
  members_complete (member k v fs) gs (fresh, u, us) h =
      let rest = members_complete fs gs us (SameBelow-rest k v fs gs fresh h) in
      let here : has k (member k v fs) ≡ true =
        get→has k (member k v fs) v (get_here k k v fs (bytes_eq_refl k)) in
      let found = shown-has (member k v fs) gs k (shown (member k v fs) gs k (h k [] here)) here in
      let (w, e) = has→get k gs found in
      let equal =
        complete v w u
          (below_at (member k v fs) gs h k v w (get_here k k v fs (bytes_eq_refl k)) e) in
      rw e ground arith

-- Documents that show the same at every path are accepted by `json_values_equal`, where no object of the
-- left one has a key twice.
pub SameView-json_values_equal :
    (v w : Value) → IsUnique v → SameView v w → json_values_equal v w ≡ true
SameView-json_values_equal v w u h = complete v w u h
