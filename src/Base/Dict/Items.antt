-- ===== src/Base/Dict/Items.antt =====
-- What a dictionary built from its items holds.
use mathlib.Core.Path.{◌≡◌, refl, sym, ◌∙◌, subst}
use mathlib.Core.Bool.{Bool, true, false, ◌||◌}
use mathlib.Core.Option.{Option, none, some}
use mathlib.Core.Logic.{inl, inr}
use mathlib.Core.List.{List, [], ◌∷◌, map}
use native.Mathlib.Omega.{arith}
use ferricov.Base.Tests.{Bool-cases}
use ferricov.Base.Bytes.{Bytes, bytes_eq, bytes_eq→eq, mem}
use ferricov.Base.Lists.{All}
use ferricov.Base.Dict.{get, put, put_all, get-put}

module _ {ℓ κ} {V : Type ℓ} (P : Bytes → V → Type κ) where
  put-holds :
      (i : Bytes) (u : V) (d : List (Bytes × V))
      → P i u
      → ((j : Bytes) (w : V) → get j d ≡ some w → P j w)
      → (j : Bytes) (w : V) → get j (put i u d) ≡ some w
      → P j w
  put-holds i u d p held j w there =
      let split = sym (get-put i j u d) ∙ there in
      elim (Bool-cases (bytes_eq i j)) [
        | inl here ↦
            let e : some u ≡ some w = rw here at split in
            subst (λ x. P x w) (bytes_eq→eq i j here) (subst (λ x. P i x) (cc) p)
        | inr elsewhere ↦ held j w (rw elsewhere at split)
      ]

  pub get-put_all :
      (items d : List (Bytes × V)) (k : Bytes) {v : V}
      → All (λ item. P item.0 item.1) items
      → ((j : Bytes) (w : V) → get j d ≡ some w → P j w)
      → get k (put_all items d) ≡ some v
      → P k v
  unfolding put_all
  get-put_all [] d k h held found = held k _ found
  get-put_all ((i, u) ∷ items) d k (p, h) held found =
      get-put_all items (put i u d) k h (λ j w there. put-holds i u d p held j w there) found

module _ {ℓ} {V : Type ℓ} where
  abbrev pub is_there : Option V → Bool
  is_there none = false
  is_there (some v) = true

  -- A key of the items is a key of the dictionary.
  pub get-put_all-mem :
      (items d : List (Bytes × V)) (k : Bytes)
      → (mem k (map (λ item. item.0) items) || is_there (get k d)) ≡ true
      → is_there (get k (put_all items d)) ≡ true
  unfolding put_all
  get-put_all-mem [] d k h = ground arith
  get-put_all-mem ((i, u) ∷ items) d k h =
      get-put_all-mem items (put i u d) k (rw (get-put i k u d) (ground arith))

module _ {ℓ κ} {V : Type ℓ} {W : Type κ} (g : V → W) where
  abbrev pub mapped : Option V → Option W
  mapped none = none
  mapped (some v) = some (g v)

  put-map :
      (i : Bytes) (v : V) (d : List (Bytes × W)) (e : List (Bytes × V))
      → ((j : Bytes) → get j d ≡ mapped (get j e))
      → (j : Bytes) → get j (put i (g v) d) ≡ mapped (get j (put i v e))
  put-map i v d e h j =
      rw (get-put i j (g v) d, get-put i j v e)
        (elim (Bool-cases (bytes_eq i j)) [
          | inl here ↦ rw here refl
          | inr elsewhere ↦ rw elsewhere (h j)
        ])

  -- Two dictionaries with the same keys, of values and of what `g` makes of them.
  pub get-put_all-map :
      (name : V → Bytes) (vs : List V) (d : List (Bytes × W)) (e : List (Bytes × V))
      → ((j : Bytes) → get j d ≡ mapped (get j e))
      → (k : Bytes)
      → get k (put_all (map (λ v. (name v, g v)) vs) d)
        ≡ mapped (get k (put_all (map (λ v. (name v, v)) vs) e))
  unfolding put_all
  get-put_all-map name [] d e h k = h k
  get-put_all-map name (v ∷ vs) d e h k =
      get-put_all-map name vs (put (name v) (g v) d) (put (name v) v e)
        (λ j. put-map (name v) v d e h j) k
