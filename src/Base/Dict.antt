-- ===== src/Base/Dict.antt =====
-- Python's dictionaries with string keys, in insertion order, and `sorted` on strings.
pub mod Items
use Prim.Native.Nat.{suc}
use mathlib.Core.Path.{◌≡◌, refl, ap, ◌∙◌}
use mathlib.Core.Bool.{◌||◌}
use mathlib.Core.Option.{Option, none, some}
use mathlib.Core.Logic.{inl, inr}
use mathlib.Core.List.{List, [], ◌∷◌}
use native.Mathlib.Omega.{arith}
use ferricov.Base.Tests.{if◌then◌else◌, Bool-cases}
use ferricov.Base.Bytes.{Bytes, bytes_eq, bytes_eq_refl, bytes_eq→eq, mem}
use ferricov.Base.Lists.{All, length}
use ferricov.Base.Order.{bytes_lt}

module _ {ℓ} {V : Type ℓ} where
  -- `d.get(k)`
  unfoldable pub get : Bytes → List (Bytes × V) → Option V
  get k [] = none
  get k ((j, v) ∷ d) = if bytes_eq j k then some v else get k d

  -- `d[k] = v`; a key that is there keeps its place
  unfoldable pub put : Bytes → V → List (Bytes × V) → List (Bytes × V)
  put k v [] = (k, v) ∷ []
  put k v ((j, w) ∷ d) = if bytes_eq j k then (j, v) ∷ d else (j, w) ∷ put k v d

  unfoldable pub put_all : List (Bytes × V) → List (Bytes × V) → List (Bytes × V)
  put_all [] d = d
  put_all ((k, v) ∷ items) d = put_all items (put k v d)

  -- `{k: v for k, v in items}`
  abbrev pub dict_of : List (Bytes × V) → List (Bytes × V)
  dict_of items = put_all items []

  pub get-put :
      (k j : Bytes) (v : V) (d : List (Bytes × V))
      → get j (put k v d) ≡ (if bytes_eq k j then some v else get j d)
  unfolding get put
  get-put k j v [] = refl
  get-put k j v ((i, w) ∷ d) = ground (
    arith,
    get-put k j v d,
    bytes_eq→eq i k,
    bytes_eq→eq i j,
    bytes_eq→eq k j,
    bytes_eq_refl k,
    bytes_eq_refl j,
  )

-- `sorted`, by insertion
unfoldable pub insert_sorted : Bytes → List Bytes → List Bytes
insert_sorted s [] = s ∷ []
insert_sorted s (t ∷ ts) = if bytes_lt t s then t ∷ insert_sorted s ts else s ∷ t ∷ ts

unfoldable pub sorted : List Bytes → List Bytes
unfolding insert_sorted
sorted [] = []
sorted (s ∷ ss) = insert_sorted s (sorted ss)

length-insert_sorted : (s : Bytes) (ts : List Bytes) → length (insert_sorted s ts) ≡ suc (length ts)
unfolding insert_sorted
length-insert_sorted s [] = refl
length-insert_sorted s (t ∷ ts) = ground (arith, length-insert_sorted s ts)

pub length-sorted : (ss : List Bytes) → length (sorted ss) ≡ length ss
unfolding sorted
length-sorted [] = refl
length-sorted (s ∷ ss) = length-insert_sorted s (sorted ss) ∙ ap suc (length-sorted ss)

module _ {κ} (P : Bytes → Type κ) where
  All-insert_sorted : (s : Bytes) (ts : List Bytes) → P s → All P ts → All P (insert_sorted s ts)
  unfolding insert_sorted
  All-insert_sorted s [] p h = (p, tt)
  All-insert_sorted s (t ∷ ts) p (q, h) = elim (Bool-cases (bytes_lt t s)) [
    | inl later ↦ rw later (q, All-insert_sorted s ts p h)
    | inr here ↦ rw here (p, (q, h))
  ]

  pub All-sorted : (ss : List Bytes) → All P ss → All P (sorted ss)
  unfolding sorted
  All-sorted [] h = tt
  All-sorted (s ∷ ss) (p, h) = All-insert_sorted s (sorted ss) p (All-sorted ss h)

mem-insert_sorted :
    (j s : Bytes) (ts : List Bytes) → mem j (insert_sorted s ts) ≡ (bytes_eq s j || mem j ts)
unfolding insert_sorted
mem-insert_sorted j s [] = refl
mem-insert_sorted j s (t ∷ ts) = ground (arith, mem-insert_sorted j s ts)

pub mem-sorted : (j : Bytes) (ss : List Bytes) → mem j (sorted ss) ≡ mem j ss
unfolding sorted
mem-sorted j [] = refl
mem-sorted j (s ∷ ss) =
    mem-insert_sorted j s (sorted ss) ∙ ap (λ b. bytes_eq s j || b) (mem-sorted j ss)
