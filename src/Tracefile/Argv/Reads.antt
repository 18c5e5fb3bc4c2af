-- ===== src/Tracefile/Argv/Reads.antt =====
-- The command lines that `semantic_inputs_from_argv` reads.
use ferricov.Base.{
  ◌≡◌, refl, sym, ap, ◌∙◌, subst, Bool, true, false, not, ◌&&◌, List, [], ◌∷◌, ◌++◌, Option, some,
  ok, ◌>>◌, require, >>=-eq-ok, >>-eq-ok, require-eq-ok, All, arith,
}
use ferricov.Base.Bytes.{Bytes, codes, bytes_eq, bytes_eq→eq, mem, starts_with}
use ferricov.Base.Same.{same_refl, bytes_same, list_same}
use ferricov.Json.Value.{Value, string, array, Items, no_items, item, Members, get, has}
use ferricov.Tracefile.Argv

-- What stands between the inspector and its inputs: options with values, and plain inputs.
pub data Word : Type 0 where
  option : Bytes → Bytes → Word
  plain : Bytes → Word

abbrev pub IsWord : Word → Type 0
IsWord (option name value) = mem name Argv.value_options ≡ true
IsWord (plain input) =
    (mem input Argv.value_options ≡ false) × (starts_with (codes "-") input ≡ false)

abbrev pub spell : List Word → List Bytes → List Bytes
spell [] last = last
spell (option name value ∷ words) last = name ∷ value ∷ spell words last
spell (plain input ∷ words) last = input ∷ spell words last

abbrev pub inputs_of : List Word → List Bytes → List Bytes
inputs_of [] last = last
inputs_of (option name value ∷ words) last = inputs_of words last
inputs_of (plain input ∷ words) last = input ∷ inputs_of words last

not_dashes :
    (input : Bytes) → starts_with (codes "-") input ≡ false → bytes_eq input (codes "--") ≡ false
unfolding starts_with bytes_eq
not_dashes [] h = refl
not_dashes (c ∷ s) h = ground arith

spell-cons :
    (words : List Word) (w : Bytes) (last : List Bytes)
    → (x : Bytes) × (xs : List Bytes) × (spell words (w ∷ last) ≡ x ∷ xs)
spell-cons [] w last = (w, last, refl)
spell-cons (option name value ∷ words) w last = (name, value ∷ spell words (w ∷ last), refl)
spell-cons (plain input ∷ words) w last = (input, spell words (w ∷ last), refl)

-- The words, then `--`, then any inputs.
scan-spell :
    (words : List Word) (last : List Bytes)
    → All IsWord words
    → Argv.scan (spell words (codes "--" ∷ last)) ≡ ok (inputs_of words last)
unfolding Argv.scan
scan-spell [] [] h = refl
scan-spell [] (i ∷ last) h = refl
scan-spell (option name value ∷ words) last (e, h) = rw e (scan-spell words last h)
scan-spell (plain input ∷ words) last ((e, d), h) =
    let (x, xs, cons) = spell-cons words (codes "--") last in
    let rest : Argv.scan (x ∷ xs) ≡ ok (inputs_of words last) =
      ap Argv.scan (sym cons) ∙ scan-spell words last h in
    rw (cons, e, not_dashes input d, d, rest) refl

-- An inspector command line of options with values and plain inputs, then `--` and any further inputs, is
-- read as its inputs in order, where there is at least one.
pub semantic_inputs_from_argv-spell :
    (words : List Word) (last : List Bytes)
    → All IsWord words
    → Argv.nonempty (inputs_of words last) ≡ true
    → Argv.semantic_inputs_from_argv (Argv.inspector ++ spell words (codes "--" ∷ last))
      ≡ ok (inputs_of words last)
unfolding Argv.semantic_inputs_from_argv
semantic_inputs_from_argv-spell words last h some_input =
    rw (same_refl Argv.inspector, scan-spell words last h, some_input) refl

pub data AreStrings : List Bytes → Items → Type 0 where
  no_strings : AreStrings [] no_items
  one_more :
      (s : Bytes) (ss : List Bytes) (vs : Items)
      → AreStrings ss vs
      → AreStrings (s ∷ ss) (item (string s) vs)

abbrev pub is_single : List Bytes → Bool
is_single (s ∷ []) = true
is_single _ = false

-- A document names its inputs: a single one as "input", several as "inputs", in order.
pub data Names (document : Members) : List Bytes → Type 0 where
  single :
      (s : Bytes)
      → get (codes "input") document ≡ some (string s)
      → has (codes "inputs") document ≡ false
      → Names document (s ∷ [])
  several :
      (ss : List Bytes) (vs : Items)
      → is_single ss ≡ false
      → get (codes "inputs") document ≡ some (array vs)
      → AreStrings ss vs
      → has (codes "input") document ≡ false
      → Names document ss

is_text-string : (s : Bytes) (o : Option Value) → Argv.is_text s o ≡ true → o ≡ some (string s)
unfolding Argv.is_text
is_text-string s (some (string t)) h = ap (λ t. some (string t)) (bytes_eq→eq t s h)
is_text-string s _ h = cc

items_are-AreStrings :
    (ss : List Bytes) (vs : Items) → Argv.items_are ss vs ≡ true → AreStrings ss vs
unfolding Argv.items_are Argv.is_text
items_are-AreStrings [] no_items h = no_strings
items_are-AreStrings (s ∷ ss) (item (string t) vs) h =
    subst (λ t. AreStrings (s ∷ ss) (item (string t) vs)) (sym (bytes_eq→eq t s (ground arith)))
      (one_more s ss vs (items_are-AreStrings ss vs (ground arith)))
items_are-AreStrings _ _ h = cc

is_texts-AreStrings :
    (ss : List Bytes) (o : Option Value)
    → Argv.is_texts ss o ≡ true
    → (vs : Items) × (o ≡ some (array vs)) × AreStrings ss vs
unfolding Argv.is_texts
is_texts-AreStrings ss (some (array vs)) h = (vs, refl, items_are-AreStrings ss vs h)
is_texts-AreStrings ss _ h = cc

several-Names :
    (ss : List Bytes) (document : Members)
    → is_single ss ≡ false
    → (require
          (has (codes "inputs") document && not (has (codes "input") document))
          Argv.many_use_input
        >> require (Argv.is_texts ss (get (codes "inputs") document)) Argv.inputs_drift)
      ≡ ok tt
    → Names document ss
several-Names ss document many h =
    let (h1, h2) =
      >>-eq-ok
        (require (has (codes "inputs") document && not (has (codes "input") document))
          Argv.many_use_input)
        _ h in
    let keyed =
      require-eq-ok (has (codes "inputs") document && not (has (codes "input") document))
        Argv.many_use_input h1 in
    let (vs, found, strings) =
      is_texts-AreStrings ss (get (codes "inputs") document)
        (require-eq-ok (Argv.is_texts ss (get (codes "inputs") document)) Argv.inputs_drift h2) in
    several ss vs many found strings (ground arith)

check_identity-Names :
    (inputs : List Bytes) (document : Members)
    → Argv.check_identity inputs document ≡ ok tt
    → Names document inputs
unfolding Argv.check_identity
check_identity-Names [] document h = several-Names [] document refl h
check_identity-Names (s ∷ t ∷ ss) document h = several-Names (s ∷ t ∷ ss) document refl h
check_identity-Names (s ∷ []) document h =
    let (h1, h2) =
      >>-eq-ok
        (require (has (codes "input") document && not (has (codes "inputs") document))
          Argv.single_uses_inputs)
        _ h in
    let keyed =
      require-eq-ok (has (codes "input") document && not (has (codes "inputs") document))
        Argv.single_uses_inputs h1 in
    single s
      (is_text-string s (get (codes "input") document)
        (require-eq-ok (Argv.is_text s (get (codes "input") document)) Argv.input_drift h2))
      (ground arith)

-- A document that `validate_semantic_input_identity` accepts names the inputs that are read from argv: a
-- single one under "input" and without "inputs", several as the list under "inputs" and without "input".
pub validate_semantic_input_identity-Names :
    (argv : List Bytes) (document : Members)
    → Argv.validate_semantic_input_identity argv document ≡ ok tt
    → (inputs : List Bytes) × (Argv.semantic_inputs_from_argv argv ≡ ok inputs)
      × Names document inputs
unfolding Argv.validate_semantic_input_identity
validate_semantic_input_identity-Names argv document h =
    let (inputs, e, h1) = >>=-eq-ok (Argv.semantic_inputs_from_argv argv) _ h in
    let (_, h2) =
      >>-eq-ok
        (require (Argv.differ (has (codes "input") document) (has (codes "inputs") document))
          Argv.both_or_neither)
        _ h1 in
    (inputs, e, check_identity-Names inputs document h2)
