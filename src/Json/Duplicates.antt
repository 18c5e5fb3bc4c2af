-- ===== src/Json/Duplicates.antt =====
-- What `reject_duplicate_json_keys` accepts, and what it makes of it.
use ferricov.Base.{
  ◌≡◌, refl, sym, ap, ◌∙◌, subst, Bool, true, false, ◌||◌, Option, none, some, ok, err, List, [],
  ◌∷◌, map, if◌then◌else◌, Bool-cases, inl, inr, arith, false≢true,
}
use ferricov.Base.Bytes.{Bytes, bytes_eq, bytes_eq_sym, mem, Distinct}
use ferricov.Json.Value.{Value, Members, no_members, member, get, has}
use ferricov.Json.Equal.{Document, append_member, collect, reject_duplicate_json_keys}

abbrev pub key_of : Bytes × Value → Bytes
key_of (k, v) = k

abbrev pub keys : Document → List Bytes
keys = map key_of

-- The value of the first pair with the key.
abbrev pub first_of : Bytes → Document → Option Value
first_of k [] = none
first_of k ((l, v) ∷ pairs) = if bytes_eq l k then some v else first_of k pairs

abbrev or_else : Option Value → Option Value → Option Value
or_else none o = o
or_else (some v) o = some v

get-append_member :
    (k l : Bytes) (v : Value) (fs : Members)
    → get k (append_member fs l v) ≡ or_else (get k fs) (if bytes_eq l k then some v else none)
unfolding get append_member
get-append_member k l v no_members = refl
get-append_member k l v (member m w fs) = elim (Bool-cases (bytes_eq m k)) [
  | inl same ↦ rw same refl
  | inr differ ↦ rw differ (get-append_member k l v fs)
]

has-append_member :
    (k l : Bytes) (v : Value) (fs : Members)
    → has k (append_member fs l v) ≡ (has k fs || bytes_eq l k)
unfolding has append_member
has-append_member k l v no_members = ground arith
has-append_member k l v (member m w fs) = rw (has-append_member k l v fs) ground arith

-- No key of the pairs is in the document yet.
abbrev NoneIn : Members → Document → Type 0
NoneIn fs [] = Unit
NoneIn fs ((k, v) ∷ pairs) = (has k fs ≡ false) × NoneIn fs pairs

NoneIn-append :
    (k : Bytes) (v : Value) (fs : Members) (pairs : Document)
    → mem k (keys pairs) ≡ false
    → NoneIn fs pairs
    → NoneIn (append_member fs k v) pairs
NoneIn-append k v fs [] apart h = tt
NoneIn-append k v fs ((l, w) ∷ pairs) apart (e, h) = (
  has-append_member l k v fs ∙ (rw (e, bytes_eq_sym k l) ground arith),
  NoneIn-append k v fs pairs (ground arith) h,
)

collect-Distinct :
    (fs : Members) (pairs : Document)
    → NoneIn fs pairs
    → Distinct (keys pairs)
    → (gs : Members) × (collect fs pairs ≡ ok gs)
unfolding collect
collect-Distinct fs [] h d = (fs, refl)
collect-Distinct fs ((k, v) ∷ pairs) (e, h) (apart, d) =
    rw e (collect-Distinct (append_member fs k v) pairs (NoneIn-append k v fs pairs apart h) d)

NoneIn-before :
    (k : Bytes) (v : Value) (fs : Members) (pairs : Document)
    → NoneIn (append_member fs k v) pairs
    → NoneIn fs pairs × (mem k (keys pairs) ≡ false)
NoneIn-before k v fs [] h = (tt, refl)
NoneIn-before k v fs ((l, w) ∷ pairs) (e, h) =
    let e' = sym (has-append_member l k v fs) ∙ e in
    let (before, apart) = NoneIn-before k v fs pairs h in
    ((ground arith, before), rw (bytes_eq_sym l k) ground arith)

or_else_if :
    (o p : Option Value) (v : Value) (b : Bool)
    → or_else (or_else o (if b then some v else none)) p ≡ or_else o (if b then some v else p)
or_else_if none p v true = refl
or_else_if none p v false = refl
or_else_if (some w) p v b = refl

or_else-none : (o : Option Value) → or_else o none ≡ o
or_else-none none = refl
or_else-none (some v) = refl

-- The keys are all different when the document is made, and a key reads as its pair.
collect-ok :
    (fs : Members) (pairs : Document) (gs : Members)
    → collect fs pairs ≡ ok gs
    → NoneIn fs pairs
      × Distinct (keys pairs)
      × ((k : Bytes) → get k gs ≡ or_else (get k fs) (first_of k pairs))
unfolding collect
collect-ok fs [] gs h =
    let same : fs ≡ gs = (cc) in
    (tt, tt, λ k. sym (ap (get k) same) ∙ sym (or_else-none (get k fs)))
collect-ok fs ((k, v) ∷ pairs) gs h = elim (Bool-cases (has k fs)) [
  | inl there ↦ absurd (false≢true (cc))
  | inr new ↦
      let (none_in, distinct, reads) = collect-ok (append_member fs k v) pairs gs (later new) in
      let (before, apart) = NoneIn-before k v fs pairs none_in in
      (
        (new, before),
        (apart, distinct),
        λ q.
            reads q
            ∙ (rw (get-append_member q k v fs)
                (or_else_if (get q fs) (first_of q pairs) v (bytes_eq k q))),
      )
]
  where
    later : has k fs ≡ false → collect (append_member fs k v) pairs ≡ ok gs
    later new =
        subst (λ b. (if b then err k else collect (append_member fs k v) pairs) ≡ ok gs) new h

none_yet : (pairs : Document) → NoneIn no_members pairs
unfolding has
none_yet [] = tt
none_yet ((k, v) ∷ pairs) = (refl, none_yet pairs)

-- `reject_duplicate_json_keys` returns a document for pairs whose keys are all different.
pub reject_duplicate_json_keys-Distinct :
    (pairs : Document)
    → Distinct (keys pairs)
    → (gs : Members) × (reject_duplicate_json_keys pairs ≡ ok gs)
unfolding reject_duplicate_json_keys
reject_duplicate_json_keys-Distinct pairs distinct =
    collect-Distinct no_members pairs (none_yet pairs) distinct

-- When `reject_duplicate_json_keys` returns a document, the keys of the pairs are all different, and every
-- key of the document reads as the first pair that has it, or as absent when no pair has it.
pub reject_duplicate_json_keys-ok :
    (pairs : Document) (gs : Members)
    → reject_duplicate_json_keys pairs ≡ ok gs
    → Distinct (keys pairs) × ((k : Bytes) → get k gs ≡ first_of k pairs)
unfolding reject_duplicate_json_keys get
reject_duplicate_json_keys-ok pairs gs h =
    let (_, distinct, reads) = collect-ok no_members pairs gs h in (distinct, reads)
