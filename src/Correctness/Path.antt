-- ===== src/Correctness/Path.antt =====
-- `safe_relative_path` of compat/correctness/validate.py.
use ferricov.Base.{
  ℕ, ◌≡◌, refl, sym, ap, ◌∙◌, subst, Bool, true, false, not, ◌&&◌, ◌||◌, List, [], ◌∷◌, ◌++◌,
  if◌then◌else◌, Bool-cases, inl, inr, ◌⊎◌, All, all, arith, ◌==◌, ==→eq, ==→ne, false≢true,
}
use ferricov.Base.Bytes.{
  Bytes, codes, bytes_eq, bytes_eq_refl, bytes_eq→eq, split, split_first, split_none, starts_with,
  Lacks,
}

abbrev pub is_empty_part : Bytes → Bool
is_empty_part p = bytes_eq p [] || bytes_eq p (codes ".")

-- The parts that PurePosixPath keeps of a relative path: neither empty ones nor single dots.
unfoldable pub parts_of : List Bytes → List Bytes
parts_of [] = []
parts_of (p ∷ ps) = if is_empty_part p then parts_of ps else p ∷ parts_of ps

unfoldable pub parts : Bytes → List Bytes
unfolding parts_of
parts value = parts_of (split b'/' value)

-- sep.join(parts)
unfoldable pub join : ℕ → List Bytes → Bytes
join sep [] = []
join sep (p ∷ []) = p
join sep (p ∷ q ∷ ps) = p ++ sep ∷ join sep (q ∷ ps)

abbrev or_dot : List Bytes → Bytes
or_dot [] = codes "."
or_dot (p ∷ ps) = join b'/' (p ∷ ps)

-- PurePosixPath(value).as_posix(), for a value that is not absolute
unfoldable pub as_posix : Bytes → Bytes
as_posix value = or_dot (parts value)

-- `part not in {"", ".", ".."}`
abbrev pub is_step : Bytes → Bool
is_step p = not (bytes_eq p []) && (not (bytes_eq p (codes ".")) && not (bytes_eq p (codes "..")))

unfoldable pub safe_relative_path : Bytes → Bool
unfolding as_posix starts_with bytes_eq
safe_relative_path value =
    not (starts_with (codes "/") value)
    && (bytes_eq value (as_posix value) && all is_step (parts value))

split-cons : (sep : ℕ) (v : Bytes) → (p : Bytes) × (ps : List Bytes) × (split sep v ≡ p ∷ ps)
unfolding split
split-cons sep [] = ([], [], refl)
split-cons sep (c ∷ v) =
    let (p, ps, e) = split-cons sep v in
    elim (Bool-cases (c == sep)) [
      | inl cut ↦ rw cut ([], split sep v, refl)
      | inr keep ↦ rw (keep, e) (c ∷ p, ps, refl)
    ]

join-cons_head :
    (sep c : ℕ) (p : Bytes) (ps : List Bytes) → join sep ((c ∷ p) ∷ ps) ≡ c ∷ join sep (p ∷ ps)
unfolding join
join-cons_head sep c p [] = refl
join-cons_head sep c p (q ∷ ps) = refl

pub join-split : (sep : ℕ) (v : Bytes) → join sep (split sep v) ≡ v
unfolding split join
join-split sep [] = refl
join-split sep (c ∷ v) =
    let (p, ps, e) = split-cons sep v in
    let rest : join sep (p ∷ ps) ≡ v = ap (join sep) (sym e) ∙ join-split sep v in
    elim (Bool-cases (c == sep)) [
      | inl cut ↦ rw (cut, e) (rw (==→eq c sep cut) (ap (λ w. sep ∷ w) rest))
      | inr keep ↦ rw (keep, e) (join-cons_head sep c p ps ∙ ap (λ w. c ∷ w) rest)
    ]

split-join :
    (sep : ℕ) (p : Bytes) (ps : List Bytes)
    → All (Lacks sep) (p ∷ ps)
    → split sep (join sep (p ∷ ps)) ≡ p ∷ ps
unfolding join
split-join sep p [] (h, _) = split_none sep p h
split-join sep p (q ∷ ps) (h, hs) =
    split_first sep p (join sep (q ∷ ps)) h ∙ ap (λ qs. p ∷ qs) (split-join sep q ps hs)

split-Lacks : (sep : ℕ) (v : Bytes) → All (Lacks sep) (split sep v)
unfolding split
split-Lacks sep [] = (tt, tt)
split-Lacks sep (c ∷ v) =
    let (p, ps, e) = split-cons sep v in
    let (h, hs) = subst (All (Lacks sep)) e (split-Lacks sep v) in
    elim (Bool-cases (c == sep)) [
      | inl cut ↦ rw (cut, e) (tt, (h, hs))
      | inr keep ↦ rw (keep, e) ((==→ne c sep keep, h), hs)
    ]

parts_of-All : (P : Bytes → Type 0) (ps : List Bytes) → All P ps → All P (parts_of ps)
unfolding parts_of
parts_of-All P [] h = tt
parts_of-All P (p ∷ ps) (h, hs) = elim (Bool-cases (is_empty_part p)) [
  | inl empty ↦ rw empty (parts_of-All P ps hs)
  | inr full ↦ rw full (h, parts_of-All P ps hs)
]

parts_of_steps : (ps : List Bytes) → all is_step ps ≡ true → parts_of ps ≡ ps
unfolding parts_of
parts_of_steps [] h = refl
parts_of_steps (p ∷ ps) h =
    let full : is_empty_part p ≡ false = ground arith in
    rw full (ap (λ qs. p ∷ qs) (parts_of_steps ps (ground arith)))

List-cases {ℓ} : {A : Type ℓ} (xs : List A) → (xs ≡ []) ⊎ ((x : A) × (ys : List A) × (xs ≡ x ∷ ys))
List-cases [] = inl refl
List-cases (x ∷ ys) = inr (x, ys, refl)

-- A value that its own parts spell is split into them.
spelled :
    (value p : Bytes) (ps : List Bytes)
    → parts value ≡ p ∷ ps
    → value ≡ join b'/' (p ∷ ps)
    → split b'/' value ≡ p ∷ ps
unfolding parts
spelled value p ps e spells =
    ap (split b'/') spells
    ∙ split-join b'/' p ps (
        subst (All (Lacks b'/')) e
          (parts_of-All (Lacks b'/') (split b'/' value) (split-Lacks b'/' value)))

-- An absolute value has an empty first part.
not_absolute :
    (value : Bytes) → all is_step (split b'/' value) ≡ true → starts_with (codes "/") value ≡ false
unfolding starts_with split bytes_eq
not_absolute [] h = refl
not_absolute (c ∷ v) h = elim (Bool-cases (b'/' == c)) [
  | inl slash ↦ absurd (
      false≢true
        (subst (λ d. all is_step (split b'/' (d ∷ v)) ≡ true) (sym (==→eq b'/' c slash)) h))
  | inr other ↦ rw other refl
]

or_dot-split : (value : Bytes) → or_dot (split b'/' value) ≡ value
or_dot-split value =
    let (p, ps, e) = split-cons b'/' value in
    ap or_dot e ∙ (ap (join b'/') (sym e) ∙ join-split b'/' value)

-- A path is safe when no part between its slashes is empty, a single dot or a double dot.
pub safe_relative_path-steps :
    (value : Bytes) → all is_step (split b'/' value) ≡ true → safe_relative_path value ≡ true
unfolding safe_relative_path as_posix parts
safe_relative_path-steps value h =
    rw
      (
        not_absolute value h,
        parts_of_steps (split b'/' value) h,
        or_dot-split value,
        bytes_eq_refl value,
      )
      h

posix-safe :
    (value : Bytes)
    → safe_relative_path value ≡ true
    → (value ≡ or_dot (parts value)) × (all is_step (parts value) ≡ true)
unfolding safe_relative_path as_posix
posix-safe value h = (bytes_eq→eq value (or_dot (parts value)) (ground arith), ground arith)

-- A path that `safe_relative_path` accepts is a single dot, or no part between its slashes is empty, a
-- single dot or a double dot.
pub steps-safe_relative_path :
    (value : Bytes)
    → safe_relative_path value ≡ true
    → (value ≡ codes ".") ⊎ (all is_step (split b'/' value) ≡ true)
steps-safe_relative_path value h =
    let (spells, steps) = posix-safe value h in
    elim (List-cases (parts value)) [
      | inl e ↦ inl (spells ∙ ap or_dot e)
      | inr (p, ps, e) ↦
          inr (ap (all is_step) (spelled value p ps e (spells ∙ ap or_dot e) ∙ sym e) ∙ steps)
    ]
