-- ===== src/Replace/Keeps.antt =====
-- What both phases of `commit_replace_targets` keep, whatever raises in them.
use ferricov.Base.{
  ◌≡◌, refl, ◌∙◌, subst, Bool, true, false, ◌||◌, List, [], ◌∷◌, ◌++◌, Option, none, map, All,
  arith,
}
use ferricov.Base.{map-append}
use ferricov.Base.Bytes.{Bytes, bytes_eq, bytes_eq_sym, mem, Distinct}
use ferricov.Replace.Store.{Node, Move, Store, write, write_other}
use ferricov.Replace.Commit.{Step, Ran, went, raised, ◌then_run◌, drop_backup, roll_back, settle}
use ferricov.Replace.Rollback.{name_of, final_of, names_of, finals_of, IsHeld}

abbrev pub srcs : List Move → List Bytes
srcs = map (λ m. m.src)

abbrev pub finals : List Move → List Bytes
finals = map (λ m. m.final)

abbrev pub names : List Move → List Bytes
names = map (λ m. m.name)

-- `P` holds of the state a run returns in, and `R` of the state it raises in.
abbrev pub Ends : (Store → Type 0) → (Store → Type 0) → Ran → Type 0
Ends P R (went s) = P s
Ends P R (raised e s) = R s

module _ (P Q R : Store → Type 0) where
  pub Ends-both : (r : Ran) → Ends P R r → Ends Q R r → Ends (λ s. P s × Q s) R r
  Ends-both (went s) p q = (p, q)
  Ends-both (raised e s) p q = p

pub Ends-trivial : (r : Ran) → Ends (λ s. Unit {0}) (λ s. Unit {0}) r
Ends-trivial (went s) = tt
Ends-trivial (raised e s) = tt

pub Ends-map :
    (P Q R : Store → Type 0) (r : Ran)
    → ((s : Store) → P s → Q s)
    → Ends P R r
    → Ends Q (λ s. Unit {0}) r
Ends-map P Q R (went s) f h = f s h
Ends-map P Q R (raised e s) f h = tt

pub Ends-lift :
    (P Q R S : Store → Type 0) (r : Ran)
    → ((s : Store) → P s → Q s)
    → ((s : Store) → R s → S s)
    → Ends P R r
    → Ends Q S r
Ends-lift P Q R S (went s) f g h = f s h
Ends-lift P Q R S (raised e s) f g h = g s h

pub Ends-zip :
    (P Q S R T : Store → Type 0) (r : Ran)
    → ((s : Store) → P s → Q s → S s)
    → Ends P R r
    → Ends Q T r
    → Ends S R r
Ends-zip P Q S R T (went s) f p q = f s p q
Ends-zip P Q S R T (raised e s) f p q = p

pub Ends-then_run :
    (P Q R : Store → Type 0) (r : Ran) (k : Store → Ran)
    → Ends P R r
    → ((t : Store) → P t → Ends Q R (k t))
    → Ends Q R (r then_run k)
Ends-then_run P Q R (went s) k h next = next s h
Ends-then_run P Q R (raised e s) k h next = h

module _ (P R : Store → Type 0) where
  pub Ends-settle :
      (raises : Step → Bool) (r : Ran)
      → Ends (λ s. P (drop_backup s)) (λ s. R (roll_back raises s)) r
      → Ends P R (settle raises r)
  Ends-settle raises (went s) h = h
  Ends-settle raises (raised e s) h = h

  pub Ends-went : (r : Ran) (t : Store) → Ends P R r → r ≡ went t → P t
  Ends-went r t h e = subst (Ends P R) e h

  pub Ends-raised : (r : Ran) (step : Step) (t : Store) → Ends P R r → r ≡ raised step t → R t
  Ends-raised r step t h e = subst (Ends P R) e h

-- Against the files the run began with (`old`), for paths that are not staged sources (`staged`).
pub record IsKept (old : Bytes → Option Node) (staged : List Bytes) (s : Store) : Type 0 where
  pub held : IsHeld old s s.backed
  pub free : (name : Bytes) → mem name (names_of s.backed) ≡ false → s.kept name ≡ none
  pub same :
      (p : Bytes)
      → mem p staged ≡ false
      → mem p (finals_of s.backed) ≡ false
      → mem p s.installed ≡ false
      → s.files p ≡ old p
  pub gone :
      (p : Bytes) → mem p (finals_of s.backed) ≡ true → mem p s.installed ≡ false → s.files p ≡ none
  pub new :
      (p : Bytes) → mem p s.installed ≡ true → mem p (finals_of s.backed) ≡ false → old p ≡ none
  pub distinct_names : Distinct (names_of s.backed)
  pub distinct_finals : Distinct (finals_of s.backed)

pub mem-append : (p : Bytes) (ps qs : List Bytes) → mem p (ps ++ qs) ≡ (mem p ps || mem p qs)
mem-append p [] qs = refl
mem-append p (q ∷ ps) qs = ground (arith, mem-append p ps qs)

pub Distinct-snoc :
    (ps : List Bytes) (p : Bytes) → mem p ps ≡ false → Distinct ps → Distinct (ps ++ p ∷ [])
Distinct-snoc [] p fresh d = (refl, tt)
Distinct-snoc (q ∷ ps) p fresh (apart, d) = (
  rw (mem-append q ps (p ∷ [])) rw (bytes_eq_sym p q) ground arith,
  Distinct-snoc ps p (ground arith) d,
)

pub IsHeld-write :
    (old kept : Bytes → Option Node) (name : Bytes) (v : Option Node) (bs : List (Bytes × Bytes))
    → mem name (names_of bs) ≡ false
    → All (λ b. kept (name_of b) ≡ old (final_of b)) bs
    → All (λ b. write name v kept (name_of b) ≡ old (final_of b)) bs
IsHeld-write old kept name v [] fresh h = tt
IsHeld-write old kept name v ((other, q) ∷ bs) fresh (e, h) = (
  write_other name other v kept (rw (bytes_eq_sym name other) ground arith) ∙ e,
  IsHeld-write old kept name v bs (ground arith) h,
)

pub mem-finals_of-snoc :
    (p name final : Bytes) (bs : List (Bytes × Bytes))
    → mem p (finals_of (bs ++ (name, final) ∷ [])) ≡ (mem p (finals_of bs) || bytes_eq final p)
mem-finals_of-snoc p name final bs =
    rw (map-append final_of bs ((name, final) ∷ []), mem-append p (finals_of bs) (final ∷ []))
      ground arith

pub mem-names_of-snoc :
    (p name final : Bytes) (bs : List (Bytes × Bytes))
    → mem p (names_of (bs ++ (name, final) ∷ [])) ≡ (mem p (names_of bs) || bytes_eq name p)
mem-names_of-snoc p name final bs =
    rw (map-append name_of bs ((name, final) ∷ []), mem-append p (names_of bs) (name ∷ [])) ground
      arith
