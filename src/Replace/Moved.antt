-- ===== src/Replace/Moved.antt =====
-- The state after one move of phase 2.
use ferricov.Base.{
  ◌≡◌, refl, sym, ap, ◌∙◌, subst, true, false, List, [], ◌∷◌, Option, none, some, Bool-cases, inl,
  inr, All, arith, false≢true,
}
use ferricov.Base.Bytes.{Bytes, bytes_eq, bytes_eq_refl, bytes_eq→eq, bytes_eq_sym, mem}
use ferricov.Replace.Store.{Node, landed, Move, Store, write, write_other, write-none}
use ferricov.Replace.Rollback.{finals_of}
use ferricov.Replace.Keeps.{srcs, finals, IsKept}

-- The state after `m` is installed.
abbrev pub moved_in : Move → Store → Node → Store
moved_in m s n = record s {
  files = write m.src none (write m.final (some (landed n (s.files m.final))) s.files);
  installed = m.final ∷ s.installed;
}

module _ (m : Move) (s : Store) (n : Node) where
  pub moved_in-other :
      (p : Bytes)
      → bytes_eq m.src p ≡ false
      → bytes_eq m.final p ≡ false
      → (moved_in m s n).files p ≡ s.files p
  unfolding write
  moved_in-other p from to = rw (from, to) refl

  pub moved_in-final :
      bytes_eq m.src m.final ≡ false
      → s.files m.final ≡ none
      → (moved_in m s n).files m.final ≡ some n
  unfolding write landed
  moved_in-final apart empty = rw (apart, bytes_eq_refl m.final, empty) refl

  pub moved_in-empty :
      (p : Bytes) → bytes_eq m.final p ≡ false → s.files p ≡ none → (moved_in m s n).files p ≡ none
  moved_in-empty p apart empty =
      write-none m.src p (write m.final (some (landed n (s.files m.final))) s.files)
        (write_other m.final p (some (landed n (s.files m.final))) s.files apart ∙ empty)

-- A staged path is none of the others.
pub mem_apart :
    (p q : Bytes) (ps : List Bytes) → mem p ps ≡ true → mem q ps ≡ false → bytes_eq p q ≡ false
mem_apart p q ps here there = elim (Bool-cases (bytes_eq p q)) [
  | inl same ↦
      absurd (false≢true (sym there ∙ ap (λ r. mem r ps) (sym (bytes_eq→eq p q same)) ∙ here))
  | inr differ ↦ differ
]

-- What phase 2 needs of a move.
pub record IsReady (staged : List Bytes) (s : Store) (m : Move) : Type 0 where
  pub empty : s.files m.final ≡ none
  pub unstaged : mem m.final staged ≡ false
  pub is_staged : mem m.src staged ≡ true

module _ (old : Bytes → Option Node) (staged : List Bytes) (m : Move) (s : Store)
    (k : IsKept old staged s) (r : IsReady staged s m) (n : Node) where
  moved_in-new :
      (p : Bytes)
      → mem p (m.final ∷ s.installed) ≡ true
      → mem p (finals_of s.backed) ≡ false
      → old p ≡ none
  moved_in-new p here unbacked = elim (Bool-cases (mem p s.installed)) [
    | inl before ↦ k.new p before unbacked
    | inr first ↦
        let at : m.final ≡ p = bytes_eq→eq m.final p (ground arith) in
        sym (k.same p (subst (λ q. mem q staged ≡ false) at r.unstaged) unbacked first)
        ∙ subst (λ q. s.files q ≡ none) at r.empty
  ]

  pub moved_in-IsKept : IsKept old staged (moved_in m s n)
  moved_in-IsKept = record {
    held = k.held;
    free = k.free;
    same = λ p unstaged unbacked missing.
        moved_in-other m s n p (mem_apart m.src p staged r.is_staged unstaged) (ground arith)
        ∙ k.same p unstaged unbacked (ground arith);
    gone =
        λ p backed missing. moved_in-empty m s n p (ground arith) (k.gone p backed (ground arith));
    new = moved_in-new;
    distinct_names = k.distinct_names;
    distinct_finals = k.distinct_finals;
  }

pub IsReady-rest :
    (staged : List Bytes) (m : Move) (s : Store) (n : Node) (ms : List Move)
    → mem m.final (finals ms) ≡ false
    → All (IsReady staged s) ms
    → All (IsReady staged (moved_in m s n)) ms
IsReady-rest staged m s n [] apart h = tt
IsReady-rest staged m s n (o ∷ ms) apart (r, h) = (
  record {
    empty = moved_in-empty m s n o.final (rw (bytes_eq_sym m.final o.final) ground arith) r.empty;
    unstaged = r.unstaged;
    is_staged = r.is_staged;
  },
  IsReady-rest staged m s n ms (ground arith) h,
)

-- No staged source is a path outside the staged ones.
pub srcs_apart :
    (staged : List Bytes) (s : Store) (p : Bytes) (ms : List Move)
    → mem p staged ≡ false
    → All (IsReady staged s) ms
    → mem p (srcs ms) ≡ false
srcs_apart staged s p [] there ready = refl
srcs_apart staged s p (m ∷ ms) there (r, ready) =
    rw (mem_apart m.src p staged r.is_staged there) (srcs_apart staged s p ms there ready)

-- What lands from the later sources is what they held before `m` was installed.
pub landed_before :
    (staged : List Bytes) (m : Move) (s t : Store) (n : Node) (ms : List Move)
    → mem m.final staged ≡ false
    → mem m.src (srcs ms) ≡ false
    → All (IsReady staged s) ms
    → All (λ o. t.files o.final ≡ (moved_in m s n).files o.src) ms
    → All (λ o. t.files o.final ≡ s.files o.src) ms
landed_before staged m s t n [] there apart ready h = tt
landed_before staged m s t n (o ∷ ms) there apart (r, ready) (e, h) = (
  e
      ∙ moved_in-other m s n o.src (rw (bytes_eq_sym m.src o.src) ground arith)
          (rw (bytes_eq_sym m.final o.src) (mem_apart o.src m.final staged r.is_staged there)),
  landed_before staged m s t n ms there (ground arith) ready h,
)
