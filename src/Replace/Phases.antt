-- ===== src/Replace/Phases.antt =====
-- The two phases of `commit_replace_targets` one after the other, from the files as they are.
use ferricov.Base.{◌≡◌, refl, Bool, true, false, List, [], ◌∷◌, Option, none, All, arith}
use ferricov.Base.Bytes.{Bytes, bytes_eq_refl, mem, Distinct}
use ferricov.Replace.Store.{Node, Move, Store}
use ferricov.Replace.Commit.{Step, Ran, ◌then_run◌, back_up_all, install_all, entered}
use ferricov.Replace.Keeps.{srcs, finals, names, Ends, Ends-zip, Ends-then_run, IsKept}
use ferricov.Replace.BackUp.{IsFresh, back_up_all-IsKept, back_up_all-vacates}
use ferricov.Replace.Install.{install_all-IsKept}
use ferricov.Replace.Moved.{IsReady}

-- The moves do not get in each other's way: the names, the targets and the staged sources are all different.
pub record IsSeparate (moves : List Move) : Type 0 where
  pub distinct_names : Distinct (names moves)
  pub distinct_finals : Distinct (finals moves)
  pub distinct_srcs : Distinct (srcs moves)
  pub unstaged : All (λ m. mem m.final (srcs moves) ≡ false) moves

entered-IsKept :
    (files : Bytes → Option Node) (staged : List Bytes) → IsKept files staged (entered files)
entered-IsKept files staged = record {
  held = tt;
  free = λ name fresh. refl;
  same = λ p unstaged unbacked missing. refl;
  gone = λ p backed missing. cc;
  new = λ p placed unbacked. cc;
  distinct_names = tt;
  distinct_finals = tt;
}

All-IsFresh :
    (files : Bytes → Option Node) (staged : List Bytes) (ms : List Move)
    → All (λ m. mem m.final staged ≡ false) ms
    → All (IsFresh staged (entered files)) ms
All-IsFresh files staged [] h = tt
All-IsFresh files staged (m ∷ ms) (u, h) =
    (record { fresh_name = refl; fresh_final = refl; unstaged = u }, All-IsFresh files staged ms h)

All-IsReady :
    (t : Store) (staged : List Bytes) (ms : List Move)
    → All (λ m. mem m.final staged ≡ false) ms
    → All (λ m. mem m.src staged ≡ true) ms
    → All (λ m. t.files m.final ≡ none) ms
    → All (IsReady staged t) ms
All-IsReady t staged [] h g e = tt
All-IsReady t staged (m ∷ ms) (u, h) (i, g) (v, e) =
    (record { empty = v; unstaged = u; is_staged = i }, All-IsReady t staged ms h g e)

-- The two phases, before the run is settled.
abbrev pub phases : (Step → Bool) → Bytes → List Move → (Bytes → Option Node) → Ran
phases raises fault moves files =
    back_up_all raises moves (entered files) then_run λ t. install_all raises fault moves t

pub All-srcs :
    (Q : Bytes → Type 0) (ms : List Move)
    → ((p : Bytes) → mem p (srcs ms) ≡ true → Q p)
    → All (λ m. Q m.src) ms
All-srcs Q [] h = tt
All-srcs Q (m ∷ ms) h =
    (h m.src (rw (bytes_eq_refl m.src) refl), All-srcs Q ms (λ q here. h q (rw here ground arith)))

module _ (raises : Step → Bool) (fault : Bytes) (moves : List Move) (files : Bytes → Option Node)
    (apart : IsSeparate moves) where
  abbrev pub Kept : Store → Type 0
  Kept t = IsKept files (srcs moves) t

  abbrev pub Ready : Store → Type 0
  Ready t = All (IsReady (srcs moves) t) moves

  abbrev Vacated : Store → Type 0
  Vacated t = All (λ m. t.files m.final ≡ none) moves

  pub backed_up : Ends (λ t. Kept t × Ready t) Kept (back_up_all raises moves (entered files))
  backed_up =
      Ends-zip Kept Vacated (λ t. Kept t × Ready t) Kept (λ t. Unit {0})
        (back_up_all raises moves (entered files))
        (λ t k v. (
          k,
          All-IsReady t (srcs moves) moves apart.unstaged
              (All-srcs (λ p. mem p (srcs moves) ≡ true) moves (λ p here. here)) v,
        ))
        (back_up_all-IsKept raises files (srcs moves) moves (entered files)
          (entered-IsKept files (srcs moves)) refl
          (All-IsFresh files (srcs moves) moves apart.unstaged) apart.distinct_names
          apart.distinct_finals)
        (back_up_all-vacates raises moves (entered files))

  pub phases-IsKept : Ends (λ t. Unit {0}) Kept (phases raises fault moves files)
  phases-IsKept =
      Ends-then_run (λ t. Kept t × Ready t) (λ t. Unit {0}) Kept
        (back_up_all raises moves (entered files)) (λ t. install_all raises fault moves t) backed_up
        (λ t (k, ready).
          install_all-IsKept raises fault files (srcs moves) moves t k ready apart.distinct_finals)
