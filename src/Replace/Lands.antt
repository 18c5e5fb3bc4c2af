-- ===== src/Replace/Lands.antt =====
-- What `commit_replace_targets` leaves when it returns.
use ferricov.Base.{◌≡◌, refl, Bool, true, false, List, [], ◌∷◌, Option, All}
use ferricov.Base.Bytes.{Bytes, bytes_eq_sym, mem}
use ferricov.Replace.Store.{Node, Move, Store}
use ferricov.Replace.Commit.{Step, Ran, back_up_all, entered}
use ferricov.Replace.Keeps.{srcs, finals, Ends, Ends-both, Ends-trivial, Ends-map, IsKept}
use ferricov.Replace.BackUp.{back_up_all-other}
use ferricov.Replace.Moved.{IsReady, mem_apart}
use ferricov.Replace.Phases.{IsSeparate, backed_up, All-srcs}

finals_apart :
    (staged : List Bytes) (p : Bytes) (ms : List Move)
    → mem p staged ≡ true
    → All (λ m. mem m.final staged ≡ false) ms
    → mem p (finals ms) ≡ false
finals_apart staged p [] here h = refl
finals_apart staged p (m ∷ ms) here (u, h) =
    rw (bytes_eq_sym m.final p, mem_apart p m.final staged here u) (finals_apart staged p ms here h)

module _ (raises : Step → Bool) (fault : Bytes) (moves : List Move) (files : Bytes → Option Node)
    (apart : IsSeparate moves) where
  sources_stay :
      (ms : List Move)
      → All (λ m. mem m.src (srcs moves) ≡ true) ms
      → Ends
          (λ t. All (λ m. t.files m.src ≡ files m.src) ms)
          (λ t. Unit {0})
          (back_up_all raises moves (entered files))
  sources_stay [] h = Ends-trivial (back_up_all raises moves (entered files))
  sources_stay (m ∷ ms) (here, h) =
      let Same = λ (t : Store). t.files m.src ≡ files m.src in
      Ends-both Same (λ t. All (λ m. t.files m.src ≡ files m.src) ms) (λ t. Unit {0})
        (back_up_all raises moves (entered files))
        (Ends-map Same Same Same (back_up_all raises moves (entered files)) (λ t e. e)
          (back_up_all-other raises m.src moves (entered files)
            (finals_apart (srcs moves) m.src moves here apart.unstaged)))
        (sources_stay ms h)

  abbrev pub Landed : Store → Type 0
  Landed t = All (λ m. t.files m.final ≡ files m.src) moves

  abbrev pub Sources : Store → Type 0
  Sources t = All (λ m. t.files m.src ≡ files m.src) moves

  abbrev pub Ready : Store → Type 0
  Ready t = All (IsReady (srcs moves) t) moves

  abbrev pub middle : Ran
  middle = back_up_all raises moves (entered files)

  pub readied : Ends (λ t. Ready t × Sources t) (λ t. Unit {0}) middle
  readied =
      Ends-both Ready Sources (λ t. Unit {0}) middle
        (Ends-map (λ t. IsKept files (srcs moves) t × Ready t) Ready
          (λ t. IsKept files (srcs moves) t) middle (λ t (k, ready). ready)
          (backed_up raises fault moves files apart))
        (sources_stay moves (All-srcs (λ p. mem p (srcs moves) ≡ true) moves (λ p here. here)))
