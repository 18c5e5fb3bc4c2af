-- ===== src/Replace/BackUp.antt =====
-- Phase 1 of `commit_replace_targets`: every target that is there moves into the backup.
use ferricov.Base.{
  ◌≡◌, refl, sym, ap, ◌∙◌, Bool, true, false, List, [], ◌∷◌, ◌++◌, Option, none, some, Bool-cases,
  Option-cases, inl, inr, All, All-append, arith, false≢true,
}
use ferricov.Base.{map-append}
use ferricov.Base.Bytes.{Bytes, bytes_eq, bytes_eq_sym, mem, Distinct}
use ferricov.Replace.Store.{Node, landed, Move, Store, write, write_same, write_other, write-none}
use ferricov.Replace.Commit.{Step, backing, Ran, ◌then_run◌, back_up_node, back_up, back_up_all}
use ferricov.Replace.Rollback.{name_of, final_of, names_of, finals_of, IsHeld}
use ferricov.Replace.Keeps.{
  finals, names, Ends, Ends-both, IsKept, Distinct-snoc, IsHeld-write, mem-finals_of-snoc,
  mem-names_of-snoc,
}

-- What a move needs of the state in phase 1.
pub record IsFresh (staged : List Bytes) (s : Store) (m : Move) : Type 0 where
  pub fresh_name : mem m.name (names_of s.backed) ≡ false
  pub fresh_final : mem m.final (finals_of s.backed) ≡ false
  pub unstaged : mem m.final staged ≡ false

-- The state after `m` is backed up.
abbrev pub moved_out : Move → Store → Node → Store
moved_out m s n = record s {
  files = write m.final none s.files;
  kept = write m.name (some (landed n (s.kept m.name))) s.kept;
  backed = s.backed ++ (m.name, m.final) ∷ [];
}

module _ (old : Bytes → Option Node) (staged : List Bytes) where
  module _ (m : Move) (s : Store) (k : IsKept old staged s) (early : s.installed ≡ [])
      (f : IsFresh staged s m) where
    abbrev old_final : s.files m.final ≡ old m.final
    old_final = k.same m.final f.unstaged f.fresh_final (rw early refl)

    moved_out-IsHeld :
        (n : Node)
        → s.files m.final ≡ some n
        → IsHeld old (moved_out m s n) (moved_out m s n).backed
    unfolding landed
    moved_out-IsHeld n here =
        All-append (λ b. (moved_out m s n).kept (name_of b) ≡ old (final_of b)) s.backed
          ((m.name, m.final) ∷ [])
          (IsHeld-write old s.kept m.name (some (landed n (s.kept m.name))) s.backed f.fresh_name
            k.held)
          (
            write_same m.name (some (landed n (s.kept m.name))) s.kept
                ∙ (rw (k.free m.name f.fresh_name) (sym here ∙ old_final)),
            tt,
          )

    split_name :
        (name : Bytes)
        → mem name (names_of (s.backed ++ (m.name, m.final) ∷ [])) ≡ false
        → (bytes_eq m.name name ≡ false) × (mem name (names_of s.backed) ≡ false)
    split_name name fresh =
        let e = sym (mem-names_of-snoc name m.name m.final s.backed) ∙ fresh in
        (ground arith, ground arith)

    split_final :
        (p : Bytes)
        → mem p (finals_of (s.backed ++ (m.name, m.final) ∷ [])) ≡ false
        → (bytes_eq m.final p ≡ false) × (mem p (finals_of s.backed) ≡ false)
    split_final p fresh =
        let e = sym (mem-finals_of-snoc p m.name m.final s.backed) ∙ fresh in
        (ground arith, ground arith)

    moved_out-gone :
        (n : Node) (p : Bytes)
        → mem p (finals_of (moved_out m s n).backed) ≡ true
        → mem p s.installed ≡ false
        → (moved_out m s n).files p ≡ none
    unfolding write
    moved_out-gone n p backed missing =
        let e = sym (mem-finals_of-snoc p m.name m.final s.backed) ∙ backed in
        elim (Bool-cases (bytes_eq m.final p)) [
          | inl here ↦ rw here refl
          | inr there ↦ rw there (k.gone p (ground arith) missing)
        ]

    moved_out-IsKept : (n : Node) → s.files m.final ≡ some n → IsKept old staged (moved_out m s n)
    moved_out-IsKept n here = record {
      held = moved_out-IsHeld n here;
      free = λ name fresh.
          let (apart, unused) = split_name name fresh in
          write_other m.name name (some (landed n (s.kept m.name))) s.kept apart
          ∙ k.free name unused;
      same = λ p unstaged unbacked missing.
          let (apart, unused) = split_final p unbacked in
          write_other m.final p none s.files apart ∙ k.same p unstaged unused missing;
      gone = λ p backed missing. moved_out-gone n p backed missing;
      new = λ p placed unbacked. absurd (false≢true (sym (ap (mem p) early) ∙ placed));
      distinct_names =
          rw (map-append name_of s.backed ((m.name, m.final) ∷ []))
            (Distinct-snoc (names_of s.backed) m.name f.fresh_name k.distinct_names);
      distinct_finals =
          rw (map-append final_of s.backed ((m.name, m.final) ∷ []))
            (Distinct-snoc (finals_of s.backed) m.final f.fresh_final k.distinct_finals);
    }

-- What phase 1 needs of a later move, after `m` is backed up.
moved_out-IsFresh :
    (staged : List Bytes) (m : Move) (s : Store) (n : Node) (o : Move)
    → bytes_eq m.name o.name ≡ false
    → bytes_eq m.final o.final ≡ false
    → IsFresh staged s o
    → IsFresh staged (moved_out m s n) o
moved_out-IsFresh staged m s n o names finals g = record {
  fresh_name = mem-names_of-snoc o.name m.name m.final s.backed ∙ (rw g.fresh_name names);
  fresh_final = mem-finals_of-snoc o.final m.name m.final s.backed ∙ (rw g.fresh_final finals);
  unstaged = g.unstaged;
}

-- No later move shares the name or the target of `m`.
IsFresh-rest :
    (staged : List Bytes) (m : Move) (s : Store) (n : Node) (ms : List Move)
    → mem m.name (names ms) ≡ false
    → mem m.final (finals ms) ≡ false
    → All (IsFresh staged s) ms
    → All (IsFresh staged (moved_out m s n)) ms
IsFresh-rest staged m s n [] names_apart finals_apart h = tt
IsFresh-rest staged m s n (o ∷ ms) names_apart finals_apart (g, h) = (
  moved_out-IsFresh staged m s n o (rw (bytes_eq_sym m.name o.name) ground arith)
      (rw (bytes_eq_sym m.final o.final) ground arith) g,
  IsFresh-rest staged m s n ms (ground arith) (ground arith) h,
)

module _ (raises : Step → Bool) where
  back_up-then :
      (P R : Store → Type 0) (k : Store → Ran) (m : Move) (s : Store)
      → R s
      → (s.files m.final ≡ none → Ends P R (k s))
      → ((n : Node) → s.files m.final ≡ some n → Ends P R (k (moved_out m s n)))
      → Ends P R (back_up raises m s then_run k)
  unfolding back_up_node
  back_up-then P R k m s before skip after = elim (Option-cases (s.files m.final)) [
    | inl e ↦ rw e (skip e)
    | inr (n, e) ↦ elim (Bool-cases (raises (backing m.name))) [
      | inl fails ↦ rw (e, fails) before
      | inr works ↦ rw (e, works) (after n e)
    ]
  ]

  pub back_up_all-IsKept :
      (old : Bytes → Option Node) (staged : List Bytes) (ms : List Move) (s : Store)
      → IsKept old staged s
      → s.installed ≡ []
      → All (IsFresh staged s) ms
      → Distinct (names ms)
      → Distinct (finals ms)
      → Ends (IsKept old staged) (IsKept old staged) (back_up_all raises ms s)
  unfolding back_up_all
  back_up_all-IsKept old staged [] s k early fresh dn df = k
  back_up_all-IsKept old staged (m ∷ ms) s k early (f, fresh) (an, dn) (af, df) =
      back_up-then (IsKept old staged) (IsKept old staged) (λ t. back_up_all raises ms t) m s k
        (λ _. back_up_all-IsKept old staged ms s k early fresh dn df)
        (λ n here.
          back_up_all-IsKept old staged ms (moved_out m s n)
            (moved_out-IsKept old staged m s k early f n here) early
            (IsFresh-rest staged m s n ms an af fresh) dn df)

  -- A path that no move targets is left alone by phase 1.
  pub back_up_all-other :
      (p : Bytes) (ms : List Move) (s : Store)
      → mem p (finals ms) ≡ false
      → Ends (λ t. t.files p ≡ s.files p) (λ t. t.files p ≡ s.files p) (back_up_all raises ms s)
  unfolding back_up_all
  back_up_all-other p [] s apart = refl
  back_up_all-other p (m ∷ ms) s apart =
      let Same = λ (t : Store). t.files p ≡ s.files p in
      back_up-then Same Same (λ t. back_up_all raises ms t) m s refl
        (λ _. back_up_all-other p ms s (ground arith))
        (λ n here.
          rw (sym (write_other m.final p none s.files (ground arith)))
            (back_up_all-other p ms (moved_out m s n) (ground arith)))

  back_up_all-stays :
      (p : Bytes) (ms : List Move) (s : Store)
      → s.files p ≡ none
      → Ends (λ t. t.files p ≡ none) (λ t. Unit {0}) (back_up_all raises ms s)
  unfolding back_up_all
  back_up_all-stays p [] s empty = empty
  back_up_all-stays p (m ∷ ms) s empty =
      back_up-then (λ t. t.files p ≡ none) (λ t. Unit {0}) (λ t. back_up_all raises ms t) m s tt
        (λ _. back_up_all-stays p ms s empty)
        (λ n here. back_up_all-stays p ms (moved_out m s n) (write-none m.final p s.files empty))

  pub back_up_all-vacates :
      (ms : List Move) (s : Store)
      → Ends (λ t. All (λ m. t.files m.final ≡ none) ms) (λ t. Unit {0}) (back_up_all raises ms s)
  unfolding back_up_all
  back_up_all-vacates [] s = tt
  back_up_all-vacates (m ∷ ms) s =
      let Empty = λ (t : Store). (t.files m.final ≡ none) × All (λ m. t.files m.final ≡ none) ms in
      back_up-then Empty (λ t. Unit {0}) (λ t. back_up_all raises ms t) m s tt
        (λ e. vacated s e (back_up_all-vacates ms s))
        (λ n here.
          vacated (moved_out m s n) (write_same m.final none s.files)
            (back_up_all-vacates ms (moved_out m s n)))
    where
      vacated :
          (t : Store)
          → t.files m.final ≡ none
          → Ends
              (λ t. All (λ m. t.files m.final ≡ none) ms)
              (λ t. Unit {0})
              (back_up_all raises ms t)
          → Ends
              (λ t. (t.files m.final ≡ none) × All (λ m. t.files m.final ≡ none) ms)
              (λ t. Unit {0})
              (back_up_all raises ms t)
      vacated t e rest =
          Ends-both (λ t. t.files m.final ≡ none) (λ t. All (λ m. t.files m.final ≡ none) ms)
            (λ t. Unit {0}) (back_up_all raises ms t) (back_up_all-stays m.final ms t e) rest
