-- ===== src/Replace/Install.antt =====
-- Phase 2 of `commit_replace_targets`: the staged sources move to their targets.
use ferricov.Base.{
  ◌≡◌, refl, sym, ◌∙◌, Bool, false, List, [], ◌∷◌, Option, some, Bool-cases, Option-cases, inl, inr,
  All, arith,
}
use ferricov.Base.Bytes.{Bytes, mem, Distinct}
use ferricov.Replace.Store.{Node, exists, Move, Store}
use ferricov.Replace.Commit.{
  Step, installing, making_parent, Ran, ◌then_run◌, land_node, install, install_all, injects,
}
use ferricov.Replace.Keeps.{srcs, finals, Ends, Ends-both, Ends-map, IsKept}
use ferricov.Replace.Moved.{
  moved_in, moved_in-other, moved_in-final, mem_apart, IsReady, moved_in-IsKept, IsReady-rest,
  srcs_apart, landed_before,
}

module _ (raises : Step → Bool) (fault : Bytes) where
  install-then :
      (P R : Store → Type 0) (k : Store → Ran) (m : Move) (s : Store)
      → R s
      → ((n : Node) → s.files m.src ≡ some n → Ends P R (k (moved_in m s n)))
      → Ends P R (install raises fault m s then_run k)
  unfolding install land_node
  install-then P R k m s before after = elim (Bool-cases (injects fault m.name)) [
    | inl stop ↦ rw stop before
    | inr go ↦ elim (Bool-cases (exists (s.files m.src))) [
      | inr missing ↦ rw (go, missing) before
      | inl there ↦ elim (Bool-cases (raises (making_parent m.final))) [
        | inl fails ↦ rw (go, there, fails) before
        | inr works ↦ elim (Option-cases (s.files m.src)) [
          | inl e ↦ rw (go, there, works, e) before
          | inr (n, e) ↦ elim (Bool-cases (raises (installing m.final))) [
            | inl fails ↦ rw (go, there, works, e, fails) before
            | inr moves ↦ rw (go, there, works, e, moves) (after n e)
          ]
        ]
      ]
    ]
  ]

  pub install_all-IsKept :
      (old : Bytes → Option Node) (staged : List Bytes) (ms : List Move) (s : Store)
      → IsKept old staged s
      → All (IsReady staged s) ms
      → Distinct (finals ms)
      → Ends (λ t. Unit {0}) (IsKept old staged) (install_all raises fault ms s)
  unfolding install_all
  install_all-IsKept old staged [] s k ready df = tt
  install_all-IsKept old staged (m ∷ ms) s k (r, ready) (af, df) =
      install-then (λ t. Unit {0}) (IsKept old staged) (λ t. install_all raises fault ms t) m s k
        (λ n here.
          install_all-IsKept old staged ms (moved_in m s n) (moved_in-IsKept old staged m s k r n)
            (IsReady-rest staged m s n ms af ready) df)

  pub install_all-other :
      (p : Bytes) (ms : List Move) (s : Store)
      → mem p (srcs ms) ≡ false
      → mem p (finals ms) ≡ false
      → Ends
          (λ t. t.files p ≡ s.files p)
          (λ t. t.files p ≡ s.files p)
          (install_all raises fault ms s)
  unfolding install_all
  install_all-other p [] s from to = refl
  install_all-other p (m ∷ ms) s from to =
      let Same = λ (t : Store). t.files p ≡ s.files p in
      install-then Same Same (λ t. install_all raises fault ms t) m s refl
        (λ n here.
          rw (sym (moved_in-other m s n p (ground arith) (ground arith)))
            (install_all-other p ms (moved_in m s n) (ground arith) (ground arith)))

  -- Every target ends as its source began.
  pub install_all-lands :
      (staged : List Bytes) (ms : List Move) (s : Store)
      → All (IsReady staged s) ms
      → Distinct (finals ms)
      → Distinct (srcs ms)
      → Ends
          (λ t. All (λ m. t.files m.final ≡ s.files m.src) ms)
          (λ t. Unit {0})
          (install_all raises fault ms s)
  unfolding install_all
  install_all-lands staged [] s ready df ds = tt
  install_all-lands staged (m ∷ ms) s (r, ready) (af, df) (as', ds) =
      install-then (λ t. All (λ m. t.files m.final ≡ s.files m.src) (m ∷ ms)) (λ t. Unit {0})
        (λ t. install_all raises fault ms t) m s tt
        (λ n here.
          Ends-both (λ t. t.files m.final ≡ s.files m.src)
            (λ t. All (λ m. t.files m.final ≡ s.files m.src) ms) (λ t. Unit {0})
            (install_all raises fault ms (moved_in m s n)) (head n here)
            (Ends-map (λ t. All (λ o. t.files o.final ≡ (moved_in m s n).files o.src) ms)
              (λ t. All (λ o. t.files o.final ≡ s.files o.src) ms) (λ t. Unit {0})
              (install_all raises fault ms (moved_in m s n))
              (λ t h. landed_before staged m s t n ms r.unstaged as' ready h)
              (install_all-lands staged ms (moved_in m s n) (IsReady-rest staged m s n ms af ready)
                df ds)))
    where
      head :
          (n : Node)
          → s.files m.src ≡ some n
          → Ends
              (λ t. t.files m.final ≡ s.files m.src)
              (λ t. Unit {0})
              (install_all raises fault ms (moved_in m s n))
      head n here =
          let Same = λ (t : Store). t.files m.final ≡ (moved_in m s n).files m.final in
          Ends-map Same (λ t. t.files m.final ≡ s.files m.src) Same
            (install_all raises fault ms (moved_in m s n))
            (λ t e.
              e
              ∙ (moved_in-final m s n (mem_apart m.src m.final staged r.is_staged r.unstaged)
                    r.empty
                  ∙ sym here))
            (install_all-other m.final ms (moved_in m s n)
              (srcs_apart staged s m.final ms r.unstaged ready) af)
