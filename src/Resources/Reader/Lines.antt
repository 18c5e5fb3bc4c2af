-- ===== src/Resources/Reader/Lines.antt =====
-- The lines of the expected summary are split apart again as they were joined.
use ferricov.Base.{
  ℕ, ◌+◌, ◌/◌, ◌%◌, ◌≡◌, ◌≢◌, refl, ap, ◌∙◌, true, List, [], ◌∷◌, ◌++◌, append_assoc, arith, All,
  All-append, all, Bool-cases, inl, inr, ◌==◌,
}
use ferricov.Base.Bytes.{Bytes, codes, bytes_eq}
use ferricov.Base.Decimal.{decimal}
use ferricov.Base.Text.{
  split_lines, split_lines_first, IsUnbroken, is_line, IsLine, IsLine-IsUnbroken, decimal-IsLine,
}
use ferricov.Resources.Summary.{join_lines, suffix}
use ferricov.Resources.Reader.{is_ascii}
use ferricov.Resources.Reader.Rate.{printed}

pub split-join_lines :
    (l : Bytes) (ls : List Bytes)
    → All IsUnbroken (l ∷ ls)
    → split_lines (join_lines (l ∷ ls) ++ 10 ∷ []) ≡ l ∷ ls
unfolding join_lines
split-join_lines l [] h = split_lines_first l [] h.0 ∙ unfold split_lines in refl
split-join_lines l (k ∷ ls) h = rw append_assoc (
    split_lines_first l (join_lines (k ∷ ls) ++ 10 ∷ []) h.0
    ∙ ap (◌∷◌ l) (split-join_lines k ls h.1))

is_ascii-append : (s t : Bytes) → is_ascii s ≡ true → is_ascii t ≡ true → is_ascii (s ++ t) ≡ true
is_ascii-append [] t h k = k
is_ascii-append (c ∷ s) t h k = ground (arith, is_ascii-append s t)

IsLine-is_ascii : (s : Bytes) → IsLine s → is_ascii s ≡ true
IsLine-is_ascii [] h = refl
IsLine-is_ascii (c ∷ s) (e, h) = ground (arith, IsLine-is_ascii s h)

pub is_ascii-join_lines :
    (ls : List Bytes) → All IsLine ls → is_ascii (join_lines ls ++ 10 ∷ []) ≡ true
unfolding join_lines
is_ascii-join_lines [] h = refl
is_ascii-join_lines (l ∷ []) h = is_ascii-append l (10 ∷ []) (IsLine-is_ascii l h.0) refl
is_ascii-join_lines (l ∷ k ∷ ls) h = rw append_assoc (
    is_ascii-append l (10 ∷ (join_lines (k ∷ ls) ++ 10 ∷ [])) (IsLine-is_ascii l h.0)
      (is_ascii-join_lines (k ∷ ls) h.1))

pub lines-IsUnbroken : (ls : List Bytes) → All IsLine ls → All IsUnbroken ls
lines-IsUnbroken [] h = tt
lines-IsUnbroken (l ∷ ls) h = (IsLine-IsUnbroken l h.0, lines-IsUnbroken ls h.1)

-- A literal is a line if its characters pass the test.
pub literal-IsLine : (s : Bytes) → all is_line s ≡ true → IsLine s
literal-IsLine [] h = tt
literal-IsLine (c ∷ s) h = (ground arith, literal-IsLine s (ground arith))

pub IsLine-append : (s t : Bytes) → IsLine s → IsLine t → IsLine (s ++ t)
IsLine-append = All-append _

then_decimal :
    (p : Bytes) (n : ℕ) (s : Bytes) → IsLine p → IsLine s → IsLine (p ++ (decimal n ++ s))
then_decimal p n s h k = IsLine-append p _ h (IsLine-append (decimal n) s (decimal-IsLine n) k)

tenth-IsLine : (t : ℕ) → is_line (48 + t % 10) ≡ true
tenth-IsLine t = ground arith

pub printed-IsLine :
    (t : ℕ) (label : Bytes) (hit found : ℕ) (noun : Bytes)
    → IsLine label
    → IsLine noun
    → IsLine (printed t label hit found noun)
printed-IsLine t label hit found noun h k =
    IsLine-append (codes "  ") _ (literal-IsLine (codes "  ") refl) (
      IsLine-append label _ h (
        then_decimal (codes ": ") (t / 10) _ (literal-IsLine (codes ": ") refl) (
          refl,
          (
            tenth-IsLine t,
            then_decimal (codes "% (") hit _ (literal-IsLine (codes "% (") refl) (
                then_decimal (codes " of ") found _ (literal-IsLine (codes " of ") refl) (
                  IsLine-append (codes " ") _ (literal-IsLine (codes " ") refl)
                    (IsLine-append noun (codes ")") k (literal-IsLine (codes ")") refl)))),
          ),
        )))

-- The suffix of a count is the noun or a plural of it.
suffix-cases {κ} :
    (P : Bytes → Type κ) (found : ℕ) (noun : Bytes)
    → P noun
    → P (codes "branches")
    → P (noun ++ codes "s")
    → P (suffix found noun)
suffix-cases P found noun one branches many = elim (Bool-cases (found == 1)) [
  | inl e ↦ rw e one
  | inr e ↦ elim (Bool-cases (bytes_eq noun (codes "branch"))) [
    | inl b ↦ rw (e, b) branches
    | inr b ↦ rw (e, b) many
  ]
]

pub suffix-IsLine : (found : ℕ) (noun : Bytes) → IsLine noun → IsLine (suffix found noun)
suffix-IsLine found noun h =
    suffix-cases IsLine found noun h (literal-IsLine (codes "branches") refl)
      (IsLine-append noun (codes "s") h (refl, tt))

pub suffix-ne-nil : (found : ℕ) (noun : Bytes) → noun ≢ [] → suffix found noun ≢ []
suffix-ne-nil found [] h = absurd (h refl)
suffix-ne-nil found (c ∷ s) h = suffix-cases (λ b. b ≢ []) found (c ∷ s) h (cc) (cc)
