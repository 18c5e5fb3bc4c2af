-- ===== src/Tracefile/Metadata/Endings.antt =====
-- What the line-ending style of `data_metadata` says of the data.
use ferricov.Base.{
  ◌≤◌, ◌≡◌, refl, Bool, true, false, ◌&&◌, [], ◌∷◌, ◌==◌, Bool-cases, inl, inr, arith, not, ◌||◌,
  ◌≢◌, ==→eq, ==→ne,
}
use ferricov.Base.Bytes.{Bytes}
use ferricov.Tracefile.Metadata.{
  Ending, count_lf, count_crlf, line_endings, no_ending, crlf, lf, mixed,
}

abbrev agree : Bool → Bool → Bool
agree true b = b
agree false b = not b

-- Whether every line feed has a carriage return before it (`wanted` is true), or none has (it is false);
-- `after_cr` says that the byte before was a carriage return.
abbrev pub every_lf : Bool → Bool → Bytes → Bool
every_lf wanted after_cr [] = true
every_lf wanted after_cr (c ∷ s) =
    (not (c == 10) || agree wanted after_cr) && every_lf wanted (c == 13) s

count_crlf-le : (after_cr : Bool) (s : Bytes) → count_crlf after_cr s ≤ count_lf s
unfolding count_crlf count_lf
count_crlf-le after_cr [] = omega arith
count_crlf-le after_cr (c ∷ s) = ground (arith, count_crlf-le (c == 13) s)

all_crlf :
    (after_cr : Bool) (s : Bytes)
    → count_crlf after_cr s ≡ count_lf s
    → every_lf true after_cr s ≡ true
unfolding count_crlf count_lf
all_crlf after_cr [] h = refl
all_crlf after_cr (c ∷ s) h = ground (arith, count_crlf-le (c == 13) s, all_crlf (c == 13) s)

crlf_all :
    (after_cr : Bool) (s : Bytes)
    → every_lf true after_cr s ≡ true
    → count_crlf after_cr s ≡ count_lf s
unfolding count_crlf count_lf
crlf_all after_cr [] h = refl
crlf_all after_cr (c ∷ s) h = ground (arith, crlf_all (c == 13) s)

no_crlf :
    (after_cr : Bool) (s : Bytes) → count_crlf after_cr s ≡ 0 → every_lf false after_cr s ≡ true
unfolding count_crlf
no_crlf after_cr [] h = refl
no_crlf after_cr (c ∷ s) h = ground (arith, no_crlf (c == 13) s)

crlf_none :
    (after_cr : Bool) (s : Bytes) → every_lf false after_cr s ≡ true → count_crlf after_cr s ≡ 0
unfolding count_crlf
crlf_none after_cr [] h = refl
crlf_none after_cr (c ∷ s) h = ground (arith, crlf_none (c == 13) s)

-- What a style says of the data.
abbrev pub Describes : Ending → Bytes → Type 0
Describes no_ending d = count_lf d ≡ 0
Describes crlf d = (1 ≤ count_lf d) × (every_lf true false d ≡ true)
Describes lf d = (1 ≤ count_lf d) × (every_lf false false d ≡ true)
Describes mixed d = (every_lf true false d ≡ false) × (every_lf false false d ≡ false)

not_true : (b : Bool) → (b ≢ true) → b ≡ false
not_true true h = absurd (h refl)
not_true false h = refl

-- The line-ending style of any data is "none" for no line feed, "crlf" for some line feeds that all follow a
-- carriage return, "lf" for some that all do not, and "mixed" for line feeds of both sorts.
pub line_endings-Describes : (d : Bytes) → Describes (line_endings d) d
unfolding line_endings
line_endings-Describes d = elim (Bool-cases (count_lf d == 0)) [
  | inl none' ↦ rw none' (==→eq (count_lf d) 0 none')
  | inr some' ↦
      let positive : 1 ≤ count_lf d = at_least (==→ne (count_lf d) 0 some') in
      elim (Bool-cases (count_crlf false d == count_lf d)) [
        | inl all' ↦
            rw (some', all')
              (positive, all_crlf false d (==→eq (count_crlf false d) (count_lf d) all'))
        | inr other ↦ elim (Bool-cases (count_crlf false d == 0)) [
          | inl zero' ↦
              rw (some', other, zero')
                (positive, no_crlf false d (==→eq (count_crlf false d) 0 zero'))
          | inr both ↦
              rw (some', other, both)
                (
                  not_true (every_lf true false d)
                      (λ e. ==→ne (count_crlf false d) (count_lf d) other (crlf_all false d e)),
                  not_true (every_lf false false d)
                      (λ e. ==→ne (count_crlf false d) 0 both (crlf_none false d e)),
                )
        ]
      ]
]
  where
    at_least : count_lf d ≢ 0 → 1 ≤ count_lf d
    at_least h = omega (arith, h)
