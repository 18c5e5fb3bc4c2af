-- ===== src/Tracefile/Metadata/Counts.antt =====
-- The counts of `data_metadata` add up.
use ferricov.Base.{
  ℕ, ◌+◌, ◌≡◌, refl, ap, ◌∙◌, List, [], ◌∷◌, if◌then◌else◌, Bool-cases, Option-cases, inl, inr,
  arith,
}
use ferricov.Base.Bytes.{Bytes, bytes_eq, bytes_eq→eq}
use ferricov.Base.Order.{bytes_lt}
use ferricov.Tracefile.Metadata.{
  classify_record, bump, tally, is_comment, insert_count, sort_counts, data_metadata, counts_of,
  records_of, data_lines,
}

-- All counts together, and those of comments.
abbrev pub total : List (Bytes × ℕ) → ℕ
total [] = 0
total ((k, n) ∷ counts) = n + total counts

abbrev pub comments : List (Bytes × ℕ) → ℕ
comments [] = 0
comments ((k, n) ∷ counts) = if is_comment k then n + comments counts else comments counts

bump-total :
    (kind : Bytes) (counts : List (Bytes × ℕ)) → total (bump kind counts) ≡ total counts + 1
unfolding bump
bump-total kind [] = refl
bump-total kind ((k, n) ∷ counts) = ground (arith, bump-total kind counts)

bump-comments :
    (kind : Bytes) (counts : List (Bytes × ℕ))
    → comments (bump kind counts) ≡ comments counts + (if is_comment kind then 1 else 0)
unfolding bump
bump-comments kind [] = omega arith
bump-comments kind ((k, n) ∷ counts) = elim (Bool-cases (bytes_eq k kind)) [
  | inl same ↦
      let e : is_comment k ≡ is_comment kind = ap is_comment (bytes_eq→eq k kind same) in
      elim (Bool-cases (is_comment kind)) [
        | inl c ↦ rw (same, e, c) omega arith
        | inr o ↦ rw (same, e, o) omega arith
      ]
  | inr differ ↦ rw differ ground (arith, bump-comments kind counts)
]

-- The records are the counted lines that are no comments.
tally-total :
    (lines : List Bytes) (counts : List (Bytes × ℕ)) (n : ℕ)
    → total counts ≡ n + comments counts
    → total (counts_of (tally lines (counts, n)))
      ≡ records_of (tally lines (counts, n)) + comments (counts_of (tally lines (counts, n)))
unfolding tally
tally-total [] counts n h = h
tally-total (line ∷ lines) counts n h = elim (Option-cases (classify_record line)) [
  | inl blank ↦ rw blank (tally-total lines counts n h)
  | inr (kind, e) ↦
      rw e (tally-total lines (bump kind counts) (if is_comment kind then n else n + 1) (step kind))
]
  where
    step :
        (kind : Bytes)
        → total (bump kind counts)
          ≡ (if is_comment kind then n else n + 1) + comments (bump kind counts)
    step kind = elim (Bool-cases (is_comment kind)) [
      | inl c ↦
          let more : comments (bump kind counts) ≡ comments counts + 1 =
            bump-comments kind counts ∙ (rw c refl) in
          rw c omega (arith, h, bump-total kind counts, more)
      | inr o ↦
          let more : comments (bump kind counts) ≡ comments counts + 0 =
            bump-comments kind counts ∙ (rw o refl) in
          rw o omega (arith, h, bump-total kind counts, more)
    ]

insert_count-total :
    (c : Bytes × ℕ) (counts : List (Bytes × ℕ)) → total (insert_count c counts) ≡ total (c ∷ counts)
unfolding insert_count
insert_count-total (k, n) [] = refl
insert_count-total (k, n) ((l, m) ∷ counts) = elim (Bool-cases (bytes_lt l k)) [
  | inl before ↦ rw before omega (arith, insert_count-total (k, n) counts)
  | inr here ↦ rw here refl
]

insert_count-comments :
    (c : Bytes × ℕ) (counts : List (Bytes × ℕ))
    → comments (insert_count c counts) ≡ comments (c ∷ counts)
unfolding insert_count
insert_count-comments (k, n) [] = refl
insert_count-comments (k, n) ((l, m) ∷ counts) = elim (Bool-cases (bytes_lt l k)) [
  | inl before ↦ rw before ground (arith, insert_count-comments (k, n) counts)
  | inr here ↦ rw here refl
]

sort_counts-total : (counts : List (Bytes × ℕ)) → total (sort_counts counts) ≡ total counts
unfolding sort_counts
sort_counts-total [] = refl
sort_counts-total ((k, n) ∷ counts) =
    insert_count-total (k, n) (sort_counts counts) ∙ ap (λ m. n + m) (sort_counts-total counts)

sort_counts-comments : (counts : List (Bytes × ℕ)) → comments (sort_counts counts) ≡ comments counts
unfolding sort_counts
sort_counts-comments [] = refl
sort_counts-comments ((k, n) ∷ counts) =
    insert_count-comments (k, n) (sort_counts counts) ∙ (rw (sort_counts-comments counts) refl)

-- In the metadata of any data, the counts of all kinds add up to the record count and the count of comments.
pub data_metadata-total :
    (sha256 : Bytes → Bytes) (d : Bytes)
    → total (data_metadata sha256 d).record_counts
      ≡ (data_metadata sha256 d).record_count + comments (data_metadata sha256 d).record_counts
unfolding data_metadata
data_metadata-total sha256 d =
    rw
      (
        sort_counts-total (counts_of (tally (data_lines d) ([], 0))),
        sort_counts-comments (counts_of (tally (data_lines d) ([], 0))),
      )
      (tally-total (data_lines d) [] 0 (omega arith))
