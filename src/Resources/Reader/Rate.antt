-- ===== src/Resources/Reader/Rate.antt =====
-- `_rate` reads back the counts of every rate that the expected summary prints.
use ferricov.Base.{
  ℕ, suc, ◌+◌, ◌/◌, ◌%◌, ◌≡◌, ◌≢◌, refl, sym, ap, ◌∙◌, true, false, [], ◌∷◌, ◌++◌, append_assoc,
  some, ok, arith, All,
}
use ferricov.Base.Bytes.{
  Bytes, codes, Lacks, bytes_eq, bytes_eq_refl, split_at_most, split_at_most_first,
}
use ferricov.Base.Decimal.{
  is_digit, IsDigit, value-decimal, decimal, decimal-IsDigit, decimal-ne-nil,
}
use ferricov.Base.Text.{strip, strip_between, span_digits-append}
use ferricov.Resources.Summary.{print_tenths, rate_text, rate_line}
use ferricov.Resources.Reader.{
  expect, digits_then, one_digit, ends_in_paren, match_rate, field, second, check_rate, rate,
}

expect-append : (p s : Bytes) → expect p (p ++ s) ≡ ok s
unfolding expect
expect-append [] s = refl
expect-append (c ∷ p) s = ground (arith, expect-append p s)

digits_then-append :
    (ds : Bytes) (c : ℕ) (p s : Bytes)
    → ds ≢ []
    → All IsDigit ds
    → is_digit c ≡ false
    → digits_then (c ∷ p) (ds ++ (c ∷ (p ++ s))) ≡ ok (ds, s)
unfolding digits_then
digits_then-append [] c p s h k e = absurd (h refl)
digits_then-append (d ∷ ds) c p s h k e =
    rw (span_digits-append (d ∷ ds) c (p ++ s) k e) (rw (expect-append (c ∷ p) s))

-- the print of a number and the literal behind it
decimal_then :
    (n c : ℕ) (p s : Bytes)
    → is_digit c ≡ false
    → digits_then (c ∷ p) (decimal n ++ (c ∷ (p ++ s))) ≡ ok (decimal n, s)
decimal_then n c p s e =
    digits_then-append (decimal n) c p s (decimal-ne-nil n) (decimal-IsDigit n) e

one_digit_lem : (t : ℕ) (s : Bytes) → one_digit ((48 + t % 10) ∷ s) ≡ ok (48 + t % 10, s)
unfolding one_digit
one_digit_lem t s = ground arith

ends_in_paren-append : (s : Bytes) → s ≢ [] → ends_in_paren (s ++ b')' ∷ []) ≡ true
unfolding ends_in_paren
ends_in_paren-append [] h = absurd (h refl)
ends_in_paren-append (c ∷ []) h = refl
ends_in_paren-append (c ∷ d ∷ []) h = refl
ends_in_paren-append (c ∷ d ∷ e ∷ s) h = ends_in_paren-append (d ∷ e ∷ s) cc

-- What stands behind the label of a rate.
abbrev rate_body : ℕ → ℕ → ℕ → Bytes → Bytes
rate_body t hit found noun =
    decimal (t / 10)
    ++ (b'.'
        ∷ (48 + t % 10)
        ∷ (codes "% ("
            ++ (decimal hit
                ++ (codes " of " ++ (decimal found ++ (codes " " ++ (noun ++ codes ")")))))))

match_rate-body :
    (t hit found : ℕ) (noun : Bytes)
    → noun ≢ []
    → match_rate (rate_body t hit found noun)
      ≡ ok (decimal (t / 10) ++ b'.' ∷ (48 + t % 10) ∷ [], decimal hit, decimal found)
unfolding match_rate
match_rate-body t hit found noun h = rw (decimal_then (t / 10) b'.' []) (
    rw one_digit_lem (
      rw (decimal_then hit b' ' (codes "of "))
        (rw (decimal_then found b' ' []) (rw (ends_in_paren-append noun h)))))

strip_body :
    (ds mid : Bytes)
    → ds ≢ []
    → All IsDigit ds
    → strip (32 ∷ (ds ++ (mid ++ b')' ∷ []))) ≡ ds ++ (mid ++ b')' ∷ [])
strip_body [] mid h k = absurd (h refl)
strip_body (d ∷ ds) mid h k =
    rw (← append_assoc) (strip_between d (ds ++ mid) b')' (ground arith) refl)

not_no_data :
    (ds s : Bytes) → ds ≢ [] → All IsDigit ds → bytes_eq (ds ++ s) (codes "no data found") ≡ false
unfolding bytes_eq
not_no_data [] s h k = absurd (h refl)
not_no_data (d ∷ ds) s h k = ground arith

field_lem : (label s : Bytes) → Lacks b':' label → field ((32 ∷ 32 ∷ label) ++ b':' ∷ s) ≡ strip s
unfolding split_at_most
field_lem label s h =
    ap (λ ls. strip (second ls))
      (split_at_most_first b':' 0 (32 ∷ 32 ∷ label) s (omega arith, (omega arith, h)))

-- The line that `rate_line` prints.
abbrev pub printed : ℕ → Bytes → ℕ → ℕ → Bytes → Bytes
printed t label hit found noun = codes "  " ++ (label ++ (codes ": " ++ rate_body t hit found noun))

-- all of a rate but its first number and its last character
abbrev middle : ℕ → ℕ → ℕ → Bytes → Bytes
middle t hit found noun =
    b'.'
    ∷ (48 + t % 10)
    ∷ (codes "% (" ++ (decimal hit ++ (codes " of " ++ (decimal found ++ (codes " " ++ noun)))))

rate_body-middle :
    (t hit found : ℕ) (noun : Bytes)
    → rate_body t hit found noun ≡ decimal (t / 10) ++ (middle t hit found noun ++ b')' ∷ [])
rate_body-middle t hit found noun = simp append_assoc

field-printed :
    (t : ℕ) (label : Bytes) (hit found : ℕ) (noun : Bytes)
    → Lacks b':' label
    → field (printed t label hit found noun) ≡ rate_body t hit found noun
field-printed t label hit found noun h =
    field_lem label (32 ∷ rate_body t hit found noun) h
    ∙ ap (λ b. strip (32 ∷ b)) (rate_body-middle t hit found noun)
    ∙ strip_body (decimal (t / 10)) (middle t hit found noun) (decimal-ne-nil (t / 10))
        (decimal-IsDigit (t / 10))
    ∙ sym (rate_body-middle t hit found noun)

module _ (tenths : ℕ → ℕ → ℕ) (label : Bytes) (hit n : ℕ) (noun : Bytes) where
  pub rate_line-printed :
      rate_line tenths label (suc n) hit noun
      ≡ ok (printed (tenths hit (suc n)) label hit (suc n) noun)
  unfolding rate_line print_tenths
  rate_line-printed = rw append_assoc

  pub rate-printed :
      Lacks b':' label
      → noun ≢ []
      → rate tenths (printed (tenths hit (suc n)) label hit (suc n) noun)
        ≡ ok (some (suc n), some hit)
  unfolding rate check_rate rate_text print_tenths
  rate-printed h k = rw (field-printed (tenths hit (suc n)) label hit (suc n) noun h) (
      rw (not_no_data (decimal (tenths hit (suc n) / 10)) _ (decimal-ne-nil _) (decimal-IsDigit _))
        (rw (match_rate-body (tenths hit (suc n)) hit (suc n) noun k) (
          rw (value-decimal, value-decimal)
            (rw (bytes_eq_refl (print_tenths (tenths hit (suc n))))))))
