-- ===== src/Resources/Generate/Emits.antt =====
-- What the writers leave in the file: the records of the profile, each with a line feed.
use ferricov.Base.{
  ℕ, zero, suc, ◌+◌, ◌-◌, ◌≡◌, refl, List, [], ◌∷◌, ◌++◌, append_assoc, append-nil, ok, arith, All,
  All-append, All-replicate, replicate, length,
}
use ferricov.Base.Bytes.{Bytes, codes, Lacks, has_byte-Lacks}
use ferricov.Base.Decimal.{decimal, decimal-IsDigit, IsDigit}
use ferricov.Resources.Profile.{Axis, field_bytes, data_records, sections, family_cardinality}
use ferricov.Resources.Generate.{
  emit, emit_all, emit_range, end_of_record, field_records, pad5, da_body, section_body,
  function_body, branch_body, mcdc_body, write_field_profile, write_record_profile,
  write_section_profile, write_cardinality_profile, write_axis,
}

-- A record with no line ending inside.
abbrev pub IsPlain : Bytes → Type 0
IsPlain r = Lacks b'\n' r × Lacks b'\r' r

pub IsPlain-append : (r s : Bytes) → IsPlain r → IsPlain s → IsPlain (r ++ s)
IsPlain-append r s h k = (All-append _ r s h.0 k.0, All-append _ r s h.1 k.1)

digits-Lacks : (b : ℕ) → (b ≡ 10) → (s : Bytes) → All IsDigit s → Lacks 10 s × Lacks 13 s
digits-Lacks b e [] h = (tt, tt)
digits-Lacks b e (c ∷ s) (hc, hs) =
    let (l, r) = digits-Lacks b e s hs in ((omega arith, l), (omega arith, r))

pub decimal-IsPlain : (n : ℕ) → IsPlain (decimal n)
decimal-IsPlain n = digits-Lacks 10 refl (decimal n) (decimal-IsDigit n)

unfoldable pub unlines : List Bytes → Bytes
unlines [] = []
unlines (r ∷ rs) = r ++ (b'\n' ∷ unlines rs)

pub unlines-append : (rs ss : List Bytes) → unlines (rs ++ ss) ≡ unlines rs ++ unlines ss
unfolding unlines
unlines-append [] ss = refl
unlines-append (r ∷ rs) ss = simp (unlines-append rs, append_assoc)

-- The records of `n` rounds from `index` on.
unfoldable pub range : (ℕ → List Bytes) → ℕ → ℕ → List Bytes
range body index zero = []
range body index (suc n) = body index ++ range body (suc index) n

emit-IsPlain : (out r : Bytes) → IsPlain r → emit out r ≡ ok ((out ++ r) ++ b'\n' ∷ [])
unfolding emit
emit-IsPlain out r h = rw (has_byte-Lacks b'\n' r h.0, has_byte-Lacks b'\r' r h.1)

emit-unlines : (out r : Bytes) → IsPlain r → emit out r ≡ ok (out ++ unlines (r ∷ []))
unfolding unlines
emit-unlines out r h = rw (emit-IsPlain out r h, append_assoc)

emit_all-IsPlain :
    (rs : List Bytes) (out : Bytes) → All IsPlain rs → emit_all out rs ≡ ok (out ++ unlines rs)
unfolding emit_all unlines
emit_all-IsPlain [] out h = rw append-nil
emit_all-IsPlain (r ∷ rs) out h =
    rw (emit-IsPlain out r h.0)
      (rw (emit_all-IsPlain rs ((out ++ r) ++ b'\n' ∷ []) h.1) (simp append_assoc))

emit_range-IsPlain :
    (body : ℕ → List Bytes)
    → ((i : ℕ) → All IsPlain (body i))
    → (n i : ℕ) (out : Bytes) → emit_range body i n out ≡ ok (out ++ unlines (range body i n))
unfolding emit_range range unlines
emit_range-IsPlain body plain zero i out = rw append-nil
emit_range-IsPlain body plain (suc n) i out =
    let e : i + 1 ≡ suc i = omega arith in
    rw (emit_all-IsPlain (body i) out (plain i), e)
      (rw (emit_range-IsPlain body plain n (suc i) (out ++ unlines (body i)))
        (simp (unlines-append, append_assoc)))

-- What each profile writes, record by record.
unfoldable pub records : Axis → ℕ → List Bytes
records field_bytes n = field_records n
records data_records n = codes "SF:resource/records.c" ∷ (range da_body 1 n ++ end_of_record ∷ [])
records sections n = range section_body 1 n
records family_cardinality n =
    codes "SF:resource/cardinality.c"
    ∷ (range function_body 1 n
        ++ (range branch_body 1 n
            ++ (range mcdc_body 1 n ++ (range da_body 1 n ++ end_of_record ∷ []))))
records _ n = []

da_body-IsPlain : (i : ℕ) → All IsPlain (da_body i)
da_body-IsPlain i = (
  IsPlain-append (codes "DA:") _ (omega arith)
      (IsPlain-append (decimal i) _ (decimal-IsPlain i) (omega arith)),
  tt,
)

pad5-IsPlain : (i : ℕ) → IsPlain (pad5 i)
unfolding pad5
pad5-IsPlain i =
    IsPlain-append (replicate (5 - length (decimal i)) b'0') (decimal i)
      (
        All-replicate _ (5 - length (decimal i)) b'0' (omega arith),
        All-replicate _ (5 - length (decimal i)) b'0' (omega arith),
      )
      (decimal-IsPlain i)

section_body-IsPlain : (i : ℕ) → All IsPlain (section_body i)
section_body-IsPlain i = (
  IsPlain-append (codes "SF:resource/section-") _ (omega arith)
      (IsPlain-append (pad5 i) _ (pad5-IsPlain i) (omega arith)),
  (omega arith, (omega arith, tt)),
)

-- a literal, the number, and what follows
numbered : (p : Bytes) (i : ℕ) (s : Bytes) → IsPlain p → IsPlain s → IsPlain (p ++ (decimal i ++ s))
numbered p i s h k = IsPlain-append p _ h (IsPlain-append (decimal i) s (decimal-IsPlain i) k)

function_body-IsPlain : (i : ℕ) → All IsPlain (function_body i)
function_body-IsPlain i = (
  numbered (codes "FNL:") (i - 1) _ (omega arith) (
      numbered (codes ",") i _ (omega arith)
        (IsPlain-append (codes ",") _ (omega arith) (decimal-IsPlain i))),
  (
    numbered (codes "FNA:") (i - 1) _ (omega arith)
        (IsPlain-append (codes ",1,function_") _ (omega arith) (decimal-IsPlain i)),
    tt,
  ),
)

branch_body-IsPlain : (i : ℕ) → All IsPlain (branch_body i)
branch_body-IsPlain i = (
  numbered (codes "BRDA:") i _ (omega arith)
      (numbered (codes ",0,branch_") i _ (omega arith) (omega arith)),
  tt,
)

mcdc_body-IsPlain : (i : ℕ) → All IsPlain (mcdc_body i)
mcdc_body-IsPlain i = (
  numbered (codes "MCDC:") i _ (omega arith)
      (IsPlain-append (codes ",1,t,1,0,condition_") _ (omega arith) (decimal-IsPlain i)),
  (
    numbered (codes "MCDC:") i _ (omega arith)
        (IsPlain-append (codes ",1,f,0,0,condition_") _ (omega arith) (decimal-IsPlain i)),
    tt,
  ),
)

field_records-IsPlain : (n : ℕ) → All IsPlain (field_records n)
field_records-IsPlain n = (
  IsPlain-append (codes "TN:") _ (omega arith)
      (All-replicate _ n b'x' (omega arith), All-replicate _ n b'x' (omega arith)),
  (omega arith, (omega arith, (omega arith, tt))),
)

range-IsPlain :
    (body : ℕ → List Bytes)
    → ((i : ℕ) → All IsPlain (body i))
    → (n i : ℕ) → All IsPlain (range body i n)
unfolding range
range-IsPlain body plain zero i = tt
range-IsPlain body plain (suc n) i =
    All-append _ (body i) _ (plain i) (range-IsPlain body plain n (suc i))

-- The axes that `write_profile` knows.
abbrev pub IsKnown : Axis → Type 0
IsKnown field_bytes = Unit
IsKnown data_records = Unit
IsKnown sections = Unit
IsKnown family_cardinality = Unit
IsKnown _ = ⊥

pub records-IsPlain : (a : Axis) (n : ℕ) → All IsPlain (records a n)
unfolding records
records-IsPlain field_bytes n = field_records-IsPlain n
records-IsPlain data_records n = (
  omega arith,
  All-append _ (range da_body 1 n) _ (range-IsPlain da_body da_body-IsPlain n 1) (omega arith),
)
records-IsPlain sections n = range-IsPlain section_body section_body-IsPlain n 1
records-IsPlain family_cardinality n = (
  omega arith,
  All-append _ (range function_body 1 n) _ (range-IsPlain function_body function_body-IsPlain n 1) (
      All-append _ (range branch_body 1 n) _ (range-IsPlain branch_body branch_body-IsPlain n 1) (
        All-append _ (range mcdc_body 1 n) _ (range-IsPlain mcdc_body mcdc_body-IsPlain n 1) (
          All-append _ (range da_body 1 n) _ (range-IsPlain da_body da_body-IsPlain n 1)
            (omega arith)))),
)
records-IsPlain _ n = tt

ruleset joins = (unlines-append, append_assoc)

-- Every writer succeeds, and leaves its records in order, each with a line feed.
pub write_axis-records :
    (a : Axis) (n : ℕ) → IsKnown a → write_axis a n ≡ ok (unlines (records a n))
unfolding write_axis records
write_axis-records field_bytes n h =
    unfold write_field_profile in emit_all-IsPlain (field_records n) [] (field_records-IsPlain n)
write_axis-records data_records n h =
    unfold write_record_profile in
    rw (emit-unlines [] (codes "SF:resource/records.c") (omega arith)) (
      rw
        (emit_range-IsPlain da_body da_body-IsPlain n 1
          (unlines (codes "SF:resource/records.c" ∷ [])))
        (rw (emit-unlines _ end_of_record (omega arith)) (unfold unlines in simp joins)))
write_axis-records sections n h =
    unfold write_section_profile in emit_range-IsPlain section_body section_body-IsPlain n 1 []
write_axis-records family_cardinality n h =
    unfold write_cardinality_profile in
    rw (emit-unlines [] (codes "SF:resource/cardinality.c") (omega arith)) (
      rw (emit_range-IsPlain function_body function_body-IsPlain n 1 _) (
        rw (emit_range-IsPlain branch_body branch_body-IsPlain n 1 _) (
          rw (emit_range-IsPlain mcdc_body mcdc_body-IsPlain n 1 _) (
            rw (emit_range-IsPlain da_body da_body-IsPlain n 1 _)
              (rw (emit-unlines _ end_of_record (omega arith)) (unfold unlines in simp joins))))))
write_axis-records _ n h = absurd h
