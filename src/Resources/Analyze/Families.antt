-- ===== src/Resources/Analyze/Families.antt =====
-- What `analyze_input` counts of each generated family of records.
use ferricov.Base.{ℕ, suc, ◌+◌, ◌-◌, ◌≡◌, ap, [], ◌∷◌, ◌++◌, some, arith, All, All-append}
use ferricov.Base.Bytes.{Bytes, codes, Lacks, split_at_most, split_at_most_first}
use ferricov.Base.Decimal.{decimal, decimal-injective, decimal-IsDigit, IsDigit}
use ferricov.Resources.Generate.{da_body, function_body, branch_body, mcdc_body}
use ferricov.Resources.Analyze.{Counts, Key, add, tally, absorb, dispatch}
use ferricov.Resources.Analyze.Sets.{Holds, Holds-add, add_again}
use ferricov.Resources.Analyze.Scan.{scan, Reaches}

abbrev pub line_key : Bytes → ℕ → Key
line_key source j = source ∷ decimal (suc j) ∷ []

abbrev pub function_key : Bytes → ℕ → Key
function_key source j = source ∷ decimal j ∷ []

abbrev pub branch_key : Bytes → ℕ → Key
branch_key source j =
    source ∷ decimal (suc j) ∷ codes "0" ∷ (codes "branch_" ++ decimal (suc j)) ∷ []

abbrev pub condition_key : Bytes → ℕ → Key
condition_key source j =
    source ∷ decimal (suc j) ∷ codes "1" ∷ codes "0" ∷ (codes "condition_" ++ decimal (suc j)) ∷ []

-- Inside the one section of `source`, with so many keys of each family.
pub record Inside (source : Bytes) (l f b m : ℕ) (c : Counts) : Type 0 where
  pub here : c.current_source ≡ some source
  pub one_section : c.section_count ≡ 1
  pub data_records : c.data_record_count ≡ l
  pub lines : Holds (line_key source) l c.line_keys
  pub functions : Holds (function_key source) f c.function_keys
  pub branches : Holds (branch_key source) b c.branch_keys
  pub conditions : Holds (condition_key source) m c.mcdc_keys

digits-Lacks-comma : (s : Bytes) → All IsDigit s → Lacks b',' s
digits-Lacks-comma [] h = tt
digits-Lacks-comma (c ∷ s) h = (omega arith, digits-Lacks-comma s h.1)

-- The first field of what a number opens.
pub number_first :
    (n i : ℕ) (s : Bytes)
    → split_at_most b',' (suc n) (decimal i ++ b',' ∷ s) ≡ decimal i ∷ split_at_most b',' n s
number_first n i s =
    split_at_most_first b',' n (decimal i) s (digits-Lacks-comma (decimal i) (decimal-IsDigit i))

second_of : Key → Bytes
second_of (a ∷ b ∷ rest) = b
second_of _ = []

line_key-injective : (source : Bytes) (i j : ℕ) → line_key source i ≡ line_key source j → i ≡ j
unfolding second_of
line_key-injective source i j e =
    let q : suc i ≡ suc j = decimal-injective (suc i) (suc j) (ap second_of e) in omega arith

function_key-injective :
    (source : Bytes) (i j : ℕ) → function_key source i ≡ function_key source j → i ≡ j
unfolding second_of
function_key-injective source i j e = decimal-injective i j (ap second_of e)

branch_key-injective :
    (source : Bytes) (i j : ℕ) → branch_key source i ≡ branch_key source j → i ≡ j
unfolding second_of
branch_key-injective source i j e =
    let q : suc i ≡ suc j = decimal-injective (suc i) (suc j) (ap second_of e) in omega arith

condition_key-injective :
    (source : Bytes) (i j : ℕ) → condition_key source i ≡ condition_key source j → i ≡ j
unfolding second_of
condition_key-injective source i j e =
    let q : suc i ≡ suc j = decimal-injective (suc i) (suc j) (ap second_of e) in omega arith

-- The state in which a record is dispatched.
abbrev pub seen : Bytes → Counts → Counts
seen r c = tally r (absorb (r ++ b'\n' ∷ []) c)

module _ (source : Bytes) (l f b m : ℕ) (c : Counts) where
  pub da-Inside :
      Inside source l f b m c → Reaches (da_body (suc l)) c (Inside source (suc l) f b m)
  unfolding scan dispatch split_at_most
  da-Inside h =
      let t : Counts = seen (codes "DA:" ++ (decimal (suc l) ++ codes ",1")) c in
      (
        record t {
          data_record_count = c.data_record_count + 1;
          line_keys = add (line_key source l) c.line_keys;
        },
        rw h.here (rw (number_first 0 (suc l) (codes "1"))),
        record {
          here = h.here;
          one_section = h.one_section;
          data_records = omega (arith, h.data_records);
          lines = Holds-add (line_key source) (line_key-injective source) l c.line_keys h.lines;
          functions = h.functions;
          branches = h.branches;
          conditions = h.conditions;
        },
      )

  pub function-Inside :
      Inside source l f b m c → Reaches (function_body (suc f)) c (Inside source l (suc f) b m)
  unfolding scan dispatch split_at_most
  function-Inside h =
      let e : suc f - 1 ≡ f = omega arith in
      let c1 : Counts =
        record (seen
          (codes "FNL:"
            ++ (decimal f ++ (codes "," ++ (decimal (suc f) ++ (codes "," ++ decimal (suc f))))))
          c) { function_keys = add (function_key source f) c.function_keys } in
      (
        seen (codes "FNA:" ++ (decimal f ++ (codes ",1,function_" ++ decimal (suc f)))) c1,
        rw (e, h.here) (rw (number_first 0 f)),
        record {
          here = h.here;
          one_section = h.one_section;
          data_records = h.data_records;
          lines = h.lines;
          functions =
              Holds-add (function_key source) (function_key-injective source) f c.function_keys
                h.functions;
          branches = h.branches;
          conditions = h.conditions;
        },
      )

  pub branch-Inside :
      Inside source l f b m c → Reaches (branch_body (suc b)) c (Inside source l f (suc b) m)
  unfolding scan dispatch split_at_most
  branch-Inside h =
      let d : Bytes = decimal (suc b) in
      let lacks : Lacks b',' (codes "branch_" ++ d) =
        All-append _ (codes "branch_") d (omega arith)
          (digits-Lacks-comma d (decimal-IsDigit (suc b))) in
      let t : Counts = seen (codes "BRDA:" ++ (d ++ (codes ",0,branch_" ++ (d ++ codes ",1")))) c in
      (
        record t { branch_keys = add (branch_key source b) c.branch_keys },
        rw h.here (
            rw (number_first 2 (suc b))
              (rw (split_at_most_first b',' 0 (codes "branch_" ++ d) (codes "1") lacks))),
        record {
          here = h.here;
          one_section = h.one_section;
          data_records = h.data_records;
          lines = h.lines;
          functions = h.functions;
          branches =
              Holds-add (branch_key source) (branch_key-injective source) b c.branch_keys
                h.branches;
          conditions = h.conditions;
        },
      )

  pub condition-Inside :
      Inside source l f b m c → Reaches (mcdc_body (suc m)) c (Inside source l f b (suc m))
  unfolding scan dispatch split_at_most
  condition-Inside h =
      let d : Bytes = decimal (suc m) in
      let c1 : Counts =
        record (seen (codes "MCDC:" ++ (d ++ (codes ",1,t,1,0,condition_" ++ d))) c) {
          mcdc_keys = add (condition_key source m) c.mcdc_keys;
        } in
      (
        record (seen (codes "MCDC:" ++ (d ++ (codes ",1,f,0,0,condition_" ++ d))) c1) {
          mcdc_keys = add (condition_key source m) c.mcdc_keys;
        },
        rw h.here (
            rw (number_first 4 (suc m))
              (rw (number_first 4 (suc m)) (rw (add_again (condition_key source m) c.mcdc_keys)))),
        record {
          here = h.here;
          one_section = h.one_section;
          data_records = h.data_records;
          lines = h.lines;
          functions = h.functions;
          branches = h.branches;
          conditions =
              Holds-add (condition_key source) (condition_key-injective source) m c.mcdc_keys
                h.conditions;
        },
      )
