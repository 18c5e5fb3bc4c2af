-- ===== src/Tracefile/Section.antt =====
-- The section models of validation_common.py, and the record bodies that both readers take apart.
use ferricov.Base.{ℕ, Bool, List, [], ◌∷◌, ◌++◌, Option, none, some, if◌then◌else◌}
use ferricov.Base.Bytes.{Bytes, codes, bytes_eq, split_at_most, starts_with}

abbrev pub Triple : Type 0
Triple = Bytes × Bytes × Bytes

pub record Section : Type 0 where
  pub tn : Bytes
  pub sf : Option Bytes
  pub ver : Option Bytes
  pub functions : List Triple
  pub aliases : List Triple
  pub branches : List (Bytes × Bytes × Bytes × Bytes)
  pub mcdc : List (Bytes × Bytes × Bytes × Bytes × Bytes × Bytes)
  pub das : List (Bytes × Bytes × Option Bytes)
  pub summaries : List (Bytes × Bytes)

abbrev pub new_section : Bytes → Section
new_section tn = record {
  tn = tn;
  sf = none;
  ver = none;
  functions = [];
  aliases = [];
  branches = [];
  mcdc = [];
  das = [];
  summaries = [];
}

-- `if len(parts) == 3: append(...)`
abbrev pub append_triple : List Bytes → List Triple → List Triple
append_triple (a ∷ b ∷ c ∷ []) ts = ts ++ (a, b, c) ∷ []
append_triple _ ts = ts

-- `if len(parts) >= 4`: the first four
abbrev pub append_branch :
    List Bytes → List (Bytes × Bytes × Bytes × Bytes) → List (Bytes × Bytes × Bytes × Bytes)
append_branch (a ∷ b ∷ c ∷ d ∷ rest) bs = bs ++ (a, b, c, d) ∷ []
append_branch _ bs = bs

abbrev pub append_mcdc :
    List Bytes
    → List (Bytes × Bytes × Bytes × Bytes × Bytes × Bytes)
    → List (Bytes × Bytes × Bytes × Bytes × Bytes × Bytes)
append_mcdc (a ∷ b ∷ c ∷ d ∷ e ∷ f ∷ []) ms = ms ++ (a, b, c, d, e, f) ∷ []
append_mcdc _ ms = ms

abbrev hits_of : Bytes → List Bytes → Bytes × Bytes × Option Bytes
hits_of line_no (count ∷ checksum ∷ rest) = (line_no, count, some checksum)
hits_of line_no (count ∷ []) = (line_no, count, none)
hits_of line_no [] = (line_no, [], none)

-- The body of a DA record; one with no comma is dropped.
abbrev pub append_da :
    List Bytes → List (Bytes × Bytes × Option Bytes) → List (Bytes × Bytes × Option Bytes)
append_da (line_no ∷ rest ∷ more) ds = ds ++ hits_of line_no (split_at_most b',' 1 rest) ∷ []
append_da _ ds = ds

-- `summaries[tag] = value`
unfoldable pub put : Bytes → Bytes → List (Bytes × Bytes) → List (Bytes × Bytes)
put tag value [] = (tag, value) ∷ []
put tag value ((t, v) ∷ rest) =
    if bytes_eq t tag then (t, value) ∷ rest else (t, v) ∷ put tag value rest

-- `tag, value = line.split(b":", 1)`, for a line with a colon
abbrev pub put_summary : List Bytes → List (Bytes × Bytes) → List (Bytes × Bytes)
put_summary (tag ∷ value ∷ rest) m = put tag value m
put_summary _ m = m

abbrev pub summary_tags : List Bytes
summary_tags =
    codes "FNF:"
    ∷ codes "FNH:"
    ∷ codes "BRF:"
    ∷ codes "BRH:"
    ∷ codes "MCF:"
    ∷ codes "MCH:"
    ∷ codes "LF:"
    ∷ codes "LH:"
    ∷ []

-- `line.startswith(tags)` for a tuple of prefixes
unfoldable pub starts_with_any : List Bytes → Bytes → Bool
starts_with_any [] line = Bool.false
starts_with_any (p ∷ ps) line = if starts_with p line then Bool.true else starts_with_any ps line

abbrev pub end_tag : Bytes
end_tag = codes "end_of_record"

-- `line[n:]`
abbrev pub slice_from : ℕ → Bytes → Bytes
slice_from ℕ.zero s = s
slice_from (ℕ.suc n) [] = []
slice_from (ℕ.suc n) (c ∷ s) = slice_from n s
