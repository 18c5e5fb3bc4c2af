-- ===== src/Tracefile/Metadata.antt =====
-- `classify_record` and `data_metadata` of compat/fixtures/m0-tracefiles/generate.py.
pub mod Endings
pub mod Counts
use ferricov.Base.{
  ℕ, suc, ◌+◌, ◌≡◌, Bool, true, false, not, ◌&&◌, ◌||◌, List, [], ◌∷◌, ◌++◌, Option, none, some,
  if◌then◌else◌, length, leb, ltb, ◌==◌,
}
use ferricov.Base.Bytes.{Bytes, codes, bytes_eq, has_byte, mem, split, starts_with}
use ferricov.Base.Order.{bytes_lt}

abbrev is_blank : ℕ → Bool
is_blank c = (c == 32) || (leb 9 c && leb c 13)

abbrev trim_cons : ℕ → Bytes → Bytes
trim_cons c [] = if is_blank c then [] else c ∷ []
trim_cons c (d ∷ s) = c ∷ d ∷ s

-- line.rstrip(b" \t\r\n\f\v")
unfoldable pub normalized : Bytes → Bytes
normalized [] = []
normalized (c ∷ s) = trim_cons c (normalized s)

abbrev known_tags : List Bytes
known_tags =
    codes "TN"
    ∷ codes "SF"
    ∷ codes "KF"
    ∷ codes "VER"
    ∷ codes "FNL"
    ∷ codes "FNA"
    ∷ codes "FN"
    ∷ codes "FNDA"
    ∷ codes "FNF"
    ∷ codes "FNH"
    ∷ codes "BRDA"
    ∷ codes "BRF"
    ∷ codes "BRH"
    ∷ codes "MCDC"
    ∷ codes "MCF"
    ∷ codes "MCH"
    ∷ codes "DA"
    ∷ codes "LF"
    ∷ codes "LH"
    ∷ []

abbrev summary_names : List Bytes
summary_names =
    codes "FNF"
    ∷ codes "FNH"
    ∷ codes "BRF"
    ∷ codes "BRH"
    ∷ codes "MCF"
    ∷ codes "MCH"
    ∷ codes "LF"
    ∷ codes "LH"
    ∷ []

-- the loop over KNOWN_TAGS
unfoldable pub tag_of : List Bytes → Bytes → Bytes
unfolding starts_with
tag_of [] line = codes "unknown"
tag_of (tag ∷ tags) line =
    let later = tag_of tags line in
    if starts_with (tag ++ codes ":") line
    then tag
    else if mem tag summary_names && starts_with tag line
    then tag
    else later

abbrev kind_of : Bytes → Option Bytes
kind_of [] = none
kind_of (c ∷ s) =
    if starts_with (codes "#") (c ∷ s)
    then some (codes "comment")
    else if starts_with (codes "end_of_record") (c ∷ s)
    then some (codes "end_of_record")
    else some (tag_of known_tags (c ∷ s))

unfoldable pub classify_record : Bytes → Option Bytes
unfolding normalized tag_of
classify_record line = kind_of (normalized line)

-- `counts[kind] = counts.get(kind, 0) + 1`
unfoldable pub bump : Bytes → List (Bytes × ℕ) → List (Bytes × ℕ)
unfolding bytes_eq
bump kind [] = (kind, 1) ∷ []
bump kind ((k, n) ∷ counts) =
    let later = bump kind counts in if bytes_eq k kind then (k, n + 1) ∷ counts else (k, n) ∷ later

abbrev pub is_comment : Bytes → Bool
is_comment kind = bytes_eq kind (codes "comment")

-- `counts` and `record_count`
abbrev pub Tally : Type 0
Tally = List (Bytes × ℕ) × ℕ

abbrev pub add_kind : Option Bytes → Tally → Tally
add_kind none t = t
add_kind (some kind) (counts, n) = (bump kind counts, (if is_comment kind then n else n + 1))

unfoldable pub tally : List Bytes → Tally → Tally
unfolding classify_record bump
tally [] t = t
tally (line ∷ lines) t = tally lines (add_kind (classify_record line) t)

-- `lines.pop()` where the data ends with a newline
unfoldable pub drop_last : List Bytes → List Bytes
drop_last [] = []
drop_last (l ∷ []) = []
drop_last (l ∷ k ∷ ls) = l ∷ drop_last (k ∷ ls)

unfoldable pub ends_with : ℕ → Bytes → Bool
ends_with b [] = false
ends_with b (c ∷ []) = c == b
ends_with b (c ∷ d ∷ s) = ends_with b (d ∷ s)

abbrev pub data_lines : Bytes → List Bytes
data_lines d = if ends_with 10 d then drop_last (split 10 d) else split 10 d

-- data.count(b"\n")
unfoldable pub count_lf : Bytes → ℕ
count_lf [] = 0
count_lf (c ∷ s) = let n = count_lf s in if c == 10 then n + 1 else n

-- data.count(b"\r\n"); `after_cr` says that the byte before was a carriage return
unfoldable pub count_crlf : Bool → Bytes → ℕ
count_crlf after_cr [] = 0
count_crlf after_cr (c ∷ s) =
    let n = count_crlf (c == 13) s in if after_cr && (c == 10) then n + 1 else n

pub data Ending : Type 0 where
  no_ending crlf lf mixed : Ending

abbrev pub ending : ℕ → ℕ → Ending
ending lf_count crlf_count =
    if lf_count == 0
    then no_ending
    else if crlf_count == lf_count
    then crlf
    else if crlf_count == 0
    then lf
    else mixed

unfoldable pub line_endings : Bytes → Ending
unfolding count_lf count_crlf
line_endings d = ending (count_lf d) (count_crlf false d)

abbrev is_lead : ℕ → Bool
is_lead c = ltb c 128 || (leb 194 c && leb c 244)

-- how many bytes follow a lead byte, and the bounds of the first of them
abbrev following : ℕ → ℕ
following c = if ltb c 128 then 0 else if ltb c 224 then 1 else if ltb c 240 then 2 else 3

abbrev lowest : ℕ → ℕ
lowest c = if c == 224 then 160 else if c == 240 then 144 else 128

abbrev highest : ℕ → ℕ
highest c = if c == 237 then 159 else if c == 244 then 143 else 191

unfoldable utf8_from : ℕ → ℕ → ℕ → Bytes → Bool
utf8_from ℕ.zero low high [] = true
utf8_from (suc n) low high [] = false
utf8_from ℕ.zero low high (c ∷ s) =
    let rest = utf8_from (following c) (lowest c) (highest c) s in is_lead c && rest
utf8_from (suc n) low high (c ∷ s) =
    let rest = utf8_from n 128 191 s in (leb low c && leb c high) && rest

-- Whether bytes.decode("utf-8") returns: no overlong form, surrogate or code point above 10FFFF.
unfoldable pub is_utf8 : Bytes → Bool
unfolding utf8_from
is_utf8 d = utf8_from 0 128 191 d

-- Insertion by key, for sorted(counts.items()).
unfoldable pub insert_count : Bytes × ℕ → List (Bytes × ℕ) → List (Bytes × ℕ)
insert_count (k, n) [] = (k, n) ∷ []
insert_count (k, n) ((l, m) ∷ counts) =
    let later = insert_count (k, n) counts in
    if bytes_lt l k then (l, m) ∷ later else (k, n) ∷ (l, m) ∷ counts

unfoldable pub sort_counts : List (Bytes × ℕ) → List (Bytes × ℕ)
sort_counts [] = []
sort_counts (c ∷ counts) = insert_count c (sort_counts counts)

pub record Metadata : Type 0 where
  pub sha256 : Bytes
  pub byte_size : ℕ
  pub record_count : ℕ
  pub record_counts : List (Bytes × ℕ)
  pub ending_style : Ending
  pub final_newline : Bool
  pub valid_utf8 : Bool
  pub contains_nul : Bool

abbrev counted : Bytes → Tally
counted d = tally (data_lines d) ([], 0)

abbrev pub counts_of : Tally → List (Bytes × ℕ)
counts_of (counts, n) = counts

abbrev pub records_of : Tally → ℕ
records_of (counts, n) = n

unfoldable pub data_metadata : (Bytes → Bytes) → Bytes → Metadata
unfolding tally sort_counts line_endings is_utf8
data_metadata sha256 d = record {
  sha256 = sha256 d;
  byte_size = length d;
  record_count = records_of (counted d);
  record_counts = sort_counts (counts_of (counted d));
  ending_style = line_endings d;
  final_newline = ends_with 10 d;
  valid_utf8 = is_utf8 d;
  contains_nul = has_byte 0 d;
}
