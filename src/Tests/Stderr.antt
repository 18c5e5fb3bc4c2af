-- ===== src/Tests/Stderr.antt =====
-- Diagnostics of the inspector, for compat/fixtures/m0-tracefiles.
use ferricov.Base.{◌≡◌, refl, List, [], ◌∷◌, map, some, err}
use ferricov.Base.Bytes.{Bytes, codes, bytes_eq, starts_with}
use ferricov.Base.Same.{list_test}
use ferricov.Tracefile.Stderr
use ferricov.Tracefile.Stderr.Reads.{solid, validate_semantic_stderr-solid}

abbrev warning : Bytes
warning = codes "inspect_model.pl: WARNING: (empty) no records"

abbrev warned : List Stderr.Diagnostic
warned = (codes "WARNING", codes "empty") ∷ []

validate_semantic_stderr-solid_example :
    (expected : List Stderr.Diagnostic) × (some warned ≡ some expected)
    × (map Stderr.header (solid (warning ∷ codes "\tmore" ∷ [])) ≡ map some expected)
unfolding Stderr.validate_semantic_stderr Stderr.read Stderr.header list_test bytes_eq
validate_semantic_stderr-solid_example =
    validate_semantic_stderr-solid (some warned) (warning ∷ codes "\tmore" ∷ []) refl

orphan_first : Stderr.validate_semantic_stderr (some []) (codes "\torphan" ∷ []) ≡ err Stderr.orphan
unfolding Stderr.validate_semantic_stderr Stderr.read starts_with
orphan_first = refl
