-- ===== src/Tests/Argv.antt =====
-- Inspector command lines, for compat/fixtures/m0-tracefiles.
use ferricov.Base.{◌≡◌, refl, List, [], ◌∷◌, ◌++◌, ok, All}
use ferricov.Base.Bytes.{Bytes, codes, bytes_eq, starts_with}
use ferricov.Json.Value.{string, array, no_items, item, Members, no_members, member}
use ferricov.Tracefile.Argv
use ferricov.Tracefile.Argv.Reads.{
  Word, option, plain, IsWord, spell, semantic_inputs_from_argv-spell,
}

abbrev words : List Word
words = option (codes "--ignore") (codes "empty") ∷ plain (codes "a.info") ∷ []

abbrev last : List Bytes
last = codes "-b.info" ∷ []

words-IsWord : All IsWord words
unfolding bytes_eq starts_with
words-IsWord = (refl, ((refl, refl), tt))

abbrev argv : List Bytes
argv = Argv.inspector ++ spell words (codes "--" ∷ last)

semantic_inputs_from_argv-spell_example :
    Argv.semantic_inputs_from_argv argv ≡ ok (codes "a.info" ∷ codes "-b.info" ∷ [])
semantic_inputs_from_argv-spell_example =
    semantic_inputs_from_argv-spell words last words-IsWord refl

abbrev document : Members
document =
    member (codes "inputs")
      (array (item (string (codes "a.info")) (item (string (codes "-b.info")) no_items))) no_members
