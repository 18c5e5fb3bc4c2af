-- ===== src/Observer/Environment/RoundTrip.antt =====
-- The environment that is written is read back.
use ferricov.Base.{◌≡◌, false}
use ferricov.Base.Bytes.{Bytes, codes, starts_with, Lacks}

-- A name that a line can carry.
abbrev pub IsName : Bytes → Type 0
IsName k = Lacks b'=' k × (starts_with (codes "#") k ≡ false)
