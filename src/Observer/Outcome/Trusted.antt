-- ===== src/Observer/Outcome/Trusted.antt =====
-- What a written status attests, and that no live child is left behind.
use ferricov.Base.{ℕ, ◌+◌, ◌≡◌, true, false, Option, some, none, ◌⊎◌}
use ferricov.Base.Bytes.{Bytes, codes, starts_with}
use ferricov.Observer.Loop.{Observation}
use ferricov.Observer.Outcome.{climbs, is_sentinel, is_empty, Shape, code_of, Status}

-- One of an exit status and a signal, and a signal after a timeout.
abbrev pub IsOutcome : Shape → Type 0
IsOutcome s =
    ((code : ℕ) × (s.exit_status ≡ some code)
      × (s.sig_num ≡ none)
      × (s.wait_code ≡ some code)
      × (s.timed_out ≡ false))
    ⊎ ((g : ℕ) × (s.exit_status ≡ none) × (s.sig_num ≡ some g) × (s.wait_code ≡ some (128 + g)))

pub record IsAttested (o : Observation) : Type 0 where
  pub has_argv : is_empty o.argv ≡ false
  pub exe_is_absolute : starts_with (codes "/") o.exe ≡ true
  pub cwd_is_absolute : starts_with (codes "/") o.cwd ≡ true
  pub exe_stays : climbs o.exe ≡ false
  pub cwd_stays : climbs o.cwd ≡ false
  pub is_hashed : is_sentinel o.sha ≡ false

-- What a status attests.
abbrev pub Attests : Option Status → Option ℕ → Type 0
Attests none code = Unit {0}
Attests (some s) code = IsAttested s.seen × IsOutcome s.shape × (code ≡ some (code_of s.shape))
