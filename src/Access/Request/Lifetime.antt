-- ===== src/Access/Request/Lifetime.antt =====
-- How long a grant lives, as a decider states it (src/access/request/mod.rs).
use skarbiec.Prelude.{
  ℕ, String, Bool, true, false, Option, none, some, ltb, if◌then◌else◌, Result, ok, err,
}
use skarbiec.Prelude.Text.{parse_u64}

pub data Lifetime : Type 0 where
  seconds : ℕ → Lifetime
  until_revoked : Lifetime

pub data BadLifetime : Type 0 where
  exclusive not_whole_seconds no_second not_stated : BadLifetime

abbrev some_seconds : Option ℕ → Result BadLifetime Lifetime
some_seconds none = err not_whole_seconds
some_seconds (some n) = if ltb 0 n then ok (seconds n) else err no_second

-- The two flags: `--ttl-seconds` as it was given, and whether `--until-revoked` is set.
unfoldable pub from_flags : Option String → Bool → Result BadLifetime Lifetime
from_flags (some raw) true = err exclusive
from_flags none true = ok until_revoked
from_flags (some raw) false = some_seconds (parse_u64 raw)
from_flags none false = err not_stated

abbrev min : ℕ → ℕ → ℕ
min a b = if ltb b a then b else a

unfoldable pub narrower : Lifetime → Lifetime → Lifetime
narrower (seconds a) (seconds b) = seconds (min a b)
narrower (seconds a) until_revoked = seconds a
narrower until_revoked l = l
