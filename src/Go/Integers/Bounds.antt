-- ===== src/Go/Integers/Bounds.antt =====
-- Package strconv: the range of `ParseInt` on 64 bits.
use noetivela_open.Prelude.{◌^◌, ◌<◌}
use noetivela_open.Policy.Number.{ℤ}

-- int64
abbrev pub IsInt64 : ℤ → Type 0
IsInt64 (ℤ.pos n) = n < 2 ^ 63
IsInt64 (ℤ.negsuc n) = n < 2 ^ 63
