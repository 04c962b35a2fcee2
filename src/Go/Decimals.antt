-- ===== src/Go/Decimals.antt =====
-- Package fmt: the verb `%d`.
use noetivela_open.Prelude.{ℕ, zero, suc, ◌+◌, ◌/◌, ◌%◌, [], ◌∷◌, Bytes, ltb, if◌then◌else◌}
use noetivela_open.Policy.Number.{ℤ}

-- A number has at most as many digits as its value and one more.
unfoldable pub digits : ℕ → ℕ → Bytes → Bytes
digits zero n rest = rest
digits (suc f) n rest =
    let more = digits f (n / 10) ((b'0' + n % 10) ∷ rest) in
    if ltb n 10 then (b'0' + n) ∷ rest else more

unfoldable pub decimal : ℤ → Bytes
decimal (ℤ.pos n) = digits (n + 1) n []
decimal (ℤ.negsuc n) = b'-' ∷ digits (n + 2) (n + 1) []
