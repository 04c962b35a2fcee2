-- ===== src/Policy/Number.antt =====
-- sdk/go/policy/parser.go: `parseNumber` and `parseInteger`, with strconv.ParseFloat.
-- A float64 is a value of a parameter: `of_decimal m k` is the float64 nearest to m / 10^k, or
-- `none` where that is out of range, and `to_int` is the conversion int(x).
use noetivela_open.Prelude.{
  ℕ, ◌+◌, ◌-◌, ◌*◌, Bool, true, false, Option, none, some, [], ◌∷◌, Bytes, ◌==◌, if◌then◌else◌,
}
use noetivela_open.Policy.Token.{
  is_number, kind, text, pos as position, expected_number, expected_integer, number_syntax,
  number_range, is_digit,
}
use noetivela_open.Policy.Outcome.{Parser, ◌>>=◌, pure, fail, take}

-- Go's int. `negsuc n` is -(n + 1).
pub data ℤ : Type 0 where
  pos : ℕ → ℤ
  negsuc : ℕ → ℤ

pub record Floats : Type 1 where
  pub Float : Type 0
  pub of_decimal : ℕ → ℕ → Option Float
  pub to_int : Float → ℤ

-- The decimals that strconv.ParseFloat reads, on texts of digits and points, which alone the lexer
-- makes number tokens of: a digit at least and a point at most. `m` and `k` are the digits read and
-- how many of them stand behind the point.
unfoldable pub scan_decimal : ℕ → ℕ → Bool → Bool → Bytes → Option (ℕ × ℕ)
scan_decimal m k dotted digits [] = if digits then some (m, k) else none
scan_decimal m k dotted digits (c ∷ cs) =
    let behind_point = if dotted then none else scan_decimal m k true digits cs in
    let with_digit =
      scan_decimal (m * 10 + (c - b'0')) (if dotted then k + 1 else k) dotted true cs in
    if c == b'.' then behind_point else if is_digit c then with_digit else none

unfoldable pub read_decimal : Bytes → Option (ℕ × ℕ)
read_decimal = scan_decimal 0 0 false false

module _ (fl : Floats) where
  open fl use {Float, of_decimal, to_int}

  abbrev pub rounded : Bytes → Option Float → Parser Float
  rounded s none = fail (number_range s)
  rounded s (some x) = pure x

  abbrev pub parsed : Bytes → Option (ℕ × ℕ) → Parser Float
  parsed s none = fail (number_syntax s)
  parsed s (some (m, k)) = rounded s (of_decimal m k)

  unfoldable pub parse_float : Bytes → Parser Float
  parse_float s = parsed s (read_decimal s)

  unfoldable pub parse_number : Parser Float
  parse_number = do
    t ← take
    if is_number (kind t)
        then parse_float (text t)
        else fail (expected_number (position t) (text t))

  unfoldable pub parse_integer : Parser ℤ
  parse_integer = do
    t ← take
    let truncated : Parser ℤ = parse_float (text t) >>= λ x. pure (to_int x)
    if is_number (kind t) then truncated else fail (expected_integer (position t) (text t))
