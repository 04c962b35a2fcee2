-- ===== src/Go/Integers.antt =====
-- Package strconv: `ParseInt(s, 0, 64)`, by which package flag reads an int.
pub mod Bounds
pub mod RoundTrip
use noetivela_open.Prelude.{
  ℕ, zero, suc, ◌+◌, ◌-◌, ◌*◌, ◌/◌, ◌%◌, ◌^◌, ◌<◌, Bool, true, false, not, ◌&&◌, ◌||◌, [], ◌∷◌,
  Bytes, ltb, leb, ◌==◌, if◌then◌else◌,
}
use noetivela_open.Policy.Number.{ℤ}

-- ErrSyntax and ErrRange
pub data NumError : Type 0 where
  syntax range : NumError

pub data Parsed {ℓ} (A : Type ℓ) : Type ℓ where
  ok : A → Parsed A
  err : NumError → Parsed A

abbrev pub max_uint64 : ℕ
max_uint64 = 2 ^ 64 - 1

abbrev pub within : ℕ → ℕ → ℕ → Bool
within lo hi c = leb lo c && leb c hi

abbrev pub is_either_case : ℕ → ℕ → Bool
is_either_case l c = c == l || c + 32 == l

-- The value of a digit or a letter; 36 or more, which is no digit of a base, for what is neither.
unfoldable pub digit_value : ℕ → ℕ
digit_value c =
    if within b'0' b'9' c
    then c - b'0'
    else if within b'a' b'z' c
    then c - b'a' + 10
    else if within b'A' b'Z' c
    then c - b'A' + 10
    else 36

-- The loop of `ParseUint` over the digits. An underscore is skipped, and noted.
unfoldable pub scan_uint : ℕ → ℕ → Bytes → Parsed ℕ
scan_uint base n [] = ok n
scan_uint base n (c ∷ s) =
    let skipped = scan_uint base n s in
    let n' = n * base % 2 ^ 64 in
    let n1 = (n' + digit_value c) % 2 ^ 64 in
    let more = scan_uint base n1 s in
    if c == b'_'
    then skipped
    else if leb base (digit_value c)
    then err syntax
    else if leb (max_uint64 / base + 1) n
    then err range
    else if ltb n1 n' || ltb max_uint64 n1
    then err range
    else more

-- The kind of the last byte, as `underscoreOK` keeps it.
pub data Last : Type 0 where
  start digit underscore other : Last

abbrev pub follows_digit : Last → Bool
follows_digit digit = true
follows_digit _ = false

abbrev pub is_underscore : Last → Bool
is_underscore underscore = true
is_underscore _ = false

unfoldable pub underscores_ok : Bool → Last → Bytes → Bool
underscores_ok hex i [] = not (is_underscore i)
underscores_ok hex i (c ∷ s) =
    let at_digit = underscores_ok hex digit s in
    let at_underscore = underscores_ok hex underscore s in
    let at_other = underscores_ok hex other s in
    if within b'0' b'9' c || hex && (within b'a' b'f' c || within b'A' b'F' c)
    then at_digit
    else if c == b'_'
    then follows_digit i && at_underscore
    else not (is_underscore i) && at_other

unfoldable pub has_underscore : Bytes → Bool
has_underscore [] = false
has_underscore (c ∷ s) = c == b'_' || has_underscore s

-- The base of a text and its digits, for the base argument 0; with whether underscores stand well.
pub record Based : Type 0 where
  pub base : ℕ
  pub digits : Bytes
  pub underscores : Bool

abbrev prefixed : ℕ → Bool → Bytes → Based
prefixed base hex s = record { base = base; digits = s; underscores = underscores_ok hex digit s }

unfoldable pub based : Bytes → Based
based [] = record { base = 10; digits = []; underscores = true }
based (a ∷ []) = record {
  base = if a == b'0' then 8 else 10;
  digits = if a == b'0' then [] else a ∷ [];
  underscores = underscores_ok false start (a ∷ []);
}
based (a ∷ b ∷ []) = record {
  base = if a == b'0' then 8 else 10;
  digits = if a == b'0' then b ∷ [] else a ∷ b ∷ [];
  underscores =
      if a == b'0' && (is_either_case b'b' b || is_either_case b'o' b || is_either_case b'x' b)
      then true
      else underscores_ok false start (a ∷ b ∷ []);
}
based (a ∷ b ∷ c ∷ s) =
    if a == b'0'
    then (if is_either_case b'b' b
        then prefixed 2 false (c ∷ s)
        else if is_either_case b'o' b
        then prefixed 8 false (c ∷ s)
        else if is_either_case b'x' b
        then prefixed 16 true (c ∷ s)
        else record {
          base = 8;
          digits = b ∷ c ∷ s;
          underscores = underscores_ok false start (a ∷ b ∷ c ∷ s);
        })
    else record {
      base = 10;
      digits = a ∷ b ∷ c ∷ s;
      underscores = underscores_ok false start (a ∷ b ∷ c ∷ s);
    }

abbrev pub accepted : Bool → Parsed ℕ → Parsed ℕ
accepted true r = r
accepted false (ok n) = err syntax
accepted false (err e) = err e

-- `ParseUint(s, 0, 64)`
unfoldable pub parse_uint : Bytes → Parsed ℕ
parse_uint [] = err syntax
parse_uint (c ∷ s) =
    let b = based (c ∷ s) in
    accepted (not (has_underscore b.digits) || b.underscores) (scan_uint b.base 0 b.digits)

-- `-n`
abbrev pub negated : ℕ → ℤ
negated zero = ℤ.pos 0
negated (suc n) = ℤ.negsuc n

abbrev pub positive : Parsed ℕ → Parsed ℤ
positive (ok n) = if leb (2 ^ 63) n then err range else ok (ℤ.pos n)
positive (err e) = err e

abbrev pub negative : Parsed ℕ → Parsed ℤ
negative (ok n) = if ltb (2 ^ 63) n then err range else ok (negated n)
negative (err e) = err e

unfoldable pub parse_int : Bytes → Parsed ℤ
parse_int [] = err syntax
parse_int (c ∷ s) =
    if c == b'+'
    then positive (parse_uint s)
    else if c == b'-'
    then negative (parse_uint s)
    else positive (parse_uint (c ∷ s))
