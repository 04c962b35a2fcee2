-- ===== src/Go/Integers/RoundTrip.antt =====
-- Package strconv: `ParseInt` on what `%d` prints.
use noetivela_open.Prelude.{
  ℕ, zero, suc, ◌+◌, ◌*◌, ◌/◌, ◌%◌, ◌^◌, ◌≤◌, ◌<◌, ◌≡◌, refl, ◌∙◌, ap, false, Bool-cases, [], ◌∷◌,
  Bytes, ltb, leb, ◌==◌, arith, inl, inr,
}
use noetivela_open.Policy.Number.{ℤ}
use noetivela_open.Go.Decimals.{digits, decimal}
use noetivela_open.Go.Integers.{
  ok, max_uint64, digit_value, scan_uint, has_underscore, based, negated, positive, negative,
  parse_uint, parse_int,
}
use noetivela_open.Go.Integers.Bounds.{IsInt64}

digit_value-digit : (d : ℕ) → d < 10 → digit_value (b'0' + d) ≡ d
unfolding digit_value
digit_value-digit d h = ground arith

-- A digit goes into the number, if it fits.
scan_uint-digit :
    (n d m : ℕ) (s : Bytes)
    → d < 10
    → m ≤ max_uint64
    → n * 10 + d ≡ m
    → scan_uint 10 n ((b'0' + d) ∷ s) ≡ scan_uint 10 m s
unfolding scan_uint
scan_uint-digit n d m s h k e =
    let v = digit_value-digit d h in
    let whole : n * 10 % 18446744073709551616 ≡ n * 10 = omega arith in
    let next : (n * 10 + d) % 18446744073709551616 ≡ m = omega arith in
    let no_underscore : ((b'0' + d) == b'_') ≡ false = ground arith in
    let is_digit : leb 10 d ≡ false = ground arith in
    let below : leb 1844674407370955162 n ≡ false = ground arith in
    let grows : ltb m (n * 10) ≡ false = ground arith in
    let fits : ltb max_uint64 m ≡ false = ground arith in
    rw (no_underscore, v, is_digit, below, whole) (rw next (rw (grows, fits) refl))

scan_uint-digits :
    (f n : ℕ) (rest : Bytes)
    → n < f
    → n ≤ max_uint64
    → scan_uint 10 0 (digits f n rest) ≡ scan_uint 10 n rest
unfolding digits
scan_uint-digits zero n rest h k = absurd (omega arith)
scan_uint-digits (suc f) n rest h k = elim (Bool-cases (ltb n 10)) [
  | inl small ↦
      let below : n < 10 = ground arith in
      rw small (scan_uint-digit 0 n n rest below k (omega arith))
  | inr large ↦
      let above : 10 ≤ n = ground arith in
      rw large (
        scan_uint-digits f (n / 10) ((b'0' + n % 10) ∷ rest) (omega arith) (omega arith)
        ∙ scan_uint-digit (n / 10) (n % 10) n rest (omega arith) k (omega arith))
]

has_underscore-digits :
    (f n : ℕ) (rest : Bytes)
    → has_underscore rest ≡ false
    → has_underscore (digits f n rest) ≡ false
unfolding digits has_underscore
has_underscore-digits zero n rest h = h
has_underscore-digits (suc f) n rest h = elim (Bool-cases (ltb n 10)) [
  | inl small ↦ let plain : ((b'0' + n) == b'_') ≡ false = ground arith in rw (small, plain) h
  | inr large ↦
      let plain : ((b'0' + n % 10) == b'_') ≡ false = ground arith in
      rw large (has_underscore-digits f (n / 10) ((b'0' + n % 10) ∷ rest) (rw plain h))
]

-- The first digit is not 0.
record Starts (s : Bytes) : Type 0 where
  first : ℕ
  rest : Bytes
  splits : s ≡ first ∷ rest
  at_least : b'1' ≤ first
  at_most : first ≤ b'9'

digits-Starts : (f n : ℕ) (rest : Bytes) → 0 < n → n < f → Starts (digits f n rest)
unfolding digits
digits-Starts zero n rest h k = absurd (omega arith)
digits-Starts (suc f) n rest h k = elim (Bool-cases (ltb n 10)) [
  | inl small ↦
      let below : n < 10 = ground arith in
      rw small (record {
        first = b'0' + n;
        rest = rest;
        splits = refl;
        at_least = omega arith;
        at_most = omega arith;
      })
  | inr large ↦
      let above : 10 ≤ n = ground arith in
      rw large (digits-Starts f (n / 10) ((b'0' + n % 10) ∷ rest) (omega arith) (omega arith))
]

based-digits :
    (a : ℕ) (s : Bytes)
    → (a == b'0') ≡ false
    → ((based (a ∷ s)).base ≡ 10) × ((based (a ∷ s)).digits ≡ a ∷ s)
unfolding based
based-digits a [] h = rw h (refl, refl)
based-digits a (b ∷ []) h = rw h (refl, refl)
based-digits a (b ∷ c ∷ s) h = rw h (refl, refl)

parse_uint-first :
    (a : ℕ) (s : Bytes)
    → (a == b'0') ≡ false
    → has_underscore (a ∷ s) ≡ false
    → parse_uint (a ∷ s) ≡ scan_uint 10 0 (a ∷ s)
unfolding parse_uint
parse_uint-first a s h u = let (b, d) = based-digits a s h in rw (b, d) (rw u refl)

parse_uint-Starts :
    (s : Bytes) → Starts s → has_underscore s ≡ false → parse_uint s ≡ scan_uint 10 0 s
parse_uint-Starts s st u =
    let digit : (st.first == b'0') ≡ false = ground (arith, st.at_least) in
    rw st.splits (parse_uint-first st.first st.rest digit (rw st.splits at u))

parse_int-Starts : (s : Bytes) → Starts s → parse_int s ≡ positive (parse_uint s)
unfolding parse_int
parse_int-Starts s st =
    let plus : (st.first == b'+') ≡ false = ground (arith, st.at_least) in
    let minus : (st.first == b'-') ≡ false = ground (arith, st.at_least) in
    rw st.splits (rw (plus, minus) refl)

parse_uint-digits : (f n : ℕ) → n < f → n ≤ max_uint64 → parse_uint (digits f n []) ≡ ok n
parse_uint-digits zero n h k = absurd (omega arith)
parse_uint-digits (suc f) zero h k = unfold digits parse_uint based has_underscore scan_uint in refl
parse_uint-digits (suc f) (suc n) h k =
    let st = digits-Starts (suc f) (suc n) [] (omega arith) h in
    let plain = has_underscore-digits (suc f) (suc n) [] (unfold has_underscore in refl) in
    parse_uint-Starts _ st plain
    ∙ scan_uint-digits (suc f) (suc n) [] h k
    ∙ (unfold scan_uint in refl)

parse_int-digits : (f n : ℕ) → n < f → n ≤ max_uint64 → parse_int (digits f n []) ≡ positive (ok n)
parse_int-digits zero n h k = absurd (omega arith)
parse_int-digits (suc f) zero h k =
    unfold digits parse_int parse_uint based has_underscore scan_uint in refl
parse_int-digits (suc f) (suc n) h k =
    let st = digits-Starts (suc f) (suc n) [] (omega arith) h in
    rw (parse_uint-digits (suc f) (suc n) h k) at (parse_int-Starts _ st)

parse_int-minus : (s : Bytes) → parse_int (b'-' ∷ s) ≡ negative (parse_uint s)
unfolding parse_int
parse_int-minus s = refl

negated-suc : (m n : ℕ) → m ≡ suc n → negated m ≡ ℤ.negsuc n
negated-suc m n e = rw e refl

-- An integer of the range of int64, printed by `%d`, is read back by `ParseInt`.
pub parse_int-decimal : (n : ℤ) → IsInt64 n → parse_int (decimal n) ≡ ok n
unfolding decimal
parse_int-decimal (ℤ.pos n) h =
    let fits : leb (2 ^ 63) n ≡ false = ground arith in
    parse_int-digits (n + 1) n (omega arith) (omega arith) ∙ (rw fits refl)
parse_int-decimal (ℤ.negsuc n) h =
    let fits : ltb (2 ^ 63) (n + 1) ≡ false = ground arith in
    parse_int-minus (digits (n + 2) (n + 1) [])
    ∙ ap negative (parse_uint-digits (n + 2) (n + 1) (omega arith) (omega arith))
    ∙ (rw fits (ap ok (negated-suc (n + 1) n (omega arith))))
