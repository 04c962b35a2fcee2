-- ===== src/Go/Tests.antt =====
-- Runs of strconv, fmt and flag.
use noetivela_open.Prelude.{◌≡◌, refl, codes, [], ◌∷◌}
use noetivela_open.Policy.Number.{ℤ}
use noetivela_open.Go.Format.{rune_tail, rune_count, spaces, pad_right, spaced, show_list}
use noetivela_open.Go.Integers.{
  ok, err, syntax, range, digit_value, scan_uint, underscores_ok, has_underscore, based, parse_uint,
  parse_int,
}

integers : Unit {0}
unfolding digit_value scan_uint underscores_ok has_underscore based parse_uint parse_int
integers = tt

reads_hexadecimal : parse_int (codes "-0x1_F") ≡ ok (ℤ.negsuc 30)
unfolding integers
reads_hexadecimal = refl

reads_octal : parse_int (codes "017") ≡ ok (ℤ.pos 15)
unfolding integers
reads_octal = refl

refuses_underscore : parse_int (codes "1__0") ≡ err syntax
unfolding integers
refuses_underscore = refl

refuses_large : parse_int (codes "9223372036854775808") ≡ err range
unfolding integers
refuses_large = refl

reads_least : parse_int (codes "-9223372036854775808") ≡ ok (ℤ.negsuc 9223372036854775807)
unfolding integers
reads_least = refl

-- The rune é has two bytes.
pads : pad_right 3 (0xc3 ∷ 0xa9 ∷ []) ≡ 0xc3 ∷ 0xa9 ∷ codes "  "
unfolding pad_right rune_count rune_tail spaces
pads = refl

shows_list : show_list (codes "a" ∷ codes "b" ∷ []) ≡ codes "[a b]"
unfolding show_list spaced
shows_list = refl
