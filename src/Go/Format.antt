-- ===== src/Go/Format.antt =====
-- Package fmt: `%-ns` and `%v` of a slice of strings, and what they use of package unicode/utf8.
use noetivela_open.Prelude.{
  ℕ, zero, suc, ◌+◌, ◌-◌, Bool, ◌&&◌, List, [], ◌∷◌, ◌++◌, Bytes, leb, ◌==◌, if◌then◌else◌,
}

abbrev within : ℕ → ℕ → ℕ → Bool
within lo hi c = leb lo c && leb c hi

abbrev is_tail : ℕ → Bool
is_tail = within 0x80 0xbf

-- Whether a byte can follow the first byte of a rune of three bytes, and of four.
abbrev second_of_three : ℕ → ℕ → Bool
second_of_three c d =
    if c == 0xe0 then within 0xa0 0xbf d else if c == 0xed then within 0x80 0x9f d else is_tail d

abbrev second_of_four : ℕ → ℕ → Bool
second_of_four c d =
    if c == 0xf0 then within 0x90 0xbf d else if c == 0xf4 then within 0x80 0x8f d else is_tail d

-- The bytes of the first rune behind its first byte; none for one byte, or bytes that are no UTF-8.
unfoldable pub rune_tail : Bytes → ℕ
rune_tail (a ∷ b ∷ c ∷ d ∷ _) =
    if within 0xc2 0xdf a && is_tail b
    then 1
    else if within 0xe0 0xef a && second_of_three a b && is_tail c
    then 2
    else if within 0xf0 0xf4 a && second_of_four a b && is_tail c && is_tail d
    then 3
    else 0
rune_tail (a ∷ b ∷ c ∷ []) =
    if within 0xc2 0xdf a && is_tail b
    then 1
    else if within 0xe0 0xef a && second_of_three a b && is_tail c
    then 2
    else 0
rune_tail (a ∷ b ∷ []) = if within 0xc2 0xdf a && is_tail b then 1 else 0
rune_tail _ = 0

-- utf8.RuneCountInString, behind bytes of a rune that is counted.
unfoldable pub rune_count : ℕ → Bytes → ℕ
rune_count skip [] = 0
rune_count (suc skip) (c ∷ s) = rune_count skip s
rune_count zero (c ∷ s) = 1 + rune_count (rune_tail (c ∷ s)) s

unfoldable pub spaces : ℕ → Bytes
spaces zero = []
spaces (suc n) = b' ' ∷ spaces n

-- `%-ns`; there is no padding where the text is as long as the width.
unfoldable pub pad_right : ℕ → Bytes → Bytes
pad_right width s = s ++ spaces (width - rune_count 0 s)

unfoldable pub spaced : List Bytes → Bytes
spaced [] = []
spaced (s ∷ []) = s
spaced (s ∷ t ∷ l) = s ++ b' ' ∷ spaced (t ∷ l)

-- `%v` of a slice of strings
unfoldable pub show_list : List Bytes → Bytes
show_list l = b'[' ∷ spaced l ++ b']' ∷ []
