-- ===== src/Client/Lines.antt =====
-- sdk/go/client/sse.go: what it uses of Go's packages bufio and strings. A reader is the list of the
-- bytes that it gives before its end or its error, which it gives by itself, with no bytes: a reader
-- that gives its last bytes together with its end lets the scanner take a last line of 65536 bytes.
use noetivela_open.Prelude.{
  ℕ, Bool, true, false, ◌&&◌, ◌||◌, Option, none, some, [], ◌∷◌, ◌++◌, ◌≡◌, refl, All, Bytes,
  length, leb, ◌==◌, if◌then◌else◌, arith,
}

-- The bytes up to the first newline, and those behind it.
unfoldable pub cut_line : Bytes → Bytes × Bytes
cut_line [] = ([], [])
cut_line (c ∷ cs) =
    let (line, rest) = cut_line cs in if c == b'\n' then ([], cs) else (c ∷ line, rest)

-- `dropCR`: a line without the carriage return at its end.
unfoldable pub drop_cr : Bytes → Bytes
drop_cr [] = []
drop_cr (c ∷ []) = if c == b'\r' then [] else c ∷ []
drop_cr (c ∷ d ∷ cs) = c ∷ drop_cr (d ∷ cs)

-- bufio.MaxScanTokenSize
abbrev pub max_token : ℕ
max_token = 65536

-- `Scan` with `Text`: the next line and the bytes behind it. It stops at the end, and at a line that
-- does not fit its buffer with the newline.
unfoldable pub scan : Bytes → Option (Bytes × Bytes)
scan [] = none
scan (c ∷ cs) =
    let (line, rest) = cut_line (c ∷ cs) in
    if leb max_token (length line) then none else some (drop_cr line, rest)

-- unicode.IsSpace of the text of one rune in UTF-8: the whole text is the rune.
unfoldable pub is_space_text : Bytes → Bool
is_space_text (a ∷ []) = leb 9 a && leb a 13 || a == 32
is_space_text (a ∷ b ∷ []) = a == 0xc2 && (b == 0x85 || b == 0xa0)
is_space_text (a ∷ b ∷ c ∷ []) =
    a == 0xe1 && b == 0x9a && c == 0x80
    || a == 0xe2 && b == 0x80 && (leb 0x80 c && leb c 0x8a || c == 0xa8 || c == 0xa9 || c == 0xaf)
    || a == 0xe2 && b == 0x81 && c == 0x9f
    || a == 0xe3 && b == 0x80 && c == 0x80
is_space_text _ = false

unfoldable pub trim_left : Bytes → Bytes
trim_left [] = []
trim_left (a ∷ []) = if is_space_text (a ∷ []) then [] else a ∷ []
trim_left (a ∷ b ∷ []) =
    let one = trim_left (b ∷ []) in
    if is_space_text (a ∷ []) then one else if is_space_text (a ∷ b ∷ []) then [] else a ∷ b ∷ []
trim_left (a ∷ b ∷ c ∷ cs) =
    let one = trim_left (b ∷ c ∷ cs) in
    let two = trim_left (c ∷ cs) in
    let three = trim_left cs in
    if is_space_text (a ∷ [])
    then one
    else if is_space_text (a ∷ b ∷ [])
    then two
    else if is_space_text (a ∷ b ∷ c ∷ [])
    then three
    else a ∷ b ∷ c ∷ cs

unfoldable pub trim_right : Bytes → Bytes
trim_right [] = []
trim_right (c ∷ cs) = let r = c ∷ trim_right cs in if is_space_text r then [] else r

-- strings.TrimSpace
unfoldable pub trim_space : Bytes → Bytes
trim_space s = trim_right (trim_left s)

-- `HasPrefix` with `TrimPrefix`: what stands behind the prefix, if it is there.
unfoldable pub after_prefix : Bytes → Bytes → Option Bytes
after_prefix [] s = some s
after_prefix (p ∷ ps) [] = none
after_prefix (p ∷ ps) (c ∷ s) = let rest = after_prefix ps s in if p == c then rest else none

pub cut_line-append :
    (line rest : Bytes)
    → All (λ c. (c == b'\n') ≡ false) line
    → cut_line (line ++ b'\n' ∷ rest) ≡ (line, rest)
unfolding cut_line
cut_line-append [] rest a = refl
cut_line-append (c ∷ line) rest (h, a) = rw (h, cut_line-append line rest a) refl

pub scan-append :
    (line rest : Bytes)
    → All (λ c. (c == b'\n') ≡ false) line
    → leb max_token (length line) ≡ false
    → scan (line ++ b'\n' ∷ rest) ≡ some (drop_cr line, rest)
unfolding scan
scan-append [] rest a h = rw (cut_line-append [] rest a) refl
scan-append (c ∷ line) rest a h = rw (cut_line-append (c ∷ line) rest a, h) refl

pub scan-long :
    (line rest : Bytes)
    → All (λ c. (c == b'\n') ≡ false) line
    → leb max_token (length line) ≡ true
    → scan (line ++ b'\n' ∷ rest) ≡ none
unfolding scan
scan-long [] rest a h = absurd (ground arith)
scan-long (c ∷ line) rest a h = rw (cut_line-append (c ∷ line) rest a, h) refl

-- A text that ends in a closing brace.
pub drop_cr-brace : (s : Bytes) → drop_cr (s ++ b'}' ∷ []) ≡ s ++ b'}' ∷ []
unfolding drop_cr
drop_cr-brace [] = refl
drop_cr-brace (c ∷ []) = refl
drop_cr-brace (c ∷ d ∷ s) = rw (drop_cr-brace (d ∷ s)) refl

is_space_text-brace : (s : Bytes) → is_space_text (s ++ b'}' ∷ []) ≡ false
unfolding is_space_text
is_space_text-brace [] = refl
is_space_text-brace (a ∷ []) = ground arith
is_space_text-brace (a ∷ b ∷ []) = ground arith
is_space_text-brace (a ∷ b ∷ c ∷ []) = refl
is_space_text-brace (a ∷ b ∷ c ∷ d ∷ s) = refl

pub trim_right-brace : (s : Bytes) → trim_right (s ++ b'}' ∷ []) ≡ s ++ b'}' ∷ []
unfolding trim_right
trim_right-brace [] = rw (is_space_text-brace []) refl
trim_right-brace (c ∷ s) = rw (trim_right-brace s, is_space_text-brace (c ∷ s)) refl
