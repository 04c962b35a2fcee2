-- ===== src/Policy/Token.antt =====
-- sdk/go/policy/parser.go: tokens, the errors of `next` and of the parser, and the character classes
-- of Go's package unicode on the code points below 256, to which the lexer converts single bytes.
use noetivela_open.Prelude.{
  ℕ, ◌+◌, ◌/◌, ◌%◌, Bool, true, false, ◌&&◌, ◌||◌, List, [], ◌∷◌, not, Bytes, ltb, leb, ◌==◌,
  if◌then◌else◌,
}

pub data TokenKind : Type 0 where
  ident number string punct eof : TokenKind

-- kind, text and pos
pub data Token : Type 0 where
  token : TokenKind → Bytes → ℕ → Token

abbrev pub kind : Token → TokenKind
kind (token k _ _) = k

abbrev pub text : Token → Bytes
text (token _ s _) = s

abbrev pub pos : Token → ℕ
pos (token _ _ p) = p

abbrev pub is_ident : TokenKind → Bool
is_ident ident = true
is_ident _ = false

abbrev pub is_number : TokenKind → Bool
is_number number = true
is_number _ = false

abbrev pub is_punct : TokenKind → Bool
is_punct punct = true
is_punct _ = false

abbrev pub is_eof : TokenKind → Bool
is_eof eof = true
is_eof _ = false

abbrev pub Tokens : Type 0
Tokens = List Token

-- One constructor for each message, with the values that the message shows.
pub data ParseError : Type 0 where
  unterminated_string : ℕ → ParseError
  expected_punct : Bytes → ℕ → Bytes → ParseError
  expected_identifier : ℕ → Bytes → ParseError
  expected_policy : ParseError → ParseError
  expected_policy_name : ParseError → ParseError
  require_not_comparison : ParseError
  unknown_clause : Bytes → ℕ → ParseError
  expected_number : ℕ → Bytes → ParseError
  expected_integer : ℕ → Bytes → ParseError
  number_syntax : Bytes → ParseError
  number_range : Bytes → ParseError
  items_not_literals : ParseError
  expected_dot : Bytes → ℕ → ParseError
  unexpected_token : Bytes → ℕ → ParseError

abbrev within : ℕ → ℕ → ℕ → Bool
within lo hi c = leb lo c && leb c hi

-- unicode.IsSpace below 256: tab to carriage return, space, U+0085 and U+00A0
unfoldable pub is_space : ℕ → Bool
is_space c = within 9 13 c || c == 32 || c == 0x85 || c == 0xa0

-- unicode.IsDigit below 256
unfoldable pub is_digit : ℕ → Bool
is_digit c = within b'0' b'9' c

-- unicode.IsLetter below 256: the ASCII letters, ª, µ, º, and À to ÿ without × and ÷
unfoldable pub is_letter : ℕ → Bool
is_letter c =
    within b'A' b'Z' c
    || within b'a' b'z' c
    || c == 0xaa
    || c == 0xb5
    || c == 0xba
    || within 0xc0 0xff c && not (c == 0xd7) && not (c == 0xf7)

-- `string(c)` of a byte: the UTF-8 encoding of the code point c
unfoldable pub utf8_of_byte : ℕ → Bytes
utf8_of_byte c = if ltb c 128 then c ∷ [] else (192 + c / 64) ∷ (128 + c % 64) ∷ []
