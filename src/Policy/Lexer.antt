-- ===== src/Policy/Lexer.antt =====
-- sdk/go/policy/parser.go: `lexer.next` and the loop of `Parse` that collects the tokens.
-- The lexer's state is what is left of the source, `src[pos:]`, beside `pos`.
pub mod Progress
pub mod Spelling
pub mod Written
pub mod Sources
pub mod Complete
pub mod Exact
use noetivela_open.Prelude.{
  ℕ, zero, suc, ◌+◌, Bool, true, false, not, ◌&&◌, ◌||◌, Option, none, some, [], ◌∷◌, ◌++◌, Bytes,
  equal, codes, length, ◌==◌, if◌then◌else◌,
}
use noetivela_open.Policy.Token.{
  Token, Tokens, is_eof, kind, token, ident, number, string, punct, eof, ParseError,
  unterminated_string, is_space, is_digit, is_letter, utf8_of_byte,
}

pub record Lexer : Type 0 where
  pub rest : Bytes
  pub pos : ℕ

abbrev pub at : Bytes → ℕ → Lexer
at cs p = record { rest = cs; pos = p }

-- The first loop of `next`. `in_comment` is set inside the loop over a line comment: at the end of
-- the line that loop leaves, and the newline is read as a space.
unfoldable pub skip : Bool → Bytes → ℕ → Lexer
skip in_comment [] p = at [] p
skip in_comment (c ∷ cs) p =
    let commented = skip true cs (p + 1) in
    let blank = skip false cs (p + 1) in
    if in_comment && not (c == b'\n')
    then commented
    else if is_space c
    then blank
    else if c == b'#'
    then commented
    else at (c ∷ cs) p

-- The loop over a string's bytes, behind the opening quote: the text, and the state behind the
-- closing quote; `none` at the end of the source.
unfoldable pub read_string : ℕ → Bytes → Bytes → ℕ → Option (Bytes × Lexer)
read_string quote sb [] p = none
read_string quote sb (c ∷ cs) p =
    let more = read_string quote (sb ++ c ∷ []) cs (p + 1) in
    if c == quote then some (sb, at cs (p + 1)) else more

-- The loops over a number and an identifier: the bytes up to the first that fails the test.
unfoldable pub read_while : (ℕ → Bool) → Bytes → ℕ → Bytes × Lexer
read_while test [] p = ([], at [] p)
read_while test (c ∷ cs) p =
    let (s, l) = read_while test cs (p + 1) in if test c then (c ∷ s, l) else ([], at (c ∷ cs) p)

unfoldable pub is_number_byte : ℕ → Bool
is_number_byte c = is_digit c || c == b'.'

unfoldable pub is_ident_byte : ℕ → Bool
is_ident_byte c = is_letter c || is_digit c || c == b'_' || c == b'-'

unfoldable pub next_is_digit : Bytes → Bool
next_is_digit [] = false
next_is_digit (c ∷ _) = is_digit c

-- `case unicode.IsDigit …`
unfoldable pub starts_number : ℕ → Bytes → Bool
starts_number c cs = is_digit c || c == b'.' && next_is_digit cs

unfoldable pub is_two : Bytes → Bool
is_two two =
    equal two (codes "==")
    || equal two (codes "!=")
    || equal two (codes ">=")
    || equal two (codes "<=")

pub data Lexed {ℓ} (A : Type ℓ) : Type ℓ where
  ok : A → Lexed A
  err : ParseError → Lexed A
  out_of_fuel : Lexed A

-- the default case of the switch
unfoldable pub next_punct : ℕ → Bytes → ℕ → Token × Lexer
next_punct c [] p = (token punct (utf8_of_byte c) p, at [] (p + 1))
next_punct c (d ∷ cs) p =
    if is_two (c ∷ d ∷ [])
    then (token punct (c ∷ d ∷ []) p, at cs (p + 2))
    else (token punct (utf8_of_byte c) p, at (d ∷ cs) (p + 1))

abbrev pub string_token : ℕ → Option (Bytes × Lexer) → Lexed (Token × Lexer)
string_token start none = err (unterminated_string start)
string_token start (some (s, l)) = ok (token string s start, l)

-- the switch of `next`
unfoldable pub next_token : Bytes → ℕ → Lexed (Token × Lexer)
next_token [] p = ok (token eof [] p, at [] p)
next_token (c ∷ cs) p =
    if c == b'"' || c == b'\''
    then string_token p (read_string c [] cs (p + 1))
    else if starts_number c cs
    then (let (s, l) = read_while is_number_byte (c ∷ cs) p in ok (token number s p, l))
    else if c == b'_' || is_letter c
    then (let (s, l) = read_while is_ident_byte (c ∷ cs) p in ok (token ident s p, l))
    else ok (next_punct c cs p)

unfoldable pub next : Lexer → Lexed (Token × Lexer)
next l = let l' = skip false l.rest l.pos in next_token l'.rest l'.pos

infixl 5 ◌>>=◌
abbrev pub ◌>>=◌ {ℓ κ} : {A : Type ℓ} {B : Type κ} → Lexed A → (A → Lexed B) → Lexed B
ok a >>= f = f a
err e >>= f = err e
out_of_fuel >>= f = out_of_fuel

-- The loop of `Parse` that collects the tokens, the one of kind `eof` included.
unfoldable pub collect : ℕ → Lexer → Lexed Tokens
collect zero l = out_of_fuel
collect (suc f) l = do
  (t, l') ← next l
  let more : Lexed Tokens = collect f l' >>= λ ts. ok (t ∷ ts)
  if is_eof (kind t) then ok (t ∷ []) else more

-- Each token but the last takes a byte at least.
unfoldable pub tokenize : Bytes → Lexed Tokens
tokenize src = collect (length src + 1) (at src 0)
