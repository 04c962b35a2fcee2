-- ===== src/Policy/Outcome.antt =====
-- sdk/go/policy/parser.go: the parser's state and the methods `peek`, `take`, `expectPunct` and
-- `expectIdent`. `toks` never changes and `pos` only grows, so the state is `toks[pos:]`.
pub mod Progress
pub mod Post
pub mod Reports
use noetivela_open.Prelude.{Bool, true, false, ◌&&◌, [], ◌∷◌, Bytes, equal, if◌then◌else◌}
use noetivela_open.Policy.Token.{
  Token, Tokens, TokenKind, token, ident, number, punct, eof, kind, text, pos, ParseError,
  expected_punct, expected_identifier, is_ident, is_punct,
}

-- A method's result and the state that it leaves. An index out of range is a `panic`; `out_of_fuel`
-- has no counterpart in the program.
pub data Outcome {ℓ} (A : Type ℓ) : Type ℓ where
  ok : A → Tokens → Outcome A
  err : ParseError → Tokens → Outcome A
  panic out_of_fuel : Outcome A

abbrev pub Parser {ℓ} : Type ℓ → Type ℓ
Parser A = Tokens → Outcome A

module _ {ℓ κ} {A : Type ℓ} {B : Type κ} where
  abbrev pub bind : Outcome A → (A → Parser B) → Outcome B
  bind (ok a ts) f = f a ts
  bind (err e ts) f = err e ts
  bind panic f = panic
  bind out_of_fuel f = out_of_fuel

  infixl 1 ◌>>=◌ ◌>>◌
  abbrev pub ◌>>=◌ : Parser A → (A → Parser B) → Parser B
  p >>= f = λ ts. bind (p ts) f

  abbrev pub ◌>>◌ : Parser A → Parser B → Parser B
  p >> q = p >>= λ _. q

module _ {ℓ} {A : Type ℓ} where
  abbrev pub pure : A → Parser A
  pure a ts = ok a ts

  abbrev pub fail : ParseError → Parser A
  fail e ts = err e ts

  abbrev pub run : Tokens → Parser A → Outcome A
  run ts p = p ts

  -- `fmt.Errorf("…: %w", err)`
  abbrev pub wrap : (ParseError → ParseError) → Outcome A → Outcome A
  wrap f (ok a ts) = ok a ts
  wrap f (err e ts) = err (f e) ts
  wrap f panic = panic
  wrap f out_of_fuel = out_of_fuel

  -- `x, _ := …`: the error is dropped, and `x` is the value that came with it.
  abbrev pub ignore_err : A → Outcome A → Outcome A
  ignore_err a (err e ts) = ok a ts
  ignore_err a r = r

-- `token{}`
abbrev pub zero_token : Token
zero_token = token ident [] 0

unfoldable pub peek : Parser Token
peek [] = panic
peek (t ∷ ts) = ok t (t ∷ ts)

unfoldable pub take : Parser Token
take [] = panic
take (t ∷ ts) = ok t ts

unfoldable pub expect_punct : Bytes → Parser (Unit {0})
expect_punct s = do
  t ← take
  if is_punct (kind t) && equal (text t) s
      then pure tt
      else fail (expected_punct s (pos t) (text t))

unfoldable pub expect_ident : Parser Token
expect_ident = do
  t ← take
  if is_ident (kind t) then pure t else fail (expected_identifier (pos t) (text t))
