-- ===== src/Policy/Parser/Errors.antt =====
-- sdk/go/policy/parser.go: what the errors of `Parse` show of the source.
use noetivela_open.Prelude.{subst, ◌≡◌, refl, [], ◌∷◌, Bytes, length, ◌+◌, All}
use noetivela_open.Policy.Token.{Token, Tokens, ParseError}
use noetivela_open.Policy.Lexer.{Lexed, tokenize}
use noetivela_open.Policy.Outcome.{Outcome}
use noetivela_open.Policy.Outcome.Reports.{Says, Reports}
use noetivela_open.Policy.Number.{Floats}
use noetivela_open.Policy.Parser.{
  PolicyOf, Result, ok, err, panic, out_of_fuel, result_of, parse_tokens, parse,
}
use noetivela_open.Policy.Parser.Reports.{parse_policy-Reports}

-- One of the tokens is this one.
pub data IsIn (t : Token) : Tokens → Type 0 where
  here : {ts : Tokens} → IsIn t (t ∷ ts)
  there : {u : Token} {ts : Tokens} → IsIn t ts → IsIn t (u ∷ ts)

IsIn-All : (P : Token → Type 0) (ts : Tokens) → ((t : Token) → IsIn t ts → P t) → All P ts
IsIn-All P [] k = tt
IsIn-All P (t ∷ ts) k = (k t here, IsIn-All P ts λ u i. k u (there i))

-- The lexer refuses the source, or it gives tokens, and the error says of one of these what is wrong.
pub data Blames (input : Bytes) (e : ParseError) : Type 0 where
  lexer : tokenize input ≡ Lexed.err e → Blames input e
  parser : {ts : Tokens} → tokenize input ≡ Lexed.ok ts → Says (λ t. IsIn t ts) e → Blames input e

module _ (fl : Floats) where
  abbrev Explains : Bytes → Result (PolicyOf fl) → Type 0
  Explains input (ok pol) = Unit
  Explains input (err e) = Blames input e
  Explains input panic = Unit
  Explains input out_of_fuel = Unit

  result_of-Explains :
      (input : Bytes) (ts : Tokens) (r : Outcome (PolicyOf fl))
      → tokenize input ≡ Lexed.ok ts
      → Reports (λ t. IsIn t ts) (λ _. Unit) r
      → Explains input (result_of r)
  result_of-Explains input ts (Outcome.ok pol rest) h s = tt
  result_of-Explains input ts (Outcome.err e rest) h (s, _) = parser h s
  result_of-Explains input ts Outcome.panic h s = tt
  result_of-Explains input ts Outcome.out_of_fuel h s = tt

  parse_tokens-Explains :
      (input : Bytes) (r : Lexed Tokens) → tokenize input ≡ r → Explains input (parse_tokens fl r)
  unfolding parse_tokens
  parse_tokens-Explains input (Lexed.ok ts) h = result_of-Explains input ts _ h (
      parse_policy-Reports (λ t. IsIn t ts) fl (length ts + 1) ts
        (IsIn-All (λ t. IsIn t ts) ts λ t i. i))
  parse_tokens-Explains input (Lexed.err e) h = lexer h
  parse_tokens-Explains input Lexed.out_of_fuel h = tt

  -- An error of `Parse` is the lexer's, or it shows a token of the source that is wrong as it says.
  -- Its text and position are those of a token that is no identifier, not the punctuation or no number
  -- where one is wanted, no keyword of a clause, or a sign or the end where an operand is wanted. Of a
  -- missing point it shows the position of the token there, and of a number token the text, which does
  -- not read as a decimal, or does for an error of the range. Only the errors of a requirement and of
  -- the items of a list show no token.
  pub parse-Blames : (input : Bytes) {e : ParseError} → parse fl input ≡ err e → Blames input e
  unfolding parse
  parse-Blames input h =
      subst (Explains input) h (parse_tokens-Explains input (tokenize input) refl)
