-- ===== src/Policy/Parser/Total.antt =====
-- sdk/go/policy/parser.go: `Parse` on any source.
use noetivela_open.Prelude.{◌≡◌, ◌≢◌, refl, length, Bytes, arith, ◌+◌}
use noetivela_open.Policy.Token.{Tokens}
use noetivela_open.Policy.Lexer.{Lexed, tokenize}
use noetivela_open.Policy.Lexer.Progress.{EndsWell, tokenize-EndsWell}
use noetivela_open.Policy.Outcome.{Outcome}
use noetivela_open.Policy.Outcome.Progress.{Ensures, done, failed, panicked}
use noetivela_open.Policy.Number.{Floats}
use noetivela_open.Policy.Parser.Panic.{Truncated, parse_policy-Ensures}
use noetivela_open.Policy.Parser.{
  Result, ok, err, panic, out_of_fuel, result_of, parse_tokens, parse,
}

-- What the outcome of `Parse` says of the tokens of its source.
abbrev Explains {ℓ} : {A : Type ℓ} → Lexed Tokens → Result A → Type 0
Explains toks (ok _) = Unit
Explains toks (err _) = Unit
Explains toks panic = (ts : Tokens) × (toks ≡ Lexed.ok ts) × Truncated ts
Explains toks out_of_fuel = ⊥

result_of-Explains {ℓ} :
    {A : Type ℓ} {P : A → Tokens → Type 0} {ts : Tokens} {r : Outcome A}
    → Ensures P (Truncated ts) r
    → Explains (Lexed.ok ts) (result_of r)
result_of-Explains (done p) = tt
result_of-Explains failed = tt
result_of-Explains (panicked q) = (_, refl, q)

module _ (fl : Floats) where
  parse_tokens-Explains :
      (toks : Lexed Tokens) → EndsWell toks → Explains toks (parse_tokens fl toks)
  unfolding parse_tokens
  parse_tokens-Explains (Lexed.ok ts) e =
      result_of-Explains (parse_policy-Ensures fl (length ts + 1) ts e (omega arith))
  parse_tokens-Explains (Lexed.err _) e = tt
  parse_tokens-Explains Lexed.out_of_fuel e = e

  parse-Explains : (input : Bytes) → Explains (tokenize input) (parse fl input)
  unfolding parse
  parse-Explains input = parse_tokens-Explains (tokenize input) (tokenize-EndsWell input)

  -- On every input the fuel suffices: `Parse` ends with a policy, an error or a panic.
  pub parse-ne-out_of_fuel : (input : Bytes) → parse fl input ≢ out_of_fuel
  parse-ne-out_of_fuel input h = rw h at (parse-Explains input)

  -- If `Parse` panics, the lexer has read tokens of which the last two are an identifier `optimize`
  -- and the end of the input.
  pub parse-panic :
      (input : Bytes)
      → parse fl input ≡ panic
      → (ts : Tokens) × (tokenize input ≡ Lexed.ok ts) × Truncated ts
  parse-panic input h = rw h at (parse-Explains input)
