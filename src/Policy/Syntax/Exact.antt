-- ===== src/Policy/Syntax/Exact.antt =====
-- sdk/go/policy/parser.go: the sources that `Parse` takes.
use noetivela_open.Prelude.{◌+◌, ◌≡◌, ◌↔◌, refl, subst, Bytes, length, arith}
use noetivela_open.Policy.Token.{Tokens}
use noetivela_open.Policy.Lexer.{Lexed, tokenize}
use noetivela_open.Policy.Lexer.Sources.{Spells}
use noetivela_open.Policy.Lexer.Exact.{tokenize_iff}
use noetivela_open.Policy.Number.{Floats}
use noetivela_open.Policy.Outcome.{Outcome}
use noetivela_open.Policy.Parser.{PolicyOf, ok, result_of, parse_tokens, parse}
use noetivela_open.Policy.Syntax.Clauses.{IsPolicy}
use noetivela_open.Policy.Syntax.Means.{Means, done}
use noetivela_open.Policy.Syntax.Policies.{parse_policy-Means}
use noetivela_open.Policy.Syntax.Accepts.{policy-runs}

module _ (fl : Floats) where
  -- The source is spelt as tokens, of which the first are the policy; `rest` is not looked at.
  pub record Writes (src : Bytes) (pol : PolicyOf fl) : Type 0 where
    pub tokens : Tokens
    pub spells : Spells 0 src tokens
    pub rest : Tokens
    pub is_policy : IsPolicy fl tokens pol rest

  result_of-Means :
      {P : PolicyOf fl → Tokens → Type 0} {pol : PolicyOf fl} (r : Outcome (PolicyOf fl))
      → Means P r
      → result_of r ≡ ok pol
      → (rest : Tokens) × P pol rest
  result_of-Means {P} {pol} (Outcome.ok a rest) (done p) h =
      let e : a ≡ pol = cc in (rest, subst (λ a. P a rest) e p)
  result_of-Means (Outcome.err e rest) m h = absurd cc
  result_of-Means Outcome.panic m h = absurd cc
  result_of-Means Outcome.out_of_fuel m h = absurd cc

  parse_tokens-Writes :
      (src : Bytes) (pol : PolicyOf fl) (r : Lexed Tokens)
      → tokenize src ≡ r
      → parse_tokens fl r ≡ ok pol
      → Writes src pol
  unfolding parse_tokens
  parse_tokens-Writes src pol (Lexed.ok ts) e h =
      let (rest, p) = result_of-Means _ (parse_policy-Means fl (length ts + 1) ts) h in
      record { tokens = ts; spells = (tokenize_iff src ts).0 e; rest = rest; is_policy = p }
  parse_tokens-Writes src pol (Lexed.err x) e h = absurd cc
  parse_tokens-Writes src pol Lexed.out_of_fuel e h = absurd cc

  -- `Parse` returns a policy exactly if the source is spelt as tokens that begin with this policy by
  -- the rules of the clauses and of the expressions.
  pub parse_iff : (src : Bytes) (pol : PolicyOf fl) → (parse fl src ≡ ok pol) ↔ Writes src pol
  unfolding parse parse_tokens
  parse_iff src pol = (
    λ h. parse_tokens-Writes src pol (tokenize src) refl h,
    λ w.
        rw ((tokenize_iff src w.tokens).1 w.spells)
          (rw (policy-runs fl (length w.tokens + 1) w.is_policy (omega arith)) refl),
  )
