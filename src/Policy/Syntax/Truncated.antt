-- ===== src/Policy/Syntax/Truncated.antt =====
-- sdk/go/policy/parser.go: tokens that break off behind an `optimize`.
use noetivela_open.Prelude.{
  ℕ, zero, suc, ◌<◌, ◌≡◌, refl, true, [], ◌∷◌, equal, equal_iff, length, arith,
}
use noetivela_open.Policy.Token.{Token, Tokens, token, eof, text}
use noetivela_open.Policy.Number.{Floats}
use noetivela_open.Policy.Outcome.{Outcome, peek, take, expect_ident, expect_punct}
use noetivela_open.Policy.Parser.{
  PolicyOf, in_body, any_ident, optimize_clause, clause_of, clauses_loop, new_policy, parse_policy,
}
use noetivela_open.Policy.Parser.Panic.{optimize_from-nil}
use noetivela_open.Policy.Syntax.Expressions.{Reads, IsName, IsSign}
use noetivela_open.Policy.Syntax.Clauses.{Clause}
use noetivela_open.Policy.Syntax.Lengths.{Clause-shorter}
use noetivela_open.Policy.Syntax.Accepts.{Clause-runs}

module _ (fl : Floats) where
  -- Clauses by the rules, and then an `optimize` with only the end of the input behind it.
  pub data BreaksOff : PolicyOf fl → Tokens → Type 0 where
    here :
        {pol : PolicyOf fl} {kw : Token} {p : ℕ}
        → in_body kw ≡ true
        → IsName kw
        → Reads "optimize" kw
        → BreaksOff pol (kw ∷ token eof [] p ∷ [])
    later :
        {pol pol' : PolicyOf fl} {kw : Token} {ts us : Tokens}
        → in_body kw ≡ true
        → IsName kw
        → Clause fl kw pol ts pol' us
        → BreaksOff pol' us
        → BreaksOff pol (kw ∷ ts)

  pub data IsTruncated : Tokens → Type 0 where
    truncated :
        {first name open_ : Token} {ts : Tokens}
        → IsName first
        → IsName name
        → IsSign "{" open_
        → BreaksOff (new_policy fl (text name)) ts
        → IsTruncated (first ∷ name ∷ open_ ∷ ts)

  -- Such tokens make the parser panic.
  BreaksOff-panics :
      (f : ℕ) {pol : PolicyOf fl} {ts : Tokens}
      → BreaksOff pol ts
      → length ts < f
      → clauses_loop fl f pol ts ≡ Outcome.panic
  unfolding clauses_loop peek expect_ident take clause_of optimize_clause any_ident equal
  BreaksOff-panics zero b h = absurd (omega arith)
  BreaksOff-panics (suc f) (here {pol = pol} {kw = kw} k n r) h =
      rw (k, n, (equal_iff (text kw) _).0 r) (rw (optimize_from-nil fl f pol) refl)
  BreaksOff-panics (suc f) (later k n c b) h =
      let shorter = Clause-shorter fl c in
      rw (k, n, Clause-runs fl f c (omega arith)) (BreaksOff-panics f b (omega arith))

  pub IsTruncated-panics :
      (f : ℕ) {ts : Tokens} → IsTruncated ts → length ts < f → parse_policy fl f ts ≡ Outcome.panic
  unfolding parse_policy expect_ident expect_punct take
  IsTruncated-panics f (truncated n₁ n₂ o b) h =
      rw (n₁, n₂, o, BreaksOff-panics f b (omega arith)) refl
