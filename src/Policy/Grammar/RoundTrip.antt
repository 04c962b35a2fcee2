-- ===== src/Policy/Grammar/RoundTrip.antt =====
-- `Parse` on the source text of a printed policy.
use noetivela_open.Prelude.{◌+◌, ◌≡◌, refl, List, [], Bytes, codes, length, arith}
use noetivela_open.Policy.Number.{Floats}
use noetivela_open.Policy.Outcome.{Outcome}
use noetivela_open.Policy.Parser.{PolicyOf, ok, result_of, parse_tokens, parse}
use noetivela_open.Policy.Grammar.{Lexeme, place, render}
use noetivela_open.Policy.Grammar.Shapes.{IsName}
use noetivela_open.Policy.Grammar.Lexemes.{tokenize-render}
use noetivela_open.Policy.Grammar.Clauses.{Spelling, print_source, print_policy, IsWritable}
use noetivela_open.Policy.Grammar.Expressions.{Reads}
use noetivela_open.Policy.Grammar.Policies.{parse_policy-print}
use noetivela_open.Policy.Grammar.Wording.{
  AreLexemes, policy-IsName, source-AreLexemes, length-place,
}

module _ (fl : Floats) (sp : Spelling fl.Float) where
  open fl use {Float}

  result_of-Reads :
      {A : Type 0} (r : Outcome A) (a : A) (rest : List Lexeme)
      → Reads r a rest
      → result_of r ≡ ok a
  result_of-Reads r a rest x = rw x.reads refl

  -- A policy that has a written form is what `Parse` reads from its printed text, also if any name
  -- stands in place of the keyword `policy`, and any lexemes stand behind the closing brace.
  pub parse-render_source :
      (first : Bytes) (pol : PolicyOf fl) (tail : List Lexeme)
      → IsName first
      → IsWritable fl sp pol
      → AreLexemes tail
      → parse fl (render (print_source sp first pol tail)) ≡ ok pol
  unfolding parse parse_tokens
  parse-render_source first pol tail k w a =
      let ls = print_source sp first pol tail in
      rw (tokenize-render ls (source-AreLexemes fl sp first pol tail k w a)) (
        result_of-Reads _ pol tail (
          parse_policy-print fl sp tail first pol (length (place 0 ls) + 1) 0 w
            (omega (arith, length-place 0 ls))))

  -- If a policy has a written form, `Parse` reads it back from the source text that it is printed
  -- and rendered as. It has a written form if: each name in it is spelt as an identifier; each
  -- float64 has a text of digits and points, the first a digit, that reads as a decimal to which it
  -- is the nearest, and each integer other than 0 has such a text of a float64 that is truncated to
  -- it; each requirement is a comparison by one of the six signs or a membership test, where the
  -- operands are strings without a double quote, texts of digits and points that begin with a
  -- digit, true and false, paths with a segment at least and calls, both behind a name that is none
  -- of true, false and not, and not before such an operand; the arguments of a call are strings
  -- without a double quote of which none is ")", and the items of a list are strings without a
  -- double quote of which none is "]"; and its objective is absent, lexicographic with no weights
  -- and an order without the names fallback, switch, require and prefer, or weighted with no order
  -- and one weight at least, where the first dimension is not lexicographic, each later one is of
  -- the six dimensions, and none stands twice.
  pub parse-render :
      (pol : PolicyOf fl) → IsWritable fl sp pol → parse fl (render (print_policy sp pol)) ≡ ok pol
  unfolding print_policy
  parse-render pol w = parse-render_source (codes "policy") pol [] policy-IsName w tt
