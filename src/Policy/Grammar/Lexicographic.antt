-- ===== src/Policy/Grammar/Lexicographic.antt =====
-- A lexicographic objective written as contracts/dsl/grammar.ebnf has it, with a weight behind each
-- dimension.
use noetivela_open.Prelude.{
  ℕ, zero, suc, ◌+◌, ◌<◌, ◌≡◌, refl, ◌∙◌, true, some, [], ◌∷◌, ◌++◌, List, Bytes, equal, codes,
  length, arith, All, append_assoc, append-nil,
}
use noetivela_open.Policy.Token.{Tokens, ident, number, token, is_digit}
use noetivela_open.Policy.Ast.{Dim, Weights}
use noetivela_open.Policy.Outcome.{peek, take, expect_ident, expect_punct}
use noetivela_open.Policy.Number.{Floats}
use noetivela_open.Policy.Parser.{
  PolicyOf, ok, any_ident, in_order, order_loop, in_body, optimize_from, optimize_clause, clause_of,
  clauses_loop, new_policy, parse_policy, parse_tokens, parse,
}
use noetivela_open.Policy.Grammar.{Lexeme, place, render, word, sign}
use noetivela_open.Policy.Grammar.Shapes.{IsName, IsNumeral}
use noetivela_open.Policy.Grammar.Lexemes.{close_brace, open_brace, tokenize-render}
use noetivela_open.Policy.Grammar.Expressions.{Reads, Reads-refl, Reads-bind, room}
use noetivela_open.Policy.Grammar.Clauses.{Spelling, print_weights, IsFloat, IsOrdered}
use noetivela_open.Policy.Grammar.Rounds.{Closes, brace}
use noetivela_open.Policy.Grammar.Objectives.{order_loop-none}
use noetivela_open.Policy.Grammar.Wording.{AreLexemes, keyword, keywords, length-place, is_name}
use noetivela_open.Policy.Grammar.Refusals.{opening}

numeral-in_order : (s : Bytes) (p : ℕ) → IsNumeral s → in_order (token number s p) ≡ true
unfolding in_order is_digit equal
numeral-in_order [] p n = absurd n
numeral-in_order (c ∷ s) p (d, _) = ground arith

order_loop-ident :
    (f p : ℕ) (s : Bytes) (ts : Tokens) (order : List Dim)
    → in_order (token ident s 0) ≡ true
    → order_loop (suc f) order (token ident s p ∷ ts) ≡ order_loop f (order ++ s ∷ []) ts
unfolding order_loop peek any_ident expect_ident take in_order
order_loop-ident f p s ts order h = rw h refl

order_loop-number :
    (f p : ℕ) (s : Bytes) (ts : Tokens) (order : List Dim)
    → IsNumeral s
    → order_loop (suc f) order (token number s p ∷ ts) ≡ order_loop f (order ++ [] ∷ []) ts
unfolding order_loop peek any_ident expect_ident take
order_loop-number f p s ts order n = rw (numeral-in_order s p n) refl

module _ (fl : Floats) (sp : Spelling fl.Float) where
  open fl use {Float}

  -- A name that can stand in a lexicographic order, and a number.
  abbrev pub IsWeighed : Dim × Float → Type 0
  IsWeighed (d, w) = IsOrdered fl sp d × IsFloat fl sp w

  -- An empty dimension behind each.
  abbrev pub blanked : Weights Float → List Dim
  blanked [] = []
  blanked ((d, _) ∷ m) = d ∷ [] ∷ blanked m

  -- Behind `optimize`, to the end of the policy.
  abbrev pub lexicographic : Weights Float → List Lexeme
  lexicographic m = word (codes "lexicographic") ∷ print_weights sp m (sign (codes "}") ∷ [])

  weighed-AreLexemes :
      (m : Weights Float) (rest : List Lexeme)
      → All IsWeighed m
      → AreLexemes rest
      → AreLexemes (print_weights sp m rest)
  weighed-AreLexemes [] rest a r = r
  weighed-AreLexemes ((d, w) ∷ m) rest (((n, _), x), a) r =
      (n, (x.numeral, weighed-AreLexemes m rest a r))

  order_loop-weights :
      (m : Weights Float) (f p : ℕ) (order : List Dim) (rest : List Lexeme)
      → All IsWeighed m
      → Closes rest
      → room (print_weights sp m rest) < f
      → Reads (order_loop f order (place p (print_weights sp m rest))) (order ++ blanked m) rest
  order_loop-weights m zero p order rest a c h = absurd (omega arith)
  order_loop-weights [] (suc f) p order rest a c h =
      rw append-nil (order_loop-none fl sp f p order c)
  order_loop-weights (_ ∷ m) (suc zero) p order rest a c h = absurd (omega arith)
  order_loop-weights ((d, w) ∷ m) (suc (suc f)) p order rest (((_, d_in), x), a) c h =
      let later = order_loop-weights m f _ ((order ++ d ∷ []) ++ [] ∷ []) rest a c (omega arith) in
      rw
        (
          ← append_assoc order (d ∷ []) ([] ∷ blanked m),
          ← append_assoc (order ++ d ∷ []) ([] ∷ []) (blanked m),
        )
        (record {
          stop = later.stop;
          reads =
              order_loop-ident (suc f) p d _ order d_in
              ∙ order_loop-number f _ (sp.float w) _ (order ++ d ∷ []) x.numeral
              ∙ later.reads;
        })

  clauses_loop-lexicographic :
      (m : Weights Float) (f p : ℕ) (pol : PolicyOf fl)
      → All IsWeighed m
      → room (word (codes "optimize") ∷ lexicographic m) < f
      → Reads
          (clauses_loop fl f pol (place p (word (codes "optimize") ∷ lexicographic m)))
          (record pol {
            optimize = some (record { lexicographic = true; weights = []; order = blanked m });
          })
          (sign (codes "}") ∷ [])
  unfolding clauses_loop in_body clause_of optimize_clause any_ident optimize_from expect_ident take
      peek equal
  clauses_loop-lexicographic m zero p pol a h = absurd (omega arith)
  clauses_loop-lexicographic m (suc zero) p pol a h = absurd (omega arith)
  clauses_loop-lexicographic m (suc (suc f)) p pol a h =
      Reads-bind _
        (Reads-bind _
          (order_loop-weights m (suc f) (p + 9 + 14) [] _ a (brace {ls = []}) (omega arith))
          λ q. Reads-refl _ q (sign (codes "}") ∷ []))
        λ q. Reads-refl _ q (sign (codes "}") ∷ [])

  -- `Parse` reads a lexicographic objective with weights, and puts an empty dimension where a weight
  -- stands.
  pub parse-lexicographic_weights :
      (name : Bytes) (m : Weights Float)
      → IsName name
      → All IsWeighed m
      → parse fl (render (opening name (word (codes "optimize") ∷ lexicographic m)))
        ≡ ok (record (new_policy fl name) {
          optimize = some (record { lexicographic = true; weights = []; order = blanked m });
        })
  unfolding parse parse_tokens parse_policy expect_ident expect_punct take equal keywords is_name
  parse-lexicographic_weights name m n a =
      let ls = opening name (word (codes "optimize") ∷ lexicographic m) in
      let are : AreLexemes ls = (
        keyword "policy" refl,
        (
          n,
          (
            open_brace,
            (
              keyword "optimize" refl,
              (keyword "lexicographic" refl, weighed-AreLexemes m _ a (close_brace, tt)),
            ),
          ),
        ),
      ) in
      let read =
        clauses_loop-lexicographic m (length (place 0 ls) + 1) (0 + 7 + (length name + 1) + 2)
          (new_policy fl name) a (omega (arith, length-place 0 ls)) in
      rw (tokenize-render ls are) (rw read.reads refl)
