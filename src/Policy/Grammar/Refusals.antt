-- ===== src/Policy/Grammar/Refusals.antt =====
-- `Parse` on written policies with a requirement or an end that the grammar allows or leaves open.
use noetivela_open.Prelude.{
  ℕ, zero, suc, ◌∙◌, ◌+◌, ◌≡◌, refl, true, false, List, [], ◌∷◌, Bytes, equal, codes, length, All,
  arith, ◌<◌,
}
use noetivela_open.Policy.Token.{Tokens}
use noetivela_open.Policy.Ast.{Expr, Prefer}
use noetivela_open.Policy.Number.{Floats}
use noetivela_open.Policy.Outcome.{Outcome}
use noetivela_open.Policy.Parser.{PolicyOf, is_gate, parse_policy, parse_tokens, parse}
use noetivela_open.Policy.Grammar.{Lexeme, place, render, word, sign, print}
use noetivela_open.Policy.Grammar.Shapes.{IsName, IsCmp}
use noetivela_open.Policy.Grammar.Lexemes.{open_brace, tokenize-render}
use noetivela_open.Policy.Grammar.Clauses.{Spelling, print_requires, print_prefers, IsPrefer}
use noetivela_open.Policy.Grammar.Expressions.{room}
use noetivela_open.Policy.Grammar.Wording.{
  AreLexemes, length-place, is_name, keyword, keywords, requires-AreLexemes, prefers-AreLexemes,
  cmp-AreLexemes,
}
use noetivela_open.Policy.Token.{require_not_comparison}
use noetivela_open.Policy.Outcome.{peek, take, expect_ident, expect_punct}
use noetivela_open.Policy.Number.{parse_number}
use noetivela_open.Policy.Parser.{
  err, panic, in_body, any_ident, clause_of, clauses_loop, require_clause, optimize_clause,
  optimize_from, parse_dim_weight, new_policy,
}
use noetivela_open.Policy.Grammar.Shapes.{
  IsConjunction, cmp, both, IsDisjunction, conjunction, either,
}
use noetivela_open.Policy.Grammar.Connectives.{parse_or-print}
use noetivela_open.Policy.Grammar.Rounds.{Opens, optimize, Opens-ends}
use noetivela_open.Policy.Grammar.Gates.{requires-Resumes, prefers-Opens, prefers-Resumes}

conjunction-AreLexemes :
    {e : Expr} (rest : List Lexeme) → IsConjunction e → AreLexemes rest → AreLexemes (print e rest)
unfolding print keywords is_name
conjunction-AreLexemes rest (cmp c) r = cmp-AreLexemes rest c r
conjunction-AreLexemes rest (both {l} j c) r =
    conjunction-AreLexemes {e = l} _ j (keyword "and" refl, cmp-AreLexemes rest c r)

disjunction-AreLexemes :
    {e : Expr} (rest : List Lexeme) → IsDisjunction e → AreLexemes rest → AreLexemes (print e rest)
unfolding print keywords is_name
disjunction-AreLexemes rest (conjunction c) r = conjunction-AreLexemes rest c r
disjunction-AreLexemes rest (either {l} j c) r =
    disjunction-AreLexemes {e = l} _ j (keyword "or" refl, conjunction-AreLexemes rest c r)

-- The lexemes of a policy up to its clauses.
abbrev pub opening : Bytes → List Lexeme → List Lexeme
opening name rest = word (codes "policy") ∷ word name ∷ sign (codes "{") ∷ rest

module _ (fl : Floats) where
  open fl use {Float}

  require-not-gate :
      (f p : ℕ) (pol : PolicyOf fl) (e : Expr) (rest : List Lexeme)
      → IsDisjunction e
      → is_gate e ≡ false
      → Opens rest
      → room (word (codes "require") ∷ print e rest) < f
      → (ts : Tokens) × (clauses_loop fl f pol (place p (word (codes "require") ∷ print e rest))
          ≡ Outcome.err require_not_comparison ts)
  unfolding clauses_loop in_body peek expect_ident take clause_of require_clause equal
  require-not-gate zero p pol e rest d g o h = absurd (omega arith)
  require-not-gate (suc f) p pol e rest d g o h =
      let read = parse_or-print f (p + 8) rest d (omega arith) (Opens-ends o) in
      (place read.stop rest, rw (read.reads, g))

  -- A policy is refused if its first clause requires an expression that is no comparison and no
  -- membership test, as a conjunction or a disjunction, whatever clause or brace stands behind it.
  pub parse-require_not_gate :
      (name : Bytes) (e : Expr) (rest : List Lexeme)
      → IsName name
      → IsDisjunction e
      → is_gate e ≡ false
      → Opens rest
      → AreLexemes rest
      → parse fl (render (opening name (word (codes "require") ∷ print e rest)))
        ≡ err require_not_comparison
  unfolding parse parse_tokens parse_policy expect_ident expect_punct take equal keywords is_name
  parse-require_not_gate name e rest n d g o r =
      let ls = opening name (word (codes "require") ∷ print e rest) in
      let are : AreLexemes ls = (
        keyword "policy" refl,
        (n, (open_brace, (keyword "require" refl, disjunction-AreLexemes rest d r))),
      ) in
      let (ts, refused) =
        require-not-gate (length (place 0 ls) + 1) (0 + 7 + (length name + 1) + 2)
          (new_policy fl name) e rest d g o (omega (arith, length-place 0 ls)) in
      rw (tokenize-render ls are) (rw refused)

module _ (fl : Floats) (sp : Spelling fl.Float) where
  open fl use {Float}

  -- The loop over the clauses on an `optimize` that is the last lexeme.
  optimize-panic :
      (f p : ℕ) (pol : PolicyOf fl)
      → 2 < f
      → clauses_loop fl f pol (place p (word (codes "optimize") ∷ [])) ≡ Outcome.panic
  unfolding clauses_loop in_body peek expect_ident take clause_of optimize_clause any_ident
      optimize_from parse_dim_weight parse_number equal
  optimize-panic zero p pol h = absurd (omega arith)
  optimize-panic (suc f) p pol h = refl

  clauses-panic :
      (es : List Expr) (ps : List (Prefer Float)) (f p : ℕ) (pol : PolicyOf fl)
      → All (λ e. IsCmp e × (is_gate e ≡ true)) es
      → All (IsPrefer fl sp) ps
      → room (print_requires sp es (print_prefers sp ps (word (codes "optimize") ∷ []))) < f
      → clauses_loop fl f pol
          (place p (print_requires sp es (print_prefers sp ps (word (codes "optimize") ∷ []))))
        ≡ Outcome.panic
  clauses-panic es ps f p pol a b h =
      let tail = word (codes "optimize") ∷ [] in
      let gates =
        requires-Resumes fl sp es f p pol (print_prefers sp ps tail) a
          (prefers-Opens fl sp ps optimize) h in
      let soft = prefers-Resumes fl sp ps gates.fuel gates.stop _ tail b gates.enough in
      gates.resumes ∙ soft.resumes ∙ optimize-panic soft.fuel soft.stop _ soft.enough

  -- `Parse` panics on each policy that ends behind the keyword `optimize`, with well-formed require
  -- and prefer clauses before it.
  parse-optimize_last :
      (name : Bytes) (es : List Expr) (ps : List (Prefer Float))
      → IsName name
      → All (λ e. IsCmp e × (is_gate e ≡ true)) es
      → All (IsPrefer fl sp) ps
      → parse fl (
          render (
            opening name
              (print_requires sp es (print_prefers sp ps (word (codes "optimize") ∷ [])))))
        ≡ panic
  unfolding parse parse_tokens parse_policy expect_ident expect_punct take equal keywords is_name
  parse-optimize_last name es ps n a b =
      let body = print_requires sp es (print_prefers sp ps (word (codes "optimize") ∷ [])) in
      let ls = opening name body in
      let last =
        prefers-AreLexemes fl sp ps (word (codes "optimize") ∷ []) b
          (keyword "optimize" refl, tt) in
      let are : AreLexemes ls =
        (keyword "policy" refl, (n, (open_brace, requires-AreLexemes fl sp es _ a last))) in
      let panics =
        clauses-panic es ps (length (place 0 ls) + 1) (0 + 7 + (length name + 1) + 2)
          (new_policy fl name) a b (omega (arith, length-place 0 ls)) in
      rw (tokenize-render ls are) (rw panics)
