-- ===== src/Policy/Parser/Invariant.antt =====
-- sdk/go/policy/parser.go: conditions on the policies that `Parse` returns.
use noetivela_open.Prelude.{
  ℕ, zero, suc, ◌≡◌, ◌≢◌, refl, true, false, Option, none, some, [], ◌∷◌, Bytes, equal, codes,
  length, ◌+◌, All, All-append, arith,
}
use noetivela_open.Prelude.Keys.{IsDistinct, Replaces, put-IsDistinct}
use noetivela_open.Policy.Token.{Token, Tokens, text}
use noetivela_open.Policy.Ast.{Optimize, Weights, insert}
use noetivela_open.Policy.Lexer.{Lexed, tokenize}
use noetivela_open.Policy.Outcome.{Outcome, wrap, peek, expect_ident, expect_punct}
use noetivela_open.Policy.Outcome.Post.{Post, Post-bind, Post-then, Post-if}
use noetivela_open.Policy.Number.{Floats, parse_number}
use noetivela_open.Policy.Expression.{parse_or}
use noetivela_open.Policy.Parser.{
  PolicyOf, Result, ok, err, panic, out_of_fuel, result_of, is_gate, is_dim, any_ident, in_body,
  order_loop, parse_dim_weight, weights_loop, require_clause, prefer_clause, optimize_from,
  optimize_clause, optional_integer, fallback_clause, switch_clause, clause_of, clauses_loop,
  new_policy, parse_policy, parse_tokens, parse,
}

module _ (fl : Floats) where
  open fl use {Float}

  -- A lexicographic objective has no weights; a weighted one has a weight at least, each dimension
  -- once, and no order.
  pub data IsObjective : Option (Optimize Float) → Type 0 where
    absent : IsObjective none
    ordered : {o : Optimize Float} → o.lexicographic ≡ true → o.weights ≡ [] → IsObjective (some o)
    weighted :
        {o : Optimize Float}
        → o.lexicographic ≡ false
        → o.weights ≢ []
        → IsDistinct o.weights
        → o.order ≡ []
        → IsObjective (some o)

  -- Each requirement is a comparison or a membership test.
  pub record IsSound (pol : PolicyOf fl) : Type 0 where
    pub gates : All (λ e. is_gate e ≡ true) pol.requires
    pub objective : IsObjective pol.optimize

  insert-ne-nil : (d : Bytes) (w : Float) (m : Weights Float) → insert d w m ≢ []
  unfolding insert
  insert-ne-nil d w [] = cc
  insert-ne-nil d w ((e, v) ∷ m) = ground arith

  insert-Replaces : Replaces {A = Float} insert
  unfolding insert
  insert-Replaces = record {
    at_end = λ d w. refl;
    in_place = λ d w e v m h. rw h refl;
    behind = λ d w e v m h. rw h refl;
  }

  -- A weight at least, and each dimension once.
  abbrev IsWeighting : Weights Float → Type 0
  IsWeighting m = (m ≢ []) × IsDistinct m

  parse_dim_weight-Post :
      (m : Weights Float) (dim : Token) (ts : Tokens)
      → IsDistinct m
      → Post IsWeighting (parse_dim_weight fl m dim ts)
  unfolding parse_dim_weight
  parse_dim_weight-Post m dim ts d = Post-bind IsWeighting (parse_number fl ts) _ λ w rest.
      (insert-ne-nil (text dim) w m, put-IsDistinct insert insert-Replaces (text dim) w m d)

  weights_loop-Post :
      (f : ℕ) (m : Weights Float) (ts : Tokens)
      → IsWeighting m
      → Post IsWeighting (weights_loop fl f m ts)
  unfolding weights_loop peek
  weights_loop-Post zero m ts h = tt
  weights_loop-Post (suc f) m [] h = tt
  weights_loop-Post (suc f) m (t ∷ ts) h =
      Post-if IsWeighting (is_dim (text t)) _ _ (t ∷ ts)
        (λ _. Post-bind IsWeighting (any_ident (t ∷ ts)) _ λ dim rest.
          Post-then IsWeighting IsWeighting (parse_dim_weight fl m dim rest) _
            (parse_dim_weight-Post m dim rest h.1) λ w rest' n. weights_loop-Post f w rest' n)
        λ _. h

  optimize_clause-Post :
      (f : ℕ) (pol : PolicyOf fl) (ts : Tokens)
      → IsSound pol
      → Post IsSound (optimize_clause fl f pol ts)
  unfolding optimize_clause optimize_from
  optimize_clause-Post f pol ts s = Post-bind IsSound (any_ident ts) _ λ first rest.
      Post-if IsSound (equal (text first) (codes "lexicographic")) _ _ rest
        (λ _.
          Post-bind IsSound (order_loop f [] rest) _
            λ dims _. record { gates = s.gates; objective = ordered refl refl })
        λ _.
          Post-then IsSound IsWeighting (parse_dim_weight fl [] first rest) _
            (parse_dim_weight-Post [] first rest tt)
            λ m rest' n.
              Post-then IsSound IsWeighting (weights_loop fl f m rest') _
                (weights_loop-Post f m rest' n)
                λ ws _ n'. record { gates = s.gates; objective = weighted refl n'.0 n'.1 refl }

  require_clause-Post :
      (f : ℕ) (pol : PolicyOf fl) (ts : Tokens)
      → IsSound pol
      → Post IsSound (require_clause fl f pol ts)
  unfolding require_clause
  require_clause-Post f pol ts s = Post-bind IsSound (parse_or f ts) _ λ expr rest.
      Post-if IsSound (is_gate expr) _ _ rest
        (λ gate. record {
          gates = All-append (λ e. is_gate e ≡ true) pol.requires (expr ∷ []) s.gates (gate, tt);
          objective = s.objective;
        })
        λ _. tt

  prefer_clause-Post :
      (pol : PolicyOf fl) (ts : Tokens) → IsSound pol → Post IsSound (prefer_clause fl pol ts)
  unfolding prefer_clause
  prefer_clause-Post pol ts s = Post-bind IsSound (expect_ident ts) _ λ feat r.
      Post-bind IsSound (expect_ident r) _ λ _ r'.
        Post-bind IsSound (parse_number fl r') _
          λ w _. record { gates = s.gates; objective = s.objective }

  fallback_clause-Post :
      (pol : PolicyOf fl) (ts : Tokens) → IsSound pol → Post IsSound (fallback_clause fl pol ts)
  unfolding fallback_clause
  fallback_clause-Post pol ts s = Post-bind IsSound (expect_ident ts) _ λ cls r.
      Post-bind IsSound (optional_integer fl (codes "max_attempts") r) _
        λ n _. record { gates = s.gates; objective = s.objective }

  switch_clause-Post :
      (pol : PolicyOf fl) (ts : Tokens) → IsSound pol → Post IsSound (switch_clause fl pol ts)
  unfolding switch_clause
  switch_clause-Post pol ts s = Post-bind IsSound (expect_ident ts) _ λ _ r₁.
      Post-bind IsSound (expect_ident r₁) _ λ _ r₂.
        Post-bind IsSound (expect_punct (codes ">=") r₂) _ λ _ r₃.
          Post-bind IsSound (parse_number fl r₃) _ λ gain r₄.
            Post-bind IsSound (optional_integer fl (codes "min_hold_seconds") r₄) _
              λ secs _. record { gates = s.gates; objective = s.objective }

  clause_of-Post :
      (f : ℕ) (kw : Token) (pol : PolicyOf fl) (ts : Tokens)
      → IsSound pol
      → Post IsSound (clause_of fl f kw pol ts)
  unfolding clause_of
  clause_of-Post f kw pol ts s =
      Post-if IsSound (equal (text kw) (codes "require")) _ _ ts
        (λ _. require_clause-Post f pol ts s)
        λ _.
          Post-if IsSound (equal (text kw) (codes "prefer")) _ _ ts
            (λ _. prefer_clause-Post pol ts s)
            λ _.
              Post-if IsSound (equal (text kw) (codes "optimize")) _ _ ts
                (λ _. optimize_clause-Post f pol ts s)
                λ _.
                  Post-if IsSound (equal (text kw) (codes "fallback")) _ _ ts
                    (λ _. fallback_clause-Post pol ts s)
                    λ _.
                      Post-if IsSound (equal (text kw) (codes "switch")) _ _ ts
                        (λ _. switch_clause-Post pol ts s) λ _. tt

  clauses_loop-Post :
      (f : ℕ) (pol : PolicyOf fl) (ts : Tokens)
      → IsSound pol
      → Post IsSound (clauses_loop fl f pol ts)
  unfolding clauses_loop peek
  clauses_loop-Post zero pol ts s = tt
  clauses_loop-Post (suc f) pol [] s = tt
  clauses_loop-Post (suc f) pol (t ∷ ts) s =
      Post-if IsSound (in_body t) _ _ (t ∷ ts)
        (λ _. Post-bind IsSound (expect_ident (t ∷ ts)) _ λ kw r.
          Post-then IsSound IsSound (clause_of fl f kw pol r) _ (clause_of-Post f kw pol r s)
            λ pol' r' s'. clauses_loop-Post f pol' r' s')
        λ _. s

  parse_policy-Post : (f : ℕ) (ts : Tokens) → Post IsSound (parse_policy fl f ts)
  unfolding parse_policy
  parse_policy-Post f ts = Post-bind IsSound (wrap _ (expect_ident ts)) _ λ _ r₁.
      Post-bind IsSound (wrap _ (expect_ident r₁)) _ λ name r₂.
        Post-bind IsSound (expect_punct (codes "{") r₂) _ λ _ r₃.
          Post-then IsSound IsSound (clauses_loop fl f (new_policy fl (text name)) r₃) _
            (clauses_loop-Post f (new_policy fl (text name)) r₃
              (record { gates = tt; objective = absent }))
            λ pol r₄ s. Post-bind IsSound (expect_punct (codes "}") r₄) _ λ _ _. s

  abbrev Returns : Result (PolicyOf fl) → Type 0
  Returns (ok pol) = IsSound pol
  Returns (err _) = Unit
  Returns panic = Unit
  Returns out_of_fuel = Unit

  result_of-Returns : (r : Outcome (PolicyOf fl)) → Post IsSound r → Returns (result_of r)
  result_of-Returns (Outcome.ok pol ts) p = p
  result_of-Returns (Outcome.err e ts) p = tt
  result_of-Returns Outcome.panic p = tt
  result_of-Returns Outcome.out_of_fuel p = tt

  parse_tokens-Returns : (toks : Lexed Tokens) → Returns (parse_tokens fl toks)
  unfolding parse_tokens
  parse_tokens-Returns (Lexed.ok ts) =
      result_of-Returns (parse_policy fl (length ts + 1) ts) (parse_policy-Post (length ts + 1) ts)
  parse_tokens-Returns (Lexed.err e) = tt
  parse_tokens-Returns Lexed.out_of_fuel = tt

  -- Each requirement of a policy that `Parse` returns is a comparison or a membership test: no
  -- conjunction, disjunction, negation or bare operand is a hard gate. Its objective, if it has one,
  -- is lexicographic with no weights, or weighted with one weight at least, no dimension weighted
  -- twice, and no order.
  pub parse-IsSound : (input : Bytes) {pol : PolicyOf fl} → parse fl input ≡ ok pol → IsSound pol
  unfolding parse
  parse-IsSound input h = rw h at (parse_tokens-Returns (tokenize input))
