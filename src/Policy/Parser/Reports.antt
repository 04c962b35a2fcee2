-- ===== src/Policy/Parser/Reports.antt =====
-- sdk/go/policy/parser.go: the tokens that the errors of the clauses show.
use noetivela_open.Prelude.{ℕ, zero, suc, refl, List, [], ◌∷◌, ◌++◌, Bytes, equal, codes, All}
use noetivela_open.Policy.Token.{
  expected_policy, expected_policy_name, Token, Tokens, text, ParseError,
}
use noetivela_open.Policy.Ast.{Dim, Weights}
use noetivela_open.Policy.Outcome.{
  Outcome, wrap, peek, take, zero_token, ignore_err, expect_ident, expect_punct,
}
use noetivela_open.Policy.Outcome.Reports.{
  Says, Reports, Any, shows, Reports-then, Reports-test, Reports-if, Reports-bind,
  expect_ident-Reports, expect_punct-Reports, parse_number-Reports, parse_integer-Reports,
}
use noetivela_open.Policy.Number.{Floats, parse_number}
use noetivela_open.Policy.Expression.{parse_or}
use noetivela_open.Policy.Expression.Reports.{parse_or-Reports}
use noetivela_open.Policy.Parser.{
  PolicyOf, is_gate, is_dim, any_ident, in_order, in_body, order_loop, parse_dim_weight,
  weights_loop, require_clause, prefer_clause, optimize_from, optimize_clause, optional_integer,
  fallback_clause, switch_clause, clause_of, clauses_loop, new_policy, parse_policy,
}

module _ (P : Token → Type 0) where
  -- The error that is dropped leaves tokens of `P` too.
  any_ident-Reports : (ts : Tokens) → All P ts → Reports P (Any P) (any_ident ts)
  unfolding any_ident
  any_ident-Reports ts all = ignored (expect_ident ts) (expect_ident-Reports P ts all)
    where
      ignored : (r : Outcome Token) → Reports P P r → Reports P (Any P) (ignore_err zero_token r)
      ignored (Outcome.ok t rest) (h, all') = (tt, all')
      ignored (Outcome.err e rest) (h, all') = (tt, all')
      ignored Outcome.panic h = tt
      ignored Outcome.out_of_fuel h = tt

  order_loop-Reports :
      (f : ℕ) (order : List Dim) (ts : Tokens)
      → All P ts
      → Reports P (Any P) (order_loop f order ts)
  unfolding order_loop peek
  order_loop-Reports zero order ts all = tt
  order_loop-Reports (suc f) order [] all = tt
  order_loop-Reports (suc f) order (t ∷ ts) all =
      Reports-test P (in_order t) _ _ (t ∷ ts)
        (Reports-then P (any_ident (t ∷ ts)) _ (any_ident-Reports (t ∷ ts) all)
          λ dim rest all₁. order_loop-Reports f (order ++ text dim ∷ []) rest all₁)
        (tt, all)

  module _ (fl : Floats) where
    open fl use {Float}

    parse_dim_weight-Reports :
        (m : Weights Float) (dim : Token) (ts : Tokens)
        → All P ts
        → Reports P (Any P) (parse_dim_weight fl m dim ts)
    unfolding parse_dim_weight
    parse_dim_weight-Reports m dim ts all =
        Reports-then P (parse_number fl ts) _ (parse_number-Reports P fl ts all)
          λ w rest all₁. (tt, all₁)

    weights_loop-Reports :
        (f : ℕ) (m : Weights Float) (ts : Tokens)
        → All P ts
        → Reports P (Any P) (weights_loop fl f m ts)
    unfolding weights_loop peek
    weights_loop-Reports zero m ts all = tt
    weights_loop-Reports (suc f) m [] all = tt
    weights_loop-Reports (suc f) m (t ∷ ts) all =
        Reports-test P (is_dim (text t)) _ _ (t ∷ ts)
          (Reports-then P (any_ident (t ∷ ts)) _ (any_ident-Reports (t ∷ ts) all) λ dim rest all₁.
            Reports-then P (parse_dim_weight fl m dim rest) _
              (parse_dim_weight-Reports m dim rest all₁)
              λ m' rest' all₂. weights_loop-Reports f m' rest' all₂)
          (tt, all)

    module _ (f : ℕ) (pol : PolicyOf fl) where
      require_clause-Reports :
          (ts : Tokens) → All P ts → Reports P (Any P) (require_clause fl f pol ts)
      unfolding require_clause
      require_clause-Reports ts all =
          Reports-then P (parse_or f ts) _ (parse_or-Reports P f ts all)
            λ expr rest all₁. Reports-test P (is_gate expr) _ _ rest (tt, all₁) (tt, all₁)

      prefer_clause-Reports : (ts : Tokens) → All P ts → Reports P (Any P) (prefer_clause fl pol ts)
      unfolding prefer_clause
      prefer_clause-Reports ts all =
          Reports-bind P (Any P) P (expect_ident ts) _ (expect_ident-Reports P ts all)
            λ _ r₁ _ all₁.
              Reports-bind P (Any P) P (expect_ident r₁) _ (expect_ident-Reports P r₁ all₁)
                λ _ r₂ _ all₂.
                  Reports-then P (parse_number fl r₂) _ (parse_number-Reports P fl r₂ all₂)
                    λ w rest all₃. (tt, all₃)

      optimize_from-Reports :
          (first : Token) (ts : Tokens)
          → All P ts
          → Reports P (Any P) (optimize_from fl f pol first ts)
      unfolding optimize_from
      optimize_from-Reports first ts all =
          Reports-test P (equal (text first) (codes "lexicographic")) _ _ ts
            (Reports-then P (order_loop f [] ts) _ (order_loop-Reports f [] ts all)
              λ dims rest all₁. (tt, all₁))
            (Reports-then P (parse_dim_weight fl [] first ts) _
              (parse_dim_weight-Reports [] first ts all)
              λ m rest all₁.
                Reports-then P (weights_loop fl f m rest) _ (weights_loop-Reports f m rest all₁)
                  λ ws rest' all₂. (tt, all₂))

      optimize_clause-Reports :
          (ts : Tokens) → All P ts → Reports P (Any P) (optimize_clause fl f pol ts)
      unfolding optimize_clause
      optimize_clause-Reports ts all =
          Reports-then P (any_ident ts) _ (any_ident-Reports ts all) optimize_from-Reports

      optional_integer-Reports :
          (keyword : Bytes) (ts : Tokens)
          → All P ts
          → Reports P (Any P) (optional_integer fl keyword ts)
      unfolding optional_integer peek take
      optional_integer-Reports keyword [] all = tt
      optional_integer-Reports keyword (t ∷ ts) (h, all) =
          Reports-test P (equal (text t) keyword) _ _ (t ∷ ts) (parse_integer-Reports P fl ts all)
            (tt, (h, all))

      fallback_clause-Reports :
          (ts : Tokens) → All P ts → Reports P (Any P) (fallback_clause fl pol ts)
      unfolding fallback_clause
      fallback_clause-Reports ts all =
          Reports-bind P (Any P) P (expect_ident ts) _ (expect_ident-Reports P ts all)
            λ _ r₁ _ all₁.
              Reports-then P (optional_integer fl (codes "max_attempts") r₁) _
                (optional_integer-Reports (codes "max_attempts") r₁ all₁) λ n rest all₂. (tt, all₂)

      switch_clause-Reports : (ts : Tokens) → All P ts → Reports P (Any P) (switch_clause fl pol ts)
      unfolding switch_clause
      switch_clause-Reports ts all =
          Reports-bind P (Any P) P (expect_ident ts) _ (expect_ident-Reports P ts all)
            λ _ r₁ _ all₁.
              Reports-bind P (Any P) P (expect_ident r₁) _ (expect_ident-Reports P r₁ all₁)
                λ _ r₂ _ all₂.
                  Reports-then P (expect_punct (codes ">=") r₂) _
                    (expect_punct-Reports P (codes ">=") r₂ all₂)
                    λ _ r₃ all₃.
                      Reports-then P (parse_number fl r₃) _ (parse_number-Reports P fl r₃ all₃)
                        λ gain r₄ all₄.
                          Reports-then P (optional_integer fl (codes "min_hold_seconds") r₄) _
                            (optional_integer-Reports (codes "min_hold_seconds") r₄ all₄)
                            λ secs rest all₅. (tt, all₅)

      clause_of-Reports :
          (kw : Token) (ts : Tokens)
          → P kw
          → All P ts
          → Reports P (Any P) (clause_of fl f kw pol ts)
      unfolding clause_of
      clause_of-Reports kw ts h all =
          Reports-if P (Any P) (equal (text kw) (codes "require")) _ _ ts
            (λ _. require_clause-Reports ts all)
            λ n₁.
              Reports-if P (Any P) (equal (text kw) (codes "prefer")) _ _ ts
                (λ _. prefer_clause-Reports ts all)
                λ n₂.
                  Reports-if P (Any P) (equal (text kw) (codes "optimize")) _ _ ts
                    (λ _. optimize_clause-Reports ts all)
                    λ n₃.
                      Reports-if P (Any P) (equal (text kw) (codes "fallback")) _ _ ts
                        (λ _. fallback_clause-Reports ts all)
                        λ n₄.
                          Reports-if P (Any P) (equal (text kw) (codes "switch")) _ _ ts
                            (λ _. switch_clause-Reports ts all)
                            λ n₅. (shows P _ kw h (rw (n₁, n₂, n₃, n₄, n₅) refl), all)

    clauses_loop-Reports :
        (f : ℕ) (pol : PolicyOf fl) (ts : Tokens)
        → All P ts
        → Reports P (Any P) (clauses_loop fl f pol ts)
    unfolding clauses_loop peek
    clauses_loop-Reports zero pol ts all = tt
    clauses_loop-Reports (suc f) pol [] all = tt
    clauses_loop-Reports (suc f) pol (t ∷ ts) all =
        Reports-test P (in_body t) _ _ (t ∷ ts)
          (Reports-bind P (Any P) P (expect_ident (t ∷ ts)) _ (expect_ident-Reports P (t ∷ ts) all)
            λ kw rest h all₁.
              Reports-then P (clause_of fl f kw pol rest) _ (clause_of-Reports f pol kw rest h all₁)
                λ pol' rest' all₂. clauses_loop-Reports f pol' rest' all₂)
          (tt, all)

    wrap-Reports :
        (g : ParseError → ParseError) (r : Outcome Token)
        → ((e : ParseError) → Says P e → Says P (g e))
        → Reports P P r
        → Reports P P (wrap g r)
    wrap-Reports g (Outcome.ok t rest) k h = h
    wrap-Reports g (Outcome.err e rest) k (h, all) = (k e h, all)
    wrap-Reports g Outcome.panic k h = tt
    wrap-Reports g Outcome.out_of_fuel k h = tt

    pub parse_policy-Reports :
        (f : ℕ) (ts : Tokens) → All P ts → Reports P (Any P) (parse_policy fl f ts)
    unfolding parse_policy
    parse_policy-Reports f ts all =
        Reports-bind P (Any P) P (wrap expected_policy (expect_ident ts)) _
          (wrap-Reports expected_policy (expect_ident ts) (λ e s. s)
            (expect_ident-Reports P ts all))
          λ _ r₁ _ all₁.
            Reports-bind P (Any P) P (wrap expected_policy_name (expect_ident r₁)) _
              (wrap-Reports expected_policy_name (expect_ident r₁) (λ e s. s)
                (expect_ident-Reports P r₁ all₁))
              λ name r₂ _ all₂.
                Reports-then P (expect_punct (codes "{") r₂) _
                  (expect_punct-Reports P (codes "{") r₂ all₂)
                  λ _ r₃ all₃.
                    Reports-then P (clauses_loop fl f (new_policy fl (text name)) r₃) _
                      (clauses_loop-Reports f (new_policy fl (text name)) r₃ all₃)
                      λ pol r₄ all₄.
                        Reports-then P (expect_punct (codes "}") r₄) _
                          (expect_punct-Reports P (codes "}") r₄ all₄) λ _ r₅ all₅. (tt, all₅)
