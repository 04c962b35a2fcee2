-- ===== src/Policy/Syntax/Policies.antt =====
-- sdk/go/policy/parser.go: `parsePolicy` keeps to the rules.
use noetivela_open.Prelude.{
  ℕ, zero, suc, ◌≡◌, refl, ap, subst, ◌∙◌, true, Bool-cases, inl, inr, [], ◌∷◌, equal, codes,
}
use noetivela_open.Policy.Token.{Token, Tokens, ParseError, kind, text, is_ident}
use noetivela_open.Policy.Ast.{insert}
use noetivela_open.Policy.Number.{Floats}
use noetivela_open.Policy.Outcome.{Parser, bind, take, peek, wrap, expect_ident}
use noetivela_open.Policy.Parser.{
  PolicyOf, is_gate, any_ident, parse_dim_weight, require_clause, prefer_clause, optimize_from,
  optimize_clause, fallback_clause, switch_clause, clause_of, in_body, clauses_loop, new_policy,
  parse_policy,
}
use noetivela_open.Policy.Syntax.Clauses.{name_of, Number, Weighs, Clause, Clauses, IsPolicy}
use noetivela_open.Policy.Syntax.Means.{
  Means, done, failed, panicked, stopped, Means-bind, Means-map, Means-if, expect_ident_cons-Means,
  expect_ident-Means, expect_punct-Means,
}
use noetivela_open.Policy.Syntax.Comparisons.{parse_or-Means}
use noetivela_open.Policy.Syntax.Parts.{
  any_ident-Means, order_loop-Means, parse_number-Means, optional_integer-Means, weights_loop-Means,
}

module _ (fl : Floats) where
  open fl use {Float}

  module _ (kw : Token) (pol : PolicyOf fl) where
    require_clause-Means :
        (f : ℕ) (ts : Tokens)
        → equal (text kw) (codes "require") ≡ true
        → Means (Clause fl kw pol ts) (require_clause fl f pol ts)
    unfolding require_clause
    require_clause-Means f ts k =
        Means-bind (parse_or-Means f ts)
          λ e rest o. Means-if (is_gate e) _ _ (λ g. done (Clause.require k o g)) λ g. failed

    prefer_clause-Means :
        (ts : Tokens)
        → equal (text kw) (codes "prefer") ≡ true
        → Means (Clause fl kw pol ts) (prefer_clause fl pol ts)
    unfolding prefer_clause
    prefer_clause-Means ts k =
        expect_ident-Means (λ ts. Clause fl kw pol ts) ts _
          λ feature us n.
            expect_ident-Means (λ us. Clause fl kw pol (feature ∷ us)) us _
              λ weight vs n'.
                Means-bind (parse_number-Means fl vs) λ x rest w. done (Clause.prefer k n n' w)

    optimize_from-Means :
        (f : ℕ) (t first : Token) (ts : Tokens)
        → equal (text kw) (codes "optimize") ≡ true
        → text first ≡ name_of t
        → Means (Clause fl kw pol (t ∷ ts)) (optimize_from fl f pol first ts)
    unfolding optimize_from parse_dim_weight
    optimize_from-Means f t first ts k e =
        Means-if (equal (text first) (codes "lexicographic")) _ _
          (λ h.
            Means-bind (order_loop-Means f [] ts)
              λ dims rest (more, q, o). rw q (done (Clause.lexicographic k (rw e at h) o)))
          λ h.
            Means-bind
              {R = λ m us. (x : Float) × Number fl ts x us × (m ≡ insert (text first) x [])}
              (Means-bind (parse_number-Means fl ts) λ x us n. done (x, n, refl))
              λ m us (x, n, q). Means-bind (weights_loop-Means fl f m us) λ all rest w. done (
                Clause.weighted k (rw e at h) n
                  (subst (λ v. Weighs fl v us all rest) (q ∙ ap (λ d. insert d x []) e) w))

    optimize_clause-Means :
        (f : ℕ) (ts : Tokens)
        → equal (text kw) (codes "optimize") ≡ true
        → Means (Clause fl kw pol ts) (optimize_clause fl f pol ts)
    unfolding optimize_clause any_ident expect_ident take
    optimize_clause-Means f [] k = panicked
    optimize_clause-Means f (t ∷ ts) k =
        any_ident-Means t ts _ λ first e. optimize_from-Means f t first ts k e

    fallback_clause-Means :
        (ts : Tokens)
        → equal (text kw) (codes "fallback") ≡ true
        → Means (Clause fl kw pol ts) (fallback_clause fl pol ts)
    unfolding fallback_clause
    fallback_clause-Means ts k =
        expect_ident-Means (λ ts. Clause fl kw pol ts) ts _
          λ class us n.
            Means-bind (optional_integer-Means fl "max_attempts" us)
              λ i rest o. done (Clause.fallback k n o)

    switch_clause-Means :
        (ts : Tokens)
        → equal (text kw) (codes "switch") ≡ true
        → Means (Clause fl kw pol ts) (switch_clause fl pol ts)
    unfolding switch_clause
    switch_clause-Means ts k =
        expect_ident-Means (λ ts. Clause fl kw pol ts) ts _
          λ only us n.
            expect_ident-Means (λ us. Clause fl kw pol (only ∷ us)) us _
              λ gain vs n'.
                expect_punct-Means (λ vs. Clause fl kw pol (only ∷ gain ∷ vs)) (codes ">=") vs _
                  λ at_least ws s. Means-bind (parse_number-Means fl ws) λ x xs w.
                    Means-bind (optional_integer-Means fl "min_hold_seconds" xs)
                      λ i rest o. done (Clause.switch k n n' s w o)

    pub clause_of-Means :
        (f : ℕ) (ts : Tokens) → Means (Clause fl kw pol ts) (clause_of fl f kw pol ts)
    unfolding clause_of
    clause_of-Means f ts =
        Means-if (equal (text kw) (codes "require")) _ _ (require_clause-Means f ts) λ _.
          Means-if (equal (text kw) (codes "prefer")) _ _ (prefer_clause-Means ts) λ _.
            Means-if (equal (text kw) (codes "optimize")) _ _ (optimize_clause-Means f ts) λ _.
              Means-if (equal (text kw) (codes "fallback")) _ _ (fallback_clause-Means ts) λ _.
                Means-if (equal (text kw) (codes "switch")) _ _ (switch_clause-Means ts) λ _. failed

  clauses_loop-Means :
      (f : ℕ) (pol : PolicyOf fl) (ts : Tokens)
      → Means (Clauses fl pol ts) (clauses_loop fl f pol ts)
  unfolding clauses_loop peek expect_ident take
  clauses_loop-Means zero pol ts = stopped
  clauses_loop-Means (suc f) pol [] = panicked
  clauses_loop-Means (suc f) pol (t ∷ ts) =
      Means-if (in_body t) _ _
        (λ h.
          expect_ident_cons-Means (λ us. Clauses fl pol us) t ts _
            λ n. Means-bind (clause_of-Means t pol f ts) λ pol' us c.
              Means-map (clauses_loop-Means f pol' us) λ pol'' rest cs. Clauses.clause h n c cs)
        λ h. done (Clauses.last h)

  -- The error of a missing name is wrapped.
  wrapped_ident-Means :
      {A : Type 0} (P : Tokens → A → Tokens → Type 0) (g : ParseError → ParseError) (ts : Tokens)
      (f : Token → Parser A)
      → ((t : Token) (us : Tokens) → is_ident (kind t) ≡ true → Means (P (t ∷ us)) (f t us))
      → Means (P ts) (bind (wrap g (expect_ident ts)) f)
  unfolding expect_ident take
  wrapped_ident-Means P g [] f k = panicked
  wrapped_ident-Means P g (t ∷ ts) f k = elim (Bool-cases (is_ident (kind t))) [
    | inl h ↦ rw h (k t ts h)
    | inr h ↦ rw h failed
  ]

  pub parse_policy-Means : (f : ℕ) (ts : Tokens) → Means (IsPolicy fl ts) (parse_policy fl f ts)
  unfolding parse_policy
  parse_policy-Means f ts =
      wrapped_ident-Means (λ ts. IsPolicy fl ts) _ ts _
        λ first us n.
          wrapped_ident-Means (λ us. IsPolicy fl (first ∷ us)) _ us _
            λ name vs n'.
              expect_punct-Means (λ vs. IsPolicy fl (first ∷ name ∷ vs)) (codes "{") vs _
                λ open_ ws o.
                  Means-bind (clauses_loop-Means f (new_policy fl (text name)) ws) λ pol xs cs.
                    Means-map
                      (expect_punct-Means
                        (λ xs pol' rest.
                          Clauses fl (new_policy fl (text name)) ws pol xs
                          → IsPolicy fl (first ∷ name ∷ open_ ∷ ws) pol' rest)
                        (codes "}") xs _ λ close rest c. done λ cs. IsPolicy.policy n n' o cs c)
                      λ pol' rest k. k cs
