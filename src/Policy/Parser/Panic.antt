-- ===== src/Policy/Parser/Panic.antt =====
-- sdk/go/policy/parser.go: the parser of policies near the end of its tokens.
use noetivela_open.Prelude.{
  ℕ, zero, suc, ◌<◌, ◌≡◌, refl, inl, inr, Bool-cases, true, [], ◌∷◌, Bytes, equal, codes, equal_iff,
  length, arith,
}
use noetivela_open.Policy.Token.{is_ident, Token, Tokens, token, ident, eof, kind, text, ParseError}
use noetivela_open.Policy.Outcome.{Outcome, wrap, zero_token, peek, take, expect_ident}
use noetivela_open.Policy.Outcome.Progress.{
  Ended, last, more, Suffix, same, skipped, After, After-refl, After-cons, After-trans, Ended-tail,
  Ensures, done, failed, panicked, Ensures-bind, Ensures-if, Consumes, continue,
  expect_ident-Consumes, expect_punct-Consumes,
}
use noetivela_open.Policy.Number.{Floats, parse_number}
use noetivela_open.Policy.Parser.Progress.{
  IsLast, any_ident-Ensures, require_clause-Consumes, prefer_clause-Consumes,
  fallback_clause-Consumes, switch_clause-Consumes, optimize_from-Consumes,
}
use noetivela_open.Policy.Parser.{
  PolicyOf, in_body, parse_dim_weight, optimize_from, optimize_clause, clause_of, clauses_loop,
  parse_policy, new_policy,
}

-- The tokens end right behind an identifier `optimize`.
pub data Truncated : Tokens → Type 0 where
  here :
      {s : Bytes} {p q : ℕ}
      → s ≡ codes "optimize"
      → Truncated (token ident s p ∷ token eof [] q ∷ [])
  there : {t : Token} {ts : Tokens} → Truncated ts → Truncated (t ∷ ts)

Truncated-Suffix : {r ts : Tokens} → Truncated r → Suffix r ts → Truncated ts
Truncated-Suffix h same = h
Truncated-Suffix h (skipped s) = there (Truncated-Suffix h s)

Truncated-intro :
    (kw : Token) (ts : Tokens)
    → is_ident (kind kw) ≡ true
    → Ended ts
    → (text kw ≡ codes "optimize") × IsLast ts
    → Truncated (kw ∷ ts)
Truncated-intro (token ident s p) ts h last (w, l) = here w
Truncated-intro (token ident s p) (t ∷ []) h (more _ e) (w, l) = elim e [ ]
Truncated-intro (token ident s p) (t ∷ u ∷ ts) h (more _ e) (w, l) = absurd (omega arith)
Truncated-intro (token _ s p) ts h e (w, l) = cc

module _ {ℓ} {A : Type ℓ} {P : A → Tokens → Type 0} {Q : Type 0} where
  pub Ensures-panic : {Q' : Type 0} {r : Outcome A} → (Q → Q') → Ensures P Q r → Ensures P Q' r
  Ensures-panic k (done p) = done p
  Ensures-panic k failed = failed
  Ensures-panic k (panicked q) = panicked (k q)

  wrap-Ensures :
      {r : Outcome A} (g : ParseError → ParseError) → Ensures P Q r → Ensures P Q (wrap g r)
  wrap-Ensures g (done p) = done p
  wrap-Ensures g failed = failed
  wrap-Ensures g (panicked q) = panicked q

module _ (fl : Floats) where
  pub optimize_from-nil :
      (f : ℕ) (pol : PolicyOf fl) → optimize_from fl f pol zero_token [] ≡ Outcome.panic
  unfolding optimize_from parse_dim_weight parse_number take equal
  optimize_from-nil f pol = refl

  optimize_clause-Ensures :
      (f : ℕ) (pol : PolicyOf fl) (ts : Tokens)
      → Ended ts
      → length ts < f
      → Consumes 0 (IsLast ts) ts (optimize_clause fl f pol ts)
  unfolding optimize_clause
  optimize_clause-Ensures f pol ts e h = Ensures-bind (any_ident-Ensures ts e) λ first rest a.
      elim a [
        | inl b ↦
            let shorter = b.shorter in
            continue {k = 0} b (omega arith)
              (optimize_from-Consumes fl f pol first rest b.ended (omega arith))
        | inr (nothing, zeroed, is_last) ↦
            rw (nothing, zeroed) (rw (optimize_from-nil f pol) (panicked is_last))
      ]

  pub clause_of-Ensures :
      (f : ℕ) (kw : Token) (pol : PolicyOf fl) (ts : Tokens)
      → Ended ts
      → length ts < f
      → Consumes 0 ((text kw ≡ codes "optimize") × IsLast ts) ts (clause_of fl f kw pol ts)
  unfolding clause_of
  clause_of-Ensures f kw pol ts e h =
      Ensures-if (equal (text kw) (codes "require")) _ _
        (λ _. require_clause-Consumes fl f pol ts e h)
        λ _.
          Ensures-if (equal (text kw) (codes "prefer")) _ _
            (λ _. prefer_clause-Consumes fl pol ts e)
            λ _.
              Ensures-if (equal (text kw) (codes "optimize")) _ _
                (λ b.
                  Ensures-panic (λ l. ((equal_iff _ _).0 b, l))
                    (optimize_clause-Ensures f pol ts e h))
                λ _.
                  Ensures-if (equal (text kw) (codes "fallback")) _ _
                    (λ _. fallback_clause-Consumes fl pol ts e)
                    λ _.
                      Ensures-if (equal (text kw) (codes "switch")) _ _
                        (λ _. switch_clause-Consumes fl pol ts e) λ _. failed

  clauses_loop-Ensures :
      (f : ℕ) (pol : PolicyOf fl) (ts : Tokens)
      → Ended ts
      → length ts < f
      → Consumes 0 (Truncated ts) ts (clauses_loop fl f pol ts)
  unfolding clauses_loop peek expect_ident take
  clauses_loop-Ensures zero pol ts e h = absurd (omega arith)
  clauses_loop-Ensures (suc f) pol [] e h = elim e [ ]
  clauses_loop-Ensures (suc f) pol (kw ∷ ts) e h = elim (Bool-cases (in_body kw)) [
    | inr out ↦ rw out (done (After-refl e))
    | inl inside ↦ rw inside (elim (Bool-cases (is_ident (kind kw))) [
      | inr other ↦ rw other failed
      | inl word ↦
          let e' = Ended-tail (ground arith) e in
          rw word (
            Ensures-bind
              (Ensures-panic (Truncated-intro kw ts word e')
                (clause_of-Ensures f kw pol ts e' (omega arith)))
              λ pol' rest a.
                let shorter = a.shorter in
                Ensures-panic (λ trunc. Truncated-Suffix trunc (skipped a.suffix))
                  (continue {k = 0} (After-trans {m = 0} (After-cons e') (omega arith) a)
                    (omega arith) (clauses_loop-Ensures f pol' rest a.ended (omega arith))))
    ])
  ]

  -- With fuel above the number of tokens, the parser of policies gives a policy, an error or, if
  -- the tokens end right behind `optimize`, a panic.
  pub parse_policy-Ensures :
      (f : ℕ) (ts : Tokens)
      → Ended ts
      → length ts < f
      → Consumes 1 (Truncated ts) ts (parse_policy fl f ts)
  unfolding parse_policy
  parse_policy-Ensures f ts e h =
      Ensures-bind (wrap-Ensures _ (expect_ident-Consumes ts e)) λ _ r₁ a.
        Ensures-bind (wrap-Ensures _ (expect_ident-Consumes r₁ a.ended)) λ name r₂ b.
          Ensures-bind (expect_punct-Consumes (codes "{") r₂ b.ended) λ _ r₃ c.
            let read : After 1 ts r₃ =
              After-trans (After-trans {m = 1} a (omega arith) b) (omega arith) c in
            let shorter = read.shorter in
            Ensures-bind
              (Ensures-panic (λ trunc. Truncated-Suffix trunc read.suffix)
                (continue {k = 0} {m = 1} read (omega arith)
                  (clauses_loop-Ensures f (new_policy fl (text name)) r₃ read.ended (omega arith))))
              λ pol r₄ d.
                Ensures-bind (expect_punct-Consumes (codes "}") r₄ d.ended)
                  λ _ r₅ e'. done (After-trans d (omega arith) e')
