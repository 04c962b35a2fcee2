-- ===== src/Policy/Syntax/Panics.antt =====
-- sdk/go/policy/parser.go: the sources on which `Parse` panics.
use noetivela_open.Prelude.{
  ℕ, zero, suc, ◌+◌, ◌<◌, ◌≡◌, ◌↔◌, refl, true, ◌&&◌, Bool-cases, inl, inr, [], ◌∷◌, Bytes, equal,
  equal_iff, codes, length, arith,
}
use noetivela_open.Policy.Token.{Token, Tokens, ParseError, kind, text, is_ident, is_punct}
use noetivela_open.Policy.Lexer.{Lexed, tokenize}
use noetivela_open.Policy.Lexer.Progress.{EndsWell, tokenize-EndsWell}
use noetivela_open.Policy.Lexer.Sources.{Spells}
use noetivela_open.Policy.Lexer.Exact.{tokenize_iff}
use noetivela_open.Policy.Number.{Floats}
use noetivela_open.Policy.Outcome.{
  Outcome, Parser, bind, wrap, peek, take, expect_ident, expect_punct,
}
use noetivela_open.Policy.Outcome.Progress.{
  Ended, last, more, Ended-tail, Ensures, done, failed, panicked, Ensures-bind,
}
use noetivela_open.Policy.Parser.{
  PolicyOf, Result, panic, result_of, in_body, clauses_loop, new_policy, parse_policy, parse_tokens,
  parse,
}
use noetivela_open.Policy.Parser.Progress.{IsLast}
use noetivela_open.Policy.Parser.Panic.{Ensures-panic, clause_of-Ensures}
use noetivela_open.Policy.Syntax.Expressions.{IsName}
use noetivela_open.Policy.Syntax.Means.{Means}
use noetivela_open.Policy.Syntax.Policies.{clause_of-Means}
use noetivela_open.Policy.Syntax.Truncated.{
  BreaksOff, here, later, IsTruncated, truncated, IsTruncated-panics,
}

module _ (fl : Floats) where
  BreaksOff-intro :
      (pol : PolicyOf fl) (kw : Token) (ts : Tokens)
      → in_body kw ≡ true
      → IsName kw
      → Ended ts
      → (text kw ≡ codes "optimize") × IsLast ts
      → BreaksOff fl pol (kw ∷ ts)
  BreaksOff-intro pol kw ts k n last (w, l) = here k n ((equal_iff _ _).1 w)
  BreaksOff-intro pol kw (t ∷ []) k n (more _ e) (w, l) = elim e [ ]
  BreaksOff-intro pol kw (t ∷ u ∷ ts) k n (more _ e) (w, l) = absurd (omega arith)

  both-Ensures :
      {A : Type 0} {P R : A → Tokens → Type 0} {Q : Type 0} {r : Outcome A}
      → Ensures P Q r
      → Means R r
      → Ensures (λ a ts. P a ts × R a ts) Q r
  both-Ensures (done p) (Means.done h) = done (p, h)
  both-Ensures failed h = failed
  both-Ensures (panicked q) h = panicked q

  -- If the loop over the clauses panics, its tokens break off.
  abbrev Breaks : Type 0 → Outcome (PolicyOf fl) → Type 0
  Breaks = Ensures (λ _ _. Unit)

  clauses_loop-Breaks :
      (f : ℕ) (pol : PolicyOf fl) (ts : Tokens)
      → Ended ts
      → length ts < f
      → Ensures (λ _ rest. Ended rest) (BreaksOff fl pol ts) (clauses_loop fl f pol ts)
  unfolding clauses_loop peek expect_ident take
  clauses_loop-Breaks zero pol ts e h = absurd (omega arith)
  clauses_loop-Breaks (suc f) pol [] e h = elim e [ ]
  clauses_loop-Breaks (suc f) pol (kw ∷ ts) e h = elim (Bool-cases (in_body kw)) [
    | inr out ↦ rw out (done e)
    | inl inside ↦ rw inside (elim (Bool-cases (is_ident (kind kw))) [
      | inr other ↦ rw other failed
      | inl word ↦
          let e' = Ended-tail (ground arith) e in
          rw word (
            Ensures-bind
              (Ensures-panic (BreaksOff-intro pol kw ts inside word e') (
                both-Ensures (clause_of-Ensures fl f kw pol ts e' (omega arith))
                  (clause_of-Means fl kw pol f ts)))
              λ pol' rest (a, c).
                let shorter = a.shorter in
                Ensures-panic (later inside word c)
                  (clauses_loop-Breaks f pol' rest a.ended (omega arith)))
    ])
  ]

  module _ (Q : Tokens → Type 0) where
    ident-Breaks :
        (ts : Tokens) (f : Token → Parser (PolicyOf fl))
        → Ended ts
        → ((t : Token) (us : Tokens)
            → Ended us
            → length us < length ts
            → IsName t
            → Breaks (Q (t ∷ us)) (f t us))
        → (g : ParseError → ParseError) → Breaks (Q ts) (bind (wrap g (expect_ident ts)) f)
    unfolding expect_ident take
    ident-Breaks [] f e k g = elim e [ ]
    ident-Breaks (t ∷ ts) f e k g = elim (Bool-cases (is_ident (kind t))) [
      | inl h ↦ rw h (k t ts (Ended-tail (ground arith) e) (omega arith) h)
      | inr h ↦ rw h failed
    ]

    punct-Breaks :
        (s : Bytes) (ts : Tokens) (f : Unit {0} → Parser (PolicyOf fl))
        → Ended ts
        → ((t : Token) (us : Tokens)
            → Ended us
            → length us < length ts
            → (is_punct (kind t) && equal (text t) s) ≡ true
            → Breaks (Q (t ∷ us)) (f tt us))
        → Breaks (Q ts) (bind (expect_punct s ts) f)
    unfolding expect_punct take
    punct-Breaks s [] f e k = elim e [ ]
    punct-Breaks s (t ∷ ts) f e k = elim (Bool-cases (is_punct (kind t) && equal (text t) s)) [
      | inl h ↦ rw h (k t ts (Ended-tail (ground arith) e) (omega arith) h)
      | inr h ↦ rw h failed
    ]

  closing-Breaks :
      {Q : Type 0} (pol : PolicyOf fl) (ts : Tokens)
      → Ended ts
      → Breaks Q (bind (expect_punct (codes "}") ts) λ _ rest. Outcome.ok pol rest)
  closing-Breaks {Q} pol ts e = punct-Breaks (λ _. Q) (codes "}") ts _ e λ _ _ _ _ _. done tt

  parse_policy-Breaks :
      (f : ℕ) (ts : Tokens)
      → Ended ts
      → length ts < f
      → Breaks (IsTruncated fl ts) (parse_policy fl f ts)
  unfolding parse_policy
  parse_policy-Breaks f ts e h =
      ident-Breaks (λ ts. IsTruncated fl ts) ts _ e
        (λ first us e₁ l₁ n₁.
          ident-Breaks (λ us. IsTruncated fl (first ∷ us)) us _ e₁
            (λ name vs e₂ l₂ n₂.
              punct-Breaks (λ vs. IsTruncated fl (first ∷ name ∷ vs)) (codes "{") vs _ e₂
                λ open_ ws e₃ l₃ o.
                  Ensures-bind
                    (Ensures-panic (λ b. truncated n₁ n₂ o b)
                      (clauses_loop-Breaks f (new_policy fl (text name)) ws e₃ (omega arith)))
                    λ pol xs e₄. closing-Breaks pol xs e₄)
            _)
        _

  -- What a panic of `Parse` says of the tokens of its source.
  abbrev Explains : Lexed Tokens → Result (PolicyOf fl) → Type 0
  Explains toks panic = (ts : Tokens) × (toks ≡ Lexed.ok ts) × IsTruncated fl ts
  Explains toks _ = Unit

  result_of-Explains :
      {ts : Tokens} {r : Outcome (PolicyOf fl)}
      → Breaks (IsTruncated fl ts) r
      → Explains (Lexed.ok ts) (result_of r)
  result_of-Explains (done p) = tt
  result_of-Explains failed = tt
  result_of-Explains (panicked q) = (_, refl, q)

  parse_tokens-Explains :
      (toks : Lexed Tokens) → EndsWell toks → Explains toks (parse_tokens fl toks)
  unfolding parse_tokens
  parse_tokens-Explains (Lexed.ok ts) e =
      result_of-Explains (parse_policy-Breaks (length ts + 1) ts e (omega arith))
  parse_tokens-Explains (Lexed.err _) e = tt
  parse_tokens-Explains Lexed.out_of_fuel e = tt

  -- The source is spelt as tokens that break off behind an `optimize`.
  pub record BreaksIn (src : Bytes) : Type 0 where
    pub tokens : Tokens
    pub spells : Spells 0 src tokens
    pub is_truncated : IsTruncated fl tokens

  parse-BreaksIn : (src : Bytes) → parse fl src ≡ panic → BreaksIn src
  unfolding parse
  parse-BreaksIn src h =
      let (ts, e, t) = rw h at (parse_tokens-Explains (tokenize src) (tokenize-EndsWell src)) in
      record { tokens = ts; spells = (tokenize_iff src ts).0 e; is_truncated = t }

  -- `Parse` panics exactly on the sources that are a name, a name, an opening brace, clauses by the
  -- rules and an `optimize` with nothing behind it.
  pub parse_panic_iff : (src : Bytes) → (parse fl src ≡ panic) ↔ BreaksIn src
  unfolding parse parse_tokens
  parse_panic_iff src = (
    parse-BreaksIn src,
    λ b.
        rw ((tokenize_iff src b.tokens).1 b.spells)
          (rw (IsTruncated-panics fl (length b.tokens + 1) b.is_truncated (omega arith)) refl),
  )
