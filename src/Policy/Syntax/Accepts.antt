-- ===== src/Policy/Syntax/Accepts.antt =====
-- sdk/go/policy/parser.go: `parsePolicy` on tokens that are a policy by the rules.
use noetivela_open.Prelude.{
  ℕ, zero, suc, ◌<◌, ◌≡◌, refl, sym, ap, Bool-cases, inl, inr, List, [], ◌∷◌, ◌++◌, append_assoc,
  append-nil, String, equal, equal_iff, codes, length, arith,
}
use noetivela_open.Policy.Token.{Token, Tokens, text, kind, is_ident}
use noetivela_open.Policy.Ast.{Dim, Weights}
use noetivela_open.Policy.Number.{ℤ, Floats, parse_float, parse_number, parse_integer}
use noetivela_open.Policy.Outcome.{ok, take, peek, zero_token, expect_ident, expect_punct}
use noetivela_open.Policy.Parser.{
  PolicyOf, any_ident, order_loop, parse_dim_weight, weights_loop, require_clause, prefer_clause,
  optimize_from, optimize_clause, optional_integer, fallback_clause, switch_clause, clause_of,
  clauses_loop, parse_policy,
}
use noetivela_open.Policy.Syntax.Clauses.{
  name_of, Order, dim, Number, number, Optional, given, left_out, Weighs, weight, Clause, require,
  prefer, lexicographic, weighted, fallback, switch, Clauses, clause, IsPolicy, policy,
}
use noetivela_open.Policy.Syntax.Lengths.{Number-shorter, Clause-shorter}
use noetivela_open.Policy.Syntax.Runs.{Or-runs}

any_ident-runs :
    (t : Token) (ts : Tokens)
    → (first : Token) × (any_ident (t ∷ ts) ≡ ok first ts) × (text first ≡ name_of t)
unfolding any_ident expect_ident take
any_ident-runs t ts = elim (Bool-cases (is_ident (kind t))) [
  | inl h ↦ (t, rw h refl, rw h refl)
  | inr h ↦ (zero_token, rw h refl, rw h refl)
]

Order-runs :
    {ts rest : Tokens} {dims : List Dim} (f : ℕ) (before : List Dim)
    → Order ts dims rest
    → length ts < f
    → order_loop f before ts ≡ ok (before ++ dims) rest
unfolding order_loop peek
Order-runs zero before o h = absurd (omega arith)
Order-runs (suc f) before (Order.last {t = t} {ts = ts} k) h =
    rw k (ap (λ dims. ok dims (t ∷ ts)) (sym (append-nil before)))
Order-runs (suc f) before (dim {t = t} {ts = ts} {rest = rest} {dims = dims} k o) h =
    let (first, e, n) = any_ident-runs t ts in
    rw (k, e, n, Order-runs f (before ++ name_of t ∷ []) o (omega arith))
      (ap (λ dims. ok dims rest) (append_assoc before (name_of t ∷ []) dims))

module _ (fl : Floats) where
  open fl use {Float, to_int}

  Number-runs :
      {ts rest : Tokens} {x : Float} → Number fl ts x rest → parse_number fl ts ≡ ok x rest
  unfolding parse_number parse_float take
  Number-runs (number h d o) = rw (h, d, o) refl

  Number-runs_integer :
      {ts rest : Tokens} {x : Float}
      → Number fl ts x rest
      → parse_integer fl ts ≡ ok (to_int x) rest
  unfolding parse_integer parse_float take
  Number-runs_integer (number h d o) = rw (h, d, o) refl

  Optional-runs :
      {keyword : String} {ts rest : Tokens} {n : ℤ}
      → Optional fl keyword ts n rest
      → optional_integer fl (codes keyword) ts ≡ ok n rest
  unfolding optional_integer peek take
  Optional-runs (given k n) = rw k (Number-runs_integer n)
  Optional-runs (left_out k) = rw k refl

  Weighs-runs :
      (f : ℕ) {m m' : Weights Float} {ts rest : Tokens}
      → Weighs fl m ts m' rest
      → length ts < f
      → weights_loop fl f m ts ≡ ok m' rest
  unfolding weights_loop parse_dim_weight peek
  Weighs-runs zero w h = absurd (omega arith)
  Weighs-runs (suc f) (Weighs.last k) h = rw k refl
  Weighs-runs (suc f) (weight {t = t} {ts = ts} k n w) h =
      let (first, e, q) = any_ident-runs t ts in
      let shorter = Number-shorter fl n in
      rw (k, e, Number-runs n, q) (Weighs-runs f w (omega arith))

  pub Clause-runs :
      {kw : Token} {pol pol' : PolicyOf fl} {ts rest : Tokens} (f : ℕ)
      → Clause fl kw pol ts pol' rest
      → length ts < f
      → clause_of fl f kw pol ts ≡ ok pol' rest
  unfolding clause_of equal require_clause prefer_clause optimize_clause optimize_from
      parse_dim_weight fallback_clause switch_clause expect_ident expect_punct take
  Clause-runs {kw} f (require k o g) h = rw ((equal_iff (text kw) _).0 k, Or-runs f o h, g) refl
  Clause-runs {kw} f (prefer k n n' w) h =
      rw ((equal_iff (text kw) _).0 k, n, n', Number-runs w) refl
  Clause-runs {kw} f (lexicographic {t = t} {ts = ts} k l o) h =
      let (first, e, q) = any_ident-runs t ts in
      rw ((equal_iff (text kw) _).0 k, e, q, l, Order-runs f [] o (omega arith)) refl
  Clause-runs {kw} f (weighted {t = t} {ts = ts} k l n w) h =
      let (first, e, q) = any_ident-runs t ts in
      let shorter = Number-shorter fl n in
      rw ((equal_iff (text kw) _).0 k, e, q, l, Number-runs n, Weighs-runs f w (omega arith)) refl
  Clause-runs {kw} f (fallback k n o) h = rw ((equal_iff (text kw) _).0 k, n, Optional-runs o) refl
  Clause-runs {kw} f (switch k n n' s w o) h =
      rw ((equal_iff (text kw) _).0 k, n, n', s, Number-runs w, Optional-runs o) refl

  Clauses-run :
      (f : ℕ) {pol pol' : PolicyOf fl} {ts rest : Tokens}
      → Clauses fl pol ts pol' rest
      → length ts < f
      → clauses_loop fl f pol ts ≡ ok pol' rest
  unfolding clauses_loop peek expect_ident take
  Clauses-run zero c h = absurd (omega arith)
  Clauses-run (suc f) (Clauses.last k) h = rw k refl
  Clauses-run (suc f) (clause k n c cs) h =
      let shorter = Clause-shorter fl c in
      rw (k, n, Clause-runs f c (omega arith)) (Clauses-run f cs (omega arith))

  pub policy-runs :
      {ts rest : Tokens} {pol : PolicyOf fl} (f : ℕ)
      → IsPolicy fl ts pol rest
      → length ts < f
      → parse_policy fl f ts ≡ ok pol rest
  unfolding parse_policy expect_ident expect_punct take
  policy-runs f (policy n n' o cs c) h = rw (n, n', o, Clauses-run f cs (omega arith), c) refl
