-- ===== src/Policy/Syntax/Runs.antt =====
-- sdk/go/policy/parser.go: `parseOr` on tokens that are an expression by the rules.
use noetivela_open.Prelude.{
  ℕ, zero, suc, ◌+◌, ◌<◌, ◌≡◌, refl, sym, ap, ◌∙◌, true, false, List, [], ◌∷◌, ◌++◌, append_assoc,
  append-nil, Bytes, equal, equal_iff, codes, length, arith,
}
use noetivela_open.Policy.Token.{Tokens, text}
use noetivela_open.Policy.Ast.{Expr}
use noetivela_open.Policy.Outcome.{ok, take, peek, expect_ident, expect_punct}
use noetivela_open.Policy.Expression.{
  parse_segments, skip_comma, parse_call_or_path, parse_reference, add_literal, parse_operand,
  parse_args, parse_items, parse_rest_of_cmp, parse_cmp, and_loop, parse_and, or_loop, parse_or,
}
use noetivela_open.Policy.Syntax.Expressions.{
  Comma, comma, no_comma, Segments, dotted, no_call, is_truth, values, Operand, text_, numeral,
  truth, not_, path_, call_, Args, argument, Items, item, Cmp, member, comparison, alone, Ands,
  and_, And, conjunction, Ors, or_, Or, disjunction,
}
use noetivela_open.Policy.Syntax.Lengths.{Comma-shorter, Operand-shorter, Cmp-shorter, And-shorter}
use noetivela_open.Policy.Syntax.Operands.{add_literal-values}

Segments-runs :
    {ts rest : Tokens} {segs : List Bytes} (f : ℕ) (before : List Bytes)
    → Segments ts segs rest
    → length ts < f
    → parse_segments f before ts ≡ ok (before ++ segs) rest
unfolding parse_segments peek take expect_ident
Segments-runs zero before s h = absurd (omega arith)
Segments-runs (suc f) before (Segments.last {t = t} {ts = ts} d) h =
    rw d (ap (λ segs. ok segs (t ∷ ts)) (sym (append-nil before)))
Segments-runs (suc f) before (dotted {name = name} {rest = rest} {segs = segs} d n s) h =
    rw (d, n, Segments-runs f (before ++ text name ∷ []) s (omega arith))
      (ap (λ segs. ok segs rest) (append_assoc before (text name ∷ []) segs))

Comma-runs : {ts rest : Tokens} → Comma ts rest → skip_comma ts ≡ ok tt rest
unfolding skip_comma peek take
Comma-runs (comma h) = rw h refl
Comma-runs (no_comma h) = rw h refl

not-truth : (s : Bytes) → equal s (codes "not") ≡ true → is_truth s ≡ false
unfolding equal
not-truth s h = rw ((equal_iff s (codes "not")).0 h) refl

mutual
  unfolding parse_operand parse_args parse_reference parse_call_or_path peek take expect_ident

  pub Operand-runs :
      {ts rest : Tokens} {e : Expr} (f : ℕ)
      → Operand ts e rest
      → length ts < f
      → parse_operand f ts ≡ ok e rest
  Operand-runs zero o h = absurd (omega arith)
  Operand-runs (suc f) text_ h = refl
  Operand-runs (suc f) numeral h = refl
  Operand-runs (suc f) (truth k) h = rw k refl
  Operand-runs (suc f) (not_ {s = s} k o) h =
      rw (not-truth s k, k, Operand-runs f o (omega arith)) refl
  Operand-runs (suc f) (path_ {name = name} (k, l) d n (no_call c) s) h =
      rw (k, l, d, n, c, Segments-runs f (text name ∷ []) s (omega arith)) refl
  Operand-runs (suc f) (call_ (k, l) d n o a) h =
      rw (k, l, d, n, o, Args-runs f [] a (omega arith)) refl

  Args-runs :
      {ts rest : Tokens} {args : List Bytes} (f : ℕ) (before : List Bytes)
      → Args ts args rest
      → length ts + 1 < f
      → parse_args f before ts ≡ ok (before ++ args) rest
  Args-runs zero before a h = absurd (omega arith)
  Args-runs (suc f) before (Args.close {ts = ts} k) h =
      rw k (ap (λ args. ok args ts) (sym (append-nil before)))
  Args-runs (suc f) before (argument {rest = rest} {e = e} {args = args} k o c a) h =
      let shorter = Operand-shorter o in
      let no_longer = Comma-shorter c in
      rw
        (
          k,
          Operand-runs f o (omega arith),
          Comma-runs c,
          Args-runs f (add_literal e before) a (omega arith),
        )
        (ap (λ args. ok args rest)
          (ap (λ vs. vs ++ args) (add_literal-values e before)
            ∙ append_assoc before (values e) args))

Items-runs :
    {ts rest : Tokens} {items : List Bytes} (f : ℕ) (before : List Bytes)
    → Items ts items rest
    → length ts + 1 < f
    → parse_items f before ts ≡ ok (before ++ items) rest
unfolding parse_items peek take
Items-runs zero before i h = absurd (omega arith)
Items-runs (suc f) before (Items.close {ts = ts} k) h =
    rw k (ap (λ items. ok items ts) (sym (append-nil before)))
Items-runs (suc f) before (item {rest = rest} {s = s} {items = items} k o c i) h =
    let shorter = Operand-shorter o in
    let no_longer = Comma-shorter c in
    rw
      (
        k,
        Operand-runs f o (omega arith),
        Comma-runs c,
        Items-runs f (before ++ s ∷ []) i (omega arith),
      )
      (ap (λ items. ok items rest) (append_assoc before (s ∷ []) items))

Cmp-runs :
    {ts rest : Tokens} {e : Expr} (f : ℕ)
    → Cmp ts e rest
    → length ts < f
    → parse_cmp f ts ≡ ok e rest
unfolding parse_cmp parse_rest_of_cmp peek take expect_punct
Cmp-runs f (member o k s i) h =
    let shorter = Operand-shorter o in
    rw (Operand-runs f o h, k, s, Items-runs f [] i (omega arith)) refl
Cmp-runs f (comparison o k c r) h =
    let shorter = Operand-shorter o in
    rw (Operand-runs f o h, k, c, Operand-runs f r (omega arith)) refl
Cmp-runs f (alone o k c) h = rw (Operand-runs f o h, k, c) refl

Ands-runs :
    {ts rest : Tokens} {left e : Expr} (f : ℕ)
    → Ands left ts e rest
    → length ts < f
    → and_loop f left ts ≡ ok e rest
unfolding and_loop peek take
Ands-runs zero a h = absurd (omega arith)
Ands-runs (suc f) (Ands.last k) h = rw k refl
Ands-runs (suc f) (and_ k c a) h =
    let shorter = Cmp-shorter c in rw (k, Cmp-runs f c (omega arith)) (Ands-runs f a (omega arith))

And-runs :
    {ts rest : Tokens} {e : Expr} (f : ℕ)
    → And ts e rest
    → length ts < f
    → parse_and f ts ≡ ok e rest
unfolding parse_and
And-runs f (conjunction c a) h =
    let shorter = Cmp-shorter c in rw (Cmp-runs f c h) (Ands-runs f a (omega arith))

Ors-runs :
    {ts rest : Tokens} {left e : Expr} (f : ℕ)
    → Ors left ts e rest
    → length ts < f
    → or_loop f left ts ≡ ok e rest
unfolding or_loop peek take
Ors-runs zero o h = absurd (omega arith)
Ors-runs (suc f) (Ors.last k) h = rw k refl
Ors-runs (suc f) (or_ k a o) h =
    let shorter = And-shorter a in rw (k, And-runs f a (omega arith)) (Ors-runs f o (omega arith))

pub Or-runs :
    {ts rest : Tokens} {e : Expr} (f : ℕ) → Or ts e rest → length ts < f → parse_or f ts ≡ ok e rest
unfolding parse_or
Or-runs f (disjunction a o) h =
    let shorter = And-shorter a in rw (And-runs f a h) (Ors-runs f o (omega arith))
