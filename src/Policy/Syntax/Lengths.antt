-- ===== src/Policy/Syntax/Lengths.antt =====
-- The tokens that the rules take.
use noetivela_open.Prelude.{◌≤◌, ◌<◌, List, Bytes, length, arith, String}
use noetivela_open.Policy.Token.{Token, Tokens}
use noetivela_open.Policy.Number.{ℤ, Floats}
use noetivela_open.Policy.Ast.{Expr, Dim, Weights}
use noetivela_open.Policy.Parser.{PolicyOf}
use noetivela_open.Policy.Syntax.Expressions.{
  Comma, comma, no_comma, Segments, last, dotted, Operand, text_, numeral, truth, not_, path_,
  call_, Args, close, argument, Items, item, Cmp, member, comparison, alone, Ands, and_, And,
  conjunction, Ors, or_, Or, disjunction,
}
use noetivela_open.Policy.Syntax.Expressions
use noetivela_open.Policy.Syntax.Clauses.{
  Order, dim, Number, number, Optional, given, left_out, Weighs, weight, Clause, require, prefer,
  lexicographic, weighted, fallback, switch,
}

pub Comma-shorter : {ts rest : Tokens} → Comma ts rest → length rest ≤ length ts
Comma-shorter (comma h) = omega arith
Comma-shorter (no_comma h) = omega arith

pub Segments-shorter :
    {ts rest : Tokens} {segs : List Bytes} → Segments ts segs rest → length rest ≤ length ts
Segments-shorter (Expressions.last h) = omega arith
Segments-shorter (dotted h n s) = omega (arith, Segments-shorter s)

mutual
  pub Operand-shorter : {ts rest : Tokens} {e : Expr} → Operand ts e rest → length rest < length ts
  Operand-shorter text_ = omega arith
  Operand-shorter numeral = omega arith
  Operand-shorter (truth h) = omega arith
  Operand-shorter (not_ h o) = omega (arith, Operand-shorter o)
  Operand-shorter (path_ h d n c s) = omega (arith, Segments-shorter s)
  Operand-shorter (call_ h d n c a) = omega (arith, Args-shorter a)

  pub Args-shorter :
      {ts rest : Tokens} {args : List Bytes} → Args ts args rest → length rest < length ts
  Args-shorter (Args.close h) = omega arith
  Args-shorter (argument h o c a) =
      omega (arith, Operand-shorter o, Comma-shorter c, Args-shorter a)

pub Items-shorter :
    {ts rest : Tokens} {items : List Bytes} → Items ts items rest → length rest < length ts
Items-shorter (Items.close h) = omega arith
Items-shorter (item h o c i) = omega (arith, Operand-shorter o, Comma-shorter c, Items-shorter i)

pub Cmp-shorter : {ts rest : Tokens} {e : Expr} → Cmp ts e rest → length rest < length ts
Cmp-shorter (member o h s i) = omega (arith, Operand-shorter o, Items-shorter i)
Cmp-shorter (comparison o h c r) = omega (arith, Operand-shorter o, Operand-shorter r)
Cmp-shorter (alone o h c) = Operand-shorter o

Ands-shorter : {ts rest : Tokens} {left e : Expr} → Ands left ts e rest → length rest ≤ length ts
Ands-shorter (Ands.last h) = omega arith
Ands-shorter (and_ h c a) = omega (arith, Cmp-shorter c, Ands-shorter a)

pub And-shorter : {ts rest : Tokens} {e : Expr} → And ts e rest → length rest < length ts
And-shorter (conjunction c a) = omega (arith, Cmp-shorter c, Ands-shorter a)

Ors-shorter : {ts rest : Tokens} {left e : Expr} → Ors left ts e rest → length rest ≤ length ts
Ors-shorter (Ors.last h) = omega arith
Ors-shorter (or_ h a o) = omega (arith, And-shorter a, Ors-shorter o)

pub Or-shorter : {ts rest : Tokens} {e : Expr} → Or ts e rest → length rest < length ts
Or-shorter (disjunction a o) = omega (arith, And-shorter a, Ors-shorter o)

Order-shorter : {ts rest : Tokens} {dims : List Dim} → Order ts dims rest → length rest ≤ length ts
Order-shorter (Order.last h) = omega arith
Order-shorter (dim h o) = omega (arith, Order-shorter o)

module _ (fl : Floats) where
  open fl use {Float}

  pub Number-shorter :
      {ts rest : Tokens} {x : Float} → Number fl ts x rest → length rest < length ts
  Number-shorter (number h d o) = omega arith

  Optional-shorter :
      {keyword : String} {ts rest : Tokens} {n : ℤ}
      → Optional fl keyword ts n rest
      → length rest ≤ length ts
  Optional-shorter (given h n) = omega (arith, Number-shorter n)
  Optional-shorter (left_out h) = omega arith

  Weighs-shorter :
      {m m' : Weights Float} {ts rest : Tokens} → Weighs fl m ts m' rest → length rest ≤ length ts
  Weighs-shorter (Weighs.last h) = omega arith
  Weighs-shorter (weight h n w) = omega (arith, Number-shorter n, Weighs-shorter w)

  pub Clause-shorter :
      {kw : Token} {pol pol' : PolicyOf fl} {ts rest : Tokens}
      → Clause fl kw pol ts pol' rest
      → length rest ≤ length ts
  Clause-shorter (require k o g) = omega (arith, Or-shorter o)
  Clause-shorter (prefer k n n' w) = omega (arith, Number-shorter w)
  Clause-shorter (lexicographic k h o) = omega (arith, Order-shorter o)
  Clause-shorter (weighted k h n w) = omega (arith, Number-shorter n, Weighs-shorter w)
  Clause-shorter (fallback k n o) = omega (arith, Optional-shorter o)
  Clause-shorter (switch k n n' s w o) = omega (arith, Number-shorter w, Optional-shorter o)
