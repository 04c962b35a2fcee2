-- ===== src/Policy/Grammar/Shapes.antt =====
-- The syntax trees that have a written form, level by level of contracts/dsl/grammar.ebnf.
use noetivela_open.Prelude.{true, false, ◌≡◌, ◌||◌, List, [], ◌∷◌, Bytes, equal, codes, All, ◌==◌}
use noetivela_open.Policy.Token.{is_digit, is_letter}
use noetivela_open.Policy.Lexer.{is_number_byte, is_ident_byte}
use noetivela_open.Policy.Ast
use noetivela_open.Policy.Ast.{Expr}
use noetivela_open.Policy.Expression.{is_comparison}

-- ident = ( letter | "_" ) { letter | digit | "_" | "-" }
abbrev pub IsName : Bytes → Type 0
IsName [] = ⊥
IsName (c ∷ cs) = ((c == b'_' || is_letter c) ≡ true) × All (λ d. is_ident_byte d ≡ true) cs

-- A digit, then digits and points.
abbrev pub IsNumeral : Bytes → Type 0
IsNumeral [] = ⊥
IsNumeral (c ∷ cs) = (is_digit c ≡ true) × All (λ d. is_number_byte d ≡ true) cs

-- The bytes of a string do not hold its quote.
abbrev pub IsQuotable : Bytes → Type 0
IsQuotable = All (λ c. (c == b'"') ≡ false)

abbrev pub IsItem : Bytes → Bytes → Type 0
IsItem close s = IsQuotable s × (equal s close ≡ false)

-- An identifier that is no literal and no `not`.
abbrev pub IsNamespace : Bytes → Type 0
IsNamespace s =
    IsName s
    × ((equal s (codes "true") || equal s (codes "false")) ≡ false)
    × (equal s (codes "not") ≡ false)

-- The operands of the grammar, with `not`, and calls with any number of strings.
pub data IsOperand : Expr → Type 0 where
  text : {s : Bytes} → IsQuotable s → IsOperand (Ast.literal Ast.string s)
  numeral : {s : Bytes} → IsNumeral s → IsOperand (Ast.literal Ast.number s)
  boolean :
      {s : Bytes}
      → (equal s (codes "true") || equal s (codes "false")) ≡ true
      → IsOperand (Ast.literal Ast.boolean s)
  path :
      {ns s : Bytes} {segs : List Bytes}
      → IsNamespace ns
      → All IsName (s ∷ segs)
      → IsOperand (Ast.path ns (s ∷ segs))
  call :
      {ns name : Bytes} {args : List Bytes}
      → IsNamespace ns
      → IsName name
      → All (IsItem (codes ")")) args
      → IsOperand (Ast.call ns name args)
  negated : {e : Expr} → IsOperand e → IsOperand (Ast.negated e)

pub data IsCmp : Expr → Type 0 where
  operand : {e : Expr} → IsOperand e → IsCmp e
  compared :
      {l r : Expr} {op : Bytes}
      → IsOperand l
      → is_comparison op ≡ true
      → IsOperand r
      → IsCmp (Ast.compared l op r)
  is_in :
      {e : Expr} {items : List Bytes}
      → IsOperand e
      → All (IsItem (codes "]")) items
      → IsCmp (Ast.is_in e items)

-- `and` binds tighter than `or`, and both group to the left.
pub data IsConjunction : Expr → Type 0 where
  cmp : {e : Expr} → IsCmp e → IsConjunction e
  both : {l r : Expr} → IsConjunction l → IsCmp r → IsConjunction (Ast.both l r)

pub data IsDisjunction : Expr → Type 0 where
  conjunction : {e : Expr} → IsConjunction e → IsDisjunction e
  either : {l r : Expr} → IsDisjunction l → IsConjunction r → IsDisjunction (Ast.either l r)
