-- ===== src/Policy/Expression.antt =====
-- sdk/go/policy/parser.go: `parseOperand`, `parseCmp`, `parseAnd` and `parseOr`. A call of a
-- recursive method or a round of a loop costs a unit of fuel; more than the tokens left is enough.
pub mod Progress
pub mod Reports
use noetivela_open.Prelude.{
  ℕ, zero, suc, Bool, ◌&&◌, ◌||◌, List, [], ◌∷◌, ◌++◌, Bytes, equal, codes, if◌then◌else◌,
}
use noetivela_open.Policy.Token.{
  is_ident, is_punct, token, ident, number, string, kind, text, pos, items_not_literals,
  expected_dot, unexpected_token,
}
use noetivela_open.Policy.Ast
use noetivela_open.Policy.Ast.{Expr, path, call, literal, is_in, compared, negated, both, either}
use noetivela_open.Policy.Outcome.{
  ok, err, panic, out_of_fuel, Parser, ◌>>=◌, ◌>>◌, pure, fail, run, peek, take, expect_punct,
  expect_ident,
}

-- The loop over `.seg` behind the first segment.
unfoldable pub parse_segments : ℕ → List Bytes → Parser (List Bytes)
parse_segments zero segs ts = out_of_fuel
parse_segments (suc f) segs ts =
    let more = run ts do take; s ← expect_ident; parse_segments f (segs ++ text s ∷ [])
    in run ts do t ← peek; if equal (text t) (codes ".") then (λ _. more) else pure segs

-- An optional comma, behind an item of a list.
unfoldable pub skip_comma : Parser (Unit {0})
skip_comma = do t ← peek; if equal (text t) (codes ",") then take >> pure tt else pure tt

-- Behind `ns.name`; `arguments` is the loop up to `)`.
unfoldable pub parse_call_or_path : ℕ → Parser (List Bytes) → Bytes → Bytes → Parser Expr
parse_call_or_path f arguments ns name = do
  t ← peek
  if equal (text t) (codes "(")
      then (do take; args ← arguments; pure (call ns name args))
      else (do segs ← parse_segments f (name ∷ []); pure (path ns segs))

-- The default case of `parseOperand` on an identifier.
unfoldable pub parse_reference : ℕ → Parser (List Bytes) → Bytes → Parser Expr
parse_reference f arguments ns = do
  next ← peek
  if equal (text next) (codes ".")
      then (do take; name ← expect_ident; parse_call_or_path f arguments ns (text name))
      else fail (expected_dot ns (pos next))

-- `if le, ok := lit.(*LiteralExpr); ok { args = append(args, le.Value) }`
abbrev pub add_literal : Expr → List Bytes → List Bytes
add_literal (literal _ value) args = args ++ value ∷ []
add_literal _ args = args

unfoldable mutual
  pub parse_operand : ℕ → Parser Expr
  parse_operand zero ts = out_of_fuel
  parse_operand (suc f) [] = panic
  parse_operand (suc f) (token string s _ ∷ ts) = ok (literal Ast.string s) ts
  parse_operand (suc f) (token number s _ ∷ ts) = ok (literal Ast.number s) ts
  parse_operand (suc f) (token ident s _ ∷ ts) =
      let not_operand = run ts (do inner ← parse_operand f; pure (negated inner)) in
      let reference = run ts (parse_reference f (parse_args f []) s) in
      if equal s (codes "true") || equal s (codes "false")
      then ok (literal Ast.boolean s) ts
      else if equal s (codes "not")
      then not_operand
      else reference
  parse_operand (suc f) (token _ s p ∷ ts) = err (unexpected_token s p) ts

  -- The loop over a call's arguments, with the closing parenthesis.
  pub parse_args : ℕ → List Bytes → Parser (List Bytes)
  parse_args zero args ts = out_of_fuel
  parse_args (suc f) args ts =
      let more = run ts do lit ← parse_operand f; skip_comma; parse_args f (add_literal lit args)
      in run ts do t ← peek; if equal (text t) (codes ")") then take >> pure args else (λ _. more)

-- `litExpr, ok := lit.(*LiteralExpr)`, with the return of an error if not ok
abbrev pub literal_value : Expr → Parser Bytes
literal_value (literal _ value) = pure value
literal_value _ = fail items_not_literals

-- The loop over the items behind `in [`, with the closing bracket.
unfoldable pub parse_items : ℕ → List Bytes → Parser (List Bytes)
parse_items zero items ts = out_of_fuel
parse_items (suc f) items ts =
    let more = run ts do
      lit ← parse_operand f
      value ← literal_value lit
      skip_comma
      parse_items f (items ++ value ∷ [])
    in run ts do t ← peek; if equal (text t) (codes "]") then take >> pure items else (λ _. more)

unfoldable pub is_comparison : Bytes → Bool
is_comparison s =
    equal s (codes "==")
    || equal s (codes "!=")
    || equal s (codes ">=")
    || equal s (codes "<=")
    || equal s (codes ">")
    || equal s (codes "<")

-- Behind the left operand of `parseCmp`. Only an identifier `in` and a comparison sign go on.
unfoldable pub parse_rest_of_cmp : ℕ → Expr → Parser Expr
parse_rest_of_cmp f left = do
  t ← peek
  if is_ident (kind t) && equal (text t) (codes "in")
      then (do take; expect_punct (codes "["); items ← parse_items f []; pure (is_in left items))
      else if is_punct (kind t) && is_comparison (text t)
      then (do take; right ← parse_operand f; pure (compared left (text t) right))
      else pure left

unfoldable pub parse_cmp : ℕ → Parser Expr
parse_cmp f = do left ← parse_operand f; parse_rest_of_cmp f left

-- The loops of `parseAnd` and `parseOr`, behind the first operand.
unfoldable pub and_loop : ℕ → Expr → Parser Expr
and_loop zero left ts = out_of_fuel
and_loop (suc f) left ts =
    let more = run ts do take; right ← parse_cmp f; and_loop f (both left right)
    in run ts do t ← peek; if equal (text t) (codes "and") then (λ _. more) else pure left

unfoldable pub parse_and : ℕ → Parser Expr
parse_and f = do left ← parse_cmp f; and_loop f left

unfoldable pub or_loop : ℕ → Expr → Parser Expr
or_loop zero left ts = out_of_fuel
or_loop (suc f) left ts =
    let more = run ts do take; right ← parse_and f; or_loop f (either left right)
    in run ts do t ← peek; if equal (text t) (codes "or") then (λ _. more) else pure left

unfoldable pub parse_or : ℕ → Parser Expr
parse_or f = do left ← parse_and f; or_loop f left
