-- ===== src/Policy/Expression/Reports.antt =====
-- sdk/go/policy/parser.go: the tokens that the errors of the parser of expressions show.
use noetivela_open.Prelude.{
  refl, ℕ, zero, suc, ◌||◌, ◌&&◌, List, [], ◌∷◌, ◌++◌, Bytes, equal, codes, All,
}
use noetivela_open.Policy.Token.{
  punct, eof, Token, is_ident, is_punct, Tokens, token, ident, number, string, kind, text,
}
use noetivela_open.Policy.Ast.{Expr, literal}
use noetivela_open.Policy.Outcome.{Parser, peek, take, expect_ident, expect_punct}
use noetivela_open.Policy.Outcome.Reports.{
  Reports, Any, Reports-then, Reports-test, shows, Reports-bind, Reports-if, Reports-branch,
  expect_ident-Reports, expect_punct-Reports,
}
use noetivela_open.Policy.Expression.{
  parse_segments, skip_comma, parse_call_or_path, parse_reference, parse_operand, parse_args,
  literal_value, parse_items, is_comparison, parse_rest_of_cmp, parse_cmp, and_loop, parse_and,
  or_loop, parse_or,
}

module _ (P : Token → Type 0) where
  parse_segments-Reports :
      (f : ℕ) (segs : List Bytes) (ts : Tokens)
      → All P ts
      → Reports P (Any P) (parse_segments f segs ts)
  unfolding parse_segments peek take
  parse_segments-Reports zero segs ts all = tt
  parse_segments-Reports (suc f) segs [] all = tt
  parse_segments-Reports (suc f) segs (t ∷ ts) (h, all) =
      Reports-test P (equal (text t) (codes ".")) _ _ (t ∷ ts)
        (Reports-bind P (Any P) P (expect_ident ts) _ (expect_ident-Reports P ts all)
          λ s rest _ all'. parse_segments-Reports f (segs ++ text s ∷ []) rest all')
        (tt, (h, all))

  skip_comma-Reports : (ts : Tokens) → All P ts → Reports P (Any P) (skip_comma ts)
  unfolding skip_comma peek take
  skip_comma-Reports [] all = tt
  skip_comma-Reports (t ∷ ts) (h, all) =
      Reports-test P (equal (text t) (codes ",")) _ _ (t ∷ ts) (tt, all) (tt, (h, all))

  module _ (f : ℕ) (arguments : Parser (List Bytes))
      (arguments-Reports : (ts : Tokens) → All P ts → Reports P (Any P) (arguments ts)) where
    parse_call_or_path-Reports :
        (ns name : Bytes) (ts : Tokens)
        → All P ts
        → Reports P (Any P) (parse_call_or_path f arguments ns name ts)
    unfolding parse_call_or_path peek take
    parse_call_or_path-Reports ns name [] all = tt
    parse_call_or_path-Reports ns name (t ∷ ts) (h, all) =
        Reports-test P (equal (text t) (codes "(")) _ _ (t ∷ ts)
          (Reports-then P (arguments ts) _ (arguments-Reports ts all) λ args rest all'. (tt, all'))
          (Reports-then P (parse_segments f (name ∷ []) (t ∷ ts)) _
            (parse_segments-Reports f (name ∷ []) (t ∷ ts) (h, all)) λ segs rest all'. (tt, all'))

    parse_reference-Reports :
        (ns : Bytes) (ts : Tokens)
        → All P ts
        → Reports P (Any P) (parse_reference f arguments ns ts)
    unfolding parse_reference peek take
    parse_reference-Reports ns [] all = tt
    parse_reference-Reports ns (t ∷ ts) (h, all) =
        Reports-if P (Any P) (equal (text t) (codes ".")) _ _ (t ∷ ts)
          (λ _.
            Reports-bind P (Any P) P (expect_ident ts) _ (expect_ident-Reports P ts all)
              λ name rest _ all'. parse_call_or_path-Reports ns (text name) rest all')
          λ w. ((text t, shows P _ t h w), (h, all))

  mutual
    unfolding parse_operand peek take

    parse_operand-Reports :
        (f : ℕ) (ts : Tokens) → All P ts → Reports P (Any P) (parse_operand f ts)
    parse_operand-Reports zero ts all = tt
    parse_operand-Reports (suc f) [] all = tt
    parse_operand-Reports (suc f) (token string s p ∷ ts) (h, all) = (tt, all)
    parse_operand-Reports (suc f) (token number s p ∷ ts) (h, all) = (tt, all)
    parse_operand-Reports (suc f) (token ident s p ∷ ts) (h, all) =
        Reports-branch P (Any P) (equal s (codes "true") || equal s (codes "false")) _ _ (tt, all)
          (Reports-branch P (Any P) (equal s (codes "not")) _ _
            (Reports-then P (parse_operand f ts) _ (parse_operand-Reports f ts all)
              λ inner rest all'. (tt, all'))
            (parse_reference-Reports f (parse_args f []) (parse_args-Reports f []) s ts all))
    parse_operand-Reports (suc f) (token punct s p ∷ ts) (h, all) = (shows P _ _ h refl, all)
    parse_operand-Reports (suc f) (token eof s p ∷ ts) (h, all) = (shows P _ _ h refl, all)

    parse_args-Reports :
        (f : ℕ) (args : List Bytes) (ts : Tokens)
        → All P ts
        → Reports P (Any P) (parse_args f args ts)
    parse_args-Reports zero args ts all = tt
    parse_args-Reports (suc f) args [] all = tt
    parse_args-Reports (suc f) args (t ∷ ts) (h, all) =
        Reports-test P (equal (text t) (codes ")")) _ _ (t ∷ ts) (tt, all)
          (Reports-then P (parse_operand f (t ∷ ts)) _ (parse_operand-Reports f (t ∷ ts) (h, all))
            λ lit rest all'.
              Reports-then P (skip_comma rest) _ (skip_comma-Reports rest all')
                λ _ rest' all''. parse_args-Reports f _ rest' all'')

  literal_value-Reports :
      (lit : Expr) (ts : Tokens) → All P ts → Reports P (Any P) (literal_value lit ts)
  literal_value-Reports (literal k value) ts all = (tt, all)
  literal_value-Reports _ ts all = (tt, all)

  parse_items-Reports :
      (f : ℕ) (items : List Bytes) (ts : Tokens)
      → All P ts
      → Reports P (Any P) (parse_items f items ts)
  unfolding parse_items peek take
  parse_items-Reports zero items ts all = tt
  parse_items-Reports (suc f) items [] all = tt
  parse_items-Reports (suc f) items (t ∷ ts) (h, all) =
      Reports-test P (equal (text t) (codes "]")) _ _ (t ∷ ts) (tt, all)
        (Reports-then P (parse_operand f (t ∷ ts)) _ (parse_operand-Reports f (t ∷ ts) (h, all))
          λ lit rest all₁.
            Reports-then P (literal_value lit rest) _ (literal_value-Reports lit rest all₁)
              λ value rest' all₂.
                Reports-then P (skip_comma rest') _ (skip_comma-Reports rest' all₂)
                  λ _ rest'' all₃. parse_items-Reports f (items ++ value ∷ []) rest'' all₃)

  parse_rest_of_cmp-Reports :
      (f : ℕ) (left : Expr) (ts : Tokens)
      → All P ts
      → Reports P (Any P) (parse_rest_of_cmp f left ts)
  unfolding parse_rest_of_cmp peek take
  parse_rest_of_cmp-Reports f left [] all = tt
  parse_rest_of_cmp-Reports f left (t ∷ ts) (h, all) =
      Reports-test P (is_ident (kind t) && equal (text t) (codes "in")) _ _ (t ∷ ts)
        (Reports-then P (expect_punct (codes "[") ts) _ (expect_punct-Reports P (codes "[") ts all)
          λ _ rest all₁.
            Reports-then P (parse_items f [] rest) _ (parse_items-Reports f [] rest all₁)
              λ items rest' all₂. (tt, all₂))
        (Reports-test P (is_punct (kind t) && is_comparison (text t)) _ _ (t ∷ ts)
          (Reports-then P (parse_operand f ts) _ (parse_operand-Reports f ts all)
            λ right rest all₁. (tt, all₁))
          (tt, (h, all)))

  parse_cmp-Reports : (f : ℕ) (ts : Tokens) → All P ts → Reports P (Any P) (parse_cmp f ts)
  unfolding parse_cmp
  parse_cmp-Reports f ts all =
      Reports-then P (parse_operand f ts) _ (parse_operand-Reports f ts all)
        λ left rest all₁. parse_rest_of_cmp-Reports f left rest all₁

  and_loop-Reports :
      (f : ℕ) (left : Expr) (ts : Tokens) → All P ts → Reports P (Any P) (and_loop f left ts)
  unfolding and_loop peek take
  and_loop-Reports zero left ts all = tt
  and_loop-Reports (suc f) left [] all = tt
  and_loop-Reports (suc f) left (t ∷ ts) (h, all) =
      Reports-test P (equal (text t) (codes "and")) _ _ (t ∷ ts)
        (Reports-then P (parse_cmp f ts) _ (parse_cmp-Reports f ts all)
          λ right rest all₁. and_loop-Reports f _ rest all₁)
        (tt, (h, all))

  parse_and-Reports : (f : ℕ) (ts : Tokens) → All P ts → Reports P (Any P) (parse_and f ts)
  unfolding parse_and
  parse_and-Reports f ts all =
      Reports-then P (parse_cmp f ts) _ (parse_cmp-Reports f ts all)
        λ left rest all₁. and_loop-Reports f left rest all₁

  or_loop-Reports :
      (f : ℕ) (left : Expr) (ts : Tokens) → All P ts → Reports P (Any P) (or_loop f left ts)
  unfolding or_loop peek take
  or_loop-Reports zero left ts all = tt
  or_loop-Reports (suc f) left [] all = tt
  or_loop-Reports (suc f) left (t ∷ ts) (h, all) =
      Reports-test P (equal (text t) (codes "or")) _ _ (t ∷ ts)
        (Reports-then P (parse_and f ts) _ (parse_and-Reports f ts all)
          λ right rest all₁. or_loop-Reports f _ rest all₁)
        (tt, (h, all))

  pub parse_or-Reports : (f : ℕ) (ts : Tokens) → All P ts → Reports P (Any P) (parse_or f ts)
  unfolding parse_or
  parse_or-Reports f ts all =
      Reports-then P (parse_and f ts) _ (parse_and-Reports f ts all)
        λ left rest all₁. or_loop-Reports f left rest all₁
