-- ===== src/Policy/Syntax/Operands.antt =====
-- sdk/go/policy/parser.go: `parseOperand` keeps to the rules.
use noetivela_open.Prelude.{
  ℕ, zero, suc, ◌≡◌, refl, sym, ap, ◌∙◌, List, [], ◌∷◌, ◌++◌, append_assoc, append-nil, Bytes,
  equal, codes,
}
use noetivela_open.Policy.Token.{Token, Tokens, token, ident, number, string, punct, eof, text}
use noetivela_open.Policy.Ast.{Expr, literal}
use noetivela_open.Policy.Outcome.{Parser, take, peek}
use noetivela_open.Policy.Expression.{
  parse_segments, skip_comma, parse_call_or_path, parse_reference, add_literal, parse_operand,
  parse_args,
}
use noetivela_open.Policy.Syntax.Expressions.{
  Reads, IsName, is_truth, IsReferent, values, Comma, Segments, last, dotted, no_call, Operand,
  Args,
}
use noetivela_open.Policy.Syntax.Means.{
  Means, done, failed, panicked, stopped, Means-bind, Means-map, Means-if, Means-branch,
  expect_ident-Means,
}

abbrev pub Continues :
    (Tokens → List Bytes → Tokens → Type 0) → List Bytes → Tokens → List Bytes → Tokens → Type 0
Continues R before ts all rest = (more : List Bytes) × (all ≡ before ++ more) × R ts more rest

parse_segments-Means :
    (f : ℕ) (segs : List Bytes) (ts : Tokens)
    → Means (Continues Segments segs ts) (parse_segments f segs ts)
unfolding parse_segments peek take
parse_segments-Means zero segs ts = stopped
parse_segments-Means (suc f) segs [] = panicked
parse_segments-Means (suc f) segs (t ∷ ts) =
    Means-if (equal (text t) (codes ".")) _ _
      (λ h.
        expect_ident-Means (λ us. Continues Segments segs (t ∷ us)) ts _
          λ name us n.
            Means-map (parse_segments-Means f (segs ++ text name ∷ []) us) λ all rest (more, e, s).
              (text name ∷ more, e ∙ append_assoc segs (text name ∷ []) more, dotted h n s))
      λ h. done ([], sym (append-nil segs), last h)

pub skip_comma-Means : (ts : Tokens) → Means (λ _ rest. Comma ts rest) (skip_comma ts)
unfolding skip_comma peek take
skip_comma-Means [] = panicked
skip_comma-Means (t ∷ ts) =
    Means-if (equal (text t) (codes ",")) _ _ (λ h. done (Comma.comma h))
      λ h. done (Comma.no_comma h)

pub add_literal-values : (e : Expr) (args : List Bytes) → add_literal e args ≡ args ++ values e
add_literal-values (literal k s) args = refl
add_literal-values e args = sym (append-nil args)

module _ (s : Bytes) (p : ℕ) (referent : IsReferent s) where
  abbrev Refers : Tokens → Expr → Tokens → Type 0
  Refers us e rest = Operand (token ident s p ∷ us) e rest

  parse_call_or_path-Means :
      (f : ℕ) (arguments : Parser (List Bytes)) (dot name : Token) (ts : Tokens)
      → Reads "." dot
      → IsName name
      → ((us : Tokens) → Means (Args us) (arguments us))
      → Means (Refers (dot ∷ name ∷ ts)) (parse_call_or_path f arguments s (text name) ts)
  unfolding parse_call_or_path peek take
  parse_call_or_path-Means f arguments dot name [] d n k = panicked
  parse_call_or_path-Means f arguments dot name (t ∷ ts) d n k =
      Means-if (equal (text t) (codes "(")) _ _
        (λ h. Means-bind (k ts) λ args rest a. done (Operand.call_ referent d n h a))
        λ h.
          Means-bind (parse_segments-Means f (text name ∷ []) (t ∷ ts))
            λ segs rest (more, e, r). rw e (done (Operand.path_ referent d n (no_call h) r))

  parse_reference-Means :
      (f : ℕ) (arguments : Parser (List Bytes)) (ts : Tokens)
      → ((us : Tokens) → Means (Args us) (arguments us))
      → Means (Refers ts) (parse_reference f arguments s ts)
  unfolding parse_reference peek take
  parse_reference-Means f arguments [] k = panicked
  parse_reference-Means f arguments (t ∷ ts) k =
      Means-if (equal (text t) (codes ".")) _ _
        (λ h.
          expect_ident-Means (λ us. Refers (t ∷ us)) ts _
            λ name us n. parse_call_or_path-Means f arguments t name us h n k)
        λ h. failed

-- The arguments behind those that were read.
abbrev ContinuesArgs : List Bytes → Tokens → List Bytes → Tokens → Type 0
ContinuesArgs = Continues Args

mutual
  unfolding parse_operand parse_args peek take

  pub parse_operand-Means : (f : ℕ) (ts : Tokens) → Means (Operand ts) (parse_operand f ts)
  parse_operand-Means zero ts = stopped
  parse_operand-Means (suc f) [] = panicked
  parse_operand-Means (suc f) (token string s p ∷ ts) = done Operand.text_
  parse_operand-Means (suc f) (token number s p ∷ ts) = done Operand.numeral
  parse_operand-Means (suc f) (token ident s p ∷ ts) =
      Means-branch (is_truth s) (λ h. done (Operand.truth h))
        λ h.
          Means-branch (equal s (codes "not"))
            (λ k. Means-bind (parse_operand-Means f ts) λ e rest o. done (Operand.not_ k o))
            λ k.
              parse_reference-Means s p (h, k) f (parse_args f []) ts
                λ us. Means-map (parse_args-Means f [] us) λ all rest (more, e, a). rw e a
  parse_operand-Means (suc f) (token punct s p ∷ ts) = failed
  parse_operand-Means (suc f) (token eof s p ∷ ts) = failed

  parse_args-Means :
      (f : ℕ) (args : List Bytes) (ts : Tokens)
      → Means (ContinuesArgs args ts) (parse_args f args ts)
  parse_args-Means zero args ts = stopped
  parse_args-Means (suc f) args [] = panicked
  parse_args-Means (suc f) args (t ∷ ts) =
      Means-if (equal (text t) (codes ")")) _ _
        (λ h. done ([], sym (append-nil args), Args.close h))
        λ h. Means-bind (parse_operand-Means f (t ∷ ts)) λ lit us o.
          Means-bind (skip_comma-Means us) λ _ vs c.
            Means-map (parse_args-Means f (add_literal lit args) vs) λ all rest (more, e, a). (
              values lit ++ more,
              e
                  ∙ ap (λ vs. vs ++ more) (add_literal-values lit args)
                  ∙ append_assoc args (values lit) more,
              Args.argument h o c a,
            )
