-- ===== src/Policy/Syntax/Comparisons.antt =====
-- sdk/go/policy/parser.go: `parseCmp`, `parseAnd` and `parseOr` keep to the rules.
use noetivela_open.Prelude.{
  ℕ, zero, suc, sym, ◌∙◌, List, [], ◌∷◌, ◌++◌, append_assoc, append-nil, Bytes, equal, codes,
}
use noetivela_open.Policy.Token.{Tokens, text}
use noetivela_open.Policy.Ast.{
  Expr, LiteralKind, path, call, literal, is_in, compared, negated, both, either,
}
use noetivela_open.Policy.Outcome.{Parser, bind, take, peek}
use noetivela_open.Policy.Expression.{
  literal_value, parse_items, parse_rest_of_cmp, parse_cmp, and_loop, parse_and, or_loop, parse_or,
}
use noetivela_open.Policy.Syntax.Expressions.{
  Operand, Items, says_in, compares, Cmp, Ands, And, Ors, Or,
}
use noetivela_open.Policy.Syntax.Means.{
  Means, done, failed, panicked, stopped, Means-bind, Means-map, Means-if, expect_punct-Means,
}
use noetivela_open.Policy.Syntax.Operands.{Continues, skip_comma-Means, parse_operand-Means}

literal_value-Means :
    {A : Type 0} {P : A → Tokens → Type 0} (C : Expr → Type 0) (e : Expr) (ts : Tokens)
    (f : Bytes → Parser A)
    → C e
    → ((k : LiteralKind) (s : Bytes) → C (literal k s) → Means P (f s ts))
    → Means P (bind (literal_value e ts) f)
literal_value-Means C (literal k s) ts f c h = h k s c
literal_value-Means C (path _ _) ts f c h = failed
literal_value-Means C (call _ _ _) ts f c h = failed
literal_value-Means C (is_in _ _) ts f c h = failed
literal_value-Means C (compared _ _ _) ts f c h = failed
literal_value-Means C (negated _) ts f c h = failed
literal_value-Means C (both _ _) ts f c h = failed
literal_value-Means C (either _ _) ts f c h = failed

parse_items-Means :
    (f : ℕ) (items : List Bytes) (ts : Tokens)
    → Means (Continues Items items ts) (parse_items f items ts)
unfolding parse_items peek take
parse_items-Means zero items ts = stopped
parse_items-Means (suc f) items [] = panicked
parse_items-Means (suc f) items (t ∷ ts) =
    Means-if (equal (text t) (codes "]")) _ _
      (λ h. done ([], sym (append-nil items), Items.close h))
      λ h. Means-bind (parse_operand-Means f (t ∷ ts)) λ lit us o.
        literal_value-Means (λ e. Operand (t ∷ ts) e us) lit us _ o
          λ k s o'. Means-bind (skip_comma-Means us) λ _ vs c.
            Means-map (parse_items-Means f (items ++ s ∷ []) vs) λ all rest (more, e, i).
              (s ∷ more, e ∙ append_assoc items (s ∷ []) more, Items.item h o' c i)

module _ (ts : Tokens) (left : Expr) where
  parse_rest_of_cmp-Means :
      (f : ℕ) (us : Tokens) → Operand ts left us → Means (Cmp ts) (parse_rest_of_cmp f left us)
  unfolding parse_rest_of_cmp peek take
  parse_rest_of_cmp-Means f [] o = panicked
  parse_rest_of_cmp-Means f (t ∷ us) o =
      Means-if (says_in t) _ _
        (λ h.
          Means-map
            (expect_punct-Means (λ vs e rest. Operand ts left (t ∷ vs) → Cmp ts e rest) (codes "[")
              us _
              λ open_ vs s.
                Means-bind (parse_items-Means f [] vs)
                  λ items rest (more, e, i). done (λ o. rw e (Cmp.member o h s i)))
            λ e rest k. k o)
        λ h.
          Means-if (compares t) _ _
            (λ c.
              Means-bind (parse_operand-Means f us) λ right rest r. done (Cmp.comparison o h c r))
            λ c. done (Cmp.alone o h c)

pub parse_cmp-Means : (f : ℕ) (ts : Tokens) → Means (Cmp ts) (parse_cmp f ts)
unfolding parse_cmp
parse_cmp-Means f ts =
    Means-bind (parse_operand-Means f ts) λ left us o. parse_rest_of_cmp-Means ts left f us o

and_loop-Means : (f : ℕ) (left : Expr) (ts : Tokens) → Means (Ands left ts) (and_loop f left ts)
unfolding and_loop peek take
and_loop-Means zero left ts = stopped
and_loop-Means (suc f) left [] = panicked
and_loop-Means (suc f) left (t ∷ ts) =
    Means-if (equal (text t) (codes "and")) _ _
      (λ h.
        Means-bind (parse_cmp-Means f ts) λ right us c.
          Means-map (and_loop-Means f (both left right) us) λ e rest a. Ands.and_ h c a)
      λ h. done (Ands.last h)

parse_and-Means : (f : ℕ) (ts : Tokens) → Means (And ts) (parse_and f ts)
unfolding parse_and
parse_and-Means f ts =
    Means-bind (parse_cmp-Means f ts)
      λ left us c. Means-map (and_loop-Means f left us) λ e rest a. And.conjunction c a

or_loop-Means : (f : ℕ) (left : Expr) (ts : Tokens) → Means (Ors left ts) (or_loop f left ts)
unfolding or_loop peek take
or_loop-Means zero left ts = stopped
or_loop-Means (suc f) left [] = panicked
or_loop-Means (suc f) left (t ∷ ts) =
    Means-if (equal (text t) (codes "or")) _ _
      (λ h.
        Means-bind (parse_and-Means f ts) λ right us c.
          Means-map (or_loop-Means f (either left right) us) λ e rest a. Ors.or_ h c a)
      λ h. done (Ors.last h)

pub parse_or-Means : (f : ℕ) (ts : Tokens) → Means (Or ts) (parse_or f ts)
unfolding parse_or
parse_or-Means f ts =
    Means-bind (parse_and-Means f ts)
      λ left us a. Means-map (or_loop-Means f left us) λ e rest o. Or.disjunction a o
