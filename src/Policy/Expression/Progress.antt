-- ===== src/Policy/Expression/Progress.antt =====
-- sdk/go/policy/parser.go: the tokens that the parser of expressions takes.
use noetivela_open.Prelude.{
  ℕ, zero, suc, ◌+◌, ◌<◌, refl, ◌||◌, ◌&&◌, List, [], ◌∷◌, ◌++◌, Bytes, equal, codes, length, arith,
}
use noetivela_open.Policy.Token.{
  is_ident, is_punct, Tokens, token, ident, number, string, kind, text,
}
use noetivela_open.Policy.Ast.{Expr, literal}
use noetivela_open.Policy.Outcome.{Parser, peek, take}
use noetivela_open.Policy.Outcome.Progress.{
  Ended, After-refl, After-cons, After-trans, Ended-tail, Ended-keyword, done, failed, Ensures-bind,
  Ensures-if, Ensures-branch, Consumes, continue, expect_ident-Consumes, expect_punct-Consumes,
}
use noetivela_open.Policy.Expression.{
  parse_segments, skip_comma, parse_call_or_path, parse_reference, parse_operand, parse_args,
  literal_value, parse_items, is_comparison, parse_rest_of_cmp, parse_cmp, and_loop, parse_and,
  or_loop, parse_or,
}

module _ {Q : Type 0} where
  parse_segments-Consumes :
      (f : ℕ) (segs : List Bytes) (ts : Tokens)
      → Ended ts
      → length ts < f
      → Consumes 0 Q ts (parse_segments f segs ts)
  unfolding parse_segments peek take
  parse_segments-Consumes zero segs ts e h = absurd (omega arith)
  parse_segments-Consumes (suc f) segs [] e h = elim e [ ]
  parse_segments-Consumes (suc f) segs (t ∷ ts) e h =
      Ensures-if (equal (text t) (codes ".")) _ _
        (λ dot.
          let e' = Ended-keyword _ _ dot e in
          Ensures-bind (expect_ident-Consumes ts e') λ s rest a.
            continue (After-trans {m = 2} (After-cons e') (omega arith) a) (omega arith) (
              parse_segments-Consumes f (segs ++ text s ∷ []) rest a.ended
                (let shorter = a.shorter in omega arith)))
        λ _. done (After-refl e)

  skip_comma-Consumes : (ts : Tokens) → Ended ts → Consumes 0 Q ts (skip_comma ts)
  unfolding skip_comma peek take
  skip_comma-Consumes [] e = elim e [ ]
  skip_comma-Consumes (t ∷ ts) e =
      Ensures-if (equal (text t) (codes ",")) _ _
        (λ comma. done (
          After-trans (After-cons (Ended-keyword _ _ comma e)) (omega arith)
            (After-refl (Ended-keyword _ _ comma e))))
        λ _. done (After-refl e)

  module _ (f : ℕ) (arguments : Parser (List Bytes))
      (arguments-Consumes : (rest : Tokens)
        → Ended rest
        → length rest + 1 < f
        → Consumes 0 Q rest (arguments rest)) where
    parse_call_or_path-Consumes :
        (ns name : Bytes) (ts : Tokens)
        → Ended ts
        → length ts < f
        → Consumes 0 Q ts (parse_call_or_path f arguments ns name ts)
    unfolding parse_call_or_path peek take
    parse_call_or_path-Consumes ns name [] e h = elim e [ ]
    parse_call_or_path-Consumes ns name (t ∷ ts) e h =
        Ensures-if (equal (text t) (codes "(")) _ _
          (λ open_.
            let e' = Ended-keyword _ _ open_ e in
            Ensures-bind (arguments-Consumes ts e' (omega arith))
              λ args rest a. done (After-trans (After-cons e') (omega arith) a))
          λ _.
            Ensures-bind (parse_segments-Consumes f (name ∷ []) (t ∷ ts) e h) λ segs rest a. done a

    parse_reference-Consumes :
        (ns : Bytes) (ts : Tokens)
        → Ended ts
        → length ts < f
        → Consumes 0 Q ts (parse_reference f arguments ns ts)
    unfolding parse_reference peek take
    parse_reference-Consumes ns [] e h = elim e [ ]
    parse_reference-Consumes ns (t ∷ ts) e h =
        Ensures-if (equal (text t) (codes ".")) _ _
          (λ dot.
            let e' = Ended-keyword _ _ dot e in
            Ensures-bind (expect_ident-Consumes ts e') λ name rest a.
              let shorter = a.shorter in
              continue (After-trans {m = 2} (After-cons e') (omega arith) a) (omega arith)
                (parse_call_or_path-Consumes ns (text name) rest a.ended (omega arith)))
          λ _. failed

  mutual
    unfolding parse_operand peek take

    parse_operand-Consumes :
        (f : ℕ) (ts : Tokens) → Ended ts → length ts < f → Consumes 1 Q ts (parse_operand f ts)
    parse_operand-Consumes zero ts e h = absurd (omega arith)
    parse_operand-Consumes (suc f) [] e h = elim e [ ]
    parse_operand-Consumes (suc f) (token string s p ∷ ts) e h =
        done (After-cons (Ended-tail refl e))
    parse_operand-Consumes (suc f) (token number s p ∷ ts) e h =
        done (After-cons (Ended-tail refl e))
    parse_operand-Consumes (suc f) (token ident s p ∷ ts) e h =
        let e' = Ended-tail refl e in
        Ensures-branch (equal s (codes "true") || equal s (codes "false"))
          (λ _. done (After-cons e'))
          λ _.
            Ensures-branch (equal s (codes "not"))
              (λ _.
                Ensures-bind (parse_operand-Consumes f ts e' (omega arith))
                  λ inner rest a. done (After-trans (After-cons e') (omega arith) a))
              λ _. continue {k = 0} (After-cons e') (omega arith) (
                parse_reference-Consumes f (parse_args f []) (parse_args-Consumes f []) s ts e'
                  (omega arith))
    parse_operand-Consumes (suc f) (token _ s p ∷ ts) e h = failed

    parse_args-Consumes :
        (f : ℕ) (args : List Bytes) (ts : Tokens)
        → Ended ts
        → length ts + 1 < f
        → Consumes 0 Q ts (parse_args f args ts)
    parse_args-Consumes zero args ts e h = absurd (omega arith)
    parse_args-Consumes (suc f) args [] e h = elim e [ ]
    parse_args-Consumes (suc f) args (t ∷ ts) e h =
        Ensures-if (equal (text t) (codes ")")) _ _
          (λ close.
            let e' = Ended-keyword _ _ close e in
            done (After-trans (After-cons e') (omega arith) (After-refl e')))
          λ _. Ensures-bind (parse_operand-Consumes f (t ∷ ts) e (omega arith)) λ lit rest a.
            Ensures-bind
              (continue {k = 0} {m = 1} a (omega arith) (skip_comma-Consumes rest a.ended))
              λ _ rest' b.
                let shorter = b.shorter in
                continue {k = 0} b (omega arith)
                  (parse_args-Consumes f _ rest' b.ended (omega arith))

  literal_value-Consumes :
      (lit : Expr) (ts : Tokens) → Ended ts → Consumes 0 Q ts (literal_value lit ts)
  literal_value-Consumes (literal k value) ts e = done (After-refl e)
  literal_value-Consumes _ ts e = failed

  parse_items-Consumes :
      (f : ℕ) (items : List Bytes) (ts : Tokens)
      → Ended ts
      → length ts + 1 < f
      → Consumes 0 Q ts (parse_items f items ts)
  unfolding parse_items peek take
  parse_items-Consumes zero items ts e h = absurd (omega arith)
  parse_items-Consumes (suc f) items [] e h = elim e [ ]
  parse_items-Consumes (suc f) items (t ∷ ts) e h =
      Ensures-if (equal (text t) (codes "]")) _ _
        (λ close.
          let e' = Ended-keyword _ _ close e in
          done (After-trans (After-cons e') (omega arith) (After-refl e')))
        λ _. Ensures-bind (parse_operand-Consumes f (t ∷ ts) e (omega arith)) λ lit rest a.
          Ensures-bind
            (continue {k = 0} {m = 1} a (omega arith) (literal_value-Consumes lit rest a.ended))
            λ value rest' b.
              Ensures-bind
                (continue {k = 0} {m = 1} b (omega arith) (skip_comma-Consumes rest' b.ended))
                λ _ rest'' c.
                  let shorter = c.shorter in
                  continue {k = 0} c (omega arith)
                    (parse_items-Consumes f _ rest'' c.ended (omega arith))

  parse_rest_of_cmp-Consumes :
      (f : ℕ) (left : Expr) (ts : Tokens)
      → Ended ts
      → length ts < f
      → Consumes 0 Q ts (parse_rest_of_cmp f left ts)
  unfolding parse_rest_of_cmp peek take
  parse_rest_of_cmp-Consumes f left [] e h = elim e [ ]
  parse_rest_of_cmp-Consumes f left (t ∷ ts) e h =
      Ensures-if (is_ident (kind t) && equal (text t) (codes "in")) _ _
        (λ b.
          let e' = Ended-tail (ground arith) e in
          Ensures-bind (expect_punct-Consumes (codes "[") ts e') λ _ rest a.
            let shorter = a.shorter in
            Ensures-bind
              (continue {k = 0} {m = 0} (After-trans {m = 0} (After-cons e') (omega arith) a)
                (omega arith) (parse_items-Consumes f [] rest a.ended (omega arith)))
              λ items rest' b. done b)
        λ _.
          Ensures-if (is_punct (kind t) && is_comparison (text t)) _ _
            (λ b.
              let e' = Ended-tail (ground arith) e in
              Ensures-bind (parse_operand-Consumes f ts e' (omega arith))
                λ right rest a. done (After-trans (After-cons e') (omega arith) a))
            λ _. done (After-refl e)

  parse_cmp-Consumes :
      (f : ℕ) (ts : Tokens) → Ended ts → length ts < f → Consumes 1 Q ts (parse_cmp f ts)
  unfolding parse_cmp
  parse_cmp-Consumes f ts e h = Ensures-bind (parse_operand-Consumes f ts e h) λ left rest a.
      let shorter = a.shorter in
      continue {k = 0} a (omega arith)
        (parse_rest_of_cmp-Consumes f left rest a.ended (omega arith))

  and_loop-Consumes :
      (f : ℕ) (left : Expr) (ts : Tokens)
      → Ended ts
      → length ts < f
      → Consumes 0 Q ts (and_loop f left ts)
  unfolding and_loop peek take
  and_loop-Consumes zero left ts e h = absurd (omega arith)
  and_loop-Consumes (suc f) left [] e h = elim e [ ]
  and_loop-Consumes (suc f) left (t ∷ ts) e h =
      Ensures-if (equal (text t) (codes "and")) _ _
        (λ is_and.
          let e' = Ended-keyword _ _ is_and e in
          Ensures-bind (parse_cmp-Consumes f ts e' (omega arith)) λ right rest a.
            let shorter = a.shorter in
            continue {k = 0} (After-trans {m = 0} (After-cons e') (omega arith) a) (omega arith)
              (and_loop-Consumes f _ rest a.ended (omega arith)))
        λ _. done (After-refl e)

  parse_and-Consumes :
      (f : ℕ) (ts : Tokens) → Ended ts → length ts < f → Consumes 1 Q ts (parse_and f ts)
  unfolding parse_and
  parse_and-Consumes f ts e h = Ensures-bind (parse_cmp-Consumes f ts e h) λ left rest a.
      let shorter = a.shorter in
      continue {k = 0} a (omega arith) (and_loop-Consumes f left rest a.ended (omega arith))

  or_loop-Consumes :
      (f : ℕ) (left : Expr) (ts : Tokens)
      → Ended ts
      → length ts < f
      → Consumes 0 Q ts (or_loop f left ts)
  unfolding or_loop peek take
  or_loop-Consumes zero left ts e h = absurd (omega arith)
  or_loop-Consumes (suc f) left [] e h = elim e [ ]
  or_loop-Consumes (suc f) left (t ∷ ts) e h =
      Ensures-if (equal (text t) (codes "or")) _ _
        (λ is_or.
          let e' = Ended-keyword _ _ is_or e in
          Ensures-bind (parse_and-Consumes f ts e' (omega arith)) λ right rest a.
            let shorter = a.shorter in
            continue {k = 0} (After-trans {m = 0} (After-cons e') (omega arith) a) (omega arith)
              (or_loop-Consumes f _ rest a.ended (omega arith)))
        λ _. done (After-refl e)

  -- With fuel above the number of tokens, the parser of expressions gives an expression or an error.
  -- In the first case it has taken a token at least, and not the last.
  pub parse_or-Consumes :
      (f : ℕ) (ts : Tokens) → Ended ts → length ts < f → Consumes 1 Q ts (parse_or f ts)
  unfolding parse_or
  parse_or-Consumes f ts e h = Ensures-bind (parse_and-Consumes f ts e h) λ left rest a.
      let shorter = a.shorter in
      continue {k = 0} a (omega arith) (or_loop-Consumes f left rest a.ended (omega arith))
