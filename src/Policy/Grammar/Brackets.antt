-- ===== src/Policy/Grammar/Brackets.antt =====
-- `Parse` on a list with an item "]", at which `parseCmp` ends the list.
use noetivela_open.Prelude.{
  subst, ℕ, zero, suc, ◌+◌, ◌<◌, ◌≡◌, refl, List, [], ◌∷◌, ◌++◌, append_assoc, append-nil, Bytes,
  equal, codes, length, All, arith,
}
use noetivela_open.Policy.Token.{Tokens, expected_identifier}
use noetivela_open.Policy.Ast
use noetivela_open.Policy.Ast.{Expr}
use noetivela_open.Policy.Number.{Floats}
use noetivela_open.Policy.Outcome.{Outcome, peek, take, expect_ident, expect_punct}
use noetivela_open.Policy.Expression.{
  parse_operand, skip_comma, parse_items, parse_rest_of_cmp, parse_cmp, and_loop, parse_and,
  or_loop, parse_or,
}
use noetivela_open.Policy.Parser.{
  PolicyOf, in_body, clause_of, clauses_loop, require_clause, new_policy, parse_policy,
  parse_tokens, parse, err,
}
use noetivela_open.Policy.Grammar.{Lexeme, place, render, word, sign, print, print_list}
use noetivela_open.Policy.Grammar.Shapes.{IsName, IsItem, IsQuotable, IsOperand}
use noetivela_open.Policy.Grammar.Lexemes.{
  open_brace, open_bracket, close_bracket, comma, tokenize-render,
}
use noetivela_open.Policy.Grammar.Expressions.{
  Reads, Reads-bind, Reads-refl, room, length-print, parse_operand-print,
}
use noetivela_open.Policy.Grammar.Refusals.{opening}
use noetivela_open.Policy.Grammar.Wording.{
  AreLexemes, length-place, is_name, keyword, keywords, operand-AreLexemes,
}

-- The items, the item "]" and more items.
abbrev pub with_bracket : List Bytes → List Bytes → List Bytes
with_bracket items more = items ++ codes "]" ∷ more

-- What stands behind the item "]", up to the end of the list and beyond.
abbrev behind_bracket : List Bytes → List Lexeme → List Lexeme
behind_bracket [] rest = sign (codes "]") ∷ rest
behind_bracket (s ∷ l) rest = sign (codes ",") ∷ print_list (s ∷ l) (sign (codes "]") ∷ rest)

-- The sign there.
abbrev pub sign_behind : List Bytes → Bytes
sign_behind [] = codes "]"
sign_behind (s ∷ l) = codes ","

parse_items-bracket :
    (f : ℕ) (items done more : List Bytes) (p : ℕ) (rest : List Lexeme)
    → room (print_list (with_bracket items more) (sign (codes "]") ∷ rest)) < f
    → All (IsItem (codes "]")) items
    → Reads
        (parse_items f done
          (place p (print_list (with_bracket items more) (sign (codes "]") ∷ rest))))
        (done ++ items)
        (behind_bracket more rest)
unfolding parse_items parse_operand skip_comma peek take equal
parse_items-bracket zero items done more p rest h i = absurd (omega arith)
parse_items-bracket (suc zero) [] done [] p rest h i = absurd (omega arith)
parse_items-bracket (suc zero) [] done (m ∷ more) p rest h i = absurd (omega arith)
parse_items-bracket (suc zero) (s ∷ []) done more p rest h i = absurd (omega arith)
parse_items-bracket (suc zero) (s ∷ t ∷ items) done more p rest h i = absurd (omega arith)
parse_items-bracket (suc (suc f)) [] done [] p rest h i = rw append-nil (Reads-refl done _ _)
parse_items-bracket (suc (suc f)) [] done (m ∷ more) p rest h i =
    rw append-nil (Reads-refl done _ _)
parse_items-bracket (suc (suc f)) (s ∷ []) done more p rest h ((_, open_), _) =
    let q = p + (length (b'"' ∷ (s ++ b'"' ∷ [])) + 1) + 2 in
    rw open_ (
      subst
        (λ l.
          Reads
            (parse_items (suc f) (done ++ s ∷ [])
              (place q (print_list (with_bracket [] more) (sign (codes "]") ∷ rest))))
            l (behind_bracket more rest))
        (append-nil (done ++ s ∷ []))
        (parse_items-bracket (suc f) [] (done ++ s ∷ []) more q rest (omega arith) tt))
parse_items-bracket (suc (suc f)) (s ∷ t ∷ items) done more p rest h ((_, open_), i) =
    rw (open_, ← append_assoc done (s ∷ []) (t ∷ items))
      (parse_items-bracket (suc f) (t ∷ items) (done ++ s ∷ []) more _ rest (omega arith) i)

module _ {e : Expr} (o : IsOperand e) (items more : List Bytes)
    (i : All (IsItem (codes "]")) items) where
  abbrev test : Expr
  test = Ast.is_in e (with_bracket items more)

  parse_cmp-bracket :
      (f p : ℕ) (rest : List Lexeme)
      → room (print test rest) < f
      → Reads
          (parse_cmp f (place p (print test rest)))
          (Ast.is_in e items)
          (behind_bracket more rest)
  unfolding parse_cmp parse_rest_of_cmp peek take expect_punct equal print
  parse_cmp-bracket f p rest h =
      let list = print_list (with_bracket items more) (sign (codes "]") ∷ rest) in
      Reads-bind (parse_rest_of_cmp f)
        (parse_operand-print f p (word (codes "in") ∷ sign (codes "[") ∷ list) o h refl)
        λ q.
          Reads-bind _
            (parse_items-bracket f items [] more _ rest
              (omega (arith, length-print e (word (codes "in") ∷ sign (codes "[") ∷ list))) i)
            λ q'. Reads-refl _ q' (behind_bracket more rest)

  parse_or-bracket :
      (f p : ℕ) (rest : List Lexeme)
      → room (print test rest) < suc f
      → Reads
          (parse_or (suc f) (place p (print test rest)))
          (Ast.is_in e items)
          (behind_bracket more rest)
  unfolding parse_or parse_and and_loop or_loop peek equal
  parse_or-bracket f p rest h =
      Reads-bind (or_loop (suc f))
        (Reads-bind (and_loop (suc f)) (parse_cmp-bracket (suc f) p rest h) λ q. and_stops more q)
        λ q. or_stops more q
    where
      and_stops :
          (l : List Bytes) (q : ℕ)
          → Reads
              (and_loop (suc f) (Ast.is_in e items) (place q (behind_bracket l rest)))
              (Ast.is_in e items)
              (behind_bracket l rest)
      and_stops [] q = Reads-refl _ q _
      and_stops (s ∷ l) q = Reads-refl _ q _

      or_stops :
          (l : List Bytes) (q : ℕ)
          → Reads
              (or_loop (suc f) (Ast.is_in e items) (place q (behind_bracket l rest)))
              (Ast.is_in e items)
              (behind_bracket l rest)
      or_stops [] q = Reads-refl _ q _
      or_stops (s ∷ l) q = Reads-refl _ q _

print_list-AreLexemes :
    (items more : List Bytes) (rest : List Lexeme)
    → All (IsItem (codes "]")) items
    → All IsQuotable more
    → AreLexemes rest
    → AreLexemes (print_list (with_bracket items more) rest)
print_list-AreLexemes [] [] rest i m r = ((refl, tt), r)
print_list-AreLexemes [] (t ∷ more) rest i m r = ((refl, tt), (comma, quoted t more rest m r))
  where
    quoted :
        (t : Bytes) (l : List Bytes) (rest : List Lexeme)
        → All IsQuotable (t ∷ l)
        → AreLexemes rest
        → AreLexemes (print_list (t ∷ l) rest)
    quoted t [] rest (q, _) r = (q, r)
    quoted t (u ∷ l) rest (q, m) r = (q, (comma, quoted u l rest m r))
print_list-AreLexemes (s ∷ []) more rest ((q, _), _) m r =
    (q, (comma, print_list-AreLexemes [] more rest tt m r))
print_list-AreLexemes (s ∷ t ∷ items) more rest ((q, _), i) m r =
    (q, (comma, print_list-AreLexemes (t ∷ items) more rest i m r))

module _ (fl : Floats) where
  open fl use {Float}

  -- The loop over the clauses does not go on at a bracket or a comma.
  clauses_loop-behind :
      (f q : ℕ) (pol : PolicyOf fl) (more : List Bytes) (rest : List Lexeme)
      → (ts : Tokens) × (clauses_loop fl (suc f) pol (place q (behind_bracket more rest))
          ≡ Outcome.err (expected_identifier q (sign_behind more)) ts)
  unfolding clauses_loop in_body peek expect_ident take equal
  clauses_loop-behind f q pol [] rest = (_, refl)
  clauses_loop-behind f q pol (s ∷ l) rest = (_, refl)

  module _ {e : Expr} (o : IsOperand e) (items more : List Bytes)
      (i : All (IsItem (codes "]")) items) where
    abbrev written_test : Expr
    written_test = Ast.is_in e (with_bracket items more)

    clauses_loop-bracket :
        (f p : ℕ) (pol : PolicyOf fl) (rest : List Lexeme)
        → room (word (codes "require") ∷ print written_test rest) < f
        → (q : ℕ) × (ts : Tokens) × (clauses_loop fl f pol
              (place p (word (codes "require") ∷ print written_test rest))
            ≡ Outcome.err (expected_identifier q (sign_behind more)) ts)
    unfolding clauses_loop in_body peek expect_ident take clause_of require_clause equal
    clauses_loop-bracket zero p pol rest h = absurd (omega arith)
    clauses_loop-bracket (suc zero) p pol rest h = absurd (omega arith)
    clauses_loop-bracket (suc (suc f)) p pol rest h =
        let read = parse_or-bracket o items more i f (p + 8) rest (omega arith) in
        let later = record pol { requires = pol.requires ++ Ast.is_in e items ∷ [] } in
        let (ts, refused) = clauses_loop-behind f read.stop later more rest in
        (read.stop, ts, rw (read.reads) refused)

    -- `Parse` refuses a policy whose first clause requires that an operand with a written form is
    -- in a list of strings without double quotes of which one is "]", whatever lexemes stand behind
    -- the list: the list ends at the first such item, and the comma or the bracket behind this item
    -- is refused as no identifier, where the next clause is to begin.
    pub parse-bracket :
        (name : Bytes) (rest : List Lexeme)
        → IsName name
        → All IsQuotable more
        → AreLexemes rest
        → (q : ℕ) × (parse fl
              (render (opening name (word (codes "require") ∷ print written_test rest)))
            ≡ err (expected_identifier q (sign_behind more)))
    unfolding parse parse_tokens parse_policy expect_ident expect_punct take equal keywords is_name
        print
    parse-bracket name rest n m r =
        let ls = opening name (word (codes "require") ∷ print written_test rest) in
        let are : AreLexemes ls = (
          keyword "policy" refl,
          (
            n,
            (
              open_brace,
              (
                keyword "require" refl,
                operand-AreLexemes _ o (
                  keyword "in" refl,
                  (open_bracket, print_list-AreLexemes items more _ i m (close_bracket, r)),
                ),
              ),
            ),
          ),
        ) in
        let (q, ts, refused) =
          clauses_loop-bracket (length (place 0 ls) + 1) (0 + 7 + (length name + 1) + 2)
            (new_policy fl name) rest (omega (arith, length-place 0 ls)) in
        (q, rw (tokenize-render ls are) (rw refused refl))
