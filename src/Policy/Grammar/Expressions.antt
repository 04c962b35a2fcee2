-- ===== src/Policy/Grammar/Expressions.antt =====
-- `parseCmp` and `parseOperand` on printed expressions.
use noetivela_open.Prelude.{
  ℕ, zero, suc, ◌≤◌, ◌<◌, ◌≡◌, refl, ◌∙◌, true, false, not, ◌&&◌, List, [], ◌∷◌, ◌++◌, append_assoc,
  append-nil, Bytes, equal, codes, length, All, arith,
}
use noetivela_open.Policy.Token.{is_ident, is_punct}
use noetivela_open.Policy.Ast
use noetivela_open.Policy.Ast.{Expr}
use noetivela_open.Policy.Outcome.{
  Outcome, ok, Parser, bind, peek, take, expect_ident, expect_punct,
}
use noetivela_open.Policy.Expression.{
  parse_segments, skip_comma, parse_call_or_path, parse_reference, parse_operand, parse_args,
  parse_items, is_comparison, parse_rest_of_cmp, parse_cmp,
}
use noetivela_open.Policy.Grammar.{
  Lexeme, place, word, sign, print_list, print_segments, print, ends_operand, ends_cmp, Before,
}
use noetivela_open.Policy.Grammar.Shapes.{
  IsItem, IsOperand, text as text_operand, numeral, boolean, path, call, negated, IsCmp, operand,
  compared, is_in,
}

-- The outcome is a result, and the lexemes `ls` are left, wherever they stand in the source.
pub record Reads {ℓ} {A : Type ℓ} (r : Outcome A) (a : A) (ls : List Lexeme) : Type ℓ where
  pub stop : ℕ
  pub reads : r ≡ ok a (place stop ls)

-- The number of tokens that `ls` are placed as.
abbrev pub room : List Lexeme → ℕ
room ls = suc (length ls)

module _ {ℓ κ} {A : Type ℓ} {B : Type κ} where
  pub Reads-bind :
      {r : Outcome A} {a : A} {b : B} {ls ms : List Lexeme} (f : A → Parser B)
      → Reads r a ls
      → ((p : ℕ) → Reads (f a (place p ls)) b ms)
      → Reads (bind r f) b ms
  Reads-bind f x k = rw x.reads (k x.stop)

pub Reads-refl {ℓ} :
    {A : Type ℓ} (a : A) (p : ℕ) (ls : List Lexeme) → Reads (ok a (place p ls)) a ls
Reads-refl a p ls = record { stop = p; reads = refl }

-- The outcome is that of a loop in the state `s`, on the lexemes `ls`, with fuel enough.
pub record Resumes {S A : Type 0} (loop : ℕ → S → Parser A) (r : Outcome A) (s : S)
    (ls : List Lexeme) : Type 0 where
  pub fuel : ℕ
  pub stop : ℕ
  pub resumes : r ≡ loop fuel s (place stop ls)
  pub enough : room ls < fuel

module _ {S A : Type 0} {loop : ℕ → S → Parser A} where
  pub Resumes-refl :
      (f p : ℕ) (s : S) (ls : List Lexeme) → room ls < f → Resumes loop (loop f s (place p ls)) s ls
  Resumes-refl f p s ls h = record { fuel = f; stop = p; resumes = refl; enough = h }

  pub Resumes-trans :
      {r : Outcome A} {s s' : S} {ls ms : List Lexeme}
      → Resumes loop r s ls
      → ((f p : ℕ) → room ls < f → Resumes loop (loop f s (place p ls)) s' ms)
      → Resumes loop r s' ms
  Resumes-trans a k =
      let b = k a.fuel a.stop a.enough in
      record { fuel = b.fuel; stop = b.stop; resumes = a.resumes ∙ b.resumes; enough = b.enough }

-- What the tests on the lexeme behind an expression say of it.
no_dot :
    (s : Bytes)
    → (not (equal s (codes ".")) && not (equal s (codes "("))) ≡ true
    → equal s (codes ".") ≡ false
no_dot s h = ground arith

parse_segments-print :
    (f : ℕ) (segs : List Bytes) (done : List Bytes) (p : ℕ) (rest : List Lexeme)
    → room (print_segments segs rest) < f
    → Before ends_operand rest
    → Reads (parse_segments f done (place p (print_segments segs rest))) (done ++ segs) rest
unfolding parse_segments peek take expect_ident equal
parse_segments-print zero segs done p rest h b = absurd (omega arith)
parse_segments-print (suc f) [] done p [] h b = rw append-nil (Reads-refl done p [])
parse_segments-print (suc f) [] done p ((k, s) ∷ rest) h b =
    rw append-nil (rw (no_dot s b) (Reads-refl done p _))
parse_segments-print (suc f) (s ∷ segs) done p rest h b =
    rw (← append_assoc done (s ∷ []) segs)
      (parse_segments-print f segs (done ++ s ∷ []) _ rest (omega arith) b)

parse_items-print :
    (f : ℕ) (items done : List Bytes) (p : ℕ) (rest : List Lexeme)
    → room (print_list items (sign (codes "]") ∷ rest)) < f
    → All (IsItem (codes "]")) items
    → Reads
        (parse_items f done (place p (print_list items (sign (codes "]") ∷ rest))))
        (done ++ items)
        rest
unfolding parse_items parse_operand skip_comma peek take equal
parse_items-print zero items done p rest h i = absurd (omega arith)
parse_items-print (suc zero) items done p rest h i = absurd (omega arith)
parse_items-print (suc (suc f)) [] done p rest h i = rw append-nil (Reads-refl done _ rest)
parse_items-print (suc (suc f)) (s ∷ []) done p rest h ((_, open_), _) =
    rw open_ (Reads-refl (done ++ s ∷ []) _ rest)
parse_items-print (suc (suc f)) (s ∷ t ∷ items) done p rest h ((_, open_), i) =
    rw (open_, ← append_assoc done (s ∷ []) (t ∷ items))
      (parse_items-print (suc f) (t ∷ items) (done ++ s ∷ []) _ rest (omega arith) i)

parse_args-print :
    (f : ℕ) (args done : List Bytes) (p : ℕ) (rest : List Lexeme)
    → room (print_list args (sign (codes ")") ∷ rest)) < f
    → All (IsItem (codes ")")) args
    → Reads
        (parse_args f done (place p (print_list args (sign (codes ")") ∷ rest))))
        (done ++ args)
        rest
unfolding parse_operand skip_comma peek take equal
parse_args-print zero args done p rest h i = absurd (omega arith)
parse_args-print (suc zero) args done p rest h i = absurd (omega arith)
parse_args-print (suc (suc f)) [] done p rest h i = rw append-nil (Reads-refl done _ rest)
parse_args-print (suc (suc f)) (s ∷ []) done p rest h ((_, open_), _) =
    rw open_ (Reads-refl (done ++ s ∷ []) _ rest)
parse_args-print (suc (suc f)) (s ∷ t ∷ args) done p rest h ((_, open_), i) =
    rw (open_, ← append_assoc done (s ∷ []) (t ∷ args))
      (parse_args-print (suc f) (t ∷ args) (done ++ s ∷ []) _ rest (omega arith) i)

no_call :
    (s : Bytes)
    → (not (equal s (codes ".")) && not (equal s (codes "("))) ≡ true
    → equal s (codes "(") ≡ false
no_call s h = ground arith

parse_call_or_path-print :
    (f : ℕ) (arguments : Parser (List Bytes)) (ns s : Bytes) (segs : List Bytes) (p : ℕ)
    (rest : List Lexeme)
    → room (print_segments segs rest) < f
    → Before ends_operand rest
    → Reads
        (parse_call_or_path f arguments ns s (place p (print_segments segs rest)))
        (Ast.path ns (s ∷ segs))
        rest
unfolding parse_call_or_path peek equal
parse_call_or_path-print f arguments ns s [] p [] h b =
    Reads-bind _ (parse_segments-print f [] (s ∷ []) p [] h b) λ q. Reads-refl _ q []
parse_call_or_path-print f arguments ns s [] p ((k, t) ∷ rest) h b = rw (no_call t b) (
    Reads-bind _ (parse_segments-print f [] (s ∷ []) p ((k, t) ∷ rest) h b)
      λ q. Reads-refl _ q ((k, t) ∷ rest))
parse_call_or_path-print f arguments ns s (t ∷ segs) p rest h b =
    Reads-bind _ (parse_segments-print f (t ∷ segs) (s ∷ []) p rest h b) λ q. Reads-refl _ q rest

pub parse_operand-print :
    {e : Expr} (f p : ℕ) (rest : List Lexeme)
    → IsOperand e
    → room (print e rest) < f
    → Before ends_operand rest
    → Reads (parse_operand f (place p (print e rest))) e rest
unfolding parse_operand parse_reference parse_call_or_path peek take expect_ident equal print
parse_operand-print zero p rest o h b = absurd (omega arith)
parse_operand-print (suc f) p rest (text_operand _) h b = Reads-refl _ _ rest
parse_operand-print (suc f) p rest (numeral _) h b = Reads-refl _ _ rest
parse_operand-print (suc f) p rest (boolean is_boolean) h b = rw is_boolean (Reads-refl _ _ rest)
parse_operand-print (suc f) p rest (path {ns} {s} {segs} (_, no_literal, no_not) _) h b =
    rw (no_literal, no_not)
      (parse_call_or_path-print f (parse_args f []) ns s segs _ rest (omega arith) b)
parse_operand-print (suc f) p rest (call {ns} {name} {args} (_, no_literal, no_not) _ i) h b =
    rw (no_literal, no_not)
      (Reads-bind _ (parse_args-print f args [] _ rest (omega arith) i) λ q. Reads-refl _ q rest)
parse_operand-print (suc f) p rest (negated {e} o) h b =
    Reads-bind _ (parse_operand-print {e = e} f _ rest o (omega arith) b) λ q. Reads-refl _ q rest

length-print_list : (l : List Bytes) (rest : List Lexeme) → length rest ≤ length (print_list l rest)
length-print_list [] rest = omega arith
length-print_list (s ∷ []) rest = omega arith
length-print_list (s ∷ t ∷ l) rest = omega (arith, length-print_list (t ∷ l) rest)

length-print_segments :
    (l : List Bytes) (rest : List Lexeme) → length rest ≤ length (print_segments l rest)
length-print_segments [] rest = omega arith
length-print_segments (s ∷ l) rest = omega (arith, length-print_segments l rest)

-- A printed expression takes a lexeme at least.
pub length-print : (e : Expr) (rest : List Lexeme) → length rest < length (print e rest)
unfolding print
length-print (Ast.path ns segs) rest = omega (arith, length-print_segments segs rest)
length-print (Ast.call ns name args) rest =
    omega (arith, length-print_list args (sign (codes ")") ∷ rest))
length-print (Ast.literal k s) rest = omega arith
length-print (Ast.is_in e items) rest = omega (
  arith,
  length-print e
      (word (codes "in") ∷ sign (codes "[") ∷ print_list items (sign (codes "]") ∷ rest)),
  length-print_list items (sign (codes "]") ∷ rest),
)
length-print (Ast.compared l op r) rest =
    omega (arith, length-print l (sign op ∷ print r rest), length-print r rest)
length-print (Ast.negated e) rest = omega (arith, length-print e rest)
length-print (Ast.both l r) rest =
    omega (arith, length-print l (word (codes "and") ∷ print r rest), length-print r rest)
length-print (Ast.either l r) rest =
    omega (arith, length-print l (word (codes "or") ∷ print r rest), length-print r rest)

ends_operand_of_cmp : (ls : List Lexeme) → Before ends_cmp ls → Before ends_operand ls
ends_operand_of_cmp [] b = tt
ends_operand_of_cmp (l ∷ ls) b = ground arith

-- A comparison sign ends an operand.
comparison_ends_operand : (s : Bytes) → is_comparison s ≡ true → ends_operand (sign s) ≡ true
unfolding is_comparison equal
comparison_ends_operand [] h = cc
comparison_ends_operand (c ∷ s) h = ground arith

no_comparison :
    (k : _) (s : Bytes)
    → ends_cmp (k, s) ≡ true
    → ((is_ident k && equal s (codes "in")) ≡ false) × ((is_punct k && is_comparison s) ≡ false)
no_comparison k s h = ground arith

-- Behind a bare operand nothing of a comparison follows.
parse_rest_of_cmp-none :
    (f : ℕ) (e : Expr) (p : ℕ) (rest : List Lexeme)
    → Before ends_cmp rest
    → Reads (parse_rest_of_cmp f e (place p rest)) e rest
unfolding parse_rest_of_cmp peek equal
parse_rest_of_cmp-none f e p [] b = Reads-refl e p []
parse_rest_of_cmp-none f e p ((k, s) ∷ rest) b =
    rw ((no_comparison k s b).0, (no_comparison k s b).1) (Reads-refl e p ((k, s) ∷ rest))

pub parse_cmp-print :
    {e : Expr} (f p : ℕ) (rest : List Lexeme)
    → IsCmp e
    → room (print e rest) < f
    → Before ends_cmp rest
    → Reads (parse_cmp f (place p (print e rest))) e rest
unfolding parse_cmp parse_rest_of_cmp peek take expect_punct equal print
parse_cmp-print {e} f p rest (operand o) h b =
    Reads-bind (parse_rest_of_cmp f) (parse_operand-print f p rest o h (ends_operand_of_cmp rest b))
      λ q. parse_rest_of_cmp-none f e q rest b
parse_cmp-print f p rest (compared {l} {r} {op} o is_op o') h b =
    Reads-bind (parse_rest_of_cmp f)
      (parse_operand-print f p (sign op ∷ print r rest) o h (comparison_ends_operand op is_op))
      λ q. rw is_op (
        Reads-bind _
          (parse_operand-print f _ rest o' (omega (arith, length-print l (sign op ∷ print r rest)))
            (ends_operand_of_cmp rest b))
          λ q'. Reads-refl _ q' rest)
parse_cmp-print f p rest (is_in {e} {items} o i) h b =
    Reads-bind (parse_rest_of_cmp f)
      (parse_operand-print f p
        (word (codes "in") ∷ sign (codes "[") ∷ print_list items (sign (codes "]") ∷ rest)) o h
        refl)
      λ q.
        Reads-bind _
          (parse_items-print f items [] _ rest
            (omega (
              arith,
              length-print e (
                  word (codes "in")
                  ∷ sign (codes "[")
                  ∷ print_list items (sign (codes "]") ∷ rest)),
            ))
            i)
          λ q'. Reads-refl _ q' rest
