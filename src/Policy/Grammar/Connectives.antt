-- ===== src/Policy/Grammar/Connectives.antt =====
-- `parseOr` and `parseAnd` on printed conjunctions and disjunctions.
use noetivela_open.Prelude.{
  ℕ, zero, suc, ◌+◌, ◌<◌, ◌≡◌, refl, ◌∙◌, true, false, [], ◌∷◌, List, Bytes, equal, codes, arith,
}
use noetivela_open.Policy.Token.{TokenKind}
use noetivela_open.Policy.Ast
use noetivela_open.Policy.Ast.{Expr}
use noetivela_open.Policy.Outcome.{peek, take}
use noetivela_open.Policy.Expression.{and_loop, parse_and, or_loop, parse_or}
use noetivela_open.Policy.Grammar.{
  Lexeme, place, word, print, ends_cmp, ends_conjunction, ends_disjunction, Before,
}
use noetivela_open.Policy.Grammar.Shapes.{
  IsCmp, IsConjunction, cmp, both, IsDisjunction, conjunction, either,
}
use noetivela_open.Policy.Grammar.Expressions.{
  Reads, Reads-refl, Resumes, room, length-print, parse_cmp-print,
}

and_loop-print :
    {r : Expr} (f p : ℕ) (l : Expr) (rest : List Lexeme)
    → IsCmp r
    → room (word (codes "and") ∷ print r rest) < f
    → Before ends_cmp rest
    → Resumes and_loop
        (and_loop f l (place p (word (codes "and") ∷ print r rest)))
        (Ast.both l r)
        rest
unfolding and_loop peek take equal
and_loop-print zero p l rest c h b = absurd (omega arith)
and_loop-print {r} (suc f) p l rest c h b =
    let right = parse_cmp-print f (p + 4) rest c (omega arith) b in
    record {
      fuel = f;
      stop = right.stop;
      resumes = rw right.reads;
      enough = omega (arith, length-print r rest);
    }

conjunction-Resumes :
    {e : Expr} (f p : ℕ) (rest : List Lexeme)
    → IsConjunction e
    → room (print e rest) < f
    → Before ends_cmp rest
    → Resumes and_loop (parse_and f (place p (print e rest))) e rest
unfolding parse_and print equal
conjunction-Resumes {e} f p rest (cmp c) h b =
    let first = parse_cmp-print f p rest c h b in
    record {
      fuel = f;
      stop = first.stop;
      resumes = rw first.reads;
      enough = omega (arith, length-print e rest);
    }
conjunction-Resumes f p rest (both {l} {r} j c) h b =
    let before = conjunction-Resumes {e = l} f p (word (codes "and") ∷ print r rest) j h refl in
    let after = and_loop-print before.fuel before.stop l rest c before.enough b in
    record {
      fuel = after.fuel;
      stop = after.stop;
      resumes = before.resumes ∙ after.resumes;
      enough = after.enough;
    }

no_and :
    (k : TokenKind) (s : Bytes)
    → ends_conjunction (k, s) ≡ true
    → (ends_cmp (k, s) ≡ true) × (equal s (codes "and") ≡ false)
no_and k s h = ground arith

ends_cmp_of_conjunction : (ls : List Lexeme) → Before ends_conjunction ls → Before ends_cmp ls
ends_cmp_of_conjunction [] b = tt
ends_cmp_of_conjunction ((k, s) ∷ ls) b = (no_and k s b).0

and_loop-none :
    (f : ℕ) (e : Expr) (p : ℕ) (rest : List Lexeme)
    → room rest < f
    → Before ends_conjunction rest
    → Reads (and_loop f e (place p rest)) e rest
unfolding and_loop peek equal
and_loop-none zero e p rest h b = absurd (omega arith)
and_loop-none (suc f) e p [] h b = Reads-refl e p []
and_loop-none (suc f) e p ((k, s) ∷ rest) h b =
    rw ((no_and k s b).1) (Reads-refl e p ((k, s) ∷ rest))

parse_and-print :
    {e : Expr} (f p : ℕ) (rest : List Lexeme)
    → IsConjunction e
    → room (print e rest) < f
    → Before ends_conjunction rest
    → Reads (parse_and f (place p (print e rest))) e rest
parse_and-print {e} f p rest j h b =
    let all = conjunction-Resumes f p rest j h (ends_cmp_of_conjunction rest b) in
    rw all.resumes (and_loop-none all.fuel e all.stop rest all.enough b)

or_loop-print :
    {r : Expr} (f p : ℕ) (l : Expr) (rest : List Lexeme)
    → IsConjunction r
    → room (word (codes "or") ∷ print r rest) < f
    → Before ends_conjunction rest
    → Resumes or_loop
        (or_loop f l (place p (word (codes "or") ∷ print r rest)))
        (Ast.either l r)
        rest
unfolding or_loop peek take equal
or_loop-print zero p l rest c h b = absurd (omega arith)
or_loop-print {r} (suc f) p l rest c h b =
    let right = parse_and-print f (p + 3) rest c (omega arith) b in
    record {
      fuel = f;
      stop = right.stop;
      resumes = rw right.reads;
      enough = omega (arith, length-print r rest);
    }

disjunction-Resumes :
    {e : Expr} (f p : ℕ) (rest : List Lexeme)
    → IsDisjunction e
    → room (print e rest) < f
    → Before ends_conjunction rest
    → Resumes or_loop (parse_or f (place p (print e rest))) e rest
unfolding parse_or print equal
disjunction-Resumes {e} f p rest (conjunction c) h b =
    let first = parse_and-print f p rest c h b in
    record {
      fuel = f;
      stop = first.stop;
      resumes = rw first.reads;
      enough = omega (arith, length-print e rest);
    }
disjunction-Resumes f p rest (either {l} {r} j c) h b =
    let before = disjunction-Resumes {e = l} f p (word (codes "or") ∷ print r rest) j h refl in
    let after = or_loop-print before.fuel before.stop l rest c before.enough b in
    record {
      fuel = after.fuel;
      stop = after.stop;
      resumes = before.resumes ∙ after.resumes;
      enough = after.enough;
    }

no_or :
    (k : TokenKind) (s : Bytes)
    → ends_disjunction (k, s) ≡ true
    → (ends_conjunction (k, s) ≡ true) × (equal s (codes "or") ≡ false)
no_or k s h = ground arith

ends_conjunction_of_disjunction :
    (ls : List Lexeme) → Before ends_disjunction ls → Before ends_conjunction ls
ends_conjunction_of_disjunction [] b = tt
ends_conjunction_of_disjunction ((k, s) ∷ ls) b = (no_or k s b).0

or_loop-none :
    (f : ℕ) (e : Expr) (p : ℕ) (rest : List Lexeme)
    → room rest < f
    → Before ends_disjunction rest
    → Reads (or_loop f e (place p rest)) e rest
unfolding or_loop peek equal
or_loop-none zero e p rest h b = absurd (omega arith)
or_loop-none (suc f) e p [] h b = Reads-refl e p []
or_loop-none (suc f) e p ((k, s) ∷ rest) h b = rw ((no_or k s b).1) (Reads-refl e p ((k, s) ∷ rest))

-- If an expression has a written form, and what stands behind it does not begin with a lexeme of
-- the text ".", "(", and or or, with a comparison sign or with the word in, `parseOr` with fuel
-- above the number of tokens reads it back from its tokens, with and binding tighter than or and
-- both grouping to the left, and leaves what follows. It has a written form if it is built by or
-- and and from comparisons, membership tests and single operands, where an and stands over no or
-- and has no and on its right, and an or has no or on its right, and the operands are strings
-- without a double quote, texts of digits and points that begin with a digit, true and false, paths
-- with a segment at least and calls, both behind a name that is none of true, false and not, and
-- not before such an operand; the arguments of a call are strings without a double quote of which
-- none is ")", and the items of a list are strings without a double quote of which none is "]".
pub parse_or-print :
    {e : Expr} (f p : ℕ) (rest : List Lexeme)
    → IsDisjunction e
    → room (print e rest) < f
    → Before ends_disjunction rest
    → Reads (parse_or f (place p (print e rest))) e rest
parse_or-print {e} f p rest j h b =
    let all = disjunction-Resumes f p rest j h (ends_conjunction_of_disjunction rest b) in
    rw all.resumes (or_loop-none all.fuel e all.stop rest all.enough b)
