-- ===== src/Policy/Grammar/Objectives.antt =====
-- The loop over the clauses on a printed optimize clause.
use noetivela_open.Prelude.{
  ℕ, zero, suc, ◌+◌, ◌<◌, ◌≡◌, refl, false, some, [], ◌∷◌, ◌++◌, List, equal, codes, length, arith,
  if◌then◌else◌, All, append_assoc, append-nil, All-append,
}
use noetivela_open.Policy.Token.{ident, token}
use noetivela_open.Policy.Ast.{Weights, Optimize, insert, Dim}
use noetivela_open.Policy.Outcome.{peek, take, expect_ident}
use noetivela_open.Policy.Number.{Floats}
use noetivela_open.Policy.Parser.{
  PolicyOf, is_dim, any_ident, in_order, order_loop, parse_dim_weight, weights_loop, optimize_from,
  optimize_clause, clause_of,
}
use noetivela_open.Policy.Grammar.{Lexeme, place, word}
use noetivela_open.Policy.Grammar.Expressions.{Reads, Reads-refl, Reads-bind, room}
use noetivela_open.Policy.Grammar.Clauses.{
  Spelling, print_weights, print_order, print_optimize, IsOrdered, IsWeight, IsMap, IsOptimize,
  ordered, weighted,
}
use noetivela_open.Policy.Grammar.Rounds.{Closes, fallback, switch, brace, parse_number-print}

module _ (fl : Floats) (sp : Spelling fl.Float) where
  open fl use {Float}

  pub order_loop-none :
      (f p : ℕ) (order : List Dim) {rest : List Lexeme}
      → Closes rest
      → Reads (order_loop (suc f) order (place p rest)) order rest
  unfolding order_loop peek in_order equal
  order_loop-none f p order fallback = Reads-refl order p _
  order_loop-none f p order switch = Reads-refl order p _
  order_loop-none f p order brace = Reads-refl order p _

  order_loop-print :
      (ds : List Dim) (f p : ℕ) (order : List Dim) (rest : List Lexeme)
      → All (IsOrdered fl sp) ds
      → Closes rest
      → room (print_order sp ds rest) < f
      → Reads (order_loop f order (place p (print_order sp ds rest))) (order ++ ds) rest
  unfolding order_loop peek in_order any_ident expect_ident take
  order_loop-print ds zero p order rest a c h = absurd (omega arith)
  order_loop-print [] (suc f) p order rest a c h = rw append-nil (order_loop-none f p order c)
  order_loop-print (d ∷ ds) (suc f) p order rest ((_, d_in), a) c h =
      rw (d_in, ← append_assoc order (d ∷ []) ds)
        (order_loop-print ds f _ (order ++ d ∷ []) rest a c (omega arith))

  insert-fresh :
      (m : Weights Float) (d : Dim) (w : Float)
      → All (λ (e, _). equal e d ≡ false) m
      → insert d w m ≡ m ++ (d, w) ∷ []
  unfolding insert
  insert-fresh [] d w a = refl
  insert-fresh ((e, v) ∷ m) d w (h, a) = rw (h, insert-fresh m d w a)

  -- No dimension of `new` stands in `old`.
  Apart : Weights Float → Weights Float → Type 0
  Apart old new = All (λ (d, _). All (λ (e, _). equal e d ≡ false) old) new

  weights_loop-none :
      (f p : ℕ) (m : Weights Float) {rest : List Lexeme}
      → Closes rest
      → Reads (weights_loop fl (suc f) m (place p rest)) m rest
  unfolding weights_loop peek is_dim equal
  weights_loop-none f p m fallback = Reads-refl m p _
  weights_loop-none f p m switch = Reads-refl m p _
  weights_loop-none f p m brace = Reads-refl m p _

  Apart-grows :
      (old new : Weights Float) (d : Dim) (w : Float)
      → Apart old new
      → All (λ (e, _). equal d e ≡ false) new
      → Apart (old ++ (d, w) ∷ []) new
  unfolding Apart
  Apart-grows old [] d w a h = tt
  Apart-grows old ((e, v) ∷ new) d w (a, as_) (h, hs) = (
    All-append (λ (e', _). equal e' e ≡ false) old ((d, w) ∷ []) a (h, tt),
    Apart-grows old new d w as_ hs,
  )

  weights_loop-print :
      (m : Weights Float) (f p : ℕ) (old : Weights Float) (rest : List Lexeme)
      → All (IsWeight fl sp) m
      → IsMap fl sp m
      → Apart old m
      → Closes rest
      → room (print_weights sp m rest) < f
      → Reads (weights_loop fl f old (place p (print_weights sp m rest))) (old ++ m) rest
  unfolding weights_loop peek any_ident expect_ident take parse_dim_weight Apart
  weights_loop-print m zero p old rest a i x c h = absurd (omega arith)
  weights_loop-print [] (suc f) p old rest a i x c h = rw append-nil (weights_loop-none f p old c)
  weights_loop-print ((d, w) ∷ m) (suc f) p old rest ((_, d_is, v), a) (apart, i) (fresh, x) c h =
      rw (d_is, ← append_assoc old ((d, w) ∷ []) m)
        (Reads-bind _
          (Reads-bind _ (parse_number-print fl sp (p + (length d + 1)) (print_weights sp m rest) v)
            λ q. Reads-refl (insert d w old) q (print_weights sp m rest))
          λ q. rw (insert-fresh old d w fresh) (
            weights_loop-print m f q (old ++ (d, w) ∷ []) rest a i (Apart-grows old m d w x apart) c
              (omega arith)))

  Apart-nil : (new : Weights Float) → Apart [] new
  unfolding Apart
  Apart-nil [] = tt
  Apart-nil (x ∷ new) = (tt, Apart-nil new)

  pub optimize-Reads :
      {o : Optimize Float} (f p q : ℕ) (pol : PolicyOf fl) (rest : List Lexeme)
      → IsOptimize fl sp o
      → Closes rest
      → room (print_optimize sp (some o) rest) < suc f
      → Reads
          (clause_of fl f (token ident (codes "optimize") p) pol (
            place q (
              if o.lexicographic
              then word (codes "lexicographic") ∷ print_order sp o.order rest
              else print_weights sp o.weights rest)))
          (record pol { optimize = some o })
          rest
  unfolding clause_of optimize_clause optimize_from any_ident expect_ident take parse_dim_weight
      insert equal
  optimize-Reads f p q pol rest (ordered {order} a) c h =
      Reads-bind _ (order_loop-print order f (q + 14) [] rest a c (omega arith))
        λ q'. Reads-refl _ q' rest
  optimize-Reads f p q pol rest (weighted {d} {w} {m} _ no_lex v a (apart, i)) c h = rw no_lex (
      Reads-bind _
        (Reads-bind _ (parse_number-print fl sp (q + (length d + 1)) (print_weights sp m rest) v)
          λ q'. Reads-refl ((d, w) ∷ []) q' (print_weights sp m rest))
        λ q'.
          Reads-bind _
            (weights_loop-print m f q' ((d, w) ∷ []) rest a i
              (Apart-grows [] m d w (Apart-nil m) apart) c (omega arith))
            λ r. Reads-refl _ r rest)
