-- ===== src/Policy/Grammar/Executions.antt =====
-- The loop over the clauses on printed fallback and switch clauses.
use noetivela_open.Prelude.{
  ℕ, zero, suc, ◌+◌, ◌≡◌, refl, true, false, inl, inr, Bool-cases, some, [], ◌∷◌, List, Bytes,
  equal, equal_refl, codes, length,
}
use noetivela_open.Policy.Token.{ident, number, token}
use noetivela_open.Policy.Outcome.{peek, take, expect_ident, expect_punct}
use noetivela_open.Policy.Number.{ℤ, Floats}
use noetivela_open.Policy.Parser.{
  PolicyOf, optional_integer, fallback_clause, switch_clause, clause_of,
}
use noetivela_open.Policy.Grammar.{Lexeme, place, word, sign}
use noetivela_open.Policy.Grammar.Expressions.{Reads, Reads-refl, Reads-bind}
use noetivela_open.Policy.Grammar.Clauses.{Spelling, is_zero, print_integer, IsFloat, IsOptional}
use noetivela_open.Policy.Grammar.Rounds.{parse_number-print, parse_integer-print}
use noetivela_open.Policy.Ast.{Fallback, Switch}

eq_of_is_zero : (n : ℤ) → is_zero n ≡ true → ℤ.pos 0 ≡ n
eq_of_is_zero (ℤ.pos zero) h = refl
eq_of_is_zero (ℤ.pos (suc n)) h = cc
eq_of_is_zero (ℤ.negsuc n) h = cc

-- The text of the next lexeme, if there is one, is not `keyword`.
abbrev pub Lacks : Bytes → List Lexeme → Type 0
Lacks keyword [] = Unit
Lacks keyword ((k, s) ∷ ls) = equal s keyword ≡ false

module _ (fl : Floats) (sp : Spelling fl.Float) where
  open fl use {Float}

  optional_integer-none :
      (keyword : Bytes) (c : ℕ) (p : ℕ) (rest : List Lexeme)
      → Lacks (c ∷ keyword) rest
      → Reads (optional_integer fl (c ∷ keyword) (place p rest)) (ℤ.pos 0) rest
  unfolding optional_integer peek equal
  optional_integer-none keyword c p [] h = Reads-refl _ p []
  optional_integer-none keyword c p ((k, s) ∷ rest) h = rw h (Reads-refl _ p ((k, s) ∷ rest))

  optional_integer-print :
      (keyword : Bytes) (c : ℕ) (n : ℤ) (p : ℕ) (rest : List Lexeme)
      → IsOptional fl sp n
      → Lacks (c ∷ keyword) rest
      → Reads
          (optional_integer fl (c ∷ keyword) (place p (print_integer sp (c ∷ keyword) n rest)))
          n
          rest
  unfolding optional_integer peek take
  optional_integer-print keyword c n p rest i h = elim (Bool-cases (is_zero n)) [
    | inl zeroed ↦
        rw zeroed (rw (← eq_of_is_zero n zeroed) (optional_integer-none keyword c p rest h))
    | inr other ↦
        rw (other, equal_refl (c ∷ keyword))
          (parse_integer-print fl sp (p + (length (c ∷ keyword) + 1)) rest (i other))
  ]

  pub fallback-Reads :
      (fb : Fallback ℤ) (f p q : ℕ) (pol : PolicyOf fl) (rest : List Lexeme)
      → IsOptional fl sp fb.max_attempts
      → Lacks (codes "max_attempts") rest
      → Reads
          (clause_of fl f (token ident (codes "fallback") p) pol (
            place q (word fb.class ∷ print_integer sp (codes "max_attempts") fb.max_attempts rest)))
          (record pol { fallback = some fb })
          rest
  unfolding clause_of fallback_clause expect_ident take equal
  fallback-Reads fb f p q pol rest i h =
      Reads-bind _ (optional_integer-print _ _ fb.max_attempts (q + (length fb.class + 1)) rest i h)
        λ q'. Reads-refl _ q' rest

  pub switch-Reads :
      (sw : Switch Float ℤ) (f p q : ℕ) (pol : PolicyOf fl) (rest : List Lexeme)
      → IsFloat fl sp sw.min_gain
      → IsOptional fl sp sw.min_hold_seconds
      → Lacks (codes "min_hold_seconds") rest
      → Reads
          (clause_of fl f (token ident (codes "switch") p) pol (
            place q (
              word (codes "only_if")
              ∷ word (codes "expected_gain")
              ∷ sign (codes ">=")
              ∷ (number, sp.float sw.min_gain)
              ∷ print_integer sp (codes "min_hold_seconds") sw.min_hold_seconds rest)))
          (record pol { switch = some sw })
          rest
  unfolding clause_of switch_clause expect_ident expect_punct take equal
  switch-Reads sw f p q pol rest w i h =
      Reads-bind _ (parse_number-print fl sp (q + 8 + 14 + 3) _ w) λ q'.
        Reads-bind _ (optional_integer-print _ _ sw.min_hold_seconds q' rest i h)
          λ r. Reads-refl _ r rest
