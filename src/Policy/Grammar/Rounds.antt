-- ===== src/Policy/Grammar/Rounds.antt =====
-- What may follow a clause, written numbers, and a round of the loop over the clauses.
use noetivela_open.Prelude.{
  ℕ, suc, ◌+◌, ◌<◌, ◌≡◌, refl, true, ◌∷◌, List, Bytes, equal, codes, length,
}
use noetivela_open.Policy.Token.{ident, number, token}
use noetivela_open.Policy.Outcome.{peek, take, expect_ident}
use noetivela_open.Policy.Number.{ℤ, Floats, parse_float, parse_number, parse_integer}
use noetivela_open.Policy.Expression.{is_comparison}
use noetivela_open.Policy.Parser.{PolicyOf, in_body, clause_of, clauses_loop}
use noetivela_open.Policy.Grammar.{Lexeme, place, word, sign, ends_disjunction, Before}
use noetivela_open.Policy.Grammar.Expressions.{Reads, Reads-refl, Resumes, room}
use noetivela_open.Policy.Grammar.Clauses.{Spelling, Spells, IsInteger}

-- What may follow the optimize clause, and what may follow any.
pub data Closes : List Lexeme → Type 0 where
  fallback : {ls : List Lexeme} → Closes (word (codes "fallback") ∷ ls)
  switch : {ls : List Lexeme} → Closes (word (codes "switch") ∷ ls)
  brace : {ls : List Lexeme} → Closes (sign (codes "}") ∷ ls)

pub data Opens : List Lexeme → Type 0 where
  require : {ls : List Lexeme} → Opens (word (codes "require") ∷ ls)
  prefer : {ls : List Lexeme} → Opens (word (codes "prefer") ∷ ls)
  optimize : {ls : List Lexeme} → Opens (word (codes "optimize") ∷ ls)
  closes : {ls : List Lexeme} → Closes ls → Opens ls

pub Opens-ends : {ls : List Lexeme} → Opens ls → Before ends_disjunction ls
unfolding equal is_comparison
Opens-ends require = refl
Opens-ends prefer = refl
Opens-ends optimize = refl
Opens-ends (closes fallback) = refl
Opens-ends (closes switch) = refl
Opens-ends (closes brace) = refl

module _ (fl : Floats) (sp : Spelling fl.Float) where
  open fl use {Float}

  pub parse_number-print :
      {s : Bytes} {w : Float} (p : ℕ) (rest : List Lexeme)
      → Spells fl sp s w
      → Reads (parse_number fl (place p ((number, s) ∷ rest))) w rest
  unfolding parse_number parse_float take
  parse_number-print p rest x = rw (x.decimal, x.nearest) (Reads-refl _ _ rest)

  pub parse_integer-print :
      {n : ℤ} (p : ℕ) (rest : List Lexeme)
      → IsInteger fl sp n
      → Reads (parse_integer fl (place p ((number, sp.integer n) ∷ rest))) n rest
  unfolding parse_integer parse_float take
  parse_integer-print p rest x =
      rw (x.spells.decimal, x.spells.nearest, x.truncates) (Reads-refl _ _ rest)

  -- A round of the loop over the clauses.
  pub clause-Resumes :
      (keyword : Bytes) (f p : ℕ) (pol : PolicyOf fl) {pol' : PolicyOf fl} (ls : List Lexeme)
      {rest : List Lexeme}
      → in_body (token ident keyword p) ≡ true
      → room rest < f
      → Reads
          (clause_of fl f (token ident keyword p) pol (place (p + (length keyword + 1)) ls))
          pol'
          rest
      → Resumes
          (clauses_loop fl)
          (clauses_loop fl (suc f) pol (place p (word keyword ∷ ls)))
          pol'
          rest
  unfolding clauses_loop peek expect_ident take
  clause-Resumes keyword f p pol ls inside h r =
      rw inside (record { fuel = f; stop = r.stop; resumes = rw r.reads; enough = h })
