-- ===== src/Policy/Grammar/Gates.antt =====
-- The loop over the clauses on printed require and prefer clauses.
use noetivela_open.Prelude.{
  ℕ, zero, suc, ◌+◌, ◌≤◌, ◌<◌, ◌≡◌, refl, true, [], ◌∷◌, ◌++◌, List, equal, codes, length, arith,
  All, append_assoc, append-nil,
}
use noetivela_open.Policy.Token.{ident, number, token}
use noetivela_open.Policy.Ast.{Expr, Prefer}
use noetivela_open.Policy.Outcome.{take, expect_ident}
use noetivela_open.Policy.Number.{Floats}
use noetivela_open.Policy.Parser.{
  PolicyOf, is_gate, in_body, require_clause, prefer_clause, clause_of, clauses_loop,
}
use noetivela_open.Policy.Grammar.{Lexeme, place, word}
use noetivela_open.Policy.Grammar.Shapes.{IsCmp, conjunction, cmp}
use noetivela_open.Policy.Grammar.Expressions.{
  Reads, Reads-refl, Reads-bind, Resumes, Resumes-refl, Resumes-trans, room, length-print,
}
use noetivela_open.Policy.Grammar.Connectives.{parse_or-print}
use noetivela_open.Policy.Grammar.Clauses.{
  Spelling, print_requires, print_prefers, IsFloat, IsPrefer,
}
use noetivela_open.Policy.Grammar.Rounds.{
  Opens, require, prefer, Opens-ends, parse_number-print, clause-Resumes,
}

module _ (fl : Floats) (sp : Spelling fl.Float) where
  open fl use {Float}

  pub requires-Opens :
      (es : List Expr) {rest : List Lexeme} → Opens rest → Opens (print_requires sp es rest)
  requires-Opens [] o = o
  requires-Opens (e ∷ es) o = require

  pub length-print_requires :
      (es : List Expr) (rest : List Lexeme) → length rest ≤ length (print_requires sp es rest)
  length-print_requires [] rest = omega arith
  length-print_requires (e ∷ es) rest =
      omega (arith, length-print_requires es rest, length-print e (print_requires sp es rest))

  pub requires-Resumes :
      (es : List Expr) (f p : ℕ) (pol : PolicyOf fl) (rest : List Lexeme)
      → All (λ e. IsCmp e × (is_gate e ≡ true)) es
      → Opens rest
      → room (print_requires sp es rest) < f
      → Resumes
          (clauses_loop fl)
          (clauses_loop fl f pol (place p (print_requires sp es rest)))
          (record pol { requires = pol.requires ++ es })
          rest
  unfolding clause_of require_clause in_body equal
  requires-Resumes [] f p pol rest a o h = simp append-nil (Resumes-refl f p pol rest h)
  requires-Resumes (e ∷ es) zero p pol rest a o h = absurd (omega arith)
  requires-Resumes (e ∷ es) (suc f) p pol rest ((c, gate), a) o h =
      Resumes-trans {s = record pol { requires = pol.requires ++ e ∷ [] }}
        {ls = print_requires sp es rest}
        (clause-Resumes fl sp (codes "require") f p pol _ refl
          (omega (arith, length-print e (print_requires sp es rest)))
          (Reads-bind _
            (parse_or-print f _ (print_requires sp es rest) (conjunction (cmp c)) (omega arith)
              (Opens-ends (requires-Opens es o)))
            λ q. rw gate (Reads-refl _ q (print_requires sp es rest))))
        λ f' p' h'.
          rw (← append_assoc pol.requires (e ∷ []) es) (
            requires-Resumes es f' p' (record pol { requires = pol.requires ++ e ∷ [] }) rest a o
              h')

  pub prefers-Opens :
      (ps : List (Prefer Float)) {rest : List Lexeme}
      → Opens rest
      → Opens (print_prefers sp ps rest)
  prefers-Opens [] o = o
  prefers-Opens (p ∷ ps) o = prefer

  prefer-Reads :
      (c : Prefer Float) (f p q : ℕ) (pol : PolicyOf fl) (rest : List Lexeme)
      → IsFloat fl sp c.weight
      → Reads
          (clause_of fl f
            (token ident (codes "prefer") p)
            pol
            (place q (word c.feature ∷ word (codes "weight") ∷ (number, sp.float c.weight) ∷ rest)))
          (record pol { prefers = pol.prefers ++ c ∷ [] })
          rest
  unfolding clause_of prefer_clause expect_ident take equal
  prefer-Reads c f p q pol rest w =
      Reads-bind _ (parse_number-print fl sp (q + (length c.feature + 1) + 7) rest w)
        λ q'. Reads-refl _ q' rest

  pub prefers-Resumes :
      (ps : List (Prefer Float)) (f p : ℕ) (pol : PolicyOf fl) (rest : List Lexeme)
      → All (IsPrefer fl sp) ps
      → room (print_prefers sp ps rest) < f
      → Resumes
          (clauses_loop fl)
          (clauses_loop fl f pol (place p (print_prefers sp ps rest)))
          (record pol { prefers = pol.prefers ++ ps })
          rest
  prefers-Resumes [] f p pol rest a h = simp append-nil (Resumes-refl f p pol rest h)
  prefers-Resumes (c ∷ ps) zero p pol rest a h = absurd (omega arith)
  prefers-Resumes (c ∷ ps) (suc f) p pol rest ((_, w), a) h =
      let pol' : PolicyOf fl = record pol { prefers = pol.prefers ++ c ∷ [] } in
      let later = print_prefers sp ps rest in
      Resumes-trans {s = pol'} {ls = later}
        (clause-Resumes fl sp (codes "prefer") f p pol
          (word c.feature ∷ word (codes "weight") ∷ (number, sp.float c.weight) ∷ later)
          (unfold in_body equal in refl) (omega arith) (prefer-Reads c f p _ pol later w))
        λ f' p' h'.
          rw (← append_assoc pol.prefers (c ∷ []) ps) (prefers-Resumes ps f' p' pol' rest a h')
