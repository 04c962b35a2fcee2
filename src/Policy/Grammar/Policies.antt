-- ===== src/Policy/Grammar/Policies.antt =====
-- `parsePolicy` on the tokens of a printed policy.
use noetivela_open.Prelude.{
  ℕ, zero, suc, ◌+◌, ◌≤◌, ◌<◌, refl, Option, some, none, [], ◌∷◌, List, Bytes, equal, codes, length,
  arith,
}
use noetivela_open.Policy.Token.{number}
use noetivela_open.Policy.Ast.{Weights, Optimize, Dim}
use noetivela_open.Policy.Outcome.{peek, take, expect_ident, expect_punct}
use noetivela_open.Policy.Number.{ℤ, Floats}
use noetivela_open.Policy.Parser.{PolicyOf, in_body, clauses_loop, new_policy, parse_policy}
use noetivela_open.Policy.Grammar.{Lexeme, place, word, sign}
use noetivela_open.Policy.Grammar.Shapes.{IsName}
use noetivela_open.Policy.Grammar.Expressions.{
  Reads, Reads-refl, Reads-bind, Resumes, Resumes-refl, Resumes-trans, room,
}
use noetivela_open.Policy.Grammar.Clauses.{
  Spelling, print_prefers, print_weights, print_order, print_optimize, print_integer,
  print_fallback, print_switch, print_clauses, print_source, IsFloat, IsOptional, IsOptimize,
  OrNone, IsWritable,
}
use noetivela_open.Policy.Grammar.Rounds.{
  Closes, fallback, switch, brace, Opens, optimize, closes, clause-Resumes,
}
use noetivela_open.Policy.Ast.{Fallback, Switch}
use noetivela_open.Policy.Grammar.Gates.{requires-Resumes, prefers-Opens, prefers-Resumes}
use noetivela_open.Policy.Grammar.Objectives.{optimize-Reads}
use noetivela_open.Policy.Grammar.Executions.{Lacks, fallback-Reads, switch-Reads}

module _ (fl : Floats) (sp : Spelling fl.Float) where
  open fl use {Float}

  length-print_integer :
      (keyword : Bytes) (n : ℤ) (rest : List Lexeme)
      → length rest ≤ length (print_integer sp keyword n rest)
  length-print_integer keyword n rest = ground arith

  length-print_order :
      (ds : List Dim) (rest : List Lexeme) → length rest ≤ length (print_order sp ds rest)
  length-print_order [] rest = omega arith
  length-print_order (d ∷ ds) rest = omega (arith, length-print_order ds rest)

  length-print_weights :
      (m : Weights Float) (rest : List Lexeme) → length rest ≤ length (print_weights sp m rest)
  length-print_weights [] rest = omega arith
  length-print_weights ((d, w) ∷ m) rest = omega (arith, length-print_weights m rest)

  room-optimize :
      (o : Optimize Float) (rest : List Lexeme) (f : ℕ)
      → room (print_optimize sp (some o) rest) < suc f
      → room rest < f
  room-optimize o rest f h =
      ground (arith, length-print_order o.order rest, length-print_weights o.weights rest)

  optimize-Resumes :
      (o : Option (Optimize Float)) (f p : ℕ) (pol : PolicyOf fl) (rest : List Lexeme)
      → OrNone (IsOptimize fl sp) o
      → Closes rest
      → room (print_optimize sp o rest) < f
      → Resumes
          (clauses_loop fl)
          (clauses_loop fl f (record pol { optimize = none }) (place p (print_optimize sp o rest)))
          (record pol { optimize = o })
          rest
  optimize-Resumes none f p pol rest w c h = Resumes-refl f p _ rest h
  optimize-Resumes (some o) zero p pol rest w c h = absurd (omega arith)
  optimize-Resumes (some o) (suc f) p pol rest w c h =
      clause-Resumes fl sp (codes "optimize") f p (record pol { optimize = none }) _
        (unfold in_body equal in refl) (room-optimize o rest f h)
        (optimize-Reads fl sp f p _ (record pol { optimize = none }) rest w c h)

  fallback-Resumes :
      (o : Option (Fallback ℤ)) (f p : ℕ) (pol : PolicyOf fl) (rest : List Lexeme)
      → OrNone (λ (fb : Fallback ℤ). IsName fb.class × IsOptional fl sp fb.max_attempts) o
      → Lacks (codes "max_attempts") rest
      → room (print_fallback sp o rest) < f
      → Resumes
          (clauses_loop fl)
          (clauses_loop fl f (record pol { fallback = none }) (place p (print_fallback sp o rest)))
          (record pol { fallback = o })
          rest
  fallback-Resumes none f p pol rest w c h = Resumes-refl f p _ rest h
  fallback-Resumes (some o) zero p pol rest w c h = absurd (omega arith)
  fallback-Resumes (some o) (suc f) p pol rest (_, i) c h =
      clause-Resumes fl sp (codes "fallback") f p (record pol { fallback = none })
        (word o.class ∷ print_integer sp (codes "max_attempts") o.max_attempts rest)
        (unfold in_body equal in refl)
        (omega (arith, length-print_integer (codes "max_attempts") o.max_attempts rest))
        (fallback-Reads fl sp o f p _ (record pol { fallback = none }) rest i c)

  switch-Resumes :
      (o : Option (Switch Float ℤ)) (f p : ℕ) (pol : PolicyOf fl) (rest : List Lexeme)
      → OrNone
          (λ (sw : Switch Float ℤ).
            IsFloat fl sp sw.min_gain × IsOptional fl sp sw.min_hold_seconds)
          o
      → Lacks (codes "min_hold_seconds") rest
      → room (print_switch sp o rest) < f
      → Resumes
          (clauses_loop fl)
          (clauses_loop fl f (record pol { switch = none }) (place p (print_switch sp o rest)))
          (record pol { switch = o })
          rest
  switch-Resumes none f p pol rest w c h = Resumes-refl f p _ rest h
  switch-Resumes (some o) zero p pol rest w c h = absurd (omega arith)
  switch-Resumes (some o) (suc f) p pol rest (w, i) c h =
      clause-Resumes fl sp (codes "switch") f p (record pol { switch = none })
        (word (codes "only_if")
          ∷ word (codes "expected_gain")
          ∷ sign (codes ">=")
          ∷ (number, sp.float o.min_gain)
          ∷ print_integer sp (codes "min_hold_seconds") o.min_hold_seconds rest)
        (unfold in_body equal in refl)
        (omega (arith, length-print_integer (codes "min_hold_seconds") o.min_hold_seconds rest))
        (switch-Reads fl sp o f p _ (record pol { switch = none }) rest w i c)

  module _ (tail : List Lexeme) where
    -- What is left of the lexemes of a policy behind its preferences, its objective and its fallback.
    abbrev closing : PolicyOf fl → List Lexeme
    closing pol =
        print_fallback sp pol.fallback (print_switch sp pol.switch (sign (codes "}") ∷ tail))

    switch-Closes :
        (o : Option (Switch Float ℤ)) → Closes (print_switch sp o (sign (codes "}") ∷ tail))
    switch-Closes none = brace
    switch-Closes (some _) = switch

    fallback-Closes :
        (o : Option (Fallback ℤ)) {rest : List Lexeme}
        → Closes rest
        → Closes (print_fallback sp o rest)
    fallback-Closes none c = c
    fallback-Closes (some _) c = fallback

    optimize-Opens :
        (o : Option (Optimize Float)) {rest : List Lexeme}
        → Closes rest
        → Opens (print_optimize sp o rest)
    optimize-Opens none c = closes c
    optimize-Opens (some _) c = optimize

    Closes-Lacks : {rest : List Lexeme} → Closes rest → Lacks (codes "max_attempts") rest
    unfolding equal
    Closes-Lacks fallback = refl
    Closes-Lacks switch = refl
    Closes-Lacks brace = refl

    clauses-Resumes :
        (pol : PolicyOf fl) (f p : ℕ)
        → IsWritable fl sp pol
        → room (print_clauses sp pol (sign (codes "}") ∷ tail)) < f
        → Resumes
            (clauses_loop fl)
            (clauses_loop fl f
              (new_policy fl pol.name)
              (place p (print_clauses sp pol (sign (codes "}") ∷ tail))))
            pol
            (sign (codes "}") ∷ tail)
    clauses-Resumes pol f p w h =
        let switched = print_switch sp pol.switch (sign (codes "}") ∷ tail) in
        let optimized = print_optimize sp pol.optimize (closing pol) in
        let preferred = print_prefers sp pol.prefers optimized in
        let start = new_policy fl pol.name in
        let gated : PolicyOf fl = record start { requires = pol.requires } in
        let ranked : PolicyOf fl = record gated { prefers = pol.prefers } in
        let weighed : PolicyOf fl = record ranked { optimize = pol.optimize } in
        let backed : PolicyOf fl = record weighed { fallback = pol.fallback } in
        let c = switch-Closes pol.switch in
        let c' = fallback-Closes pol.fallback c in
        let o = optimize-Opens pol.optimize c' in
        Resumes-trans {s = gated} {ls = preferred}
          (requires-Resumes fl sp pol.requires f p start preferred w.requires
            (prefers-Opens fl sp pol.prefers o) h)
          λ f₁ p₁ h₁.
            Resumes-trans {s = ranked} {ls = optimized}
              (prefers-Resumes fl sp pol.prefers f₁ p₁ gated optimized w.prefers h₁)
              λ f₂ p₂ h₂.
                Resumes-trans {s = weighed} {ls = closing pol}
                  (optimize-Resumes pol.optimize f₂ p₂ ranked (closing pol) w.optimize c' h₂)
                  λ f₃ p₃ h₃.
                    Resumes-trans {s = backed} {ls = switched}
                      (fallback-Resumes pol.fallback f₃ p₃ weighed switched w.fallback
                        (Closes-Lacks c) h₃)
                      λ f₄ p₄ h₄.
                        switch-Resumes pol.switch f₄ p₄ backed (sign (codes "}") ∷ tail) w.switch
                          (unfold equal in refl) h₄

    clauses_loop-end :
        (f p : ℕ) (pol : PolicyOf fl)
        → room (sign (codes "}") ∷ tail) < f
        → Reads
            (clauses_loop fl f pol (place p (sign (codes "}") ∷ tail)))
            pol
            (sign (codes "}") ∷ tail)
    unfolding clauses_loop peek in_body equal
    clauses_loop-end zero p pol h = absurd (omega arith)
    clauses_loop-end (suc f) p pol h = Reads-refl pol p (sign (codes "}") ∷ tail)

    -- With fuel above the number of tokens, the parser of policies reads a printed policy back, and
    -- leaves what follows.
    pub parse_policy-print :
        (keyword : Bytes) (pol : PolicyOf fl) (f p : ℕ)
        → IsWritable fl sp pol
        → room (print_source sp keyword pol tail) < f
        → Reads (parse_policy fl f (place p (print_source sp keyword pol tail))) pol tail
    unfolding parse_policy print_source expect_ident expect_punct take equal
    parse_policy-print keyword pol f p w h =
        let all =
          clauses-Resumes pol f (p + (length keyword + 1) + (length pol.name + 1) + 2) w
            (omega arith) in
        rw all.resumes (
          Reads-bind _ (clauses_loop-end all.fuel all.stop pol all.enough)
            λ q. Reads-refl pol (q + 2) tail)
