-- ===== src/Policy/Grammar/Wording.antt =====
-- The lexemes of a printed policy.
use noetivela_open.Prelude.{
  ℕ, String, ◌+◌, ◌≡◌, refl, ◌||◌, inl, inr, Bool, true, false, ◌&&◌, ◌==◌, Bool-cases, Option,
  none, some, List, [], ◌∷◌, Bytes, equal, equal_iff, codes, length, All, arith,
}
use noetivela_open.Policy.Token.{is_digit, is_letter}
use noetivela_open.Policy.Ast.{Expr, Prefer, Weights, Dim, Optimize, Fallback, Switch}
use noetivela_open.Policy.Number.{ℤ, Floats}
use noetivela_open.Policy.Lexer.{is_ident_byte}
use noetivela_open.Policy.Expression.{is_comparison}
use noetivela_open.Policy.Parser.{PolicyOf, is_gate}
use noetivela_open.Policy.Grammar.{Lexeme, written, place, sign, print_list, print_segments, print}
use noetivela_open.Policy.Grammar.Shapes.{
  IsName, IsItem, IsOperand, text, numeral, boolean, path, call, negated, IsCmp, operand, compared,
  is_in,
}
use noetivela_open.Policy.Grammar.Lexemes.{
  IsLexeme, comparison, open_brace, close_brace, open_bracket, close_bracket, open_paren,
  close_paren, comma, dot,
}
use noetivela_open.Policy.Grammar.Clauses.{
  Spelling, is_zero, print_requires, print_prefers, print_weights, print_order, print_optimize,
  print_integer, print_fallback, print_switch, print_source, IsFloat, IsOptional, IsPrefer,
  IsOrdered, IsWeight, IsOptimize, ordered, weighted, OrNone, IsWritable,
}
use noetivela_open.Policy.Grammar.Expressions.{room}

abbrev pub AreLexemes : List Lexeme → Type 0
AreLexemes = All IsLexeme

-- A test for names, by which the keywords are names.
unfoldable pub is_name_rest : Bytes → Bool
is_name_rest [] = true
is_name_rest (c ∷ cs) = is_ident_byte c && is_name_rest cs

unfoldable pub is_name : Bytes → Bool
is_name [] = false
is_name (c ∷ cs) = (c == b'_' || is_letter c) && is_name_rest cs

is_name_rest-All : (s : Bytes) → is_name_rest s ≡ true → All (λ d. is_ident_byte d ≡ true) s
unfolding is_name_rest
is_name_rest-All [] h = tt
is_name_rest-All (c ∷ s) h = (ground arith, is_name_rest-All s (ground arith))

is_name-IsName : (s : Bytes) → is_name s ≡ true → IsName s
unfolding is_name
is_name-IsName [] h = cc
is_name-IsName (c ∷ s) h = (ground arith, is_name_rest-All s (ground arith))

pub keyword : (s : String) → is_name (codes s) ≡ true → IsName (codes s)
keyword s = is_name-IsName (codes s)

unfoldable pub keywords : Unit {0}
unfolding is_name is_name_rest is_letter is_digit is_ident_byte
keywords = tt

pub policy-IsName : IsName (codes "policy")
unfolding keywords
policy-IsName = keyword "policy" refl

boolean-IsName : (s : Bytes) → (equal s (codes "true") || equal s (codes "false")) ≡ true → IsName s
unfolding keywords
boolean-IsName s h = elim (Bool-cases (equal s (codes "true"))) [
  | inl e ↦ rw ((equal_iff s (codes "true")).0 e) (keyword "true" refl)
  | inr n ↦ rw ((equal_iff s (codes "false")).0 (rw n at h)) (keyword "false" refl)
]

print_list-AreLexemes :
    (close : Bytes) (l : List Bytes) (rest : List Lexeme)
    → All (IsItem close) l
    → AreLexemes rest
    → AreLexemes (print_list l rest)
print_list-AreLexemes close [] rest i r = r
print_list-AreLexemes close (s ∷ []) rest ((q, _), _) r = (q, r)
print_list-AreLexemes close (s ∷ t ∷ l) rest ((q, _), i) r =
    (q, (comma, print_list-AreLexemes close (t ∷ l) rest i r))

print_segments-AreLexemes :
    (l : List Bytes) (rest : List Lexeme)
    → All IsName l
    → AreLexemes rest
    → AreLexemes (print_segments l rest)
print_segments-AreLexemes [] rest i r = r
print_segments-AreLexemes (s ∷ l) rest (n, i) r = (dot, (n, print_segments-AreLexemes l rest i r))

pub operand-AreLexemes :
    {e : Expr} (rest : List Lexeme) → IsOperand e → AreLexemes rest → AreLexemes (print e rest)
unfolding print keywords
operand-AreLexemes rest (text q) r = (q, r)
operand-AreLexemes rest (numeral n) r = (n, r)
operand-AreLexemes rest (boolean {s} h) r = (boolean-IsName s h, r)
operand-AreLexemes rest (path {ns} {s} {segs} n i) r =
    (n.0, print_segments-AreLexemes (s ∷ segs) rest i r)
operand-AreLexemes rest (call {ns} {name} {args} n m i) r =
    (n.0, (dot, (m, (open_paren, print_list-AreLexemes (codes ")") args _ i (close_paren, r)))))
operand-AreLexemes rest (negated {e} o) r =
    (keyword "not" refl, operand-AreLexemes {e = e} rest o r)

pub cmp-AreLexemes :
    {e : Expr} (rest : List Lexeme) → IsCmp e → AreLexemes rest → AreLexemes (print e rest)
unfolding print keywords
cmp-AreLexemes rest (operand o) r = operand-AreLexemes rest o r
cmp-AreLexemes rest (compared {l} {r = right} {op} o c o') r =
    operand-AreLexemes _ o (comparison c, operand-AreLexemes rest o' r)
cmp-AreLexemes rest (is_in {e} {items} o i) r = operand-AreLexemes _ o (
  keyword "in" refl,
  (open_bracket, print_list-AreLexemes (codes "]") items _ i (close_bracket, r)),
)

pub length-place : (p : ℕ) (ls : List Lexeme) → length (place p ls) ≡ room ls
length-place p [] = refl
length-place p (l ∷ ls) = omega (arith, length-place (p + (length (written l) + 1)) ls)

module _ (fl : Floats) (sp : Spelling fl.Float) where
  open fl use {Float}

  pub requires-AreLexemes :
      (es : List Expr) (rest : List Lexeme)
      → All (λ e. IsCmp e × (is_gate e ≡ true)) es
      → AreLexemes rest
      → AreLexemes (print_requires sp es rest)
  unfolding keywords
  requires-AreLexemes [] rest a r = r
  requires-AreLexemes (e ∷ es) rest ((c, _), a) r =
      (keyword "require" refl, cmp-AreLexemes _ c (requires-AreLexemes es rest a r))

  pub prefers-AreLexemes :
      (ps : List (Prefer Float)) (rest : List Lexeme)
      → All (IsPrefer fl sp) ps
      → AreLexemes rest
      → AreLexemes (print_prefers sp ps rest)
  unfolding keywords
  prefers-AreLexemes [] rest a r = r
  prefers-AreLexemes (p ∷ ps) rest ((n, w), a) r = (
    keyword "prefer" refl,
    (n, (keyword "weight" refl, (w.numeral, prefers-AreLexemes ps rest a r))),
  )

  order-AreLexemes :
      (ds : List Dim) (rest : List Lexeme)
      → All (IsOrdered fl sp) ds
      → AreLexemes rest
      → AreLexemes (print_order sp ds rest)
  order-AreLexemes [] rest a r = r
  order-AreLexemes (d ∷ ds) rest ((n, _), a) r = (n, order-AreLexemes ds rest a r)

  weights-AreLexemes :
      (m : Weights Float) (rest : List Lexeme)
      → All (IsWeight fl sp) m
      → AreLexemes rest
      → AreLexemes (print_weights sp m rest)
  weights-AreLexemes [] rest a r = r
  weights-AreLexemes ((d, w) ∷ m) rest ((n, _, x), a) r =
      (n, (x.numeral, weights-AreLexemes m rest a r))

  optimize-AreLexemes :
      (o : Option (Optimize Float)) (rest : List Lexeme)
      → OrNone (IsOptimize fl sp) o
      → AreLexemes rest
      → AreLexemes (print_optimize sp o rest)
  unfolding keywords
  optimize-AreLexemes none rest w r = r
  optimize-AreLexemes (some o) rest (ordered {order} a) r =
      (keyword "optimize" refl, (keyword "lexicographic" refl, order-AreLexemes order rest a r))
  optimize-AreLexemes (some o) rest (weighted {d} {w} {m} n _ x a _) r =
      (keyword "optimize" refl, (n, (x.numeral, weights-AreLexemes m rest a r)))

  integer-AreLexemes :
      (keyword : Bytes) (n : ℤ) (rest : List Lexeme)
      → IsName keyword
      → IsOptional fl sp n
      → AreLexemes rest
      → AreLexemes (print_integer sp keyword n rest)
  integer-AreLexemes keyword n rest k i r = elim (Bool-cases (is_zero n)) [
    | inl zeroed ↦ rw zeroed r
    | inr other ↦ rw other (k, ((i other).spells.numeral, r))
  ]

  fallback-AreLexemes :
      (o : Option (Fallback ℤ)) (rest : List Lexeme)
      → OrNone (λ (fb : Fallback ℤ). IsName fb.class × IsOptional fl sp fb.max_attempts) o
      → AreLexemes rest
      → AreLexemes (print_fallback sp o rest)
  unfolding keywords
  fallback-AreLexemes none rest w r = r
  fallback-AreLexemes (some o) rest (n, i) r = (
    keyword "fallback" refl,
    (
      n,
      integer-AreLexemes (codes "max_attempts") o.max_attempts rest (keyword "max_attempts" refl) i
          r,
    ),
  )

  switch-AreLexemes :
      (o : Option (Switch Float ℤ)) (rest : List Lexeme)
      → OrNone
          (λ (sw : Switch Float ℤ).
            IsFloat fl sp sw.min_gain × IsOptional fl sp sw.min_hold_seconds)
          o
      → AreLexemes rest
      → AreLexemes (print_switch sp o rest)
  unfolding keywords is_comparison equal
  switch-AreLexemes none rest w r = r
  switch-AreLexemes (some o) rest (x, i) r = (
    keyword "switch" refl,
    (
      keyword "only_if" refl,
      (
        keyword "expected_gain" refl,
        (
          comparison refl,
          (
            x.numeral,
            integer-AreLexemes (codes "min_hold_seconds") o.min_hold_seconds rest
                (keyword "min_hold_seconds" refl) i r,
          ),
        ),
      ),
    ),
  )

  pub source-AreLexemes :
      (keyword : Bytes) (pol : PolicyOf fl) (tail : List Lexeme)
      → IsName keyword
      → IsWritable fl sp pol
      → AreLexemes tail
      → AreLexemes (print_source sp keyword pol tail)
  unfolding print_source
  source-AreLexemes keyword pol tail k w a =
      let end : AreLexemes (sign (codes "}") ∷ tail) = (close_brace, a) in
      let switched = switch-AreLexemes pol.switch _ w.switch end in
      let backed = fallback-AreLexemes pol.fallback _ w.fallback switched in
      let weighed = optimize-AreLexemes pol.optimize _ w.optimize backed in
      (
        k,
        (
          w.name,
          (
            open_brace,
            requires-AreLexemes pol.requires _ w.requires
                (prefers-AreLexemes pol.prefers _ w.prefers weighed),
          ),
        ),
      )
