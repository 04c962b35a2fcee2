-- ===== src/Policy/Grammar/Clauses.antt =====
-- The written form of a policy: its clauses in the order of the fields of `Policy`.
use noetivela_open.Prelude.{
  ℕ, zero, ◌≡◌, Bool, true, false, Option, none, some, List, [], ◌∷◌, Bytes, equal, codes, All,
  if◌then◌else◌,
}
use noetivela_open.Policy.Token.{ident, number, token}
use noetivela_open.Policy.Ast.{Dim, Expr, Prefer, Weights, Optimize, Fallback, Switch, Policy}
use noetivela_open.Policy.Number.{ℤ, Floats, read_decimal}
use noetivela_open.Policy.Parser.{is_gate, is_dim, in_order}
use noetivela_open.Policy.Grammar.{Lexeme, word, sign, print}
use noetivela_open.Policy.Grammar.Shapes.{IsName, IsNumeral, IsCmp}

-- How numbers are written.
pub record Spelling (Float : Type 0) : Type 0 where
  pub float : Float → Bytes
  pub integer : ℤ → Bytes

abbrev pub is_zero : ℤ → Bool
is_zero (ℤ.pos zero) = true
is_zero _ = false

abbrev pub OrNone : {A : Type 0} → (A → Type 0) → Option A → Type 0
OrNone P none = Unit
OrNone P (some a) = P a

module _ {Float : Type 0} (sp : Spelling Float) where
  abbrev pub print_requires : List Expr → List Lexeme → List Lexeme
  print_requires [] rest = rest
  print_requires (e ∷ es) rest = word (codes "require") ∷ print e (print_requires es rest)

  abbrev pub print_prefers : List (Prefer Float) → List Lexeme → List Lexeme
  print_prefers [] rest = rest
  print_prefers (p ∷ ps) rest =
      word (codes "prefer")
      ∷ word p.feature
      ∷ word (codes "weight")
      ∷ (number, sp.float p.weight)
      ∷ print_prefers ps rest

  abbrev pub print_weights : Weights Float → List Lexeme → List Lexeme
  print_weights [] rest = rest
  print_weights ((d, w) ∷ m) rest = word d ∷ (number, sp.float w) ∷ print_weights m rest

  abbrev pub print_order : List Dim → List Lexeme → List Lexeme
  print_order [] rest = rest
  print_order (d ∷ ds) rest = word d ∷ print_order ds rest

  abbrev pub print_optimize : Option (Optimize Float) → List Lexeme → List Lexeme
  print_optimize none rest = rest
  print_optimize (some o) rest =
      word (codes "optimize")
      ∷ (if o.lexicographic
          then word (codes "lexicographic") ∷ print_order o.order rest
          else print_weights o.weights rest)

  -- An integer behind its keyword, left out if it is 0.
  abbrev pub print_integer : Bytes → ℤ → List Lexeme → List Lexeme
  print_integer keyword n rest =
      if is_zero n then rest else word keyword ∷ (number, sp.integer n) ∷ rest

  abbrev pub print_fallback : Option (Fallback ℤ) → List Lexeme → List Lexeme
  print_fallback none rest = rest
  print_fallback (some fb) rest =
      word (codes "fallback")
      ∷ word fb.class
      ∷ print_integer (codes "max_attempts") fb.max_attempts rest

  abbrev pub print_switch : Option (Switch Float ℤ) → List Lexeme → List Lexeme
  print_switch none rest = rest
  print_switch (some sw) rest =
      word (codes "switch")
      ∷ word (codes "only_if")
      ∷ word (codes "expected_gain")
      ∷ sign (codes ">=")
      ∷ (number, sp.float sw.min_gain)
      ∷ print_integer (codes "min_hold_seconds") sw.min_hold_seconds rest

  abbrev pub print_clauses : Policy Float ℤ → List Lexeme → List Lexeme
  print_clauses pol rest = print_requires pol.requires (
      print_prefers pol.prefers
        (print_optimize pol.optimize (print_fallback pol.fallback (print_switch pol.switch rest))))

  -- A policy behind a first word, with lexemes behind its closing brace.
  unfoldable pub print_source : Bytes → Policy Float ℤ → List Lexeme → List Lexeme
  print_source keyword pol tail =
      word keyword ∷ word pol.name ∷ sign (codes "{") ∷ print_clauses pol (sign (codes "}") ∷ tail)

  unfoldable pub print_policy : Policy Float ℤ → List Lexeme
  print_policy pol = print_source (codes "policy") pol []

module _ (fl : Floats) (sp : Spelling fl.Float) where
  open fl use {Float, of_decimal, to_int}

  -- The text `s` is a decimal, and `x` is the float64 nearest to it.
  pub record Spells (s : Bytes) (x : Float) : Type 0 where
    pub numeral : IsNumeral s
    pub digits : ℕ
    pub behind_point : ℕ
    pub decimal : read_decimal s ≡ some (digits, behind_point)
    pub nearest : of_decimal digits behind_point ≡ some x

  abbrev pub IsFloat : Float → Type 0
  IsFloat x = Spells (sp.float x) x

  -- An integer is read as a float64 first.
  pub record IsInteger (n : ℤ) : Type 0 where
    pub value : Float
    pub spells : Spells (sp.integer n) value
    pub truncates : to_int value ≡ n

  abbrev pub IsOptional : ℤ → Type 0
  IsOptional n = is_zero n ≡ false → IsInteger n

  abbrev pub IsPrefer : Prefer Float → Type 0
  IsPrefer p = IsName p.feature × IsFloat p.weight

  -- A dimension that a lexicographic order can hold.
  abbrev pub IsOrdered : Dim → Type 0
  IsOrdered d = IsName d × (in_order (token ident d 0) ≡ true)

  abbrev pub IsWeight : Dim × Float → Type 0
  IsWeight (d, w) = IsName d × (is_dim d ≡ true) × IsFloat w

  -- Each dimension stands once.
  abbrev pub IsMap : Weights Float → Type 0
  IsMap [] = Unit
  IsMap ((d, w) ∷ m) = All (λ (e, _). equal d e ≡ false) m × IsMap m

  pub data IsOptimize : Optimize Float → Type 0 where
    ordered :
        {order : List Dim}
        → All IsOrdered order
        → IsOptimize (record { lexicographic = true; weights = []; order = order })
    weighted :
        {d : Dim} {w : Float} {m : Weights Float}
        → IsName d
        → equal d (codes "lexicographic") ≡ false
        → IsFloat w
        → All IsWeight m
        → IsMap ((d, w) ∷ m)
        → IsOptimize (record { lexicographic = false; weights = (d, w) ∷ m; order = [] })

  -- The policies that have a written form.
  pub record IsWritable (pol : Policy Float ℤ) : Type 0 where
    pub name : IsName pol.name
    pub requires : All (λ e. IsCmp e × (is_gate e ≡ true)) pol.requires
    pub prefers : All IsPrefer pol.prefers
    pub optimize : OrNone IsOptimize pol.optimize
    pub fallback :
        OrNone (λ (fb : Fallback ℤ). IsName fb.class × IsOptional fb.max_attempts) pol.fallback
    pub switch :
        OrNone
          (λ (sw : Switch Float ℤ). IsFloat sw.min_gain × IsOptional sw.min_hold_seconds)
          pol.switch
