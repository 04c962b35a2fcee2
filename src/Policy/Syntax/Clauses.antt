-- ===== src/Policy/Syntax/Clauses.antt =====
-- sdk/go/policy/parser.go: the clauses and the policies that `parsePolicy` takes, as rules.
use noetivela_open.Prelude.{
  ℕ, true, false, some, List, [], ◌∷◌, ◌++◌, Bytes, equal, codes, ◌≡◌, if◌then◌else◌, String,
}
use noetivela_open.Policy.Token.{Token, Tokens, kind, text, is_ident, is_number}
use noetivela_open.Policy.Ast.{Dim, Expr, Weights, insert}
use noetivela_open.Policy.Number.{ℤ, Floats, read_decimal}
use noetivela_open.Policy.Parser.{PolicyOf, is_dim, is_gate, in_order, in_body, new_policy}
use noetivela_open.Policy.Syntax.Expressions.{Reads, Other, IsName, IsSign, Or}

-- The text of a name; nothing of another token, whose error is dropped.
abbrev pub name_of : Token → Bytes
name_of t = if is_ident (kind t) then text t else []

pub data Order : Tokens → List Dim → Tokens → Type 0 where
  last : {t : Token} {ts : Tokens} → in_order t ≡ false → Order (t ∷ ts) [] (t ∷ ts)
  dim :
      {t : Token} {ts rest : Tokens} {dims : List Dim}
      → in_order t ≡ true
      → Order ts dims rest
      → Order (t ∷ ts) (name_of t ∷ dims) rest

module _ (fl : Floats) where
  open fl use {Float, of_decimal, to_int}

  pub data Number : Tokens → Float → Tokens → Type 0 where
    number :
        {t : Token} {ts : Tokens} {digits places : ℕ} {x : Float}
        → is_number (kind t) ≡ true
        → read_decimal (text t) ≡ some (digits, places)
        → of_decimal digits places ≡ some x
        → Number (t ∷ ts) x ts

  -- An integer behind a keyword, or 0 without the keyword.
  pub data Optional (keyword : String) : Tokens → ℤ → Tokens → Type 0 where
    given :
        {t : Token} {ts rest : Tokens} {x : Float}
        → Reads keyword t
        → Number ts x rest
        → Optional keyword (t ∷ ts) (to_int x) rest
    left_out :
        {t : Token} {ts : Tokens} → Other keyword t → Optional keyword (t ∷ ts) (ℤ.pos 0) (t ∷ ts)

  -- Weights behind those of `m`; a dimension that comes again replaces its weight.
  pub data Weighs : Weights Float → Tokens → Weights Float → Tokens → Type 0 where
    last :
        {m : Weights Float} {t : Token} {ts : Tokens}
        → is_dim (text t) ≡ false
        → Weighs m (t ∷ ts) m (t ∷ ts)
    weight :
        {m m' : Weights Float} {t : Token} {ts us rest : Tokens} {x : Float}
        → is_dim (text t) ≡ true
        → Number ts x us
        → Weighs (insert (name_of t) x m) us m' rest
        → Weighs m (t ∷ ts) m' rest

  -- The clause of a keyword, and what it makes of the policy.
  pub data Clause (kw : Token) (pol : PolicyOf fl) : Tokens → PolicyOf fl → Tokens → Type 0 where
    require :
        {ts rest : Tokens} {e : Expr}
        → Reads "require" kw
        → Or ts e rest
        → is_gate e ≡ true
        → Clause kw pol ts (record pol { requires = pol.requires ++ e ∷ [] }) rest
    prefer :
        {feature weight : Token} {ts rest : Tokens} {x : Float}
        → Reads "prefer" kw
        → IsName feature
        → IsName weight
        → Number ts x rest
        → Clause kw pol
            (feature ∷ weight ∷ ts)
            (record pol {
              prefers = pol.prefers ++ (record { feature = text feature; weight = x }) ∷ [];
            })
            rest
    lexicographic :
        {t : Token} {ts rest : Tokens} {dims : List Dim}
        → Reads "optimize" kw
        → equal (name_of t) (codes "lexicographic") ≡ true
        → Order ts dims rest
        → Clause kw pol
            (t ∷ ts)
            (record pol {
              optimize = some (record { lexicographic = true; weights = []; order = dims });
            })
            rest
    weighted :
        {t : Token} {ts us rest : Tokens} {x : Float} {m : Weights Float}
        → Reads "optimize" kw
        → equal (name_of t) (codes "lexicographic") ≡ false
        → Number ts x us
        → Weighs (insert (name_of t) x []) us m rest
        → Clause kw pol
            (t ∷ ts)
            (record pol {
              optimize = some (record { lexicographic = false; weights = m; order = [] });
            })
            rest
    fallback :
        {class : Token} {ts rest : Tokens} {n : ℤ}
        → Reads "fallback" kw
        → IsName class
        → Optional "max_attempts" ts n rest
        → Clause kw pol
            (class ∷ ts)
            (record pol { fallback = some (record { class = text class; max_attempts = n }) })
            rest
    switch :
        {only gain at_least : Token} {ts us rest : Tokens} {x : Float} {n : ℤ}
        → Reads "switch" kw
        → IsName only
        → IsName gain
        → IsSign ">=" at_least
        → Number ts x us
        → Optional "min_hold_seconds" us n rest
        → Clause kw pol
            (only ∷ gain ∷ at_least ∷ ts)
            (record pol { switch = some (record { min_gain = x; min_hold_seconds = n }) })
            rest

  pub data Clauses : PolicyOf fl → Tokens → PolicyOf fl → Tokens → Type 0 where
    last :
        {pol : PolicyOf fl} {t : Token} {ts : Tokens}
        → in_body t ≡ false
        → Clauses pol (t ∷ ts) pol (t ∷ ts)
    clause :
        {pol pol' pol'' : PolicyOf fl} {kw : Token} {ts us rest : Tokens}
        → in_body kw ≡ true
        → IsName kw
        → Clause kw pol ts pol' us
        → Clauses pol' us pol'' rest
        → Clauses pol (kw ∷ ts) pol'' rest

  -- Two names, and the clauses between braces.
  pub data IsPolicy : Tokens → PolicyOf fl → Tokens → Type 0 where
    policy :
        {first name open_ close : Token} {ts rest : Tokens} {pol : PolicyOf fl}
        → IsName first
        → IsName name
        → IsSign "{" open_
        → Clauses (new_policy fl (text name)) ts pol (close ∷ rest)
        → IsSign "}" close
        → IsPolicy (first ∷ name ∷ open_ ∷ ts) pol rest
