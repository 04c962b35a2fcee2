-- ===== src/Policy/Syntax/Expressions.antt =====
-- sdk/go/policy/parser.go: the expressions that `parseOr` takes, as rules. `R ts x rest` says that
-- the rule R reads `x` from the first of the tokens `ts`, and that `rest` stands behind it.
use noetivela_open.Prelude.{
  ℕ, Bool, true, false, ◌&&◌, ◌||◌, List, [], ◌∷◌, ◌++◌, Bytes, String, equal, codes, ◌≡◌,
}
use noetivela_open.Policy.Token.{
  Token, Tokens, token, ident, number, string, kind, text, is_ident, is_punct,
}
use noetivela_open.Policy.Ast
use noetivela_open.Policy.Ast.{
  Expr, LiteralKind, path, call, literal, is_in, compared, negated, both, either,
}
use noetivela_open.Policy.Expression.{is_comparison}

abbrev pub Reads : String → Token → Type 0
Reads s t = equal (text t) (codes s) ≡ true

abbrev pub Other : String → Token → Type 0
Other s t = equal (text t) (codes s) ≡ false

abbrev pub IsName : Token → Type 0
IsName t = is_ident (kind t) ≡ true

abbrev pub IsSign : String → Token → Type 0
IsSign s t = (is_punct (kind t) && equal (text t) (codes s)) ≡ true

abbrev pub is_truth : Bytes → Bool
is_truth s = equal s (codes "true") || equal s (codes "false")

-- A name that is no literal and no `not`.
abbrev pub IsReferent : Bytes → Type 0
IsReferent s = (is_truth s ≡ false) × (equal s (codes "not") ≡ false)

-- The value of a literal; nothing of another expression.
abbrev pub values : Expr → List Bytes
values (literal _ value) = value ∷ []
values _ = []

-- The tokens behind an item, with or without a comma.
pub data Comma : Tokens → Tokens → Type 0 where
  comma : {t : Token} {ts : Tokens} → Reads "," t → Comma (t ∷ ts) ts
  no_comma : {t : Token} {ts : Tokens} → Other "," t → Comma (t ∷ ts) (t ∷ ts)

pub data Segments : Tokens → List Bytes → Tokens → Type 0 where
  last : {t : Token} {ts : Tokens} → Other "." t → Segments (t ∷ ts) [] (t ∷ ts)
  dotted :
      {dot name : Token} {ts rest : Tokens} {segs : List Bytes}
      → Reads "." dot
      → IsName name
      → Segments ts segs rest
      → Segments (dot ∷ name ∷ ts) (text name ∷ segs) rest

-- Another token than an opening parenthesis comes.
pub data NoCall : Tokens → Type 0 where
  no_call : {t : Token} {ts : Tokens} → Other "(" t → NoCall (t ∷ ts)

mutual
  pub data Operand : Tokens → Expr → Tokens → Type 0 where
    text_ :
        {s : Bytes} {p : ℕ} {ts : Tokens}
        → Operand (token string s p ∷ ts) (literal Ast.string s) ts
    numeral :
        {s : Bytes} {p : ℕ} {ts : Tokens}
        → Operand (token number s p ∷ ts) (literal Ast.number s) ts
    truth :
        {s : Bytes} {p : ℕ} {ts : Tokens}
        → is_truth s ≡ true
        → Operand (token ident s p ∷ ts) (literal Ast.boolean s) ts
    not_ :
        {s : Bytes} {p : ℕ} {ts rest : Tokens} {e : Expr}
        → equal s (codes "not") ≡ true
        → Operand ts e rest
        → Operand (token ident s p ∷ ts) (negated e) rest
    path_ :
        {s : Bytes} {p : ℕ} {dot name : Token} {ts rest : Tokens} {segs : List Bytes}
        → IsReferent s
        → Reads "." dot
        → IsName name
        → NoCall ts
        → Segments ts segs rest
        → Operand (token ident s p ∷ dot ∷ name ∷ ts) (path s (text name ∷ segs)) rest
    call_ :
        {s : Bytes} {p : ℕ} {dot name open_ : Token} {ts rest : Tokens} {args : List Bytes}
        → IsReferent s
        → Reads "." dot
        → IsName name
        → Reads "(" open_
        → Args ts args rest
        → Operand (token ident s p ∷ dot ∷ name ∷ open_ ∷ ts) (call s (text name) args) rest

  -- The arguments of a call, of which the literals are kept, and the closing sign.
  pub data Args : Tokens → List Bytes → Tokens → Type 0 where
    close : {t : Token} {ts : Tokens} → Reads ")" t → Args (t ∷ ts) [] ts
    argument :
        {t : Token} {ts us vs rest : Tokens} {e : Expr} {args : List Bytes}
        → Other ")" t
        → Operand (t ∷ ts) e us
        → Comma us vs
        → Args vs args rest
        → Args (t ∷ ts) (values e ++ args) rest

-- The items of a list, each a literal, and the closing sign.
pub data Items : Tokens → List Bytes → Tokens → Type 0 where
  close : {t : Token} {ts : Tokens} → Reads "]" t → Items (t ∷ ts) [] ts
  item :
      {t : Token} {ts us vs rest : Tokens} {k : LiteralKind} {s : Bytes} {items : List Bytes}
      → Other "]" t
      → Operand (t ∷ ts) (literal k s) us
      → Comma us vs
      → Items vs items rest
      → Items (t ∷ ts) (s ∷ items) rest

abbrev pub compares : Token → Bool
compares t = is_punct (kind t) && is_comparison (text t)

abbrev pub says_in : Token → Bool
says_in t = is_ident (kind t) && equal (text t) (codes "in")

pub data Cmp : Tokens → Expr → Tokens → Type 0 where
  member :
      {t open_ : Token} {ts us rest : Tokens} {left : Expr} {items : List Bytes}
      → Operand ts left (t ∷ open_ ∷ us)
      → says_in t ≡ true
      → IsSign "[" open_
      → Items us items rest
      → Cmp ts (is_in left items) rest
  comparison :
      {t : Token} {ts us rest : Tokens} {left right : Expr}
      → Operand ts left (t ∷ us)
      → says_in t ≡ false
      → compares t ≡ true
      → Operand us right rest
      → Cmp ts (compared left (text t) right) rest
  alone :
      {t : Token} {ts us : Tokens} {left : Expr}
      → Operand ts left (t ∷ us)
      → says_in t ≡ false
      → compares t ≡ false
      → Cmp ts left (t ∷ us)

-- The operands behind the first, from the left to the right.
pub data Ands : Expr → Tokens → Expr → Tokens → Type 0 where
  last : {t : Token} {ts : Tokens} {left : Expr} → Other "and" t → Ands left (t ∷ ts) left (t ∷ ts)
  and_ :
      {t : Token} {ts us rest : Tokens} {left right e : Expr}
      → Reads "and" t
      → Cmp ts right us
      → Ands (both left right) us e rest
      → Ands left (t ∷ ts) e rest

pub data And : Tokens → Expr → Tokens → Type 0 where
  conjunction :
      {ts us rest : Tokens} {left e : Expr} → Cmp ts left us → Ands left us e rest → And ts e rest

pub data Ors : Expr → Tokens → Expr → Tokens → Type 0 where
  last : {t : Token} {ts : Tokens} {left : Expr} → Other "or" t → Ors left (t ∷ ts) left (t ∷ ts)
  or_ :
      {t : Token} {ts us rest : Tokens} {left right e : Expr}
      → Reads "or" t
      → And ts right us
      → Ors (either left right) us e rest
      → Ors left (t ∷ ts) e rest

pub data Or : Tokens → Expr → Tokens → Type 0 where
  disjunction :
      {ts us rest : Tokens} {left e : Expr} → And ts left us → Ors left us e rest → Or ts e rest
