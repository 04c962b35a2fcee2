-- ===== src/Policy/Ast.antt =====
-- sdk/go/policy/ast.go. A float64 is a value of a parameter `Float` (see Policy/Number). A `Require` is
-- its one field, and `Requires` a list of expressions.
use noetivela_open.Prelude.{Bool, Option, List, [], ◌∷◌, Bytes, equal, if◌then◌else◌}

-- `Dim`, `FallbackClass` and `BinOp` are strings in the source, and so they are here.
abbrev pub Dim : Type 0
Dim = Bytes

abbrev pub FallbackClass : Type 0
FallbackClass = Bytes

abbrev pub BinOp : Type 0
BinOp = Bytes

-- the kinds "string", "number" and "boolean"
pub data LiteralKind : Type 0 where
  string number boolean : LiteralKind

pub data Expr : Type 0 where
  path : Bytes → List Bytes → Expr
  call : Bytes → Bytes → List Bytes → Expr
  literal : LiteralKind → Bytes → Expr
  is_in : Expr → List Bytes → Expr
  compared : Expr → BinOp → Expr → Expr
  negated : Expr → Expr
  both : Expr → Expr → Expr
  either : Expr → Expr → Expr

pub record Prefer (Float : Type 0) : Type 0 where
  pub feature : Bytes
  pub weight : Float

-- A Go map has one value for a key: a write replaces it.
abbrev pub Weights : Type 0 → Type 0
Weights Float = List (Dim × Float)

module _ {Float : Type 0} where
  unfoldable pub insert : Dim → Float → Weights Float → Weights Float
  insert d w [] = (d, w) ∷ []
  insert d w ((e, v) ∷ m) = if equal e d then (d, w) ∷ m else (e, v) ∷ insert d w m

pub record Optimize (Float : Type 0) : Type 0 where
  pub lexicographic : Bool
  pub weights : Weights Float
  pub order : List Dim

pub record Fallback (Int : Type 0) : Type 0 where
  pub class : FallbackClass
  pub max_attempts : Int

pub record Switch (Float Int : Type 0) : Type 0 where
  pub min_gain : Float
  pub min_hold_seconds : Int

pub record Policy (Float Int : Type 0) : Type 0 where
  pub name : Bytes
  pub requires : List Expr
  pub prefers : List (Prefer Float)
  pub optimize : Option (Optimize Float)
  pub fallback : Option (Fallback Int)
  pub switch : Option (Switch Float Int)
