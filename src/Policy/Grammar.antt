-- ===== src/Policy/Grammar.antt =====
-- The written form of policies, close to contracts/dsl/grammar.ebnf: a syntax tree is printed as a list
-- of lexemes, and a list of lexemes as a source text with a space behind each. Which signs compare,
-- which names are dimensions or end an order and which expressions can be required is told by the
-- tests of sdk/go/policy/parser.go itself. Beside the grammar, any name begins a path or a call, `not` stands
-- before operands, and calls have any number of strings. Short of it, lists hold strings only, without
-- the items "]" and ")" at which the parser ends a list and the arguments of a call, and a
-- lexicographic objective has no weights.
pub mod Shapes
pub mod Expressions
pub mod Connectives
pub mod Clauses
pub mod Rounds
pub mod Gates
pub mod Objectives
pub mod Executions
pub mod Policies
pub mod Lexemes
pub mod Wording
pub mod RoundTrip
pub mod Refusals
pub mod Brackets
pub mod Lexicographic
pub mod Tests
use noetivela_open.Prelude.{
  ℕ, suc, ◌+◌, ◌≡◌, ◌≢◌, Bool, true, false, not, ◌&&◌, ◌||◌, List, [], ◌∷◌, ◌++◌, Bytes, equal,
  codes, length, All, ◌==◌, if◌then◌else◌,
}
use noetivela_open.Policy.Token.{
  Tokens, TokenKind, token, ident, number, string, punct, eof, is_ident, is_punct, is_digit,
  is_letter,
}
use noetivela_open.Policy.Lexer.{is_number_byte, is_ident_byte, starts_number}
use noetivela_open.Policy.Ast
use noetivela_open.Policy.Ast.{Expr}
use noetivela_open.Policy.Expression.{is_comparison}

abbrev pub Lexeme : Type 0
Lexeme = TokenKind × Bytes

-- The bytes of a lexeme in the source.
abbrev pub written : Lexeme → Bytes
written (string, s) = b'"' ∷ (s ++ b'"' ∷ [])
written (_, s) = s

abbrev pub render : List Lexeme → Bytes
render [] = []
render (l ∷ ls) = written l ++ b' ' ∷ render ls

-- The tokens of a rendered text that starts at `p`.
abbrev pub place : ℕ → List Lexeme → Tokens
place p [] = token eof [] p ∷ []
place p ((k, s) ∷ ls) = token k s p ∷ place (p + (length (written (k, s)) + 1)) ls

abbrev pub word : Bytes → Lexeme
word s = (ident, s)

abbrev pub sign : Bytes → Lexeme
sign s = (punct, s)

-- Strings with commas between them.
abbrev pub print_list : List Bytes → List Lexeme → List Lexeme
print_list [] rest = rest
print_list (s ∷ []) rest = (string, s) ∷ rest
print_list (s ∷ t ∷ l) rest = (string, s) ∷ sign (codes ",") ∷ print_list (t ∷ l) rest

abbrev pub print_segments : List Bytes → List Lexeme → List Lexeme
print_segments [] rest = rest
print_segments (s ∷ segs) rest = sign (codes ".") ∷ word s ∷ print_segments segs rest

abbrev pub print_literal : Ast.LiteralKind → Bytes → Lexeme
print_literal Ast.string s = (string, s)
print_literal Ast.number s = (number, s)
print_literal Ast.boolean s = word s

-- The lexemes of an expression, with those that follow it.
unfoldable pub print : Expr → List Lexeme → List Lexeme
print (Ast.path ns segs) rest = word ns ∷ print_segments segs rest
print (Ast.call ns name args) rest =
    word ns
    ∷ sign (codes ".")
    ∷ word name
    ∷ sign (codes "(")
    ∷ print_list args (sign (codes ")") ∷ rest)
print (Ast.literal k s) rest = print_literal k s ∷ rest
print (Ast.is_in e items) rest =
    print e (word (codes "in") ∷ sign (codes "[") ∷ print_list items (sign (codes "]") ∷ rest))
print (Ast.compared l op r) rest = print l (sign op ∷ print r rest)
print (Ast.negated e) rest = word (codes "not") ∷ print e rest
print (Ast.both l r) rest = print l (word (codes "and") ∷ print r rest)
print (Ast.either l r) rest = print l (word (codes "or") ∷ print r rest)

-- What may stand behind an operand, a comparison, and an expression.
abbrev pub ends_operand : Lexeme → Bool
ends_operand (k, s) = not (equal s (codes ".")) && not (equal s (codes "("))

abbrev pub ends_cmp : Lexeme → Bool
ends_cmp (k, s) =
    ends_operand (k, s)
    && not (is_ident k && equal s (codes "in"))
    && not (is_punct k && is_comparison s)

abbrev pub ends_conjunction : Lexeme → Bool
ends_conjunction (k, s) = ends_cmp (k, s) && not (equal s (codes "and"))

abbrev pub ends_disjunction : Lexeme → Bool
ends_disjunction (k, s) = ends_conjunction (k, s) && not (equal s (codes "or"))

abbrev pub Before : (Lexeme → Bool) → List Lexeme → Type 0
Before test [] = Unit
Before test (l ∷ ls) = test l ≡ true
