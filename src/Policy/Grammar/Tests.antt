-- ===== src/Policy/Grammar/Tests.antt =====
-- Written policies, expressions and lexemes on which the theorems of Policy/Grammar are applied.
use noetivela_open.Prelude.{
  ℕ, ◌≡◌, refl, some, none, List, [], ◌∷◌, true, false, All, codes, equal, arith,
}
use noetivela_open.Policy.Token.{number, string, require_not_comparison, expected_identifier}
use noetivela_open.Policy.Lexer.{Lexed, tokenize}
use noetivela_open.Policy.Ast
use noetivela_open.Policy.Ast.{
  Expr, Prefer, Weights, compared, is_in, path, call, literal, both, either,
}
use noetivela_open.Policy.Number.{ℤ}
use noetivela_open.Policy.Expression.{parse_or}
use noetivela_open.Policy.Parser.{PolicyOf, new_policy, ok, err, parse}
use noetivela_open.Policy.Tests.{decimals, everything}
use noetivela_open.Policy.Grammar.{Lexeme, render, place, print, word, sign}
use noetivela_open.Policy.Grammar.Shapes
use noetivela_open.Policy.Grammar.Shapes.{IsDisjunction, IsConjunction, IsCmp, IsName, IsOperand}
use noetivela_open.Policy.Grammar.Lexemes
use noetivela_open.Policy.Grammar.Lexemes.{IsLexeme, tokenize-render}
use noetivela_open.Policy.Grammar.Clauses
use noetivela_open.Policy.Grammar.Clauses.{
  Spelling, Spells, IsInteger, IsPrefer, IsWritable, print_source, print_policy, print_requires,
  print_prefers,
}
use noetivela_open.Policy.Grammar.Rounds
use noetivela_open.Policy.Grammar.Rounds.{Opens}
use noetivela_open.Policy.Grammar.Expressions.{Reads}
use noetivela_open.Policy.Grammar.Connectives.{parse_or-print}
use noetivela_open.Policy.Grammar.RoundTrip.{parse-render_source, parse-render}
use noetivela_open.Policy.Grammar.Lexicographic.{
  IsWeighed, lexicographic, parse-lexicographic_weights,
}
use noetivela_open.Policy.Grammar.Brackets.{with_bracket, parse-bracket}
use noetivela_open.Policy.Grammar.Refusals.{opening, parse-require_not_gate}

-- `policy p { require data.region in ["sg"] prefer x weight 0.25 … }`
abbrev pub small : PolicyOf decimals
small = record {
  name = codes "p";
  requires = is_in (path (codes "data") (codes "region" ∷ [])) (codes "sg" ∷ []) ∷ [];
  prefers = record { feature = codes "x"; weight = (25, 2) } ∷ [];
  optimize = some (record {
    lexicographic = false;
    weights = (codes "quality", (25, 2)) ∷ (codes "tcos", (25, 2)) ∷ [];
    order = [];
  });
  fallback = some (record { class = codes "none"; max_attempts = ℤ.pos 2 });
  switch = none;
}

-- It holds one float64 and one integer, so two texts are enough.
abbrev pub spelling : Spelling (ℕ × ℕ)
spelling = record { float = λ x. codes "0.25"; integer = λ n. codes "2" }

quarter : Spells decimals spelling (codes "0.25") (25, 2)
unfolding everything
quarter = record {
  numeral = (refl, (refl, (refl, (refl, tt))));
  digits = 25;
  behind_point = 2;
  decimal = refl;
  nearest = refl;
}

two : IsInteger decimals spelling (ℤ.pos 2)
unfolding everything
two = record {
  value = (2, 0);
  spells = record {
    numeral = (refl, tt);
    digits = 2;
    behind_point = 0;
    decimal = refl;
    nearest = refl;
  };
  truncates = refl;
}

small-IsWritable : IsWritable decimals spelling small
unfolding everything
small-IsWritable = record {
  name = (refl, tt);
  requires = (
    (
      Shapes.is_in
          (Shapes.path ((refl, (refl, (refl, (refl, tt)))), refl, refl)
            ((refl, (refl, (refl, (refl, (refl, (refl, tt)))))), tt))
          (((refl, (refl, tt)), refl), tt),
      refl,
    ),
    tt,
  );
  prefers = (((refl, tt), quarter), tt);
  optimize =
      Clauses.weighted (refl, (refl, (refl, (refl, (refl, (refl, (refl, tt))))))) refl quarter
        (((refl, (refl, (refl, (refl, tt)))), refl, quarter), tt) ((refl, tt), (tt, tt));
  fallback = ((refl, (refl, (refl, (refl, tt)))), λ _. two);
  switch = tt;
}

parse-render_example : parse decimals (render (print_policy spelling small)) ≡ ok small
parse-render_example = parse-render decimals spelling small small-IsWritable

-- `route p { … } data`
parse-render_source_example :
    parse decimals (render (print_source spelling (codes "route") small (word (codes "data") ∷ [])))
    ≡ ok small
unfolding everything
parse-render_source_example =
    parse-render_source decimals spelling (codes "route") small (word (codes "data") ∷ [])
      (refl, (refl, (refl, (refl, (refl, tt))))) small-IsWritable
      ((refl, (refl, (refl, (refl, tt)))), tt)

-- `data.region in ["sg"] or data.tier == 2 and data.tier == 2`
abbrev region : Expr
region = is_in (path (codes "data") (codes "region" ∷ [])) (codes "sg" ∷ [])

abbrev tier : Expr
tier =
    compared (path (codes "data") (codes "tier" ∷ [])) (codes "==") (literal Ast.number (codes "2"))

abbrev choice : Expr
choice = either region (both tier tier)

region-IsOperand : IsOperand (path (codes "data") (codes "region" ∷ []))
unfolding everything
region-IsOperand =
    Shapes.path ((refl, (refl, (refl, (refl, tt)))), refl, refl)
      ((refl, (refl, (refl, (refl, (refl, (refl, tt)))))), tt)

region-IsCmp : IsCmp region
unfolding everything
region-IsCmp = Shapes.is_in region-IsOperand (((refl, (refl, tt)), refl), tt)

tier-IsCmp : IsCmp tier
unfolding everything
tier-IsCmp =
    Shapes.compared
      (Shapes.path ((refl, (refl, (refl, (refl, tt)))), refl, refl)
        ((refl, (refl, (refl, (refl, tt)))), tt))
      refl (Shapes.numeral (refl, tt))

choice-IsDisjunction : IsDisjunction choice
choice-IsDisjunction =
    Shapes.either (Shapes.conjunction (Shapes.cmp region-IsCmp))
      (Shapes.both (Shapes.cmp tier-IsCmp) tier-IsCmp)

abbrev brace : List Lexeme
brace = sign (codes "}") ∷ []

parse_or-print_example : Reads (parse_or 40 (place 0 (print choice brace))) choice brace
unfolding everything print
parse_or-print_example =
    parse_or-print {e = choice} 40 0 brace choice-IsDisjunction (omega arith) refl

abbrev lexemes : List Lexeme
lexemes = word (codes "x") ∷ sign (codes ">=") ∷ (number, codes "2") ∷ (string, codes "A-") ∷ []

lexemes-AreLexemes : All IsLexeme lexemes
unfolding everything
lexemes-AreLexemes = ((refl, tt), (Lexemes.comparison refl, ((refl, tt), ((refl, (refl, tt)), tt))))

tokenize-render_example : tokenize (render lexemes) ≡ Lexed.ok (place 0 lexemes)
tokenize-render_example = tokenize-render lexemes lexemes-AreLexemes

name-IsName : IsName (codes "p")
unfolding everything
name-IsName = (refl, tt)

parse-require_not_gate_example :
    parse decimals (render (opening (codes "p") (word (codes "require") ∷ print choice brace)))
    ≡ err require_not_comparison
parse-require_not_gate_example =
    parse-require_not_gate decimals (codes "p") choice brace name-IsName choice-IsDisjunction refl
      (Rounds.closes Rounds.brace) (Lexemes.close_brace, tt)

-- `policy p { require data.region in ["sg", "]", "cn"] }`
parse-bracket_example :
    (q : ℕ) × (parse decimals (
        render (
          opening (codes "p") (
            word (codes "require")
            ∷ print
                (is_in
                  (path (codes "data") (codes "region" ∷ []))
                  (with_bracket (codes "sg" ∷ []) (codes "cn" ∷ [])))
                brace)))
      ≡ err (expected_identifier q (codes ",")))
unfolding equal
parse-bracket_example =
    parse-bracket decimals region-IsOperand (codes "sg" ∷ []) (codes "cn" ∷ [])
      (((refl, (refl, tt)), refl), tt) (codes "p") brace name-IsName ((refl, (refl, tt)), tt)
      (Lexemes.close_brace, tt)

abbrev weighed : Weights (ℕ × ℕ)
weighed = (codes "quality", (25, 2)) ∷ (codes "latency", (25, 2)) ∷ []

weighed-IsWeighed : All (IsWeighed decimals spelling) weighed
unfolding everything
weighed-IsWeighed = (
  (((refl, (refl, (refl, (refl, (refl, (refl, (refl, tt))))))), refl), quarter),
  ((((refl, (refl, (refl, (refl, (refl, (refl, (refl, tt))))))), refl), quarter), tt),
)

parse-lexicographic_weights_example :
    parse decimals (
      render
        (opening (codes "p") (word (codes "optimize") ∷ lexicographic decimals spelling weighed)))
    ≡ ok (record (new_policy decimals (codes "p")) {
      optimize = some (record {
        lexicographic = true;
        weights = [];
        order = codes "quality" ∷ [] ∷ codes "latency" ∷ [] ∷ [];
      });
    })
parse-lexicographic_weights_example =
    parse-lexicographic_weights decimals spelling (codes "p") weighed name-IsName weighed-IsWeighed
