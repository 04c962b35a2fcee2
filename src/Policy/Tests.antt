-- ===== src/Policy/Tests.antt =====
-- Runs of the parser, those of sdk/go/policy/parser_test.go among them.
use noetivela_open.Prelude.{
  ◌/◌, ◌^◌, ◌≡◌, ◌≢◌, ◌↔◌, refl, some, [], ◌∷◌, false, ℕ, Bytes, codes, equal, arith,
}
use noetivela_open.Policy.Token.{
  expected_identifier, expected_policy_name, is_space, is_digit, is_letter, utf8_of_byte,
}
use noetivela_open.Policy.Lexer.{
  skip, read_string, read_while, is_number_byte, is_ident_byte, next_is_digit, starts_number,
  is_two, next_punct, next_token, next, collect, tokenize,
}
use noetivela_open.Policy.Lexer.{Lexed}
use noetivela_open.Policy.Token.{Tokens, token, ident, string, punct, eof}
use noetivela_open.Policy.Parser.Panic.{Truncated}
use noetivela_open.Policy.Parser.Errors.{Blames, parse-Blames}
use noetivela_open.Policy.Parser.Invariant.{IsSound, parse-IsSound}
use noetivela_open.Policy.Lexer.Exact.{tokenize_iff}
use noetivela_open.Policy.Lexer.Sources.{tokenize-Explains}
use noetivela_open.Policy.Lexer.Sources
use noetivela_open.Policy.Lexer.Progress.{EndsWell, tokenize-EndsWell}
use noetivela_open.Policy.Outcome.Progress.{Ended, last, more, Consumes}
use noetivela_open.Policy.Expression.Progress.{parse_or-Consumes}
use noetivela_open.Policy.Parser.Total.{parse-ne-out_of_fuel, parse-panic}
use noetivela_open.Policy.Parser.{PolicyOf, out_of_fuel}
use noetivela_open.Policy.Outcome.{peek, take, expect_punct, expect_ident}
use noetivela_open.Policy.Expression.{
  parse_segments, skip_comma, parse_call_or_path, parse_reference, parse_operand, parse_items,
  is_comparison, parse_rest_of_cmp, parse_cmp, and_loop, parse_and, or_loop, parse_or,
}
use noetivela_open.Policy.Ast.{compared, is_in, path, call, literal, string, insert}
use noetivela_open.Policy.Number.{
  ℤ, Floats, scan_decimal, read_decimal, parse_float, parse_number, parse_integer,
}
use noetivela_open.Policy.Parser.{
  ok, err, panic, is_dim, any_ident, in_order, order_loop, in_body, parse_dim_weight, weights_loop,
  require_clause, prefer_clause, optimize_from, optimize_clause, optional_integer, fallback_clause,
  switch_clause, clause_of, clauses_loop, parse_policy, parse_tokens, parse,
}

-- Exact decimals in place of float64.
abbrev pub decimals : Floats
decimals = record {
  Float = ℕ × ℕ;
  of_decimal = λ m k. some (m, k);
  to_int = λ (m, k). ℤ.pos (m / 10 ^ k);
}

-- What a run computes with.
unfoldable pub everything : Unit {0}
unfolding equal is_space is_digit is_letter utf8_of_byte skip read_string read_while is_number_byte
    is_ident_byte next_is_digit starts_number is_two next_punct next_token next collect tokenize
    peek take expect_punct expect_ident scan_decimal read_decimal parse_float parse_number
    parse_integer parse_segments skip_comma parse_call_or_path parse_reference parse_operand
    parse_items is_comparison parse_rest_of_cmp parse_cmp and_loop parse_and or_loop parse_or is_dim
    any_ident in_order order_loop in_body parse_dim_weight weights_loop require_clause prefer_clause
    optimize_from optimize_clause optional_integer fallback_clause switch_clause clause_of
    clauses_loop parse_policy parse_tokens parse insert
everything = tt

abbrev sample : Bytes
sample =
    codes
      "\npolicy legal-confidential-v2 {\n  require data.region in [\"sg\", \"cn-north\"]\n  require model.eval(\"legal_clause_v3\") >= \"A-\"\n\n  prefer session_affinity weight 0.25 # soft\n\n  optimize quality 0.45 latency 0.20\n\n  fallback same_or_higher_quality max_attempts 2\n  switch only_if expected_gain >= 0.08 min_hold_seconds 300\n}\n"

abbrev sample_policy : PolicyOf decimals
sample_policy = record {
  name = codes "legal-confidential-v2";
  requires =
      is_in (path (codes "data") (codes "region" ∷ [])) (codes "sg" ∷ codes "cn-north" ∷ [])
      ∷ compared (call (codes "model") (codes "eval") (codes "legal_clause_v3" ∷ [])) (codes ">=")
          (literal string (codes "A-"))
      ∷ [];
  prefers = record { feature = codes "session_affinity"; weight = (25, 2) } ∷ [];
  optimize = some (record {
    lexicographic = false;
    weights = (codes "quality", (45, 2)) ∷ (codes "latency", (20, 2)) ∷ [];
    order = [];
  });
  fallback = some (record { class = codes "same_or_higher_quality"; max_attempts = ℤ.pos 2 });
  switch = some (record { min_gain = (8, 2); min_hold_seconds = ℤ.pos 300 });
}

sample_parses : parse decimals sample ≡ ok sample_policy
unfolding everything
sample_parses = refl

truncated : parse decimals (codes "policy p { optimize") ≡ panic
unfolding everything
truncated = refl

no_name :
    parse decimals (codes "policy { }")
    ≡ err (expected_policy_name (expected_identifier 7 (codes "{")))
unfolding everything
no_name = refl

parse-Blames_example :
    Blames (codes "policy { }") (expected_policy_name (expected_identifier 7 (codes "{")))
parse-Blames_example = parse-Blames decimals (codes "policy { }") no_name

parse-ne-out_of_fuel_example : parse decimals sample ≢ out_of_fuel
parse-ne-out_of_fuel_example = parse-ne-out_of_fuel decimals sample

parse-panic_example :
    (ts : Tokens) × (tokenize (codes "policy p { optimize") ≡ Lexed.ok ts) × Truncated ts
parse-panic_example = parse-panic decimals (codes "policy p { optimize") truncated

tokenize-EndsWell_example : EndsWell (tokenize sample)
tokenize-EndsWell_example = tokenize-EndsWell sample

parse-IsSound_example : IsSound decimals sample_policy
parse-IsSound_example = parse-IsSound decimals sample sample_parses

-- The tokens of `not x.y or`, of which the last operand is missing.
abbrev missing_operand : Tokens
missing_operand =
    token ident (codes "not") 0
    ∷ token ident (codes "x") 4
    ∷ token punct (codes ".") 5
    ∷ token ident (codes "y") 6
    ∷ token ident (codes "or") 8
    ∷ token eof [] 10
    ∷ []

missing_operand-Ended : Ended missing_operand
missing_operand-Ended = more refl (more refl (more refl (more refl (more refl last))))

parse_or-Consumes_example : Consumes 1 ⊥ missing_operand (parse_or 7 missing_operand)
parse_or-Consumes_example =
    parse_or-Consumes {Q = ⊥} 7 missing_operand missing_operand-Ended (omega arith)

tokenize-Explains_example : Sources.Explains 0 sample (tokenize sample)
tokenize-Explains_example = tokenize-Explains sample

abbrev written : Bytes
written = codes "a >= \"b\" # c"

abbrev read_as : Tokens
read_as =
    token ident (codes "a") 0
    ∷ token punct (codes ">=") 2
    ∷ token string (codes "b") 5
    ∷ token eof [] 12
    ∷ []

reads_tokens : tokenize written ≡ Lexed.ok read_as
unfolding everything
reads_tokens = refl

tokenize_iff_example : (tokenize written ≡ Lexed.ok read_as) ↔ Sources.Spells 0 written read_as
tokenize_iff_example = tokenize_iff written read_as
