-- ===== src/Policy/Parser.antt =====
-- sdk/go/policy/parser.go: `parsePolicy` with its clauses, `isDim`, `parseDimWeight`, and `Parse`.
-- A section of the parameter `Floats`, for float64.
pub mod Progress
pub mod Panic
pub mod Total
pub mod Invariant
pub mod Reports
pub mod Errors
use noetivela_open.Prelude.{
  ℕ, zero, suc, ◌+◌, Bool, true, false, not, ◌&&◌, ◌||◌, none, some, List, [], ◌∷◌, ◌++◌, Bytes,
  equal, codes, length, if◌then◌else◌,
}
use noetivela_open.Policy.Token.{
  is_eof, Token, Tokens, kind, text, pos, ParseError, expected_policy, expected_policy_name,
  require_not_comparison, unknown_clause,
}
use noetivela_open.Policy.Lexer.{Lexed, tokenize}
use noetivela_open.Policy.Ast.{Dim, Expr, is_in, compared, Weights, insert, Policy}
use noetivela_open.Policy.Outcome.{
  Outcome, Parser, ◌>>=◌, ◌>>◌, pure, fail, run, wrap, ignore_err, zero_token, peek, take,
  expect_punct, expect_ident,
}
use noetivela_open.Policy.Number.{ℤ, Floats, parse_number, parse_integer}
use noetivela_open.Policy.Expression.{parse_or}

unfoldable pub is_dim : Bytes → Bool
is_dim s =
    equal s (codes "quality")
    || equal s (codes "latency")
    || equal s (codes "tcos")
    || equal s (codes "reliability")
    || equal s (codes "energy")
    || equal s (codes "capacity")

-- `switch expr.(type)` in the require clause
abbrev pub is_gate : Expr → Bool
is_gate (compared _ _ _) = true
is_gate (is_in _ _) = true
is_gate _ = false

-- `x, _ := p.expectIdent()`
unfoldable pub any_ident : Parser Token
any_ident ts = ignore_err zero_token (expect_ident ts)

-- The condition of the loop over a lexicographic order.
unfoldable pub in_order : Token → Bool
in_order t =
    not (is_eof (kind t))
    && not (equal (text t) (codes "}"))
    && not (equal (text t) (codes "fallback"))
    && not (equal (text t) (codes "switch"))
    && not (equal (text t) (codes "require"))
    && not (equal (text t) (codes "prefer"))

unfoldable pub order_loop : ℕ → List Dim → Parser (List Dim)
order_loop zero order ts = Outcome.out_of_fuel
order_loop (suc f) order ts =
    let more = run ts do dim ← any_ident; order_loop f (order ++ text dim ∷ [])
    in run ts do t ← peek; if in_order t then (λ _. more) else pure order

-- The condition of the loop over the clauses.
unfoldable pub in_body : Token → Bool
in_body t = not (is_eof (kind t)) && not (equal (text t) (codes "}"))

-- A panic is a result here: the program's caller does not get one.
pub data Result {ℓ} (A : Type ℓ) : Type ℓ where
  ok : A → Result A
  err : ParseError → Result A
  panic out_of_fuel : Result A

abbrev pub result_of {ℓ} : {A : Type ℓ} → Outcome A → Result A
result_of (Outcome.ok a _) = ok a
result_of (Outcome.err e _) = err e
result_of Outcome.panic = panic
result_of Outcome.out_of_fuel = out_of_fuel

module _ (fl : Floats) where
  open fl use {Float}

  abbrev pub PolicyOf : Type 0
  PolicyOf = Policy Float ℤ

  unfoldable pub parse_dim_weight : Weights Float → Token → Parser (Weights Float)
  parse_dim_weight weights dim = do w ← parse_number fl; pure (insert (text dim) w weights)

  unfoldable pub weights_loop : ℕ → Weights Float → Parser (Weights Float)
  weights_loop zero weights ts = Outcome.out_of_fuel
  weights_loop (suc f) weights ts =
      let more =
        run ts do dim ← any_ident; weights' ← parse_dim_weight weights dim; weights_loop f weights'
      in run ts do t ← peek; if is_dim (text t) then (λ _. more) else pure weights

  unfoldable pub require_clause : ℕ → PolicyOf → Parser PolicyOf
  require_clause f pol = do
    expr ← parse_or f
    if is_gate expr
        then pure (record pol { requires = pol.requires ++ expr ∷ [] })
        else fail require_not_comparison

  unfoldable pub prefer_clause : PolicyOf → Parser PolicyOf
  prefer_clause pol = do
    feat ← expect_ident
    expect_ident
    w ← parse_number fl
    pure (record pol { prefers = pol.prefers ++ (record { feature = text feat; weight = w }) ∷ [] })

  -- The optimize clause behind its first token.
  unfoldable pub optimize_from : ℕ → PolicyOf → Token → Parser PolicyOf
  optimize_from f pol first =
      if equal (text first) (codes "lexicographic")
      then (do
        dims ← order_loop f []
        pure (record pol {
          optimize = some (record { lexicographic = true; weights = []; order = dims });
        }))
      else (do
        weighted ← parse_dim_weight [] first
        ws ← weights_loop f weighted
        pure (record pol {
          optimize = some (record { lexicographic = false; weights = ws; order = [] });
        }))

  unfoldable pub optimize_clause : ℕ → PolicyOf → Parser PolicyOf
  optimize_clause f pol = do first ← any_ident; optimize_from f pol first

  -- An integer behind an optional keyword; 0 without it.
  unfoldable pub optional_integer : Bytes → Parser ℤ
  optional_integer keyword = do
    t ← peek
    if equal (text t) keyword then (do take; parse_integer fl) else pure (ℤ.pos 0)

  unfoldable pub fallback_clause : PolicyOf → Parser PolicyOf
  fallback_clause pol = do
    cls ← expect_ident
    n ← optional_integer (codes "max_attempts")
    pure (record pol { fallback = some (record { class = text cls; max_attempts = n }) })

  unfoldable pub switch_clause : PolicyOf → Parser PolicyOf
  switch_clause pol = do
    expect_ident
    expect_ident
    expect_punct (codes ">=")
    gain ← parse_number fl
    secs ← optional_integer (codes "min_hold_seconds")
    pure (record pol { switch = some (record { min_gain = gain; min_hold_seconds = secs }) })

  -- `switch kw.text`
  unfoldable pub clause_of : ℕ → Token → PolicyOf → Parser PolicyOf
  clause_of f kw pol =
      if equal (text kw) (codes "require")
      then require_clause f pol
      else if equal (text kw) (codes "prefer")
      then prefer_clause pol
      else if equal (text kw) (codes "optimize")
      then optimize_clause f pol
      else if equal (text kw) (codes "fallback")
      then fallback_clause pol
      else if equal (text kw) (codes "switch")
      then switch_clause pol
      else fail (unknown_clause (text kw) (pos kw))

  unfoldable pub clauses_loop : ℕ → PolicyOf → Parser PolicyOf
  clauses_loop zero pol ts = Outcome.out_of_fuel
  clauses_loop (suc f) pol ts =
      let more = run ts do kw ← expect_ident; pol' ← clause_of f kw pol; clauses_loop f pol'
      in run ts do t ← peek; if in_body t then (λ _. more) else pure pol

  abbrev pub new_policy : Bytes → PolicyOf
  new_policy n = record {
    name = n;
    requires = [];
    prefers = [];
    optimize = none;
    fallback = none;
    switch = none;
  }

  unfoldable pub parse_policy : ℕ → Parser PolicyOf
  parse_policy f = do
    (λ ts. wrap expected_policy (expect_ident ts))
    name_tok ← (λ ts. wrap expected_policy_name (expect_ident ts))
    expect_punct (codes "{")
    pol ← clauses_loop f (new_policy (text name_tok))
    expect_punct (codes "}")
    pure pol

  -- `Parse` behind the lexer's loop
  unfoldable pub parse_tokens : Lexed Tokens → Result PolicyOf
  parse_tokens (Lexed.ok toks) = result_of (parse_policy (length toks + 1) toks)
  parse_tokens (Lexed.err e) = err e
  parse_tokens Lexed.out_of_fuel = out_of_fuel

  unfoldable pub parse : Bytes → Result PolicyOf
  parse input = parse_tokens (tokenize input)
