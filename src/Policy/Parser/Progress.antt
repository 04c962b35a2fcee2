-- ===== src/Policy/Parser/Progress.antt =====
-- sdk/go/policy/parser.go: the tokens that the clauses take.
use noetivela_open.Prelude.{
  ℕ, zero, suc, ◌<◌, ◌≡◌, refl, ◌⊎◌, inl, inr, true, false, Option, none, some, List, [], ◌∷◌,
  Bytes, equal, codes, length, arith,
}
use noetivela_open.Policy.Token.{is_number, is_eof, Token, Tokens, token, ident, eof, kind, text}
use noetivela_open.Policy.Ast.{Weights, Dim}
use noetivela_open.Policy.Outcome.{peek, take, expect_ident, zero_token}
use noetivela_open.Policy.Outcome.Progress.{
  Ended, last, more, After, After-refl, After-cons, Ended-tail, Ended-keyword, Ensures, done,
  failed, Ensures-bind, Ensures-if, Ensures-map, Consumes, continue, expect_ident-Consumes,
  expect_punct-Consumes,
}
use noetivela_open.Policy.Number.{
  Floats, read_decimal, parse_float, parse_number, parse_integer, rounded, parsed,
}
use noetivela_open.Policy.Expression.Progress.{parse_or-Consumes}
use noetivela_open.Policy.Parser.{
  PolicyOf, is_gate, is_dim, any_ident, in_order, order_loop, parse_dim_weight, weights_loop,
  require_clause, prefer_clause, optimize_from, optional_integer, fallback_clause, switch_clause,
}

-- Only the last token is left: of kind `eof`.
abbrev pub IsLast : Tokens → Type 0
IsLast ts = length ts ≡ 1

pub any_ident-Consumes :
    {Q : Type 0} (t : Token) (ts : Tokens)
    → is_eof (kind t) ≡ false
    → Ended (t ∷ ts)
    → Consumes 1 Q (t ∷ ts) (any_ident (t ∷ ts))
unfolding any_ident expect_ident take
any_ident-Consumes (token ident s p) ts h e = done (After-cons (Ended-tail h e))
any_ident-Consumes (token eof s p) ts h e = cc
any_ident-Consumes (token _ s p) ts h e = done (After-cons (Ended-tail h e))

-- At the last token the error is dropped, and nothing is left.
pub any_ident-Ensures :
    {Q : Type 0} (ts : Tokens)
    → Ended ts
    → Ensures
        (λ t rest. After 1 ts rest ⊎ ((rest ≡ []) × (t ≡ zero_token) × IsLast ts))
        Q
        (any_ident ts)
unfolding any_ident expect_ident take
any_ident-Ensures [] e = elim e [ ]
any_ident-Ensures (t ∷ ts) last = done (inr (refl, refl, refl))
any_ident-Ensures (t ∷ ts) (more h e) =
    Ensures-map (λ _ _ a. inl a) (any_ident-Consumes t ts h (more h e))

module _ {Q : Type 0} where
  order_loop-Consumes :
      (f : ℕ) (order : List Dim) (ts : Tokens)
      → Ended ts
      → length ts < f
      → Consumes 0 Q ts (order_loop f order ts)
  unfolding order_loop peek
  order_loop-Consumes zero order ts e h = absurd (omega arith)
  order_loop-Consumes (suc f) order [] e h = elim e [ ]
  order_loop-Consumes (suc f) order (t ∷ ts) e h =
      Ensures-if (in_order t) _ _
        (λ b.
          Ensures-bind (any_ident-Consumes t ts (unfold in_order in ground arith) e) λ dim rest a.
            let shorter = a.shorter in
            continue {k = 0} a (omega arith) (order_loop-Consumes f _ rest a.ended (omega arith)))
        λ _. done (After-refl e)

is_dim-Ended :
    {t : Token} {ts : Tokens} → is_dim (text t) ≡ true → Ended (t ∷ ts) → is_eof (kind t) ≡ false
unfolding is_dim equal
is_dim-Ended h last = cc
is_dim-Ended h (more e _) = e

module _ (fl : Floats) {Q : Type 0} where
  open fl use {Float}

  rounded-Consumes :
      (s : Bytes) (x : Option Float) (ts : Tokens) → Ended ts → Consumes 0 Q ts (rounded fl s x ts)
  rounded-Consumes s none ts e = failed
  rounded-Consumes s (some x) ts e = done (After-refl e)

  parsed-Consumes :
      (s : Bytes) (d : Option (ℕ × ℕ)) (ts : Tokens) → Ended ts → Consumes 0 Q ts (parsed fl s d ts)
  parsed-Consumes s none ts e = failed
  parsed-Consumes s (some (m, k)) ts e = rounded-Consumes s (fl.of_decimal m k) ts e

  parse_float-Consumes :
      (s : Bytes) (ts : Tokens) → Ended ts → Consumes 0 Q ts (parse_float fl s ts)
  unfolding parse_float
  parse_float-Consumes s ts e = parsed-Consumes s (read_decimal s) ts e

  parse_number-Consumes : (ts : Tokens) → Ended ts → Consumes 1 Q ts (parse_number fl ts)
  unfolding parse_number take
  parse_number-Consumes [] e = elim e [ ]
  parse_number-Consumes (t ∷ ts) e =
      Ensures-if (is_number (kind t)) _ _
        (λ h.
          let e' = Ended-tail (ground arith) e in
          continue {k = 0} (After-cons e') (omega arith) (parse_float-Consumes (text t) ts e'))
        λ _. failed

  parse_integer-Consumes : (ts : Tokens) → Ended ts → Consumes 1 Q ts (parse_integer fl ts)
  unfolding parse_integer take
  parse_integer-Consumes [] e = elim e [ ]
  parse_integer-Consumes (t ∷ ts) e =
      Ensures-if (is_number (kind t)) _ _
        (λ h.
          let e' = Ended-tail (ground arith) e in
          Ensures-bind
            (continue {k = 0} (After-cons e') (omega arith) (parse_float-Consumes (text t) ts e'))
            λ _ _ a. done a)
        λ _. failed

  parse_dim_weight-Consumes :
      (weights : Weights Float) (dim : Token) (ts : Tokens)
      → Ended ts
      → Consumes 1 Q ts (parse_dim_weight fl weights dim ts)
  unfolding parse_dim_weight
  parse_dim_weight-Consumes weights dim ts e =
      Ensures-bind (parse_number-Consumes ts e) λ _ _ a. done a

  weights_loop-Consumes :
      (f : ℕ) (weights : Weights Float) (ts : Tokens)
      → Ended ts
      → length ts < f
      → Consumes 0 Q ts (weights_loop fl f weights ts)
  unfolding weights_loop peek
  weights_loop-Consumes zero weights ts e h = absurd (omega arith)
  weights_loop-Consumes (suc f) weights [] e h = elim e [ ]
  weights_loop-Consumes (suc f) weights (t ∷ ts) e h =
      Ensures-if (is_dim (text t)) _ _
        (λ b. Ensures-bind (any_ident-Consumes t ts (is_dim-Ended b e) e) λ dim rest a.
          Ensures-bind
            (continue {k = 1} {m = 2} a (omega arith)
              (parse_dim_weight-Consumes weights dim rest a.ended))
            λ weights' rest' b.
              let shorter = b.shorter in
              continue {k = 0} b (omega arith)
                (weights_loop-Consumes f weights' rest' b.ended (omega arith)))
        λ _. done (After-refl e)

  pub require_clause-Consumes :
      (f : ℕ) (pol : PolicyOf fl) (ts : Tokens)
      → Ended ts
      → length ts < f
      → Consumes 0 Q ts (require_clause fl f pol ts)
  unfolding require_clause
  require_clause-Consumes f pol ts e h =
      Ensures-bind (continue {m = 0} (After-refl e) (omega arith) (parse_or-Consumes f ts e h))
        λ expr rest a. Ensures-if (is_gate expr) _ _ (λ _. done a) λ _. failed

  pub prefer_clause-Consumes :
      (pol : PolicyOf fl) (ts : Tokens) → Ended ts → Consumes 0 Q ts (prefer_clause fl pol ts)
  unfolding prefer_clause
  prefer_clause-Consumes pol ts e = Ensures-bind (expect_ident-Consumes ts e) λ feat rest a.
      Ensures-bind (continue {m = 1} a (omega arith) (expect_ident-Consumes rest a.ended))
        λ _ rest' b.
          Ensures-bind (continue {m = 0} b (omega arith) (parse_number-Consumes rest' b.ended))
            λ w _ c. done c

  optional_integer-Consumes :
      (c : ℕ) (keyword : Bytes) (ts : Tokens)
      → Ended ts
      → Consumes 0 Q ts (optional_integer fl (c ∷ keyword) ts)
  unfolding optional_integer peek take
  optional_integer-Consumes c keyword [] e = elim e [ ]
  optional_integer-Consumes c keyword (t ∷ ts) e =
      Ensures-if (equal (text t) (c ∷ keyword)) _ _
        (λ b.
          let e' = Ended-keyword _ _ b e in
          continue (After-cons e') (omega arith) (parse_integer-Consumes ts e'))
        λ _. done (After-refl e)

  pub fallback_clause-Consumes :
      (pol : PolicyOf fl) (ts : Tokens) → Ended ts → Consumes 0 Q ts (fallback_clause fl pol ts)
  unfolding fallback_clause
  fallback_clause-Consumes pol ts e = Ensures-bind (expect_ident-Consumes ts e) λ cls rest a.
      Ensures-bind (continue {m = 0} a (omega arith) (optional_integer-Consumes _ _ rest a.ended))
        λ _ _ b. done b

  pub switch_clause-Consumes :
      (pol : PolicyOf fl) (ts : Tokens) → Ended ts → Consumes 0 Q ts (switch_clause fl pol ts)
  unfolding switch_clause
  switch_clause-Consumes pol ts e = Ensures-bind (expect_ident-Consumes ts e) λ _ rest a.
      Ensures-bind (continue {m = 1} a (omega arith) (expect_ident-Consumes rest a.ended))
        λ _ rest' b.
          Ensures-bind
            (continue {m = 1} b (omega arith) (expect_punct-Consumes (codes ">=") rest' b.ended))
            λ _ r c.
              Ensures-bind (continue {m = 1} c (omega arith) (parse_number-Consumes r c.ended))
                λ gain r' d.
                  Ensures-bind
                    (continue {m = 0} d (omega arith) (optional_integer-Consumes _ _ r' d.ended))
                    λ _ _ after. done after

  pub optimize_from-Consumes :
      (f : ℕ) (pol : PolicyOf fl) (first : Token) (ts : Tokens)
      → Ended ts
      → length ts < f
      → Consumes 0 Q ts (optimize_from fl f pol first ts)
  unfolding optimize_from
  optimize_from-Consumes f pol first ts e h =
      Ensures-if (equal (text first) (codes "lexicographic")) _ _
        (λ _. Ensures-bind (order_loop-Consumes f [] ts e h) λ _ _ a. done a)
        λ _. Ensures-bind (parse_dim_weight-Consumes [] first ts e) λ ws rest a.
          let shorter = a.shorter in
          Ensures-bind
            (continue {k = 0} {m = 0} a (omega arith)
              (weights_loop-Consumes f ws rest a.ended (omega arith)))
            λ _ _ b. done b
