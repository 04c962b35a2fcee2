-- ===== src/Policy/Syntax/Parts.antt =====
-- sdk/go/policy/parser.go: the loops and the numbers of the clauses keep to the rules.
use noetivela_open.Prelude.{
  ℕ, zero, suc, ◌≡◌, refl, sym, ap, subst, ◌∙◌, true, Bool-cases, Option, none, some, inl, inr,
  List, [], ◌∷◌, ◌++◌, append_assoc, append-nil, Bytes, String, equal, codes,
}
use noetivela_open.Policy.Token.{Token, Tokens, kind, text, is_ident, is_number}
use noetivela_open.Policy.Ast.{Dim, Weights, insert}
use noetivela_open.Policy.Number.{
  Floats, read_decimal, rounded, parsed, parse_float, parse_number, parse_integer,
}
use noetivela_open.Policy.Outcome.{Parser, bind, take, peek, zero_token, expect_ident}
use noetivela_open.Policy.Parser.{
  is_dim, any_ident, in_order, order_loop, parse_dim_weight, weights_loop, optional_integer,
}
use noetivela_open.Policy.Syntax.Clauses.{name_of, Order, Number, Optional, Weighs}
use noetivela_open.Policy.Syntax.Means.{
  Means, done, failed, panicked, stopped, Means-bind, Means-map, Means-if,
}
use noetivela_open.Policy.Syntax.Operands.{Continues}

-- The token that an identifier with its error dropped gives.
pub any_ident-Means :
    {A : Type 0} {P : A → Tokens → Type 0} (t : Token) (ts : Tokens) (f : Token → Parser A)
    → ((first : Token) → text first ≡ name_of t → Means P (f first ts))
    → Means P (bind (any_ident (t ∷ ts)) f)
unfolding any_ident expect_ident take
any_ident-Means t ts f k = elim (Bool-cases (is_ident (kind t))) [
  | inl h ↦ rw h (k t (rw h refl))
  | inr h ↦ rw h (k zero_token (rw h refl))
]

pub order_loop-Means :
    (f : ℕ) (order : List Dim) (ts : Tokens)
    → Means (Continues Order order ts) (order_loop f order ts)
unfolding order_loop peek
order_loop-Means zero order ts = stopped
order_loop-Means (suc f) order [] = panicked
order_loop-Means (suc f) order (t ∷ ts) =
    Means-if (in_order t) _ _
      (λ h. any_ident-Means t ts _ λ first e.
        Means-map (order_loop-Means f (order ++ text first ∷ []) ts) λ all rest (more, q, o). (
          name_of t ∷ more,
          q ∙ append_assoc order (text first ∷ []) more ∙ ap (λ d. order ++ d ∷ more) e,
          Order.dim h o,
        ))
      λ h. done ([], sym (append-nil order), Order.last h)

module _ (fl : Floats) where
  open fl use {Float, of_decimal, to_int}

  rounded-Means :
      (s : Bytes) (o : Option Float) (ts : Tokens)
      → Means (λ x rest. (o ≡ some x) × (rest ≡ ts)) (rounded fl s o ts)
  rounded-Means s none ts = failed
  rounded-Means s (some x) ts = done (refl, refl)

  -- The float64 nearest to a decimal text.
  abbrev Nearest : Option (ℕ × ℕ) → Float → Type 0
  Nearest o x = (m : ℕ) × (k : ℕ) × (o ≡ some (m, k)) × (of_decimal m k ≡ some x)

  parsed-Means :
      (s : Bytes) (o : Option (ℕ × ℕ)) (ts : Tokens)
      → Means (λ x rest. Nearest o x × (rest ≡ ts)) (parsed fl s o ts)
  parsed-Means s none ts = failed
  parsed-Means s (some (m, k)) ts =
      Means-map (rounded-Means s (of_decimal m k) ts) λ x rest (e, r). ((m, k, refl, e), r)

  Nearest-Number :
      (t : Token) (ts rest : Tokens) (x : Float)
      → is_number (kind t) ≡ true
      → Nearest (read_decimal (text t)) x × (rest ≡ ts)
      → Number fl (t ∷ ts) x rest
  Nearest-Number t ts rest x h ((m, k, e, o), r) = rw r (Number.number h e o)

  pub parse_number-Means : (ts : Tokens) → Means (Number fl ts) (parse_number fl ts)
  unfolding parse_number take parse_float
  parse_number-Means [] = panicked
  parse_number-Means (t ∷ ts) =
      Means-if (is_number (kind t)) _ _
        (λ h.
          Means-map (parsed-Means (text t) (read_decimal (text t)) ts)
            λ x rest n. Nearest-Number t ts rest x h n)
        λ h. failed

  parse_integer-Means :
      (ts : Tokens)
      → Means (λ n rest. (x : Float) × Number fl ts x rest × (n ≡ to_int x)) (parse_integer fl ts)
  unfolding parse_integer take parse_float
  parse_integer-Means [] = panicked
  parse_integer-Means (t ∷ ts) =
      Means-if (is_number (kind t)) _ _
        (λ h.
          Means-bind (parsed-Means (text t) (read_decimal (text t)) ts)
            λ x rest n. done (x, Nearest-Number t ts rest x h n, refl))
        λ h. failed

  pub optional_integer-Means :
      (keyword : String) (ts : Tokens)
      → Means (Optional fl keyword ts) (optional_integer fl (codes keyword) ts)
  unfolding optional_integer peek take
  optional_integer-Means keyword [] = panicked
  optional_integer-Means keyword (t ∷ ts) =
      Means-if (equal (text t) (codes keyword)) _ _
        (λ h. Means-map (parse_integer-Means ts) λ n rest (x, k, e). rw e (Optional.given h k))
        λ h. done (Optional.left_out h)

  pub weights_loop-Means :
      (f : ℕ) (m : Weights Float) (ts : Tokens) → Means (Weighs fl m ts) (weights_loop fl f m ts)
  unfolding weights_loop peek parse_dim_weight
  weights_loop-Means zero m ts = stopped
  weights_loop-Means (suc f) m [] = panicked
  weights_loop-Means (suc f) m (t ∷ ts) =
      Means-if (is_dim (text t)) _ _
        (λ h. any_ident-Means t ts _ λ first e.
          Means-bind {R = λ m' us. (x : Float) × Number fl ts x us × (m' ≡ insert (text first) x m)}
            (Means-bind (parse_number-Means ts) λ x us n. done (x, n, refl))
            λ m' us (x, n, q). Means-map (weights_loop-Means f m' us) λ all rest w.
              Weighs.weight h n
                (subst (λ v. Weighs fl v us all rest) (q ∙ ap (λ d. insert d x m) e) w))
        λ h. done (Weighs.last h)
