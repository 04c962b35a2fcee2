-- ===== src/Policy/Outcome/Reports.antt =====
-- sdk/go/policy/parser.go: the tokens that the parser's errors show.
use noetivela_open.Prelude.{
  codes, ◌||◌, ◌≡◌, refl, Bool, ◌&&◌, true, false, [], ◌∷◌, Bytes, equal, All, if◌then◌else◌,
  Option, none, some, ℕ,
}
use noetivela_open.Policy.Token.{
  Token, Tokens, is_ident, is_punct, is_number, is_eof, kind, text, pos, ParseError,
  unterminated_string, expected_punct, expected_identifier, expected_policy, expected_policy_name,
  require_not_comparison, unknown_clause, expected_number, expected_integer, number_syntax,
  number_range, items_not_literals, expected_dot, unexpected_token,
}
use noetivela_open.Policy.Outcome.{
  Outcome, ok, err, panic, out_of_fuel, Parser, bind, take, expect_punct, expect_ident,
}
use noetivela_open.Policy.Number.{
  Floats, parsed, rounded, read_decimal, parse_float, parse_number, parse_integer,
}

-- The five words that begin a clause.
abbrev pub is_clause : Bytes → Bool
is_clause s =
    equal s (codes "require")
    || equal s (codes "prefer")
    || equal s (codes "optimize")
    || equal s (codes "fallback")
    || equal s (codes "switch")

module _ (P : Token → Type 0) where
  -- A token of `P` has this text and this position, and is not what was wanted.
  pub record Shows (Wrong : Token → Type 0) (s : Bytes) (p : ℕ) : Type 0 where
    pub shown : Token
    pub member : P shown
    pub wrong : Wrong shown
    pub text_is : text shown ≡ s
    pub pos_is : pos shown ≡ p

  -- A number token of `P` has this text.
  pub record Numbers (s : Bytes) : Type 0 where
    pub numeral : Token
    pub member : P numeral
    pub is_numeral : is_number (kind numeral) ≡ true
    pub text_is : text numeral ≡ s

  -- What an error of the parser says of the tokens; none of its errors is the lexer's.
  abbrev pub Says : ParseError → Type 0
  Says (unterminated_string p) = ⊥
  Says (expected_punct wanted p s) =
      Shows (λ t. (is_punct (kind t) && equal (text t) wanted) ≡ false) s p
  Says (expected_identifier p s) = Shows (λ t. is_ident (kind t) ≡ false) s p
  Says (expected_policy e) = Says e
  Says (expected_policy_name e) = Says e
  Says require_not_comparison = Unit
  Says (unknown_clause s p) = Shows (λ t. is_clause (text t) ≡ false) s p
  Says (expected_number p s) = Shows (λ t. is_number (kind t) ≡ false) s p
  Says (expected_integer p s) = Shows (λ t. is_number (kind t) ≡ false) s p
  Says (number_syntax s) = Numbers s × (read_decimal s ≡ none)
  Says (number_range s) = Numbers s × (mk : ℕ × ℕ) × (read_decimal s ≡ some mk)
  Says items_not_literals = Unit
  Says (expected_dot name p) = (s : Bytes) × Shows (λ t. equal (text t) (codes ".") ≡ false) s p
  Says (unexpected_token s p) = Shows (λ t. (is_punct (kind t) || is_eof (kind t)) ≡ true) s p

  -- The tokens left are of `P`, a value is of `R`, and an error shows tokens of `P`.
  abbrev pub Reports {ℓ} : {A : Type ℓ} → (A → Type 0) → Outcome A → Type 0
  Reports R (ok a ts) = R a × All P ts
  Reports R (err e ts) = Says e × All P ts
  Reports R panic = Unit
  Reports R out_of_fuel = Unit

  abbrev pub Any {ℓ} : {A : Type ℓ} → A → Type 0
  Any a = Unit

  pub shows : (Wrong : Token → Type 0) (t : Token) → P t → Wrong t → Shows Wrong (text t) (pos t)
  shows Wrong t h w = record { shown = t; member = h; wrong = w; text_is = refl; pos_is = refl }

  module _ {ℓ} {A : Type ℓ} (R : A → Type 0) where
    pub Reports-bind {κ} :
        {B : Type κ} (Q : B → Type 0) (r : Outcome B) (f : B → Parser A)
        → Reports Q r
        → ((b : B) (ts : Tokens) → Q b → All P ts → Reports R (f b ts))
        → Reports R (bind r f)
    Reports-bind Q (ok b ts) f (q, all) k = k b ts q all
    Reports-bind Q (err e ts) f h k = h
    Reports-bind Q panic f h k = tt
    Reports-bind Q out_of_fuel f h k = tt

    pub Reports-if :
        (b : Bool) (p q : Parser A) (ts : Tokens)
        → (b ≡ true → Reports R (p ts))
        → (b ≡ false → Reports R (q ts))
        → Reports R ((if b then p else q) ts)
    Reports-if true p q ts h k = h refl
    Reports-if false p q ts h k = k refl

    pub Reports-branch :
        (b : Bool) (r r' : Outcome A) → Reports R r → Reports R r' → Reports R (if b then r else r')
    Reports-branch true r r' h k = h
    Reports-branch false r r' h k = k

  module _ {ℓ} {A : Type ℓ} where
    pub Reports-then {κ} :
        {B : Type κ} (r : Outcome B) (f : B → Parser A)
        → Reports Any r
        → ((b : B) (ts : Tokens) → All P ts → Reports Any (f b ts))
        → Reports Any (bind r f)
    Reports-then r f h k = Reports-bind Any Any r f h λ b ts _ all. k b ts all

    pub Reports-test :
        (b : Bool) (p q : Parser A) (ts : Tokens)
        → Reports Any (p ts)
        → Reports Any (q ts)
        → Reports Any ((if b then p else q) ts)
    Reports-test b p q ts h k = Reports-if Any b p q ts (λ _. h) λ _. k

  pub expect_ident-Reports : (ts : Tokens) → All P ts → Reports P (expect_ident ts)
  unfolding expect_ident take
  expect_ident-Reports [] all = tt
  expect_ident-Reports (t ∷ ts) (h, all) =
      Reports-if P (is_ident (kind t)) _ _ ts (λ _. (h, all)) λ w. (shows _ t h w, all)

  pub expect_punct-Reports : (s : Bytes) (ts : Tokens) → All P ts → Reports Any (expect_punct s ts)
  unfolding expect_punct take
  expect_punct-Reports s [] all = tt
  expect_punct-Reports s (t ∷ ts) (h, all) =
      Reports-if Any (is_punct (kind t) && equal (text t) s) _ _ ts (λ _. (tt, all))
        λ w. (shows _ t h w, all)

  module _ (fl : Floats) where
    open fl use {Float}

    numbers : (t : Token) → P t → is_number (kind t) ≡ true → Numbers (text t)
    numbers t h n = record { numeral = t; member = h; is_numeral = n; text_is = refl }

    rounded-Reports :
        (t : Token) (mk : ℕ × ℕ) (o : Option Float) (ts : Tokens)
        → P t
        → is_number (kind t) ≡ true
        → read_decimal (text t) ≡ some mk
        → All P ts
        → Reports Any (rounded fl (text t) o ts)
    rounded-Reports t mk none ts h n e all = ((numbers t h n, mk, e), all)
    rounded-Reports t mk (some x) ts h n e all = (tt, all)

    parsed-Reports :
        (t : Token) (o : Option (ℕ × ℕ)) (ts : Tokens)
        → P t
        → is_number (kind t) ≡ true
        → read_decimal (text t) ≡ o
        → All P ts
        → Reports Any (parsed fl (text t) o ts)
    parsed-Reports t none ts h n e all = ((numbers t h n, e), all)
    parsed-Reports t (some (m, k)) ts h n e all =
        rounded-Reports t (m, k) (fl.of_decimal m k) ts h n e all

    pub parse_number-Reports : (ts : Tokens) → All P ts → Reports Any (parse_number fl ts)
    unfolding parse_number parse_float take
    parse_number-Reports [] all = tt
    parse_number-Reports (t ∷ ts) (h, all) =
        Reports-if Any (is_number (kind t)) _ _ ts
          (λ n. parsed-Reports t (read_decimal (text t)) ts h n refl all) λ w. (shows _ t h w, all)

    pub parse_integer-Reports : (ts : Tokens) → All P ts → Reports Any (parse_integer fl ts)
    unfolding parse_integer parse_float take
    parse_integer-Reports [] all = tt
    parse_integer-Reports (t ∷ ts) (h, all) =
        Reports-if Any (is_number (kind t)) _ _ ts
          (λ n.
            Reports-then (parsed fl (text t) (read_decimal (text t)) ts) _
              (parsed-Reports t (read_decimal (text t)) ts h n refl all) λ x rest all'. (tt, all'))
          λ w. (shows _ t h w, all)
