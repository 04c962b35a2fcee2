-- ===== src/Policy/Syntax/Means.antt =====
-- What a result of a method and the state that it leaves say.
use noetivela_open.Prelude.{
  ◌≡◌, refl, Bool, true, false, ◌&&◌, [], ◌∷◌, Bytes, equal, if◌then◌else◌, Bool-cases, inl, inr,
}
use noetivela_open.Policy.Token.{ParseError, Token, Tokens, kind, text, is_ident, is_punct}
use noetivela_open.Policy.Outcome.{
  Outcome, ok, err, panic, out_of_fuel, Parser, bind, peek, take, expect_ident, expect_punct,
}

-- `P` holds of the value and of what is left; an error, a panic and the end of the fuel say nothing.
pub data Means {ℓ κ} {A : Type ℓ} (P : A → Tokens → Type κ) : Outcome A → Type (ℓ ⊔ κ) where
  done : {a : A} {ts : Tokens} → P a ts → Means P (ok a ts)
  failed : {e : ParseError} {ts : Tokens} → Means P (err e ts)
  panicked : Means P panic
  stopped : Means P out_of_fuel

pub Means-ok {ℓ κ} :
    {A : Type ℓ} {P : A → Tokens → Type κ} {a : A} {ts : Tokens} → Means P (ok a ts) → P a ts
Means-ok (done p) = p

module _ {ℓ κ} {A : Type ℓ} {P : A → Tokens → Type κ} where
  pub Means-bind {ℓ' κ'} :
      {B : Type ℓ'} {R : B → Tokens → Type κ'} {r : Outcome B} {f : B → Parser A}
      → Means R r
      → ((b : B) (ts : Tokens) → R b ts → Means P (f b ts))
      → Means P (bind r f)
  Means-bind (done {a = b} {ts} h) k = k b ts h
  Means-bind failed k = failed
  Means-bind panicked k = panicked
  Means-bind stopped k = stopped

  pub Means-map {κ'} :
      {R : A → Tokens → Type κ'} {r : Outcome A}
      → Means R r
      → ((a : A) (ts : Tokens) → R a ts → P a ts)
      → Means P r
  Means-map (done {a} {ts} h) k = done (k a ts h)
  Means-map failed k = failed
  Means-map panicked k = panicked
  Means-map stopped k = stopped

  pub Means-if :
      (b : Bool) (p q : Parser A) {ts : Tokens}
      → (b ≡ true → Means P (p ts))
      → (b ≡ false → Means P (q ts))
      → Means P ((if b then p else q) ts)
  Means-if true p q h k = h refl
  Means-if false p q h k = k refl

  pub Means-branch :
      (b : Bool) {r r' : Outcome A}
      → (b ≡ true → Means P r)
      → (b ≡ false → Means P r')
      → Means P (if b then r else r')
  Means-branch true h k = h refl
  Means-branch false h k = k refl

-- The methods that look at a token or take it, and what follows them.
module _ {ℓ κ} {A : Type ℓ} (P : Tokens → A → Tokens → Type κ) where
  pub peek-Means :
      (ts : Tokens) (f : Token → Parser A)
      → ((t : Token) (us : Tokens) → Means (P (t ∷ us)) (f t (t ∷ us)))
      → Means (P ts) (bind (peek ts) f)
  unfolding peek
  peek-Means [] f k = panicked
  peek-Means (t ∷ ts) f k = k t ts

  pub take-Means :
      (ts : Tokens) (f : Token → Parser A)
      → ((t : Token) (us : Tokens) → Means (P (t ∷ us)) (f t us))
      → Means (P ts) (bind (take ts) f)
  unfolding take
  take-Means [] f k = panicked
  take-Means (t ∷ ts) f k = k t ts

  pub expect_ident_cons-Means :
      (t : Token) (ts : Tokens) (f : Token → Parser A)
      → (is_ident (kind t) ≡ true → Means (P (t ∷ ts)) (f t ts))
      → Means (P (t ∷ ts)) (bind (expect_ident (t ∷ ts)) f)
  unfolding expect_ident take
  expect_ident_cons-Means t ts f k = elim (Bool-cases (is_ident (kind t))) [
    | inl h ↦ rw h (k h)
    | inr h ↦ rw h failed
  ]

  pub expect_ident-Means :
      (ts : Tokens) (f : Token → Parser A)
      → ((t : Token) (us : Tokens) → is_ident (kind t) ≡ true → Means (P (t ∷ us)) (f t us))
      → Means (P ts) (bind (expect_ident ts) f)
  unfolding expect_ident take
  expect_ident-Means [] f k = panicked
  expect_ident-Means (t ∷ ts) f k = expect_ident_cons-Means t ts f (k t ts)

  pub expect_punct-Means :
      (s : Bytes) (ts : Tokens) (f : Unit {0} → Parser A)
      → ((t : Token) (us : Tokens)
          → (is_punct (kind t) && equal (text t) s) ≡ true
          → Means (P (t ∷ us)) (f tt us))
      → Means (P ts) (bind (expect_punct s ts) f)
  unfolding expect_punct take
  expect_punct-Means s [] f k = panicked
  expect_punct-Means s (t ∷ ts) f k = elim (Bool-cases (is_punct (kind t) && equal (text t) s)) [
    | inl h ↦ rw h (k t ts h)
    | inr h ↦ rw h failed
  ]
