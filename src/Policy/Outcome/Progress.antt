-- ===== src/Policy/Outcome/Progress.antt =====
-- Postconditions on the parser's methods, and the progress of its state through the tokens.
use noetivela_open.Prelude.{
  ℕ, ◌+◌, ◌≤◌, ◌≡◌, refl, Bool, ◌&&◌, true, false, [], ◌∷◌, Bytes, length, arith, equal,
  if◌then◌else◌,
}
use noetivela_open.Policy.Token.{
  is_ident, is_punct, is_eof, Token, Tokens, token, eof, kind, text, ParseError,
}
use noetivela_open.Policy.Outcome.{
  Outcome, ok, err, panic, Parser, bind, expect_ident, expect_punct, take,
}

-- The last token, and no other, is of kind `eof`, with no text.
pub data Ended : Tokens → Type 0 where
  last : {p : ℕ} → Ended (token eof [] p ∷ [])
  more : {t : Token} {ts : Tokens} → is_eof (kind t) ≡ false → Ended ts → Ended (t ∷ ts)

pub data Suffix (rest : Tokens) : Tokens → Type 0 where
  same : Suffix rest rest
  skipped : {t : Token} {ts : Tokens} → Suffix rest ts → Suffix rest (t ∷ ts)

pub Suffix-trans : {r s ts : Tokens} → Suffix r s → Suffix s ts → Suffix r ts
Suffix-trans a same = a
Suffix-trans a (skipped b) = skipped (Suffix-trans a b)

-- `rest` is what is left of `ts` when `k` tokens at least are taken, and the last is among it.
pub record After (k : ℕ) (ts rest : Tokens) : Type 0 where
  pub ended : Ended rest
  pub suffix : Suffix rest ts
  pub shorter : length rest + k ≤ length ts

pub After-refl : {ts : Tokens} → Ended ts → After 0 ts ts
After-refl e = record { ended = e; suffix = same; shorter = omega arith }

pub After-cons : {t : Token} {ts : Tokens} → Ended ts → After 1 (t ∷ ts) ts
After-cons e = record { ended = e; suffix = skipped same; shorter = omega arith }

pub After-trans :
    {j k m : ℕ} {ts r s : Tokens} → After j ts r → m ≤ j + k → After k r s → After m ts s
After-trans a h b = record {
  ended = b.ended;
  suffix = Suffix-trans b.suffix a.suffix;
  shorter = omega arith;
}

pub Ended-tail : {t : Token} {ts : Tokens} → is_eof (kind t) ≡ false → Ended (t ∷ ts) → Ended ts
Ended-tail h last = cc
Ended-tail h (more _ e) = e

-- The last token has no text, so a keyword is not the last.
pub Ended-keyword :
    {t : Token} {ts : Tokens} (c : ℕ) (s : Bytes)
    → equal (text t) (c ∷ s) ≡ true
    → Ended (t ∷ ts)
    → Ended ts
unfolding equal
Ended-keyword c s h last = cc
Ended-keyword c s h (more _ e) = e

-- `P` holds of a result and the state left, and `Q` if the method panics. It does not run out of
-- fuel.
pub data Ensures {ℓ κ} {A : Type ℓ} (P : A → Tokens → Type κ) (Q : Type κ)
    : Outcome A → Type (ℓ ⊔ κ) where
  done : {a : A} {ts : Tokens} → P a ts → Ensures P Q (ok a ts)
  failed : {e : ParseError} {ts : Tokens} → Ensures P Q (err e ts)
  panicked : Q → Ensures P Q panic

module _ {ℓ κ} {A : Type ℓ} {P : A → Tokens → Type κ} {Q : Type κ} where
  pub Ensures-bind {ℓ'} :
      {B : Type ℓ'} {P' : B → Tokens → Type κ} {r : Outcome A} {f : A → Parser B}
      → Ensures P Q r
      → ((a : A) (ts : Tokens) → P a ts → Ensures P' Q (f a ts))
      → Ensures P' Q (bind r f)
  Ensures-bind (done {a} {ts} p) k = k a ts p
  Ensures-bind failed k = failed
  Ensures-bind (panicked q) k = panicked q

  pub Ensures-if :
      (b : Bool) (p q : Parser A) {ts : Tokens}
      → (b ≡ true → Ensures P Q (p ts))
      → (b ≡ false → Ensures P Q (q ts))
      → Ensures P Q ((if b then p else q) ts)
  Ensures-if true p q h k = h refl
  Ensures-if false p q h k = k refl

  pub Ensures-branch :
      (b : Bool) {r r' : Outcome A}
      → (b ≡ true → Ensures P Q r)
      → (b ≡ false → Ensures P Q r')
      → Ensures P Q (if b then r else r')
  Ensures-branch true h k = h refl
  Ensures-branch false h k = k refl

  pub Ensures-map :
      {P' : A → Tokens → Type κ} {r : Outcome A}
      → ((a : A) (ts : Tokens) → P a ts → P' a ts)
      → Ensures P Q r
      → Ensures P' Q r
  Ensures-map k (done {a} {ts} p) = done (k a ts p)
  Ensures-map k failed = failed
  Ensures-map k (panicked q) = panicked q

abbrev pub Consumes {ℓ} : {A : Type ℓ} → ℕ → Type 0 → Tokens → Outcome A → Type ℓ
Consumes k Q ts r = Ensures (λ _ rest. After k ts rest) Q r

pub continue {ℓ} :
    {A : Type ℓ} {Q : Type 0} {j k m : ℕ} {ts ts' : Tokens} {r : Outcome A}
    → After j ts ts'
    → m ≤ j + k
    → Consumes k Q ts' r
    → Consumes m Q ts r
continue a h = Ensures-map λ _ _ b. After-trans a h b

module _ {Q : Type 0} where
  pub expect_ident-Consumes : (ts : Tokens) → Ended ts → Consumes 1 Q ts (expect_ident ts)
  unfolding expect_ident take
  expect_ident-Consumes [] e = elim e [ ]
  expect_ident-Consumes (t ∷ ts) e =
      Ensures-if (is_ident (kind t)) _ _ (λ h. done (After-cons (Ended-tail (ground arith) e)))
        λ _. failed

  pub expect_punct-Consumes :
      (s : Bytes) (ts : Tokens) → Ended ts → Consumes 1 Q ts (expect_punct s ts)
  unfolding expect_punct take
  expect_punct-Consumes s [] e = elim e [ ]
  expect_punct-Consumes s (t ∷ ts) e =
      Ensures-if (is_punct (kind t) && equal (text t) s) _ _
        (λ h. done (After-cons (Ended-tail (ground arith) e))) λ _. failed
