-- ===== src/Policy/Outcome/Post.antt =====
-- What holds of a method's result, if it has one.
use noetivela_open.Prelude.{◌≡◌, refl, Bool, true, false, if◌then◌else◌}
use noetivela_open.Policy.Token.{Tokens}
use noetivela_open.Policy.Outcome.{Outcome, ok, err, panic, out_of_fuel, Parser, bind}

abbrev pub Post {ℓ κ} : {A : Type ℓ} → (A → Type κ) → Outcome A → Type κ
Post P (ok a ts) = P a
Post P (err e ts) = Unit
Post P panic = Unit
Post P out_of_fuel = Unit

module _ {ℓ κ} {A : Type ℓ} (P : A → Type κ) where
  pub Post-bind {ℓ'} :
      {B : Type ℓ'} (r : Outcome B) (f : B → Parser A)
      → ((b : B) (ts : Tokens) → Post P (f b ts))
      → Post P (bind r f)
  Post-bind (ok b ts) f k = k b ts
  Post-bind (err e ts) f k = tt
  Post-bind panic f k = tt
  Post-bind out_of_fuel f k = tt

  pub Post-then {ℓ'} :
      {B : Type ℓ'} (R : B → Type κ) (r : Outcome B) (f : B → Parser A)
      → Post R r
      → ((b : B) (ts : Tokens) → R b → Post P (f b ts))
      → Post P (bind r f)
  Post-then R (ok b ts) f h k = k b ts h
  Post-then R (err e ts) f h k = tt
  Post-then R panic f h k = tt
  Post-then R out_of_fuel f h k = tt

  pub Post-if :
      (b : Bool) (p q : Parser A) (ts : Tokens)
      → (b ≡ true → Post P (p ts))
      → (b ≡ false → Post P (q ts))
      → Post P ((if b then p else q) ts)
  Post-if true p q ts h k = h refl
  Post-if false p q ts h k = k refl
