-- ===== src/Prelude/Keys.antt =====
-- Association lists whose keys are texts.
use mathlib.Core.Path.{◌≡◌, sym, ◌∙◌, subst}
use mathlib.Core.Logic.{inl, inr}
use mathlib.Core.Bool.{true, false}
use mathlib.Core.List.{List, [], ◌∷◌}
use noetivela_open.Prelude.Tests.{Bool-cases}
use noetivela_open.Prelude.Lists.{All}
use noetivela_open.Prelude.Texts.{Bytes, equal, equal_iff}

pub equal-sym : (a b : Bytes) → equal a b ≡ false → equal b a ≡ false
equal-sym a b n = elim (Bool-cases (equal b a)) [
  | inl h ↦
      (let e : true ≡ false = sym ((equal_iff a b).1 (sym ((equal_iff b a).0 h))) ∙ n in absurd cc)
  | inr h ↦ h
]

module _ {ℓ} {A : Type ℓ} where
  abbrev pub Lacks : Bytes → List (Bytes × A) → Type 0
  Lacks key = All {A = Bytes × A} (λ p. equal p.0 key ≡ false)

  -- No key comes twice.
  abbrev pub IsDistinct : List (Bytes × A) → Type 0
  IsDistinct [] = Unit
  IsDistinct ((k, _) ∷ m) = Lacks k m × IsDistinct m

  -- A function on association lists that replaces the value of a key, or adds the key at the end.
  pub record Replaces (put : Bytes → A → List (Bytes × A) → List (Bytes × A)) : Type ℓ where
    pub at_end : (key : Bytes) (a : A) → put key a [] ≡ (key, a) ∷ []
    pub in_place :
        (key : Bytes) (a : A) (k : Bytes) (v : A) (m : List (Bytes × A))
        → equal k key ≡ true
        → put key a ((k, v) ∷ m) ≡ (key, a) ∷ m
    pub behind :
        (key : Bytes) (a : A) (k : Bytes) (v : A) (m : List (Bytes × A))
        → equal k key ≡ false
        → put key a ((k, v) ∷ m) ≡ (k, v) ∷ put key a m

  module _ (put : Bytes → A → List (Bytes × A) → List (Bytes × A)) (r : Replaces put) where
    put-Lacks :
        (key : Bytes) (a : A) (m : List (Bytes × A)) (other : Bytes)
        → equal key other ≡ false
        → Lacks other m
        → Lacks other (put key a m)
    put-Lacks key a [] other n l = rw (r.at_end key a) (n, tt)
    put-Lacks key a ((k, v) ∷ m) other n (h, l) = elim (Bool-cases (equal k key)) [
      | inl e ↦ rw (r.in_place key a k v m e) (n, l)
      | inr e ↦ rw (r.behind key a k v m e) (h, put-Lacks key a m other n l)
    ]

    -- It keeps the keys distinct.
    pub put-IsDistinct :
        (key : Bytes) (a : A) (m : List (Bytes × A)) → IsDistinct m → IsDistinct (put key a m)
    put-IsDistinct key a [] d = rw (r.at_end key a) (tt, tt)
    put-IsDistinct key a ((k, v) ∷ m) (l, d) = elim (Bool-cases (equal k key)) [
      | inl e ↦ rw (r.in_place key a k v m e) (subst (λ k. Lacks k m) ((equal_iff k key).0 e) l, d)
      | inr e ↦
          rw (r.behind key a k v m e)
            (put-Lacks key a m k (equal-sym k key e) l, put-IsDistinct key a m d)
    ]

    -- It adds no key but the one given.
    pub put-All :
        (P : Bytes → Type 0) (key : Bytes) (a : A) (m : List (Bytes × A))
        → P key
        → All {A = Bytes × A} (λ p. P (p.0)) m
        → All {A = Bytes × A} (λ p. P (p.0)) (put key a m)
    put-All P key a [] h all = rw (r.at_end key a) (h, tt)
    put-All P key a ((k, v) ∷ m) h (p, all) = elim (Bool-cases (equal k key)) [
      | inl e ↦ rw (r.in_place key a k v m e) (h, all)
      | inr e ↦ rw (r.behind key a k v m e) (p, put-All P key a m h all)
    ]
