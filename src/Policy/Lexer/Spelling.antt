-- ===== src/Policy/Lexer/Spelling.antt =====
-- sdk/go/policy/parser.go: what the loops of `lexer.next` take.
use noetivela_open.Prelude.{
  ℕ, ◌+◌, Bool, true, false, not, ◌||◌, Bool-cases, Option, none, some, [], ◌∷◌, ◌++◌, append_assoc,
  append-nil, Bytes, length, ◌==◌, ◌≡◌, refl, ap, sym, ◌∙◌, inl, inr, All, arith, if_cases,
}
use noetivela_open.Policy.Token.{is_space}
use noetivela_open.Policy.Lexer.{Lexer, skip, read_string, read_while}

-- The bytes `cs` from `p` on are blanks and line comments up to `rest`, which stands at `q`; inside
-- a comment first, or not.
pub data Blank : Bool → ℕ → Bytes → ℕ → Bytes → Type 0 where
  nothing : {p : ℕ} {cs : Bytes} → Blank false p cs p cs
  ends : {p : ℕ} → Blank true p [] p []
  space :
      {c p q : ℕ} {cs rest : Bytes}
      → is_space c ≡ true
      → Blank false (p + 1) cs q rest
      → Blank false p (c ∷ cs) q rest
  hash :
      {c p q : ℕ} {cs rest : Bytes}
      → (c == b'#') ≡ true
      → Blank true (p + 1) cs q rest
      → Blank false p (c ∷ cs) q rest
  inside :
      {c p q : ℕ} {cs rest : Bytes}
      → (c == b'\n') ≡ false
      → Blank true (p + 1) cs q rest
      → Blank true p (c ∷ cs) q rest
  newline :
      {c p q : ℕ} {cs rest : Bytes}
      → (c == b'\n') ≡ true
      → Blank false (p + 1) cs q rest
      → Blank true p (c ∷ cs) q rest

abbrev pub Skips : Bool → ℕ → Bytes → Lexer → Type 0
Skips b p cs l = Blank b p cs l.pos l.rest

newline-is_space : (c : ℕ) → (c == b'\n') ≡ true → is_space c ≡ true
unfolding is_space
newline-is_space c h = ground arith

pub skip-Skips : (b : Bool) (cs : Bytes) (p : ℕ) → Skips b p cs (skip b cs p)
unfolding skip
skip-Skips true [] p = ends
skip-Skips false [] p = nothing
skip-Skips true (c ∷ cs) p = elim (Bool-cases (c == b'\n')) [
  | inl h ↦ rw (h, newline-is_space c h) (newline h (skip-Skips false cs (p + 1)))
  | inr h ↦ rw h (inside h (skip-Skips true cs (p + 1)))
]
skip-Skips false (c ∷ cs) p =
    if_cases (Skips false p (c ∷ cs)) (is_space c) _ _ (λ h. space h (skip-Skips false cs (p + 1)))
      λ _.
        if_cases (Skips false p (c ∷ cs)) (c == b'#') _ _ (λ h. hash h (skip-Skips true cs (p + 1)))
          λ _. nothing

abbrev pub Passes : (ℕ → Bool) → Bytes → Type 0
Passes test s = All (λ c. test c ≡ true) s

-- The byte that comes next, if any, fails the test.
abbrev pub Stops : (ℕ → Bool) → Bytes → Type 0
Stops test [] = Unit
Stops test (c ∷ cs) = test c ≡ false

abbrev pub is_blank : ℕ → Bool
is_blank c = is_space c || c == b'#'

-- The byte that `skip` leaves begins no blank and no comment.
pub skip-Stops : (b : Bool) (cs : Bytes) (p : ℕ) → Stops is_blank (skip b cs p).rest
unfolding skip
skip-Stops b [] p = tt
skip-Stops true (c ∷ cs) p = elim (Bool-cases (c == b'\n')) [
  | inl h ↦ rw (h, newline-is_space c h) (skip-Stops false cs (p + 1))
  | inr h ↦ rw h (skip-Stops true cs (p + 1))
]
skip-Stops false (c ∷ cs) p =
    if_cases (λ (l : Lexer). Stops is_blank l.rest) (is_space c) _ _
      (λ _. skip-Stops false cs (p + 1))
      λ s.
        if_cases (λ (l : Lexer). Stops is_blank l.rest) (c == b'#') _ _
          (λ _. skip-Stops true cs (p + 1)) λ h. rw (s, h) refl

pub record Takes (test : ℕ → Bool) (cs : Bytes) (p : ℕ) (r : Bytes × Lexer) : Type 0 where
  pub splits : cs ≡ r.0 ++ r.1.rest
  pub moves : r.1.pos ≡ p + length r.0
  pub passes : Passes test r.0
  pub stops : Stops test r.1.rest

pub read_while-Takes :
    (test : ℕ → Bool) (cs : Bytes) (p : ℕ) → Takes test cs p (read_while test cs p)
unfolding read_while
read_while-Takes test [] p = record { splits = refl; moves = omega arith; passes = tt; stops = tt }
read_while-Takes test (c ∷ cs) p =
    let r = read_while-Takes test cs (p + 1) in
    elim (Bool-cases (test c)) [
      | inl h ↦ rw h (record {
        splits = ap (λ s. c ∷ s) (r.splits);
        moves = omega (arith, r.moves);
        passes = (h, r.passes);
        stops = r.stops;
      })
      | inr h ↦ rw h (record { splits = refl; moves = omega arith; passes = tt; stops = h })
    ]

-- The bytes of a string up to its closing quote, behind the text read so far.
pub record Closes (quote : ℕ) (cs : Bytes) (p : ℕ) (sb s : Bytes) (l : Lexer) : Type 0 where
  pub inner : Bytes
  pub is_text : s ≡ sb ++ inner
  pub splits : cs ≡ inner ++ quote ∷ l.rest
  pub moves : l.pos ≡ p + length inner + 1
  pub passes : Passes (λ c. not (c == quote)) inner

abbrev pub Quotes : ℕ → Bytes → ℕ → Bytes → Option (Bytes × Lexer) → Type 0
Quotes quote cs p sb (some (s, l)) = Closes quote cs p sb s l
Quotes quote cs p sb none = Passes (λ c. not (c == quote)) cs

Quotes-grows :
    (quote c : ℕ) (cs : Bytes) (p : ℕ) (sb : Bytes) (r : Option (Bytes × Lexer))
    → (c == quote) ≡ false
    → Quotes quote cs (p + 1) (sb ++ c ∷ []) r
    → Quotes quote (c ∷ cs) p sb r
Quotes-grows quote c cs p sb none h k = (rw h refl, k)
Quotes-grows quote c cs p sb (some (s, l)) h k = record {
  inner = c ∷ k.inner;
  is_text = k.is_text ∙ append_assoc sb (c ∷ []) k.inner;
  splits = ap (λ cs. c ∷ cs) (k.splits);
  moves = omega (arith, k.moves);
  passes = (rw h refl, k.passes);
}

pub read_string-Quotes :
    (quote : ℕ) (cs : Bytes) (p : ℕ) (sb : Bytes) → Quotes quote cs p sb (read_string quote sb cs p)
unfolding read_string
read_string-Quotes quote [] p sb = tt
read_string-Quotes quote (c ∷ cs) p sb = elim (Bool-cases (c == quote)) [
  | inl h ↦ rw h (record {
    inner = [];
    is_text = sym (append-nil sb);
    splits = ap (λ d. d ∷ cs) (ground arith);
    moves = omega arith;
    passes = tt;
  })
  | inr h ↦
      rw h (Quotes-grows quote c cs p sb _ h (read_string-Quotes quote cs (p + 1) (sb ++ c ∷ [])))
]
