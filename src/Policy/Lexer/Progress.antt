-- ===== src/Policy/Lexer/Progress.antt =====
-- sdk/go/policy/parser.go: the bytes that `lexer.next` takes.
use noetivela_open.Prelude.{
  ℕ, zero, suc, ◌+◌, ◌≤◌, ◌<◌, ◌≡◌, refl, ◌⊎◌, inl, inr, Bool, true, false, ◌||◌, [], ◌∷◌, ◌++◌,
  Bytes, ◌==◌, length, arith, if◌then◌else◌, if_cases,
}
use noetivela_open.Policy.Token.{Token, Tokens, token, eof, kind, text, is_eof, is_letter}
use noetivela_open.Policy.Outcome.Progress.{Ended, last, more}
use noetivela_open.Policy.Lexer.{
  Lexer, at, skip, read_string, read_while, is_number_byte, is_ident_byte, starts_number,
  next_punct, next_token, next, Lexed, ok, err, out_of_fuel, ◌>>=◌, collect, tokenize, string_token,
}

skip-le : (b : Bool) (cs : Bytes) (p : ℕ) → length (skip b cs p).rest ≤ length cs
unfolding skip
skip-le b [] p = omega arith
skip-le b (c ∷ cs) p = ground (arith, skip-le true cs (p + 1), skip-le false cs (p + 1))

read_while-le :
    (test : ℕ → Bool) (cs : Bytes) (p : ℕ) → length (read_while test cs p).1.rest ≤ length cs
unfolding read_while
read_while-le test [] p = omega arith
read_while-le test (c ∷ cs) p = ground (arith, read_while-le test cs (p + 1))

read_while-lt :
    (test : ℕ → Bool) (c : ℕ) (cs : Bytes) (p : ℕ)
    → test c ≡ true
    → length (read_while test (c ∷ cs) p).1.rest < length (c ∷ cs)
unfolding read_while
read_while-lt test c cs p h = rw h (omega (arith, read_while-le test cs (p + 1)))

-- Either the last token, or one of another kind and fewer bytes left.
abbrev pub Advances : Bytes → Lexed (Token × Lexer) → Type 0
Advances cs (ok (t, l)) =
    ((kind t ≡ eof) × (text t ≡ [])) ⊎ ((is_eof (kind t) ≡ false) × (length l.rest < length cs))
Advances cs (err e) = Unit
Advances cs out_of_fuel = ⊥

read_string-Advances :
    (cs : Bytes) (quote start : ℕ) (sb rest : Bytes) (p : ℕ)
    → length rest < length cs
    → Advances cs (string_token start (read_string quote sb rest p))
unfolding read_string
read_string-Advances cs quote start sb [] p h = tt
read_string-Advances cs quote start sb (d ∷ rest) p h =
    ground (arith, read_string-Advances cs quote start (sb ++ d ∷ []) rest (p + 1))

next_punct-Advances : (c : ℕ) (cs : Bytes) (p : ℕ) → Advances (c ∷ cs) (ok (next_punct c cs p))
unfolding next_punct
next_punct-Advances c [] p = inr (refl, omega arith)
next_punct-Advances c (d ∷ cs) p = ground arith

is_number_byte_of_start : (c : ℕ) (cs : Bytes) → starts_number c cs ≡ true → is_number_byte c ≡ true
unfolding starts_number is_number_byte
is_number_byte_of_start c cs h = ground arith

is_ident_byte_of_start : (c : ℕ) → (c == b'_' || is_letter c) ≡ true → is_ident_byte c ≡ true
unfolding is_ident_byte
is_ident_byte_of_start c h = ground arith

next_token-Advances : (cs : Bytes) (p : ℕ) → Advances cs (next_token cs p)
unfolding next_token
next_token-Advances [] p = inl (refl, refl)
next_token-Advances (c ∷ cs) p =
    if_cases (Advances (c ∷ cs)) (c == b'"' || c == b'\'') _ _
      (λ _. read_string-Advances (c ∷ cs) c p [] cs (p + 1) (omega arith))
      λ _.
        if_cases (Advances (c ∷ cs)) (starts_number c cs) _ _
          (λ h. inr (refl, read_while-lt is_number_byte c cs p (is_number_byte_of_start c cs h)))
          λ _.
            if_cases (Advances (c ∷ cs)) (c == b'_' || is_letter c) _ _
              (λ h. inr (refl, read_while-lt is_ident_byte c cs p (is_ident_byte_of_start c h)))
              λ _. next_punct-Advances c cs p

Advances-mono :
    (r : Lexed (Token × Lexer)) (cs ds : Bytes)
    → length cs ≤ length ds
    → Advances cs r
    → Advances ds r
Advances-mono (ok (t, l)) cs ds h (inl e) = inl e
Advances-mono (ok (t, l)) cs ds h (inr (e, k)) = inr (e, omega arith)
Advances-mono (err e) cs ds h a = tt
Advances-mono out_of_fuel cs ds h a = a

pub next-Advances : (l : Lexer) → Advances l.rest (next l)
unfolding next
next-Advances l =
    let l' = skip false l.rest l.pos in
    Advances-mono (next_token l'.rest l'.pos) l'.rest l.rest (skip-le false l.rest l.pos)
      (next_token-Advances l'.rest l'.pos)

-- What the loop gives, if it ends.
abbrev pub EndsWell : Lexed Tokens → Type 0
EndsWell (ok ts) = Ended ts
EndsWell (err e) = Unit
EndsWell out_of_fuel = ⊥

module _ (rec : Lexer → Lexed Tokens) (cs : Bytes)
    (rec-EndsWell : (l : Lexer) → length l.rest < length cs → EndsWell (rec l)) where
  more-EndsWell :
      (t : Token) (r : Lexed Tokens)
      → is_eof (kind t) ≡ false
      → EndsWell r
      → EndsWell (r >>= λ ts. ok (t ∷ ts))
  more-EndsWell t (ok ts) h e = more h e
  more-EndsWell t (err e) h w = tt
  more-EndsWell t out_of_fuel h w = w

  round-EndsWell :
      (r : Lexed (Token × Lexer))
      → Advances cs r
      → EndsWell
          (r >>= λ (t, l). if is_eof (kind t) then ok (t ∷ []) else (rec l >>= λ ts. ok (t ∷ ts)))
  round-EndsWell (ok (token eof [] p, l)) (inl e) = last
  round-EndsWell (ok (token eof (c ∷ s) p, l)) (inl e) = cc
  round-EndsWell (ok (token _ s p, l)) (inl e) = cc
  round-EndsWell (ok (t, l)) (inr (e, h)) = rw e (more-EndsWell t (rec l) e (rec-EndsWell l h))
  round-EndsWell (err e) a = tt
  round-EndsWell out_of_fuel a = a

collect-EndsWell : (f : ℕ) (l : Lexer) → length l.rest < f → EndsWell (collect f l)
unfolding collect
collect-EndsWell zero l h = absurd (omega arith)
collect-EndsWell (suc f) l h =
    round-EndsWell (collect f) l.rest (λ l' k. collect-EndsWell f l' (omega arith)) (next l)
      (next-Advances l)

-- The loop over the tokens ends for every source. Without an error its last token, and no other, is
-- of kind `eof`, and has no text.
pub tokenize-EndsWell : (src : Bytes) → EndsWell (tokenize src)
unfolding tokenize
tokenize-EndsWell src = collect-EndsWell (length src + 1) (at src 0) (omega arith)
