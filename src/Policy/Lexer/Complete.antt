-- ===== src/Policy/Lexer/Complete.antt =====
-- sdk/go/policy/parser.go: `lexer.next` on bytes that are blanks and a token.
use noetivela_open.Prelude.{
  ℕ, ◌+◌, Bool, true, false, not, Bool-cases, some, [], ◌∷◌, ◌++◌, Bytes, length, ◌==◌, ◌≡◌, refl,
  ap, sym, subst, ◌∙◌, inl, inr, arith, append_assoc, append-nil, equal,
}
use noetivela_open.Policy.Token.{
  Token, token, ident, number, string, punct, is_space, is_digit, is_letter, utf8_of_byte,
}
use noetivela_open.Policy.Lexer.{
  Lexer, at, skip, read_string, read_while, is_number_byte, is_ident_byte, starts_number, is_two,
  next_punct, next_token, ok,
}
use noetivela_open.Policy.Lexer.Spelling.{
  Blank, nothing, ends, space, hash, inside, newline, Passes, Stops, is_blank,
}
use noetivela_open.Policy.Lexer.Written.{
  is_quote, begins_name, BeginsName, BeginsNumber, IsSingle, IsAlone, Writes, name, numeral, quoted,
  two, one,
}

blank-split : (c : ℕ) → is_blank c ≡ false → (is_space c ≡ false) × ((c == b'#') ≡ false)
blank-split c h = (ground arith, ground arith)

hash-not_space : (c : ℕ) → (c == b'#') ≡ true → is_space c ≡ false
unfolding is_space
hash-not_space c h = ground arith

newline-blank : (c : ℕ) → (c == b'\n') ≡ true → is_space c ≡ true
unfolding is_space
newline-blank c h = ground arith

-- What is blank is skipped.
pub skip-Blank :
    {b : Bool} {p q : ℕ} {cs ds : Bytes}
    → Blank b p cs q ds
    → Stops is_blank ds
    → skip b cs p ≡ at ds q
unfolding skip
skip-Blank (nothing {cs = []}) s = refl
skip-Blank (nothing {cs = c ∷ cs}) s = let (h, k) = blank-split c s in rw (h, k) refl
skip-Blank ends s = refl
skip-Blank (space h b) s = rw h (skip-Blank b s)
skip-Blank (hash {c = c} h b) s = rw (hash-not_space c h, h) (skip-Blank b s)
skip-Blank (inside h b) s = rw h (skip-Blank b s)
skip-Blank (newline {c = c} h b) s = rw (h, newline-blank c h) (skip-Blank b s)

read_while-exact :
    (test : ℕ → Bool) (s rest : Bytes) (p : ℕ)
    → Passes test s
    → Stops test rest
    → read_while test (s ++ rest) p ≡ (s, at rest (p + length s))
unfolding read_while
read_while-exact test [] [] p a h = ground arith
read_while-exact test [] (c ∷ rest) p a h = rw h (ground arith)
read_while-exact test (c ∷ s) rest p (e, a) h =
    rw (e, read_while-exact test s rest (p + 1) a h) (ground arith)

read_string-exact :
    (quote : ℕ) (s sb rest : Bytes) (p : ℕ)
    → Passes (λ c. not (c == quote)) s
    → read_string quote sb (s ++ quote ∷ rest) p ≡ some (sb ++ s, at rest (p + length s + 1))
unfolding read_string
read_string-exact quote [] sb rest p a = ground (arith, append-nil sb)
read_string-exact quote (d ∷ s) sb rest p (e, a) = elim (Bool-cases (d == quote)) [
  | inl h ↦ (let e' : not true ≡ true = subst (λ b. not b ≡ true) h e in absurd cc)
  | inr h ↦
      rw (h, read_string-exact quote s (sb ++ d ∷ []) rest (p + 1) a)
        (ground (arith, append_assoc sb (d ∷ []) s))
]

name-first :
    (c : ℕ) (cs : Bytes)
    → begins_name c ≡ true
    → (is_blank c ≡ false) × (is_quote c ≡ false) × (starts_number c cs ≡ false)
unfolding is_letter is_space is_digit starts_number
name-first c cs h = ground arith

number-first :
    (c : ℕ) (cs : Bytes) → starts_number c cs ≡ true → (is_blank c ≡ false) × (is_quote c ≡ false)
unfolding is_space is_digit starts_number
number-first c cs h = ground arith

quote-first : (c : ℕ) → is_quote c ≡ true → is_blank c ≡ false
unfolding is_space
quote-first c h = ground arith

sign-first : (c d : ℕ) (rest : Bytes) → is_two (c ∷ d ∷ []) ≡ true → IsSingle c rest
unfolding is_two equal is_letter is_space is_digit starts_number
sign-first c d rest h = record {
  no_blank = ground arith;
  no_quote = ground arith;
  no_number = ground arith;
  no_name = ground arith;
}

is_two-pair : (s : Bytes) → is_two s ≡ true → (c : ℕ) × (d : ℕ) × (s ≡ c ∷ d ∷ [])
unfolding is_two equal
is_two-pair [] h = cc
is_two-pair (c ∷ []) h = absurd (ground arith)
is_two-pair (c ∷ d ∷ []) h = (c, d, refl)
is_two-pair (c ∷ d ∷ x ∷ s) h = absurd (ground arith)

-- The token of the bytes, and what stands behind it.
abbrev Gives : Bytes → ℕ → Token → Lexer → Type 0
Gives cs p t l = next_token cs p ≡ ok (t, l)

single-Gives :
    (c : ℕ) (rest : Bytes) (p : ℕ)
    → IsSingle c rest
    → IsAlone c rest
    → Gives (c ∷ rest) p (token punct (utf8_of_byte c) p) (at rest (p + 1))
unfolding next_token next_punct
single-Gives c [] p h k = rw (h.no_quote, h.no_number, h.no_name) refl
single-Gives c (d ∷ rest) p h k = rw (h.no_quote, h.no_number, h.no_name, k) refl

pair-Gives :
    (c d : ℕ) (rest : Bytes) (p : ℕ)
    → is_two (c ∷ d ∷ []) ≡ true
    → Gives (c ∷ d ∷ rest) p (token punct (c ∷ d ∷ []) p) (at rest (p + 2))
unfolding next_token next_punct
pair-Gives c d rest p h =
    let k = sign-first c d (d ∷ rest) h in rw (k.no_quote, k.no_number, k.no_name, h) refl

quoted-Gives :
    (quote : ℕ) (s rest : Bytes) (p : ℕ)
    → is_quote quote ≡ true
    → Passes (λ c. not (c == quote)) s
    → Gives (quote ∷ s ++ quote ∷ rest) p (token string s p) (at rest (p + length s + 2))
unfolding next_token
quoted-Gives quote s rest p h a = rw (h, read_string-exact quote s [] rest (p + 1) a) (ground arith)

numeral-Gives :
    (cs s rest : Bytes) (p : ℕ)
    → cs ≡ s ++ rest
    → BeginsNumber cs
    → Passes is_number_byte s
    → Stops is_number_byte rest
    → Gives cs p (token number s p) (at rest (p + length s))
unfolding next_token
numeral-Gives [] s rest p e n a k = absurd n
numeral-Gives (c ∷ cs) s rest p e n a k =
    let (_, h) = number-first c cs n in
    rw (h, n, e, read_while-exact is_number_byte s rest p a k) refl

name-Gives :
    (cs s rest : Bytes) (p : ℕ)
    → cs ≡ s ++ rest
    → BeginsName cs
    → Passes is_ident_byte s
    → Stops is_ident_byte rest
    → Gives cs p (token ident s p) (at rest (p + length s))
unfolding next_token
name-Gives [] s rest p e n a k = absurd n
name-Gives (c ∷ cs) s rest p e n a k =
    let (_, h, m) = name-first c cs n in
    rw (h, m, n, e, read_while-exact is_ident_byte s rest p a k) refl

pub Writes-Gives :
    {p q : ℕ} {cs rest : Bytes} {t : Token} → Writes p cs t q rest → Gives cs p t (at rest q)
Writes-Gives {p} {cs = cs} {rest} (name s e m n a k) = rw m (name-Gives cs s rest p e n a k)
Writes-Gives {p} {cs = cs} {rest} (numeral s e m n a k) = rw m (numeral-Gives cs s rest p e n a k)
Writes-Gives {p} {rest = rest} (quoted quote s h e m a) =
    rw (e, m) (quoted-Gives quote s rest p h a)
Writes-Gives {p} {rest = rest} (two s e m h) =
    let (c, d, k) = is_two-pair s h in
    rw (e, m, k) (pair-Gives c d rest p (subst (λ s. is_two s ≡ true) k h))
Writes-Gives {p} {rest = rest} (one c e m h k) = rw (e, m) (single-Gives c rest p h k)

pub Writes-Stops :
    {p q : ℕ} {cs rest : Bytes} {t : Token} → Writes p cs t q rest → Stops is_blank cs
Writes-Stops {cs = []} w = tt
Writes-Stops {cs = c ∷ cs} (name s e m n a k) = (name-first c cs n).0
Writes-Stops {cs = c ∷ cs} (numeral s e m n a k) = (number-first c cs n).0
Writes-Stops {cs = c ∷ cs} (quoted quote s h e m a) =
    subst (Stops is_blank) (sym e) (quote-first quote h)
Writes-Stops {cs = c ∷ cs} {rest} (two s e m h) =
    let (b, d, k) = is_two-pair s h in
    subst (Stops is_blank) (sym (e ∙ ap (λ s. s ++ rest) k))
      (sign-first b d (d ∷ rest) (subst (λ s. is_two s ≡ true) k h)).no_blank
Writes-Stops {cs = c ∷ cs} (one d e m h k) = subst (Stops is_blank) (sym e) h.no_blank
