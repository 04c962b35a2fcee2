-- ===== src/Policy/Lexer/Written.antt =====
-- sdk/go/policy/parser.go: a token and the bytes that it is read from.
use noetivela_open.Prelude.{
  ℕ, ◌+◌, Bool, true, false, not, ◌||◌, Bool-cases, Option, none, some, [], ◌∷◌, ◌++◌, Bytes,
  length, ◌==◌, ◌≡◌, refl, ap, sym, subst, inl, inr, arith, if_cases, ◌⊎◌,
}
use noetivela_open.Policy.Token.{
  Token, token, ident, number, string, punct, eof, is_letter, utf8_of_byte, ParseError,
  unterminated_string,
}
use noetivela_open.Policy.Lexer.{
  Lexer, read_string, is_number_byte, is_ident_byte, starts_number, is_two, next_punct, next_token,
  Lexed, ok, err, out_of_fuel, string_token,
}
use noetivela_open.Policy.Lexer.Spelling.{
  Passes, Stops, is_blank, Quotes, read_while-Takes, read_string-Quotes,
}

abbrev pub is_quote : ℕ → Bool
is_quote c = c == b'"' || c == b'\''

abbrev pub begins_name : ℕ → Bool
begins_name c = c == b'_' || is_letter c

abbrev pub BeginsName : Bytes → Type 0
BeginsName [] = ⊥
BeginsName (c ∷ cs) = begins_name c ≡ true

abbrev pub BeginsNumber : Bytes → Type 0
BeginsNumber [] = ⊥
BeginsNumber (c ∷ cs) = starts_number c cs ≡ true

-- The byte `c`, with `rest` behind it, begins no blank, no comment and no other token.
pub record IsSingle (c : ℕ) (rest : Bytes) : Type 0 where
  pub no_blank : is_blank c ≡ false
  pub no_quote : is_quote c ≡ false
  pub no_number : starts_number c rest ≡ false
  pub no_name : begins_name c ≡ false

-- Two bytes are none of the signs of two bytes.
abbrev pub IsAlone : ℕ → Bytes → Type 0
IsAlone c [] = Unit
IsAlone c (d ∷ rest) = is_two (c ∷ d ∷ []) ≡ false

-- The bytes `cs` from `p` on are a token and `rest`, which stands at `q`.
pub data Writes (p : ℕ) (cs : Bytes) : Token → ℕ → Bytes → Type 0 where
  name :
      (s : Bytes) {q : ℕ} {rest : Bytes}
      → cs ≡ s ++ rest
      → q ≡ p + length s
      → BeginsName cs
      → Passes is_ident_byte s
      → Stops is_ident_byte rest
      → Writes p cs (token ident s p) q rest
  numeral :
      (s : Bytes) {q : ℕ} {rest : Bytes}
      → cs ≡ s ++ rest
      → q ≡ p + length s
      → BeginsNumber cs
      → Passes is_number_byte s
      → Stops is_number_byte rest
      → Writes p cs (token number s p) q rest
  quoted :
      (quote : ℕ) (s : Bytes) {q : ℕ} {rest : Bytes}
      → is_quote quote ≡ true
      → cs ≡ quote ∷ s ++ quote ∷ rest
      → q ≡ p + length s + 2
      → Passes (λ c. not (c == quote)) s
      → Writes p cs (token string s p) q rest
  two :
      (s : Bytes) {q : ℕ} {rest : Bytes}
      → cs ≡ s ++ rest
      → q ≡ p + 2
      → is_two s ≡ true
      → Writes p cs (token punct s p) q rest
  one :
      (c : ℕ) {q : ℕ} {rest : Bytes}
      → cs ≡ c ∷ rest
      → q ≡ p + 1
      → IsSingle c rest
      → IsAlone c rest
      → Writes p cs (token punct (utf8_of_byte c) p) q rest

-- The text from a quote at `p` on has no other such quote.
pub record IsOpen (p : ℕ) (cs : Bytes) (e : ParseError) : Type 0 where
  pub quote : ℕ
  pub inner : Bytes
  pub is_quote_ : is_quote quote ≡ true
  pub splits : cs ≡ quote ∷ inner
  pub passes : Passes (λ c. not (c == quote)) inner
  pub error : e ≡ unterminated_string p

-- What a token read from bytes says of them.
abbrev pub Reads : ℕ → Bytes → Lexed (Token × Lexer) → Type 0
Reads p cs (ok (t, l)) = ((t ≡ token eof [] p) × (cs ≡ [])) ⊎ Writes p cs t l.pos l.rest
Reads p cs (err e) = IsOpen p cs e
Reads p cs out_of_fuel = ⊥

string_token-Reads :
    (quote p : ℕ) (cs : Bytes) (r : Option (Bytes × Lexer))
    → is_quote quote ≡ true
    → Quotes quote cs (p + 1) [] r
    → Reads p (quote ∷ cs) (string_token p r)
string_token-Reads quote p cs none h k = record {
  quote = quote;
  inner = cs;
  is_quote_ = h;
  splits = refl;
  passes = k;
  error = refl;
}
string_token-Reads quote p cs (some (s, l)) h k = inr (
    subst (λ s. Writes p (quote ∷ cs) (token string s p) l.pos l.rest) (sym k.is_text)
      (Writes.quoted quote k.inner h (ap (λ cs. quote ∷ cs) k.splits) (omega (arith, k.moves))
        k.passes))

next_punct-Reads :
    (c p : ℕ) (cs : Bytes) → IsSingle c cs → Reads p (c ∷ cs) (ok (next_punct c cs p))
unfolding next_punct
next_punct-Reads c p [] h = inr (Writes.one c refl refl h tt)
next_punct-Reads c p (d ∷ cs) h = elim (Bool-cases (is_two (c ∷ d ∷ []))) [
  | inl t ↦ rw t (inr (Writes.two (c ∷ d ∷ []) refl refl t))
  | inr t ↦ rw t (inr (Writes.one c refl refl h t))
]

pub next_token-Reads : (cs : Bytes) (p : ℕ) → Stops is_blank cs → Reads p cs (next_token cs p)
unfolding next_token
next_token-Reads [] p b = inl (refl, refl)
next_token-Reads (c ∷ cs) p b =
    if_cases (Reads p (c ∷ cs)) (is_quote c) _ _
      (λ h.
        string_token-Reads c p cs (read_string c [] cs (p + 1)) h
          (read_string-Quotes c cs (p + 1) []))
      λ h.
        if_cases (Reads p (c ∷ cs)) (starts_number c cs) _ _
          (λ n.
            let k = read_while-Takes is_number_byte (c ∷ cs) p in
            inr (Writes.numeral _ k.splits k.moves n k.passes k.stops))
          λ m.
            if_cases (Reads p (c ∷ cs)) (begins_name c) _ _
              (λ i.
                let k = read_while-Takes is_ident_byte (c ∷ cs) p in
                inr (Writes.name _ k.splits k.moves i k.passes k.stops))
              λ l.
                next_punct-Reads c p cs
                  (record { no_blank = b; no_quote = h; no_number = m; no_name = l })
