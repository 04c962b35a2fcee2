-- ===== src/Policy/Grammar/Lexemes.antt =====
-- The lexer on a rendered list of lexemes.
use noetivela_open.Prelude.{
  ℕ, zero, suc, ◌+◌, ◌≤◌, ◌<◌, ◌≡◌, refl, ◌⊎◌, inl, inr, Bool, true, false, ◌||◌, some, List, [],
  ◌∷◌, ◌++◌, append_assoc, append-nil, Bytes, equal, equal_iff, codes, length, length-append, ◌==◌,
  All, arith,
}
use noetivela_open.Policy.Token.{
  TokenKind, token, ident, number, string, punct, eof, is_space, is_digit, is_letter, utf8_of_byte,
  is_eof,
}
use noetivela_open.Policy.Lexer.{
  at, skip, read_string, read_while, is_number_byte, is_ident_byte, next_is_digit, starts_number,
  is_two, next_punct, next_token, next, ok, collect, tokenize,
}
use noetivela_open.Policy.Expression.{is_comparison}
use noetivela_open.Policy.Grammar.{Lexeme, written, render, place}
use noetivela_open.Policy.Grammar.Shapes.{IsName, IsNumeral, IsQuotable}

-- The signs of the language.
pub data IsSign : Bytes → Type 0 where
  comparison : {s : Bytes} → is_comparison s ≡ true → IsSign s
  open_brace : IsSign (codes "{")
  close_brace : IsSign (codes "}")
  open_bracket : IsSign (codes "[")
  close_bracket : IsSign (codes "]")
  open_paren : IsSign (codes "(")
  close_paren : IsSign (codes ")")
  comma : IsSign (codes ",")
  dot : IsSign (codes ".")

abbrev pub IsLexeme : Lexeme → Type 0
IsLexeme (ident, s) = IsName s
IsLexeme (number, s) = IsNumeral s
IsLexeme (string, s) = IsQuotable s
IsLexeme (punct, s) = IsSign s
IsLexeme (eof, s) = ⊥

read_while-append :
    (test : ℕ → Bool) (s : Bytes) (c : ℕ) (rest : Bytes) (p : ℕ)
    → All (λ d. test d ≡ true) s
    → test c ≡ false
    → read_while test (s ++ c ∷ rest) p ≡ (s, at (c ∷ rest) (p + length s))
unfolding read_while
read_while-append test [] c rest p a h = rw h (ground arith)
read_while-append test (d ∷ s) c rest p (e, a) h =
    rw (e, read_while-append test s c rest (p + 1) a h) (ground arith)

read_string-append :
    (quote : ℕ) (s sb rest : Bytes) (p : ℕ)
    → All (λ d. (d == quote) ≡ false) s
    → read_string quote sb (s ++ quote ∷ rest) p ≡ some (sb ++ s, at rest (p + length s + 1))
unfolding read_string
read_string-append quote [] sb rest p a = ground (arith, append-nil sb)
read_string-append quote (d ∷ s) sb rest p (e, a) =
    rw (e, read_string-append quote s (sb ++ d ∷ []) rest (p + 1) a)
      (ground (arith, append_assoc sb (d ∷ []) s))

-- The token of a lexeme, with a space behind it.
abbrev NextIs : Lexeme → Type 0
NextIs (k, s) =
    (p : ℕ) (rest : Bytes)
    → next (at (written (k, s) ++ b' ' ∷ rest) p)
      ≡ ok (token k s p, at (b' ' ∷ rest) (p + length (written (k, s))))

name_start :
    (c : ℕ) (cs : Bytes)
    → (c == b'_' || is_letter c) ≡ true
    → (is_space c ≡ false)
      × ((c == b'#') ≡ false)
      × ((c == b'"' || c == b'\'') ≡ false)
      × (starts_number c cs ≡ false)
      × (is_ident_byte c ≡ true)
unfolding is_letter is_space is_digit starts_number is_ident_byte
name_start c cs h = ground arith

next-name : (s : Bytes) → IsName s → NextIs (ident, s)
unfolding next skip next_token
next-name [] n p rest = absurd n
next-name (c ∷ s) (h, a) p rest =
    let f = name_start c (s ++ b' ' ∷ rest) h in
    rw (f.0, f.1, f.2, f.3, h)
      (rw (
        read_while-append is_ident_byte (c ∷ s) b' ' rest p (f.4, a)
          (unfold is_ident_byte is_letter is_digit in refl)))

numeral_start :
    (c : ℕ) (cs : Bytes)
    → is_digit c ≡ true
    → (is_space c ≡ false)
      × ((c == b'#') ≡ false)
      × ((c == b'"' || c == b'\'') ≡ false)
      × (starts_number c cs ≡ true)
      × (is_number_byte c ≡ true)
unfolding is_space is_digit starts_number is_number_byte
numeral_start c cs h = ground arith

next-numeral : (s : Bytes) → IsNumeral s → NextIs (number, s)
unfolding next skip next_token
next-numeral [] n p rest = absurd n
next-numeral (c ∷ s) (h, a) p rest =
    let f = numeral_start c (s ++ b' ' ∷ rest) h in
    rw (f.0, f.1, f.2, f.3)
      (rw (
        read_while-append is_number_byte (c ∷ s) b' ' rest p (f.4, a)
          (unfold is_number_byte is_digit in refl)))

next-string : (s : Bytes) → IsQuotable s → NextIs (string, s)
unfolding next skip next_token is_space
next-string s a p rest = rw (append_assoc s (b'"' ∷ []) (b' ' ∷ rest)) (
    rw (read_string-append b'"' s [] (b' ' ∷ rest) (p + 1) a)
      (ground (arith, length-append s (b'"' ∷ []))))

comparison-cases :
    (s : Bytes)
    → is_comparison s ≡ true
    → (s ≡ codes "==")
      ⊎ (s ≡ codes "!=")
      ⊎ (s ≡ codes ">=")
      ⊎ (s ≡ codes "<=")
      ⊎ (s ≡ codes ">")
      ⊎ (s ≡ codes "<")
unfolding is_comparison
comparison-cases s h = ground (
  arith,
  equal_iff s (codes "=="),
  equal_iff s (codes "!="),
  equal_iff s (codes ">="),
  equal_iff s (codes "<="),
  equal_iff s (codes ">"),
  equal_iff s (codes "<"),
)

next_comparison : (s : Bytes) → is_comparison s ≡ true → NextIs (punct, s)
unfolding next skip next_token next_punct is_two is_space starts_number next_is_digit is_digit
    is_letter equal utf8_of_byte
next_comparison s h p rest = elim (comparison-cases s h) [
  | inl e ↦ rw e refl
  | inr (inl e) ↦ rw e refl
  | inr (inr (inl e)) ↦ rw e refl
  | inr (inr (inr (inl e))) ↦ rw e refl
  | inr (inr (inr (inr (inl e)))) ↦ rw e refl
  | inr (inr (inr (inr (inr e)))) ↦ rw e refl
]

next-sign : (s : Bytes) → IsSign s → NextIs (punct, s)
unfolding next skip next_token next_punct is_two is_space starts_number next_is_digit is_digit
    is_letter equal utf8_of_byte
next-sign s (comparison h) p rest = next_comparison s h p rest
next-sign s open_brace p rest = refl
next-sign s _ p rest = refl

next-written : (l : Lexeme) → IsLexeme l → NextIs l
next-written (ident, s) i = next-name s i
next-written (number, s) i = next-numeral s i
next-written (string, s) i = next-string s i
next-written (punct, s) i = next-sign s i
next-written (eof, s) i = absurd i

-- A space in front of a token is skipped.
collect-space : (f p : ℕ) (cs : Bytes) → collect f (at (b' ' ∷ cs) p) ≡ collect f (at cs (p + 1))
unfolding collect next skip is_space
collect-space zero p cs = refl
collect-space (suc f) p cs = refl

is_eof-lexeme : (k : TokenKind) (s : Bytes) → IsLexeme (k, s) → is_eof k ≡ false
is_eof-lexeme eof s i = absurd i
is_eof-lexeme _ s i = refl

collect-render :
    (f p : ℕ) (ls : List Lexeme)
    → All IsLexeme ls
    → length ls < f
    → collect f (at (render ls) p) ≡ ok (place p ls)
unfolding collect
collect-render zero p ls a h = absurd (omega arith)
collect-render (suc f) p [] a h = unfold next skip next_token in refl
collect-render (suc f) p ((k, s) ∷ ls) (i, a) h =
    let width : ℕ = length (written (k, s)) in
    let same : p + width + 1 ≡ p + (width + 1) = omega arith in
    rw
      (
        next-written (k, s) i p (render ls),
        is_eof-lexeme k s i,
        collect-space f (p + width) (render ls),
        same,
        collect-render f (p + (width + 1)) ls a (omega arith),
      )
      refl

length-render : (ls : List Lexeme) → length ls ≤ length (render ls)
length-render [] = omega arith
length-render (l ∷ ls) =
    omega (arith, length-append (written l) (b' ' ∷ render ls), length-render ls)

-- The lexer reads the lexemes back from the text that they are rendered as, at their places.
pub tokenize-render : (ls : List Lexeme) → All IsLexeme ls → tokenize (render ls) ≡ ok (place 0 ls)
unfolding tokenize
tokenize-render ls a =
    collect-render (length (render ls) + 1) 0 ls a (omega (arith, length-render ls))
