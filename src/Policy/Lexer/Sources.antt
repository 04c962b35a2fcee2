-- ===== src/Policy/Lexer/Sources.antt =====
-- sdk/go/policy/parser.go: a source text as its tokens with what stands between them.
use noetivela_open.Prelude.{
  ℕ, zero, suc, ◌+◌, ◌<◌, true, false, [], ◌∷◌, Bytes, length, ◌≡◌, refl, subst, inl, inr, arith,
  if◌then◌else◌,
}
use noetivela_open.Policy.Token.{Token, Tokens, token, kind, is_eof, eof, ParseError}
use noetivela_open.Policy.Lexer.{
  Lexer, at, skip, next, Lexed, ok, err, out_of_fuel, ◌>>=◌, collect, tokenize,
}
use noetivela_open.Policy.Lexer.Progress.{Advances, next-Advances}
use noetivela_open.Policy.Lexer.Spelling.{Blank, skip-Skips, skip-Stops}
use noetivela_open.Policy.Lexer.Written.{Writes, IsOpen, Reads, next_token-Reads}

-- The bytes `cs` from `p` on are the tokens, with blanks and comments before each.
pub data Spells : ℕ → Bytes → Tokens → Type 0 where
  last : {p q : ℕ} {cs : Bytes} → Blank false p cs q [] → Spells p cs (token eof [] q ∷ [])
  more :
      {p q r : ℕ} {cs ds rest : Bytes} {t : Token} {ts : Tokens}
      → Blank false p cs q ds
      → Writes q ds t r rest
      → Spells r rest ts
      → Spells p cs (t ∷ ts)

-- The bytes `cs` from `p` on are tokens, and then a string that is not closed.
pub data Fails : ℕ → Bytes → ParseError → Type 0 where
  here :
      {p q : ℕ} {cs ds : Bytes} {e : ParseError}
      → Blank false p cs q ds
      → IsOpen q ds e
      → Fails p cs e
  later :
      {p q r : ℕ} {cs ds rest : Bytes} {t : Token} {e : ParseError}
      → Blank false p cs q ds
      → Writes q ds t r rest
      → Fails r rest e
      → Fails p cs e

-- What a result of the loop over the tokens says.
abbrev pub Explains : ℕ → Bytes → Lexed Tokens → Type 0
Explains p cs (ok ts) = Spells p cs ts
Explains p cs (err e) = Fails p cs e
Explains p cs out_of_fuel = ⊥

pub Writes-kind :
    {p q : ℕ} {cs rest : Bytes} {t : Token} → Writes p cs t q rest → is_eof (kind t) ≡ false
Writes-kind (Writes.name s _ _ _ _ _) = refl
Writes-kind (Writes.numeral s _ _ _ _ _) = refl
Writes-kind (Writes.quoted c s _ _ _ _) = refl
Writes-kind (Writes.two s _ _ _) = refl
Writes-kind (Writes.one c _ _ _ _) = refl

pub Advances-shorter :
    (cs : Bytes) (t : Token) (l : Lexer)
    → is_eof (kind t) ≡ false
    → Advances cs (ok (t, l))
    → length l.rest < length cs
Advances-shorter cs t l h (inl (k, _)) =
    let e : true ≡ false = subst (λ x. is_eof x ≡ false) k h in absurd cc
Advances-shorter cs t l h (inr (_, k)) = k

module _ (rec : Lexer → Lexed Tokens) (p q : ℕ) (cs ds : Bytes) (blank : Blank false p cs q ds)
    (rec-Explains : (l : Lexer) → length l.rest < length cs → Explains l.pos l.rest (rec l)) where
  more-Explains :
      (t : Token) (r : ℕ) (rest : Bytes) (ts : Lexed Tokens)
      → Writes q ds t r rest
      → Explains r rest ts
      → Explains p cs (ts >>= λ ts. ok (t ∷ ts))
  more-Explains t r rest (ok ts) w h = Spells.more blank w h
  more-Explains t r rest (err e) w h = Fails.later blank w h
  more-Explains t r rest out_of_fuel w h = h

  round-Explains :
      (r : Lexed (Token × Lexer))
      → Reads q ds r
      → Advances cs r
      → Explains p cs
          (r >>= λ (t, l). if is_eof (kind t) then ok (t ∷ []) else (rec l >>= λ ts. ok (t ∷ ts)))
  round-Explains (ok (t, l)) (inl (h, k)) a =
      rw h (Spells.last (subst (λ ds. Blank false p cs q ds) k blank))
  round-Explains (ok (t, l)) (inr w) a =
      let e = Writes-kind w in
      rw e (more-Explains t l.pos l.rest (rec l) w (rec-Explains l (Advances-shorter cs t l e a)))
  round-Explains (err e) h a = Fails.here blank h
  round-Explains out_of_fuel h a = h

collect-Explains : (f : ℕ) (l : Lexer) → length l.rest < f → Explains l.pos l.rest (collect f l)
unfolding collect next
collect-Explains zero l h = absurd (omega arith)
collect-Explains (suc f) l h =
    let l' = skip false l.rest l.pos in
    round-Explains (collect f) l.pos l'.pos l.rest l'.rest (skip-Skips false l.rest l.pos)
      (λ m k. collect-Explains f m (omega arith)) (next l)
      (next_token-Reads l'.rest l'.pos (skip-Stops false l.rest l.pos)) (next-Advances l)

-- The lexer reads a source as its grammar says: without an error the source is, in order, its tokens,
-- each at its position, as long as can be, and spelt by its text, with only blanks and line comments
-- before each and behind the last; with an error the source is such tokens up to the quote at the
-- error's position, and no other quote of this kind is behind it.
pub tokenize-Explains : (src : Bytes) → Explains 0 src (tokenize src)
unfolding tokenize
tokenize-Explains src = collect-Explains (length src + 1) (at src 0) (omega arith)
