-- ===== src/Policy/Lexer/Exact.antt =====
-- sdk/go/policy/parser.go: the tokens of a source, and the sources that are read as given tokens.
use noetivela_open.Prelude.{
  ℕ, zero, suc, ◌+◌, ◌<◌, false, Bytes, length, ◌≡◌, ◌↔◌, refl, subst, arith,
}
use noetivela_open.Policy.Token.{Token, Tokens}
use noetivela_open.Policy.Lexer.{at, next, next_token, ok, collect, tokenize}
use noetivela_open.Policy.Lexer.Spelling.{Blank}
use noetivela_open.Policy.Lexer.Progress.{Advances, next-Advances}
use noetivela_open.Policy.Lexer.Written.{Writes}
use noetivela_open.Policy.Lexer.Sources.{
  Spells, last, more, Writes-kind, Advances-shorter, Explains, tokenize-Explains,
}
use noetivela_open.Policy.Lexer.Complete.{skip-Blank, Writes-Gives, Writes-Stops}

next-Writes :
    {p q r : ℕ} {cs ds rest : Bytes} {t : Token}
    → Blank false p cs q ds
    → Writes q ds t r rest
    → next (at cs p) ≡ ok (t, at rest r)
unfolding next
next-Writes b w = rw (skip-Blank b (Writes-Stops w)) (Writes-Gives w)

next-shorter :
    {p q r : ℕ} {cs ds rest : Bytes} {t : Token}
    → Blank false p cs q ds
    → Writes q ds t r rest
    → length rest < length cs
next-shorter {p} {r = r} {cs} {rest = rest} {t} b w =
    Advances-shorter cs t (at rest r) (Writes-kind w)
      (subst (Advances cs) (next-Writes b w) (next-Advances (at cs p)))

collect-Spells :
    {p : ℕ} {cs : Bytes} {ts : Tokens} (f : ℕ)
    → Spells p cs ts
    → length cs < f
    → collect f (at cs p) ≡ ok ts
unfolding collect next next_token
collect-Spells zero s h = absurd (omega arith)
collect-Spells (suc f) (last b) h = rw (skip-Blank b tt) refl
collect-Spells (suc f) (more b w s) h =
    let shorter = next-shorter b w in
    rw (next-Writes b w, Writes-kind w, collect-Spells f s (omega arith)) refl

-- The lexer gives tokens for a source exactly if the source is spelt as these: in order, each at its
-- position, as long as can be, and with blanks and line comments between them.
pub tokenize_iff : (src : Bytes) (ts : Tokens) → (tokenize src ≡ ok ts) ↔ Spells 0 src ts
unfolding tokenize
tokenize_iff src ts = (
  λ h. subst (Explains 0 src) h (tokenize-Explains src),
  λ s. collect-Spells (length src + 1) s (omega arith),
)
