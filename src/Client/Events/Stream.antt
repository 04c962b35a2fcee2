-- ===== src/Client/Events/Stream.antt =====
-- Streams of lines as a gateway writes them, and what `ChatStream` makes of them.
use noetivela_open.Prelude.{
  ℕ, zero, suc, ◌+◌, ◌<◌, ◌≡◌, refl, ◌∙◌, sym, true, false, none, some, List, [], ◌∷◌, ◌++◌, Bytes,
  length, length-append, ◌==◌, leb, if◌then◌else◌, arith, All, All-append, codes,
}
use noetivela_open.Client.Lines.{
  drop_cr, max_token, scan, trim_space, trim_left, after_prefix, is_space_text, scan-append,
  scan-long, drop_cr-brace, trim_right-brace,
}
use noetivela_open.Client.Events.{
  ended, event, payload, next, closed, Chunks, Sent, send, on_event, stream_loop, stream,
}

abbrev pub IsUnbroken : Bytes → Type 0
IsUnbroken = All (λ c. (c == b'\n') ≡ false)

-- A JSON object behind `data: `, or a line that is not of the field `data`.
pub data Line : Type 0 where
  data_ other : Bytes → Line

-- An object, from what stands between its braces.
abbrev pub object : Bytes → Bytes
object s = b'{' ∷ s ++ b'}' ∷ []

abbrev pub text : Line → Bytes
text (data_ s) = codes "data: " ++ object s
text (other s) = s

-- The line fits the buffer of the scanner.
abbrev pub Fits : Bytes → Type 0
Fits s = leb max_token (length s) ≡ false

abbrev pub IsLine : Line → Type 0
IsLine (data_ s) = IsUnbroken s × Fits (text (data_ s))
IsLine (other s) = IsUnbroken s × Fits s × (payload (drop_cr s) ≡ none)

unfoldable pub write : List Line → Bytes → Bytes
write [] rest = rest
write (l ∷ ls) rest = text l ++ b'\n' ∷ write ls rest

unfoldable pub objects : List Line → List Bytes
objects [] = []
objects (data_ s ∷ ls) = object s ∷ objects ls
objects (other s ∷ ls) = objects ls

text-IsUnbroken : (l : Line) → IsLine l → IsUnbroken (text l)
text-IsUnbroken (data_ s) (u, _) =
    (refl, (refl, (refl, (refl, (refl, (refl, (refl, All-append _ s (b'}' ∷ []) u (refl, tt))))))))
text-IsUnbroken (other s) (u, _, _) = u

text-Fits : (l : Line) → IsLine l → Fits (text l)
text-Fits (data_ s) (_, h) = h
text-Fits (other s) (_, h, _) = h

trim_left-object : (s : Bytes) → trim_left (object s) ≡ object s
unfolding trim_left is_space_text
trim_left-object [] = refl
trim_left-object (c ∷ []) = refl
trim_left-object (c ∷ d ∷ s) = refl

trim_left-space : (s : Bytes) → trim_left (b' ' ∷ object s) ≡ trim_left (object s)
unfolding trim_left is_space_text
trim_left-space [] = refl
trim_left-space (c ∷ s) = refl

trim_space-object : (s : Bytes) → trim_space (b' ' ∷ object s) ≡ object s
unfolding trim_space
trim_space-object s = rw (trim_left-space s, trim_left-object s) (trim_right-brace (b'{' ∷ s))

payload-data : (s : Bytes) → payload (drop_cr (text (data_ s))) ≡ some (b' ' ∷ object s)
unfolding trim_space trim_left is_space_text after_prefix
payload-data s =
    let whole = codes "data: {" ++ s in rw (drop_cr-brace whole) (rw (trim_right-brace whole) refl)

-- The scanner skips a line of another field, and stands behind the next event.
next-data :
    (f : ℕ) (s rest : Bytes)
    → IsLine (data_ s)
    → next (suc f) (text (data_ s) ++ b'\n' ∷ rest) ≡ event (object s) rest
unfolding next
next-data f s rest l =
    rw (scan-append (text (data_ s)) rest (text-IsUnbroken (data_ s) l) (text-Fits (data_ s) l))
      (rw (payload-data s) (rw (trim_space-object s) refl))

next-other :
    (f : ℕ) (s rest : Bytes) → IsLine (other s) → next (suc f) (s ++ b'\n' ∷ rest) ≡ next f rest
unfolding next
next-other f s rest (u, h, none_) = rw (scan-append s rest u h, none_) refl

-- What the goroutine sends, given the payloads of the events.
module _ (json : Chunks) where
  open json use {is_done, chunk_of}

  unfoldable pub deliver : List Bytes → Sent json
  deliver [] = ([], closed)
  deliver (s ∷ ss) =
      let later = deliver ss in if is_done s then ([], closed) else send json (chunk_of s) later

  -- What stands behind the lines: nothing, or a line too long for the scanner.
  pub data Stops : Bytes → Type 0 where
    end : Stops []
    long :
        (s rest : Bytes)
        → IsUnbroken s
        → leb max_token (length s) ≡ true
        → Stops (s ++ b'\n' ∷ rest)

  next-Stops : (f : ℕ) (rest : Bytes) → Stops rest → next (suc f) rest ≡ ended
  unfolding next
  next-Stops f rest end = unfold scan in refl
  next-Stops f rest (long s more u h) = rw (scan-long s more u h) refl

  abbrev Delivers : List Line → Bytes → Type 0
  Delivers ls rest =
      (f g : ℕ)
      → length (write ls rest) < suc f
      → length (write ls rest) < g
      → on_event json (stream_loop json f) (next g (write ls rest)) ≡ deliver (objects ls)

  -- A loop with fuel enough, from what the lines behind the first event give.
  stream_loop-Delivers :
      (ls : List Line) (f : ℕ) (rest : Bytes)
      → Delivers ls rest
      → length (write ls rest) < f
      → stream_loop json f (write ls rest) ≡ deliver (objects ls)
  unfolding stream_loop
  stream_loop-Delivers ls zero rest d h = absurd (omega arith)
  stream_loop-Delivers ls (suc f) rest d h = d f (suc f) h h

  length-write :
      (l : Line) (ls : List Line) (rest : Bytes)
      → length (write ls rest) < length (write (l ∷ ls) rest)
  unfolding write
  length-write l ls rest = omega (arith, length-append (text l) (b'\n' ∷ write ls rest))

  lines-Delivers : (ls : List Line) (rest : Bytes) → All IsLine ls → Stops rest → Delivers ls rest
  unfolding write objects deliver
  lines-Delivers [] rest a e f zero h k = absurd (omega arith)
  lines-Delivers [] rest a e f (suc g) h k = rw (next-Stops g rest e) refl
  lines-Delivers (l ∷ ls) rest a e f zero h k = absurd (omega arith)
  lines-Delivers (data_ s ∷ ls) rest (l, a) e f (suc g) h k =
      let shorter = length-write (data_ s) ls rest in
      rw (next-data g s (write ls rest) l)
        (rw (stream_loop-Delivers ls f rest (lines-Delivers ls rest a e) (omega arith)) refl)
  lines-Delivers (other s ∷ ls) rest (l, a) e f (suc g) h k =
      let shorter = length-write (other s) ls rest in
      rw (next-other g s (write ls rest) l)
        (lines-Delivers ls rest a e f g (omega arith) (omega arith))

  stream-Stops :
      (ls : List Line) (rest : Bytes)
      → All IsLine ls
      → Stops rest
      → stream json (write ls rest) ≡ deliver (objects ls)
  unfolding stream
  stream-Stops ls rest a e =
      stream_loop-Delivers ls (length (write ls rest) + 1) rest (lines-Delivers ls rest a e)
        (omega arith)

  -- On a body of lines that fit the scanner's buffer, with a JSON object in each line of the field
  -- `data`, `ChatStream` sends the chunks of these objects in their order, up to the first that says
  -- it is done or that is no chunk, for which it sends the error.
  pub stream-write :
      (ls : List Line) → All IsLine ls → stream json (write ls []) ≡ deliver (objects ls)
  stream-write ls a = stream-Stops ls [] a end

  -- A line that does not fit the scanner's buffer, behind lines that do, and all that follows it, is
  -- lost: `ChatStream` sends the same chunks, and ends as if the body ended before it.
  pub stream-write_long :
      (ls : List Line) (s rest : Bytes)
      → All IsLine ls
      → IsUnbroken s
      → leb max_token (length s) ≡ true
      → stream json (write ls (s ++ b'\n' ∷ rest)) ≡ stream json (write ls [])
  stream-write_long ls s rest a u h =
      stream-Stops ls (s ++ b'\n' ∷ rest) a (long s rest u h) ∙ sym (stream-write ls a)
