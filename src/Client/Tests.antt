-- ===== src/Client/Tests.antt =====
-- Streams of events on which the theorems of Client are applied.
use noetivela_open.Prelude.{
  ℕ, zero, suc, ◌≡◌, refl, true, false, List, [], ◌∷◌, ◌++◌, inr, Bytes, codes, equal, length, All,
  leb, ◌==◌, arith,
}
use noetivela_open.Client.Lines.{
  cut_line, drop_cr, max_token, scan, is_space_text, trim_left, trim_right, trim_space,
  after_prefix,
}
use noetivela_open.Client.Events.{next, Chunks, closed, stream_loop, stream}
use noetivela_open.Client.Events.Stream.{
  Line, data_, other, IsLine, IsUnbroken, write, objects, deliver, stream-write_long,
}

-- Each payload is its own chunk, but `{"done":true}`, which ends the stream.
abbrev texts : Chunks
texts = record {
  Chunk = Bytes;
  Error = Unit;
  is_done = λ s. equal s (codes "{\"done\":true}");
  chunk_of = λ s. inr s;
}

everything : Unit {0}
unfolding equal cut_line drop_cr scan is_space_text trim_left trim_right trim_space after_prefix
    next stream_loop stream write objects deliver
everything = tt

reads_events :
    stream texts (codes ": ping\ndata: {\"delta\":1}\r\n\ndata:{\"done\":true}\ndata: {}\n")
    ≡ (codes "{\"delta\":1}" ∷ [], closed)
unfolding everything
reads_events = refl

abbrev pub lines : List Line
lines =
    other (codes ": ping")
    ∷ data_ (codes "\"delta\":1")
    ∷ other []
    ∷ data_ (codes "\"done\":true")
    ∷ []

pub lines-AreLines : All IsLine lines
unfolding everything
lines-AreLines = (
  ((refl, (refl, (refl, (refl, (refl, (refl, tt)))))), refl, refl),
  (
    ((refl, (refl, (refl, (refl, (refl, (refl, (refl, (refl, (refl, tt))))))))), refl),
    (
      (tt, refl, refl),
      (
        (
          (
            refl,
            (refl, (refl, (refl, (refl, (refl, (refl, (refl, (refl, (refl, (refl, tt)))))))))),
          ),
          refl,
        ),
        tt,
      ),
    ),
  ),
)

repeat : ℕ → ℕ → Bytes
repeat zero c = []
repeat (suc n) c = c ∷ repeat n c

length-repeat : (n c : ℕ) → length (repeat n c) ≡ n
unfolding repeat
length-repeat zero c = refl
length-repeat (suc n) c = omega (arith, length-repeat n c)

repeat-IsUnbroken : (n c : ℕ) → (c == b'\n') ≡ false → IsUnbroken (repeat n c)
unfolding repeat
repeat-IsUnbroken zero c h = tt
repeat-IsUnbroken (suc n) c h = (h, repeat-IsUnbroken n c h)

repeat-long : leb max_token (length (repeat 65536 b'x')) ≡ true
repeat-long = rw (length-repeat 65536 b'x') refl

stream-write_long_example :
    stream texts (write lines (repeat 65536 b'x' ++ b'\n' ∷ codes "data: {}\n"))
    ≡ stream texts (write lines [])
stream-write_long_example =
    stream-write_long texts lines (repeat 65536 b'x') (codes "data: {}\n") lines-AreLines
      (repeat-IsUnbroken 65536 b'x' refl) repeat-long
