-- ===== src/Client/Events/Progress.antt =====
-- sdk/go/client/sse.go: the bytes that the loops over the lines and the events take.
use noetivela_open.Prelude.{
  ℕ, zero, suc, ◌+◌, ◌<◌, ◌≤◌, ◌≢◌, Bool-cases, Option, none, some, [], ◌∷◌, Bytes, length, ◌==◌,
  leb, arith, ◌⊎◌, inl, inr, subst,
}
use noetivela_open.Client.Lines.{cut_line, max_token, scan}
use noetivela_open.Client.Events.{
  Event, ended, out_of_fuel, event, payload, event_of, event_in, next, Ending, Chunks, Sent, send,
  on_event, stream_loop, stream,
}

cut_line-shorter : (cs : Bytes) → length ((cut_line cs).1) ≤ length cs
unfolding cut_line
cut_line-shorter [] = omega arith
cut_line-shorter (c ∷ cs) = elim (Bool-cases (c == b'\n')) [
  | inl h ↦ rw h (omega arith)
  | inr h ↦ rw h (omega (arith, cut_line-shorter cs))
]

-- A line is taken from the bytes, with its end.
abbrev pub Advances : Bytes → Option (Bytes × Bytes) → Type 0
Advances cs none = Unit
Advances cs (some (_, rest)) = length rest < length cs

cut_line-advances : (c : ℕ) (cs : Bytes) → length ((cut_line (c ∷ cs)).1) < length (c ∷ cs)
unfolding cut_line
cut_line-advances c cs = elim (Bool-cases (c == b'\n')) [
  | inl h ↦ rw h (omega arith)
  | inr h ↦ rw h (omega (arith, cut_line-shorter cs))
]

pub scan-Advances : (cs : Bytes) → Advances cs (scan cs)
unfolding scan
scan-Advances [] = tt
scan-Advances (c ∷ cs) = elim (Bool-cases (leb max_token (length ((cut_line (c ∷ cs)).0)))) [
  | inl h ↦ rw h tt
  | inr h ↦ rw h (cut_line-advances c cs)
]

-- The scanner has ended, or given an event and fewer bytes.
abbrev pub Yields : Bytes → Event → Type 0
Yields cs ended = Unit
Yields cs out_of_fuel = ⊥
Yields cs (event _ rest) = length rest < length cs

Yields-grows : (cs ds : Bytes) (r : Event) → length cs < length ds → Yields cs r → Yields ds r
Yields-grows cs ds ended h y = tt
Yields-grows cs ds out_of_fuel h y = y
Yields-grows cs ds (event _ rest) h y = omega arith

module _ (f : ℕ) (cs : Bytes)
    (next-from : (rest : Bytes) → length rest < length cs → Yields rest (next f rest)) where
  event_of-Yields :
      (rest : Bytes) (p : Option Bytes)
      → length rest < length cs
      → Yields cs (event_of (next f) rest p)
  event_of-Yields rest none h = Yields-grows rest cs (next f rest) h (next-from rest h)
  event_of-Yields rest (some s) h = h

  event_in-Yields : (r : Option (Bytes × Bytes)) → Advances cs r → Yields cs (event_in (next f) r)
  event_in-Yields none a = tt
  event_in-Yields (some (line, rest)) a = event_of-Yields rest (payload line) a

pub next-Yields : (f : ℕ) (cs : Bytes) → length cs < f → Yields cs (next f cs)
unfolding next
next-Yields zero cs h = absurd (omega arith)
next-Yields (suc f) cs h =
    event_in-Yields f cs (λ rest k. next-Yields f rest (omega arith)) (scan cs) (scan-Advances cs)

pub next-ne-out_of_fuel : (cs : Bytes) → next (length cs + 1) cs ≢ out_of_fuel
next-ne-out_of_fuel cs h = subst (Yields cs) h (next-Yields (length cs + 1) cs (omega arith))

module _ (json : Chunks) where
  open json use {Chunk, Error, is_done, chunk_of}

  send-ends :
      (r : Error ⊎ Chunk) (later : Sent json)
      → later.1 ≢ Ending.out_of_fuel
      → (send json r later).1 ≢ Ending.out_of_fuel
  send-ends (inl e) later h = cc
  send-ends (inr c) (cs, ending) h = h

  on_event-ends :
      (f : ℕ) (cs : Bytes) (r : Event)
      → ((rest : Bytes)
          → length rest < length cs
          → (stream_loop json f rest).1 ≢ Ending.out_of_fuel)
      → Yields cs r
      → (on_event json (stream_loop json f) r).1 ≢ Ending.out_of_fuel
  on_event-ends f cs ended k y = cc
  on_event-ends f cs out_of_fuel k y = absurd y
  on_event-ends f cs (event s rest) k y = elim (Bool-cases (is_done s)) [
    | inl h ↦ rw h (λ e. cc)
    | inr h ↦ rw h (send-ends (chunk_of s) (stream_loop json f rest) (k rest y))
  ]

  stream_loop-ends :
      (f : ℕ) (cs : Bytes) → length cs < f → (stream_loop json f cs).1 ≢ Ending.out_of_fuel
  unfolding stream_loop
  stream_loop-ends zero cs h = absurd (omega arith)
  stream_loop-ends (suc f) cs h =
      on_event-ends f cs (next (suc f) cs) (λ rest k. stream_loop-ends f rest (omega arith))
        (next-Yields (suc f) cs h)

  -- On every body the goroutine of `ChatStream` ends: the fuel suffices.
  pub stream-ne-out_of_fuel : (reader : Bytes) → (stream json reader).1 ≢ Ending.out_of_fuel
  unfolding stream
  stream-ne-out_of_fuel reader = stream_loop-ends (length reader + 1) reader (omega arith)
