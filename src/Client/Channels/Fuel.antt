-- ===== src/Client/Channels/Fuel.antt =====
-- sdk/go/client: the loops over the lines and the events, with different amounts of fuel.
use noetivela_open.Prelude.{
  ℕ, zero, suc, ◌+◌, ◌<◌, ◌≡◌, refl, Option, none, some, Bytes, length, arith, ap, ◌∙◌,
}
use noetivela_open.Client.Lines.{scan}
use noetivela_open.Client.Events.{
  Event, ended, out_of_fuel, event, payload, event_of, event_in, next, Chunks, on_event,
  stream_loop, stream,
}
use noetivela_open.Client.Events.Progress.{Advances, scan-Advances, Yields, next-Yields}

module _ (f g : ℕ) (cs : Bytes)
    (same : (rest : Bytes) → length rest < length cs → next f rest ≡ next g rest) where
  event_of-same :
      (rest : Bytes) (p : Option Bytes)
      → length rest < length cs
      → event_of (next f) rest p ≡ event_of (next g) rest p
  event_of-same rest none h = same rest h
  event_of-same rest (some s) h = refl

  event_in-same :
      (r : Option (Bytes × Bytes)) → Advances cs r → event_in (next f) r ≡ event_in (next g) r
  event_in-same none a = refl
  event_in-same (some (line, rest)) a = event_of-same rest (payload line) a

-- Two amounts of fuel above the number of bytes give the same event.
pub next-enough : (f g : ℕ) (cs : Bytes) → length cs < f → length cs < g → next f cs ≡ next g cs
unfolding next
next-enough zero g cs h k = absurd (omega arith)
next-enough (suc f) zero cs h k = absurd (omega arith)
next-enough (suc f) (suc g) cs h k =
    event_in-same f g cs (λ rest l. next-enough f g rest (omega arith) (omega arith)) (scan cs)
      (scan-Advances cs)

module _ (json : Chunks) where
  open json use {is_done, chunk_of}

  on_event-same :
      (f g : ℕ) (cs : Bytes) (r : Event)
      → ((rest : Bytes)
          → length rest < length cs
          → stream_loop json f rest ≡ stream_loop json g rest)
      → Yields cs r
      → on_event json (stream_loop json f) r ≡ on_event json (stream_loop json g) r
  on_event-same f g cs ended k y = refl
  on_event-same f g cs out_of_fuel k y = refl
  on_event-same f g cs (event s rest) k y = rw (k rest y) refl

  stream_loop-enough :
      (f g : ℕ) (cs : Bytes)
      → length cs < f
      → length cs < g
      → stream_loop json f cs ≡ stream_loop json g cs
  unfolding stream_loop
  stream_loop-enough zero g cs h k = absurd (omega arith)
  stream_loop-enough (suc f) zero cs h k = absurd (omega arith)
  stream_loop-enough (suc f) (suc g) cs h k =
      ap (on_event json (stream_loop json f)) (next-enough (suc f) (suc g) cs h k)
      ∙ on_event-same f g cs (next (suc g) cs)
          (λ rest l. stream_loop-enough f g rest (omega arith) (omega arith))
          (next-Yields (suc g) cs k)

  -- A round of the loop, with the fuel that the rest of the bytes needs.
  pub stream-round :
      (reader : Bytes)
      → stream json reader ≡ on_event json (stream json) (next (length reader + 1) reader)
  unfolding stream stream_loop
  stream-round reader =
      stream_loop-enough (length reader + 1) (suc (length reader)) reader (omega arith)
        (omega arith)
      ∙ round (next (suc (length reader)) reader)
          (next-Yields (suc (length reader)) reader (omega arith))
      ∙ ap (on_event json (stream json))
          (next-enough (suc (length reader)) (length reader + 1) reader (omega arith) (omega arith))
    where
      round :
          (r : Event)
          → Yields reader r
          → on_event json (stream_loop json (length reader)) r ≡ on_event json (stream json) r
      round ended y = refl
      round out_of_fuel y = refl
      round (event s rest) y =
          rw (stream_loop-enough (length reader) (length rest + 1) rest y (omega arith)) refl
