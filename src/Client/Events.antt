-- ===== src/Client/Events.antt =====
-- sdk/go/client/sse.go: `sseScanner.Next`; and the loop of `ChatStream` (client.go) over it.
-- A round of a loop costs a unit of fuel; more than the bytes left is enough.
pub mod Progress
pub mod Stream
use noetivela_open.Prelude.{
  ℕ, zero, suc, ◌+◌, Bool, true, false, Option, none, some, List, [], ◌∷◌, Bytes, codes, length,
  ◌⊎◌, inl, inr, if◌then◌else◌,
}
use noetivela_open.Client.Lines.{scan, trim_space, after_prefix}

-- `out_of_fuel` has no counterpart in the program.
pub data Event : Type 0 where
  ended out_of_fuel : Event
  event : Bytes → Bytes → Event

abbrev pub payload : Bytes → Option Bytes
payload line = after_prefix (codes "data:") (trim_space line)

module _ (next_from : Bytes → Event) where
  abbrev pub event_of : Bytes → Option Bytes → Event
  event_of rest none = next_from rest
  event_of rest (some data_) = event (trim_space data_) rest

  abbrev pub event_in : Option (Bytes × Bytes) → Event
  event_in none = ended
  event_in (some (line, rest)) = event_of rest (payload line)

-- The payload of the next event, and the bytes behind it.
unfoldable pub next : ℕ → Bytes → Event
next zero reader = out_of_fuel
next (suc f) reader = event_in (next f) (scan reader)

-- How the channels of `ChatStream` are left: closed, or with an error sent.
pub data Ending (Error : Type 0) : Type 0 where
  closed out_of_fuel : Ending Error
  failed : Error → Ending Error

-- encoding/json on the payloads: whether the event unmarshals with `done` set, and its chunk.
pub record Chunks : Type 1 where
  pub Chunk : Type 0
  pub Error : Type 0
  pub is_done : Bytes → Bool
  pub chunk_of : Bytes → Error ⊎ Chunk

module _ (json : Chunks) where
  open json use {Chunk, Error, is_done, chunk_of}

  -- The chunks sent on the first channel, in their order, and how the goroutine ends.
  abbrev pub Sent : Type 0
  Sent = List Chunk × Ending Error

  abbrev pub send : Error ⊎ Chunk → Sent → Sent
  send (inl e) later = ([], failed e)
  send (inr c) (cs, ending) = (c ∷ cs, ending)

  module _ (later_from : Bytes → Sent) where
    abbrev pub on_event : Event → Sent
    on_event ended = ([], closed)
    on_event out_of_fuel = ([], out_of_fuel)
    on_event (event s rest) =
        let later = later_from rest in if is_done s then ([], closed) else send (chunk_of s) later

  unfoldable pub stream_loop : ℕ → Bytes → Sent
  stream_loop zero reader = ([], out_of_fuel)
  stream_loop (suc f) reader = on_event (stream_loop f) (next (suc f) reader)

  -- `ChatStream` on the body of a response with the status 200
  unfoldable pub stream : Bytes → Sent
  stream reader = stream_loop (length reader + 1) reader
