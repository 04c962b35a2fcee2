-- ===== src/Client/Channels.antt =====
-- sdk/go/client/client.go: `ChatStream`, as turns of its goroutine and of the receiver.
-- A send on `ch` waits for the receiver; `errCh` holds one error, and a send on it waits while it is
-- full. The receiver takes chunks until it leaves.
pub mod Fuel
pub mod Refinement
pub mod Liveness
pub mod Leaks
mod Tests
use noetivela_open.Prelude.{
  ℕ, ◌+◌, Bool, true, false, Option, none, some, List, [], ◌∷◌, ◌++◌, Bytes, codes, length, ◌⊎◌,
  inl, inr, ◌==◌, if◌then◌else◌,
}
use noetivela_open.Client.Types.{Message, Body, chat as chat_body}
use noetivela_open.Client.Call.{Gateway, Client, Request, Response, library, http, new_request}
use noetivela_open.Client.Events.{Event, ended, out_of_fuel, event, next, Chunks}
use noetivela_open.Client.Streaming.{chunks}

pub data Turn : Type 0 where
  go take leave : Turn

module _ (json : Chunks) where
  open json use {Chunk, Error, is_done, chunk_of}

  -- At the head of the loop, at `ch <- chunk`, at `errCh <- err`, and behind the close of `ch`.
  pub data Goroutine : Type 0 where
    reading : Bytes → Goroutine
    sending : Chunk → Bytes → Goroutine
    failing : Error → Goroutine
    returned : Goroutine

  pub record Channels : Type 0 where
    pub goroutine : Goroutine
    pub received : List Chunk
    pub errors : List Error
    pub listening : Bool

  abbrev pub start : Goroutine → Channels
  start g = record { goroutine = g; received = []; errors = []; listening = true }

  abbrev pub offered : Bytes → Error ⊎ Chunk → Goroutine
  offered rest (inl e) = failing e
  offered rest (inr c) = sending c rest

  abbrev pub behind_event : Event → Goroutine
  behind_event ended = returned
  behind_event out_of_fuel = returned
  behind_event (event s rest) = if is_done s then returned else offered rest (chunk_of s)

  unfoldable pub read : Bytes → Goroutine
  read reader = behind_event (next (length reader + 1) reader)

  -- A turn, if it is not one that has to wait.
  abbrev pub move_from : Turn → Goroutine → Bool → Channels → Option Channels
  move_from go (reading reader) _ s = some (record s { goroutine = read reader })
  move_from go (failing e) _ s =
      if length s.errors == 0
      then some (record s { goroutine = returned; errors = s.errors ++ e ∷ [] })
      else none
  move_from take (sending c rest) true s =
      some (record s { goroutine = reading rest; received = s.received ++ c ∷ [] })
  move_from leave _ true s = some (record s { listening = false })
  move_from _ _ _ _ = none

  unfoldable pub move : Turn → Channels → Option Channels
  move t s = move_from t s.goroutine s.listening s

  abbrev pub moved : (Channels → Option Channels) → Option Channels → Option Channels
  moved later none = none
  moved later (some s) = later s

  unfoldable pub run : List Turn → Channels → Option Channels
  run [] s = some s
  run (t ∷ ts) s = moved (run ts) (move t s)

module _ (gw : Gateway) where
  open gw use {Error, World, round_trip}

  abbrev pub opened : (Error ⊎ Response Error) × World → Goroutine (chunks gw) × World
  opened (inl e, w) = (failing (library e), w)
  opened (inr resp, w) =
      (if resp.status == 200 then reading resp.body else failing (http resp.status resp.body), w)

  abbrev pub launched : Error ⊎ Request → World → Goroutine (chunks gw) × World
  launched (inl e) w = (failing (library e), w)
  launched (inr req) w = opened (round_trip req w)

  -- The goroutine with its request answered or refused.
  unfoldable pub launch : Client → Bytes → List Message → World → Goroutine (chunks gw) × World
  launch c model messages w =
      launched
        (new_request gw c (codes "POST") (codes "/v1/chat/completions")
          (some (chat_body (record { model = model; messages = messages; stream = true }))))
        w
