-- ===== src/Client/Streaming.antt =====
-- sdk/go/client/client.go: `ChatStream`.
pub mod Chunked
mod Tests
use noetivela_open.Prelude.{
  List, ℕ, Bool, true, false, some, [], Bytes, codes, ◌⊎◌, inl, inr, ◌==◌, if◌then◌else◌,
}
use noetivela_open.Client.Types.{ChatChunk, Message, Body, chat as chat_body}
use noetivela_open.Client.Call.{
  Gateway, Client, Request, Response, Failure, library, http, new_request, lift,
}
use noetivela_open.Client.Events.{Chunks, Ending, failed, Sent, stream}

module _ (gw : Gateway) where
  open gw use {Error, World, round_trip, unmarshal_done, unmarshal_chunk}

  -- `err == nil && done.Done`
  abbrev pub says_done : Error ⊎ Bool → Bool
  says_done (inl e) = false
  says_done (inr done) = done

  abbrev pub chunks : Chunks
  chunks = record {
    Chunk = ChatChunk;
    Error = Failure Error;
    is_done = λ s. says_done (unmarshal_done s);
    chunk_of = λ s. lift gw (unmarshal_chunk s);
  }

  abbrev pub answered : (Error ⊎ Response Error) × World → Sent chunks × World
  answered (inl e, w) = (([], failed (library e)), w)
  answered (inr resp, w) = (
    if resp.status == 200
        then stream chunks resp.body
        else ([], failed (http resp.status resp.body)),
    w,
  )

  abbrev pub requested : Error ⊎ Request → World → Sent chunks × World
  requested (inl e) w = (([], failed (library e)), w)
  requested (inr req) w = answered (round_trip req w)

  -- What the two channels give, and the world behind the round trip.
  unfoldable pub chat_stream : Client → Bytes → List Message → World → Sent chunks × World
  chat_stream c model messages w =
      requested
        (new_request gw c (codes "POST") (codes "/v1/chat/completions")
          (some (chat_body (record { model = model; messages = messages; stream = true }))))
        w
