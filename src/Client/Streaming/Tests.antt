-- ===== src/Client/Streaming/Tests.antt =====
-- A gateway that streams, on which the theorems on `ChatStream` are applied.
use noetivela_open.Prelude.{none, ◌≡◌, ◌≢◌, refl, some, [], ◌∷◌, inr, codes, equal}
use noetivela_open.Client.Types.{ChatChunk}
use noetivela_open.Client.Call.{
  Request, Gateway, set, set_named, set_names, body_bytes, set_contract, new_request,
}
use noetivela_open.Client.Events.{Ending, closed}
use noetivela_open.Client.Events.Stream.{write, objects, deliver}
use noetivela_open.Client.Tests.{lines, lines-AreLines}
use noetivela_open.Client.Calls.Tests.{gateway, client, greeting}
use noetivela_open.Client.Streaming.{chat_stream}
use noetivela_open.Client.Streaming.Chunked.{
  stream_request, chat_stream-ne-out_of_fuel, chat_stream-write,
}

abbrev chunk : ChatChunk
chunk = record { delta = codes "1"; finish_reason = []; usage = none }

-- The read fails behind the lines.
abbrev streaming : Gateway
streaming = record gateway {
  unmarshal_done = λ s. inr (equal s (codes "{\"done\":true}"));
  unmarshal_chunk = λ s. inr chunk;
  round_trip =
      λ req w. (inr (record { status = 200; body = write lines []; read_error = some tt }), w);
}

abbrev request : Request
request = record {
  method = codes "POST";
  url = codes "http://localhost/v1/chat/completions";
  headers =
      (codes "Content-Type", codes "application/json")
      ∷ (codes "X-Noetivela-Contract", codes "{\"task\":\"t\"}")
      ∷ (codes "X-Noetivela-Policy", codes "p")
      ∷ [];
  body = some (codes "{}");
}

makes_request :
    new_request streaming client
      (codes "POST")
      (codes "/v1/chat/completions")
      (stream_request (codes "auto") greeting)
    ≡ inr request
unfolding new_request body_bytes set_contract set_names set_named set equal
makes_request = refl

chat_stream-ne-out_of_fuel_example :
    ((chat_stream streaming client (codes "auto") greeting 0).0).1 ≢ Ending.out_of_fuel
chat_stream-ne-out_of_fuel_example =
    chat_stream-ne-out_of_fuel streaming client (codes "auto") greeting 0

chat_stream-write_example :
    chat_stream streaming client (codes "auto") greeting 0 ≡ ((chunk ∷ [], closed), 0)
unfolding objects deliver equal
chat_stream-write_example =
    chat_stream-write streaming client (codes "auto") greeting lines 0 0 request (some tt)
      makes_request refl lines-AreLines
