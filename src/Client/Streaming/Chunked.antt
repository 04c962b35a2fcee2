-- ===== src/Client/Streaming/Chunked.antt =====
-- sdk/go/client/client.go: `ChatStream` on any reply, and on the lines that a gateway writes.
use noetivela_open.Prelude.{
  true, Bool-cases, Option, some, List, [], Bytes, codes, ◌⊎◌, inl, inr, ◌==◌, ◌≡◌, ◌≢◌, refl, All,
}
use noetivela_open.Client.Types.{Message, Body, chat as chat_body}
use noetivela_open.Client.Call.{Gateway, Client, Request, Response, new_request}
use noetivela_open.Client.Events.{Ending, Sent}
use noetivela_open.Client.Events.Progress.{stream-ne-out_of_fuel}
use noetivela_open.Client.Events.Stream.{Line, IsLine, write, objects, deliver, stream-write}
use noetivela_open.Client.Streaming.{chunks, answered, requested, chat_stream}

abbrev pub stream_request : {Float : Type 0} → Bytes → List Message → Option (Body Float)
stream_request model messages =
    some (chat_body (record { model = model; messages = messages; stream = true }))

module _ (gw : Gateway) where
  open gw use {Error, World, round_trip}

  abbrev Ends : Sent (chunks gw) × World → Type 0
  Ends ((_, ending), _) = ending ≢ Ending.out_of_fuel

  answered-Ends : (r : Error ⊎ Response Error) (w : World) → Ends (answered gw (r, w))
  answered-Ends (inl e) w = λ h. cc
  answered-Ends (inr resp) w = elim (Bool-cases (resp.status == 200)) [
    | inl h ↦ rw h (stream-ne-out_of_fuel (chunks gw) resp.body)
    | inr h ↦ rw h (λ e. cc)
  ]

  requested-Ends : (r : Error ⊎ Request) (w : World) → Ends (requested gw r w)
  requested-Ends (inl e) w = λ h. cc
  requested-Ends (inr req) w = answered-Ends (round_trip req w).0 (round_trip req w).1

  -- Whatever the request, the response and the bytes of the body are, the fuel of the loops over the
  -- lines and the events of the body suffices: where each chunk that is sent is taken, they come to
  -- their end.
  pub chat_stream-ne-out_of_fuel :
      (c : Client) (model : Bytes) (messages : List Message) (w : World)
      → ((chat_stream gw c model messages w).0).1 ≢ Ending.out_of_fuel
  unfolding chat_stream
  chat_stream-ne-out_of_fuel c model messages w = requested-Ends (new_request gw c _ _ _) w

  -- If the request of `ChatStream` is made and answered with the status 200, and the bytes of the body
  -- are lines that fit the scanner's buffer with a JSON object in each line of the field `data`, the
  -- chunks of these objects are sent in their order, up to the first that says it is done or that is
  -- no chunk, and an error behind the bytes is not sent.
  pub chat_stream-write :
      (c : Client) (model : Bytes) (messages : List Message) (ls : List Line) (w w' : World)
      (req : Request) (read_error : Option Error)
      → new_request gw c
          (codes "POST")
          (codes "/v1/chat/completions")
          (stream_request model messages)
        ≡ inr req
      → round_trip req w
        ≡ (inr (record { status = 200; body = write ls []; read_error = read_error }), w')
      → All IsLine ls
      → chat_stream gw c model messages w ≡ (deliver (chunks gw) (objects ls), w')
  unfolding chat_stream
  chat_stream-write c model messages ls w w' req read_error made answer a =
      rw made (rw answer (rw (stream-write (chunks gw) ls a) refl))
