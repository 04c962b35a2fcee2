-- ===== src/Client/Calls/Replies.antt =====
-- What `Chat` makes of a reply.
use noetivela_open.Prelude.{
  ℕ, ◌≤◌, ◌<◌, true, false, Bool-cases, ◌||◌, Option, none, some, List, [], ◌∷◌, Bytes, codes,
  equal, equal_iff, ◌⊎◌, inl, inr, ◌≡◌, refl, ltb, leb, arith, subst,
}
use noetivela_open.Client.Types.{
  Message, Choice, ChatEnvelope, ChatResponse, Body, chat as chat_body, UnsatisfiableError,
}
use noetivela_open.Client.Call.{
  Gateway, Client, Request, Response, unsatisfiable, new_request, call, read_response, map_error,
  lift, sent, received, unsatisfied,
}
use noetivela_open.Client.Calls.{Called, chat, first_choice, and_then}

abbrev pub chat_request : {Float : Type 0} → Bytes → List Message → Option (Body Float)
chat_request model messages =
    some (chat_body (record { model = model; messages = messages; stream = false }))

module _ (gw : Gateway) where
  open gw use {Float, Error, World, round_trip, unmarshal_chat, unmarshal_unsatisfiable}

  -- A reply was received: the request that was sent, and the status and the body that came back.
  pub record Replied (c : Client) (model : Bytes) (messages : List Message) (w w' : World)
      : Type 0 where
    pub req : Request
    pub asked :
        new_request gw c (codes "POST") (codes "/v1/chat/completions") (chat_request model messages)
        ≡ inr req
    pub status : ℕ
    pub raw : Bytes
    pub replied :
        round_trip req w ≡ (inr (record { status = status; body = raw; read_error = none }), w')

  pub record Answered (c : Client) (model : Bytes) (messages : List Message) (w w' : World)
      (r : ChatResponse Float) : Type 0 where
    pub reply : Replied c model messages w w'
    pub at_least : 200 ≤ reply.status
    pub below : reply.status < 300
    pub env : ChatEnvelope Float
    pub reads : unmarshal_chat reply.raw ≡ inr env
    pub choice : Choice
    pub others : List Choice
    pub choices : env.choices ≡ choice ∷ others
    pub response : r ≡ record {
      content = choice.content;
      finish_reason = choice.finish_reason;
      usage = env.usage;
      noetivela = env.noetivela;
    }

  pub record Refused (c : Client) (model : Bytes) (messages : List Message) (w w' : World)
      (ue : UnsatisfiableError) : Type 0 where
    pub reply : Replied c model messages w w'
    pub outside : (ltb reply.status 200 || leb 300 reply.status) ≡ true
    pub reads : unmarshal_unsatisfiable reply.raw ≡ inr ue
    pub type_is : ue.type ≡ codes "unsatisfiable_contract"

  -- What a result of `Chat` says.
  abbrev Explains : Client → Bytes → List Message → World → Called gw (ChatResponse Float) → Type 0
  Explains c model messages w (inr r, w') = Answered c model messages w w' r
  Explains c model messages w (inl (unsatisfiable ue), w') = Refused c model messages w w' ue
  Explains c model messages w (inl _, w') = Unit

  module _ (c : Client) (model : Bytes) (messages : List Message) (w : World) where
    abbrev finish : Called gw (ChatEnvelope Float) → Called gw (ChatResponse Float)
    finish r = and_then gw r (λ env. first_choice gw env env.choices) (map_error gw)

    choices-Explains :
        (w' : World) (reply : Replied c model messages w w') (env : ChatEnvelope Float)
        → 200 ≤ reply.status
        → reply.status < 300
        → unmarshal_chat reply.raw ≡ inr env
        → (cs : List Choice) → env.choices ≡ cs
        → Explains c model messages w (first_choice gw env cs, w')
    choices-Explains w' reply env lo hi u [] e = tt
    choices-Explains w' reply env lo hi u (choice ∷ others) e = record {
      reply = reply;
      at_least = lo;
      below = hi;
      env = env;
      reads = u;
      choice = choice;
      others = others;
      choices = e;
      response = refl;
    }

    envelope-Explains :
        (w' : World) (reply : Replied c model messages w w')
        → 200 ≤ reply.status
        → reply.status < 300
        → (r : Error ⊎ ChatEnvelope Float) → unmarshal_chat reply.raw ≡ r
        → Explains c model messages w (finish (lift gw r, w'))
    unfolding map_error
    envelope-Explains w' reply lo hi (inl e) u = tt
    envelope-Explains w' reply lo hi (inr env) u =
        choices-Explains w' reply env lo hi u env.choices refl

    unsatisfied-Explains :
        (w' : World) (reply : Replied c model messages w w')
        → (ltb reply.status 200 || leb 300 reply.status) ≡ true
        → (r : Error ⊎ UnsatisfiableError) → unmarshal_unsatisfiable reply.raw ≡ r
        → Explains c model messages w (inl (unsatisfied gw reply.status reply.raw r), w')
    unsatisfied-Explains w' reply o (inl e) u = tt
    unsatisfied-Explains w' reply o (inr ue) u =
        elim (Bool-cases (equal ue.type (codes "unsatisfiable_contract"))) [
          | inl h ↦ rw h (record {
            reply = reply;
            outside = o;
            reads = u;
            type_is = (equal_iff ue.type (codes "unsatisfiable_contract")).0 h;
          })
          | inr h ↦ rw h tt
        ]

    body-Explains :
        (req : Request) (w' : World) (s : ℕ) (raw : Bytes) (b : Option Error)
        → new_request gw c
            (codes "POST")
            (codes "/v1/chat/completions")
            (chat_request model messages)
          ≡ inr req
        → round_trip req w ≡ (inr (record { status = s; body = raw; read_error = b }), w')
        → Explains c model messages w (
            finish (
              received gw unmarshal_chat
                (inr (record { status = s; body = raw; read_error = b }), w')))
    unfolding read_response map_error
    body-Explains req w' s raw (some e) q t = tt
    body-Explains req w' s raw none q t =
        let reply : Replied c model messages w w' = record {
          req = req;
          asked = q;
          status = s;
          raw = raw;
          replied = t;
        } in
        elim (Bool-cases (ltb s 200 || leb 300 s)) [
          | inl h ↦ rw h (unsatisfied-Explains w' reply h (unmarshal_unsatisfiable raw) refl)
          | inr h ↦
              rw h
                (envelope-Explains w' reply (ground arith) (ground arith) (unmarshal_chat raw) refl)
        ]

    response-Explains :
        (req : Request) (w' : World) (r : Error ⊎ Response Error)
        → new_request gw c
            (codes "POST")
            (codes "/v1/chat/completions")
            (chat_request model messages)
          ≡ inr req
        → round_trip req w ≡ (r, w')
        → Explains c model messages w (finish (received gw unmarshal_chat (r, w')))
    unfolding map_error
    response-Explains req w' (inl e) q t = tt
    response-Explains req w' (inr resp) q t =
        body-Explains req w' resp.status resp.body resp.read_error q t

    request-Explains :
        (r : Error ⊎ Request)
        → new_request gw c
            (codes "POST")
            (codes "/v1/chat/completions")
            (chat_request model messages)
          ≡ r
        → Explains c model messages w (finish (sent gw unmarshal_chat r w))
    unfolding map_error
    request-Explains (inl e) q = tt
    request-Explains (inr req) q =
        response-Explains req (round_trip req w).1 (round_trip req w).0 q refl

    chat-Explains : Explains c model messages w (chat gw c model messages w)
    unfolding chat call
    chat-Explains = request-Explains _ refl

    -- If `Chat` returns a response, it has sent its request, the reply had a status from 200 to 299
    -- and a body that reads as an envelope with a choice at least, and the response is the first
    -- choice with the usage and the routing evidence of the envelope.
    pub chat-Answered :
        {r : ChatResponse Float} {w' : World}
        → chat gw c model messages w ≡ (inr r, w')
        → Answered c model messages w w' r
    chat-Answered h = subst (Explains c model messages w) h chat-Explains

    -- If `Chat` returns an UnsatisfiableError, it has sent its request, the reply had a status
    -- outside 200 to 299, and its body reads as this error with the type unsatisfiable_contract.
    pub chat-Refused :
        {ue : UnsatisfiableError} {w' : World}
        → chat gw c model messages w ≡ (inl (unsatisfiable ue), w')
        → Refused c model messages w w' ue
    chat-Refused h = subst (Explains c model messages w) h chat-Explains
