-- ===== src/Client/Call/Outcomes.antt =====
-- What `do` returns.
use noetivela_open.Prelude.{
  ℕ, ◌≤◌, ◌<◌, ◌≡◌, refl, true, Bool-cases, ◌||◌, Option, none, some, Bytes, ◌⊎◌, inl, inr, ltb,
  leb, arith,
}
use noetivela_open.Client.Types.{Body}
use noetivela_open.Client.Call.{
  Gateway, Client, Request, Response, Failure, library, http, unsatisfiable, empty_response,
  new_request, lift, read_response, received, sent, call,
}
use noetivela_open.Client.Call.Headers.{Asks, new_request-Asks}

module _ (gw : Gateway) {A : Type 0} (c : Client) (method path : Bytes)
    (body : Option (Body gw.Float)) (unmarshal : Bytes → gw.Error ⊎ A) (w : gw.World) where
  open gw use {Error, World, round_trip}

  -- A reply was received in full.
  pub record Received (w' : World) : Type 0 where
    pub req : Request
    pub asks : Asks gw c method path body req
    pub status : ℕ
    pub raw : Bytes
    pub replied :
        round_trip req w ≡ (inr (record { status = status; body = raw; read_error = none }), w')

  pub record Succeeds (a : A) (w' : World) : Type 0 where
    pub reply : Received w'
    pub at_least : 200 ≤ reply.status
    pub below : reply.status < 300
    pub reads : unmarshal reply.raw ≡ inr a

  pub record Rejected (status : ℕ) (raw : Bytes) (w' : World) : Type 0 where
    pub reply : Received w'
    pub status_is : reply.status ≡ status
    pub raw_is : reply.raw ≡ raw
    pub outside : (ltb status 200 || leb 300 status) ≡ true

  -- What a result of `do` says.
  abbrev pub Explains : (Failure Error ⊎ A) × World → Type 0
  Explains (inr a, w') = Succeeds a w'
  Explains (inl (http status raw), w') = Rejected status raw w'
  Explains (inl (library e), w') = Unit
  Explains (inl (unsatisfiable ue), w') = ⊥
  Explains (inl empty_response, w') = ⊥

  lifted-Explains :
      (w' : World) (reply : Received w')
      → 200 ≤ reply.status
      → reply.status < 300
      → (r : Error ⊎ A) → unmarshal reply.raw ≡ r
      → Explains (lift gw r, w')
  lifted-Explains w' reply lo hi (inl e) u = tt
  lifted-Explains w' reply lo hi (inr a) u = record {
    reply = reply;
    at_least = lo;
    below = hi;
    reads = u;
  }

  read-Explains :
      (req : Request) (w' : World) (status : ℕ) (raw : Bytes) (o : Option Error)
      → Asks gw c method path body req
      → round_trip req w ≡ (inr (record { status = status; body = raw; read_error = o }), w')
      → Explains
          (read_response gw unmarshal (record { status = status; body = raw; read_error = o }), w')
  unfolding read_response
  read-Explains req w' status raw (some e) q t = tt
  read-Explains req w' status raw none q t =
      let reply : Received w' = record {
        req = req;
        asks = q;
        status = status;
        raw = raw;
        replied = t;
      } in
      elim (Bool-cases (ltb status 200 || leb 300 status)) [
        | inl h ↦ rw h (record { reply = reply; status_is = refl; raw_is = refl; outside = h })
        | inr h ↦ rw h (lifted-Explains w' reply (ground arith) (ground arith) (unmarshal raw) refl)
      ]

  received-Explains :
      (req : Request) (w' : World) (r : Error ⊎ Response Error)
      → Asks gw c method path body req
      → round_trip req w ≡ (r, w')
      → Explains (received gw unmarshal (r, w'))
  received-Explains req w' (inl e) q t = tt
  received-Explains req w' (inr resp) q t =
      read-Explains req w' resp.status resp.body resp.read_error q t

  sent-Explains :
      (r : Error ⊎ Request)
      → new_request gw c method path body ≡ r
      → Explains (sent gw unmarshal r w)
  sent-Explains (inl e) q = tt
  sent-Explains (inr req) q =
      received-Explains req (round_trip req w).1 (round_trip req w).0
        (new_request-Asks gw c method path body q) refl

  -- A value that `do` returns was read from the body of a reply with a status from 200 to 299 to a
  -- request as asked for; an `*Error` has the status and the body of such a reply outside 200 to 299;
  -- and `do` returns no other error of the client's own.
  pub call-Explains : Explains (call gw c method path body unmarshal w)
  unfolding call
  call-Explains = sent-Explains (new_request gw c method path body) refl
