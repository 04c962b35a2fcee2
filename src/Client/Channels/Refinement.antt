-- ===== src/Client/Channels/Refinement.antt =====
-- sdk/go/client/client.go: the turns of `ChatStream` beside the list of what it sends.
use noetivela_open.Prelude.{
  ◌+◌, Bool, true, false, Bool-cases, Option, none, some, List, [], ◌∷◌, ◌++◌, append_assoc,
  append-nil, Bytes, length, ◌==◌, ◌⊎◌, inl, inr, ◌≡◌, refl, ◌≢◌, sym, ap, ◌∙◌, subst,
}
use noetivela_open.Client.Types.{Message}
use noetivela_open.Client.Call.{Gateway, Client, Request, Response, new_request}
use noetivela_open.Client.Events.{
  Event, ended, out_of_fuel, event, next, Ending, closed, failed, Chunks, Sent, send, on_event,
  stream,
}
use noetivela_open.Client.Events.Progress.{next-ne-out_of_fuel}
use noetivela_open.Client.Streaming.{chunks, answered, requested, chat_stream}
use noetivela_open.Client.Channels.{
  Turn, go, take, leave, Goroutine, reading, sending, failing, returned, Channels, start, offered,
  behind_event, read, move, moved, run, opened, launched, launch,
}
use noetivela_open.Client.Channels.Fuel.{stream-round}

module _ (json : Chunks) where
  open json use {Chunk, Error, is_done, chunk_of}

  abbrev pub ending : List Error → Ending Error
  ending [] = closed
  ending (e ∷ es) = failed e

  -- What the goroutine has still to send, and how it ends.
  abbrev pub pending : Goroutine json → List Error → Sent json
  pending (reading reader) es = stream json reader
  pending (sending c rest) es = send json (inr c) (stream json rest)
  pending (failing e) es = ([], failed e)
  pending returned es = ([], ending es)

  abbrev pub behind : List Chunk → Sent json → Sent json
  behind cs (ds, last) = (cs ++ ds, last)

  abbrev pub Quiet : Goroutine json → List Error → Type 0
  Quiet returned es = Unit
  Quiet _ es = es ≡ []

  -- The chunks received and those to come are `total`, and no error is sent before the return.
  abbrev pub Agrees : Sent json → Channels json → Type 0
  Agrees total s =
      (behind s.received (pending s.goroutine s.errors) ≡ total) × Quiet s.goroutine s.errors

  abbrev Holds : Sent json → Option (Channels json) → Type 0
  Holds total none = Unit
  Holds total (some s) = Agrees total s

  offered-pending :
      (rest : Bytes) (r : Error ⊎ Chunk)
      → (pending (offered json rest r) [] ≡ send json r (stream json rest))
        × Quiet (offered json rest r) []
  offered-pending rest (inl e) = (refl, refl)
  offered-pending rest (inr c) = (refl, refl)

  behind_event-pending :
      (r : Event)
      → r ≢ out_of_fuel
      → (pending (behind_event json r) [] ≡ on_event json (stream json) r)
        × Quiet (behind_event json r) []
  behind_event-pending ended n = (refl, tt)
  behind_event-pending out_of_fuel n = absurd (n refl)
  behind_event-pending (event s rest) n = elim (Bool-cases (is_done s)) [
    | inl h ↦ rw h (refl, tt)
    | inr h ↦ rw h (offered-pending rest (chunk_of s))
  ]

  pub read-pending :
      (reader : Bytes)
      → (pending (read json reader) [] ≡ stream json reader) × Quiet (read json reader) []
  unfolding read
  read-pending reader =
      let (p, q) =
        behind_event-pending (next (length reader + 1) reader) (next-ne-out_of_fuel reader) in
      (p ∙ sym (stream-round json reader), q)

  module _ (total : Sent json) where
    move-Holds :
        (t : Turn) (g : Goroutine json) (cs : List Chunk) (es : List Error) (l : Bool)
        → Agrees total (record { goroutine = g; received = cs; errors = es; listening = l })
        → Holds total
            (move json t (record { goroutine = g; received = cs; errors = es; listening = l }))
    unfolding move
    move-Holds go (reading reader) cs es l (a, q) =
        let (p, quiet) = read-pending reader in rw q (ap (behind cs) p ∙ a, quiet)
    move-Holds go (sending c rest) cs es l a = tt
    move-Holds go (failing e) cs [] l (a, q) = (a, tt)
    move-Holds go (failing e) cs (e' ∷ es) l (a, q) = absurd cc
    move-Holds go returned cs es l a = tt
    move-Holds take (reading reader) cs es l a = tt
    move-Holds take (sending c rest) cs es true (a, q) = (
      ap (λ ds. (ds, (stream json rest).1)) (append_assoc cs (c ∷ []) (stream json rest).0) ∙ a,
      q,
    )
    move-Holds take (sending c rest) cs es false a = tt
    move-Holds take (failing e) cs es l a = tt
    move-Holds take returned cs es l a = tt
    move-Holds leave g cs es true a = a
    move-Holds leave g cs es false a = tt

    moved-Holds :
        (later : Channels json → Option (Channels json))
        → ((s : Channels json) → Agrees total s → Holds total (later s))
        → (r : Option (Channels json)) → Holds total r
        → Holds total (moved json later r)
    moved-Holds later k none h = tt
    moved-Holds later k (some s) h = k s h

    pub run-Holds :
        (ts : List Turn) (s : Channels json) → Agrees total s → Holds total (run json ts s)
    unfolding run
    run-Holds [] s a = a
    run-Holds (t ∷ ts) s a =
        moved-Holds (run json ts) (run-Holds ts) (move json t s)
          (move-Holds t s.goroutine s.received s.errors s.listening a)

  pub record IsPrefix (cs ds : List Chunk) : Type 0 where
    pub rest : List Chunk
    pub joins : cs ++ rest ≡ ds

  -- The receiver has a first part of the chunks of `total`; behind the return, all and the error.
  abbrev pub Delivers : Sent json → List Chunk → List Error → Goroutine json → Type 0
  Delivers total cs es returned = (cs, ending es) ≡ total
  Delivers (ds, last) cs es _ = IsPrefix cs ds

  Agrees-Delivers :
      (total : Sent json) (g : Goroutine json) (cs : List Chunk) (es : List Error) (l : Bool)
      → Agrees total (record { goroutine = g; received = cs; errors = es; listening = l })
      → Delivers total cs es g
  Agrees-Delivers total (reading reader) cs es l (a, q) = record {
    rest = (stream json reader).0;
    joins = ap (λ t. t.0) a;
  }
  Agrees-Delivers total (sending c rest) cs es l (a, q) = record {
    rest = c ∷ (stream json rest).0;
    joins = ap (λ t. t.0) a;
  }
  Agrees-Delivers total (failing e) cs es l (a, q) = record { rest = []; joins = ap (λ t. t.0) a }
  Agrees-Delivers total returned cs es l (a, q) =
      ap (λ ds. (ds, ending es)) (sym (append-nil cs)) ∙ a

  run-Delivers :
      (g : Goroutine json) (ts : List Turn) {s : Channels json}
      → Quiet g []
      → run json ts (start json g) ≡ some s
      → Delivers (pending g []) s.received s.errors s.goroutine
  run-Delivers g ts {s} q h =
      Agrees-Delivers (pending g []) s.goroutine s.received s.errors s.listening
        (subst (Holds (pending g [])) h (run-Holds (pending g []) ts (start json g) (refl, q)))

module _ (gw : Gateway) where
  open gw use {Error, World, round_trip}

  -- The goroutine has all of what `ChatStream` gives before it, and no error is sent yet.
  abbrev Matches : Sent (chunks gw) × World → Goroutine (chunks gw) × World → Type 0
  Matches (sent, w) (g, w') =
      ((pending (chunks gw) g [] ≡ sent) × Quiet (chunks gw) g []) × (w ≡ w')

  opened-Matches : (r : (Error ⊎ Response Error) × World) → Matches (answered gw r) (opened gw r)
  opened-Matches (inl e, w) = ((refl, refl), refl)
  opened-Matches (inr resp, w) = elim (Bool-cases (resp.status == 200)) [
    | inl h ↦ rw h ((refl, refl), refl)
    | inr h ↦ rw h ((refl, refl), refl)
  ]

  launched-Matches :
      (r : Error ⊎ Request) (w : World) → Matches (requested gw r w) (launched gw r w)
  launched-Matches (inl e) w = ((refl, refl), refl)
  launched-Matches (inr req) w = opened-Matches (round_trip req w)

  module _ (c : Client) (model : Bytes) (messages : List Message) (w : World) where
    pub launch-Matches : Matches (chat_stream gw c model messages w) (launch gw c model messages w)
    unfolding chat_stream launch
    launch-Matches = launched-Matches (new_request gw c _ _ _) w

    -- However the turns of the goroutine and of the receiver are ordered, and whether the receiver
    -- leaves or not: the chunks received are a first part of those that `chat_stream` lists, in their
    -- order; and when the goroutine has returned, they are all of them, and the error on the second
    -- channel is the one that `chat_stream` ends with, if any.
    pub run-chat_stream :
        (ts : List Turn) {s : Channels (chunks gw)}
        → run (chunks gw) ts (start (chunks gw) (launch gw c model messages w).0) ≡ some s
        → Delivers (chunks gw) (chat_stream gw c model messages w).0 s.received s.errors s.goroutine
    run-chat_stream ts {s} h =
        let ((p, q), _) = launch-Matches in
        subst (λ total. Delivers (chunks gw) total s.received s.errors s.goroutine) p
          (run-Delivers (chunks gw) (launch gw c model messages w).0 ts q h)

    pub run-Agrees :
        (ts : List Turn) {s : Channels (chunks gw)}
        → run (chunks gw) ts (start (chunks gw) (launch gw c model messages w).0) ≡ some s
        → Agrees (chunks gw) (chat_stream gw c model messages w).0 s
    run-Agrees ts {s} h =
        let ((p, q), _) = launch-Matches in
        let g = (launch gw c model messages w).0 in
        let total = pending (chunks gw) g [] in
        subst (λ total. Agrees (chunks gw) total s) p
          (subst (Holds (chunks gw) total) h
            (run-Holds (chunks gw) total ts (start (chunks gw) g) (refl, q)))

    pub run-Quiet :
        (ts : List Turn) {s : Channels (chunks gw)}
        → run (chunks gw) ts (start (chunks gw) (launch gw c model messages w).0) ≡ some s
        → Quiet (chunks gw) s.goroutine s.errors
    run-Quiet ts h = (run-Agrees ts h).1
