-- ===== src/Client/Channels/Leaks.antt =====
-- sdk/go/client/client.go: `ChatStream` when the receiver leaves.
use noetivela_open.Prelude.{
  Bool, true, false, Option, none, some, List, [], ◌∷◌, ◌++◌, Bytes, ◌≡◌, ◌≢◌, refl, sym, ap, ◌∙◌,
  ◌⊎◌, inl, inr, Bool-cases, length, ◌+◌, subst,
}
use noetivela_open.Client.Types.{Message, ChatChunk}
use noetivela_open.Client.Call.{Gateway, Client}
use noetivela_open.Client.Events.{Event, ended, out_of_fuel, event, next, Chunks}
use noetivela_open.Client.Streaming.{chunks, chat_stream}
use noetivela_open.Client.Channels.{
  Turn, go, take, leave, Goroutine, reading, sending, failing, returned, Channels, start, offered,
  behind_event, read, move, moved, run, launch,
}
use noetivela_open.Client.Channels.Refinement.{pending, Quiet, read-pending, run-Agrees}

append-cancel : {A : Type 0} (xs : List A) {ys zs : List A} → xs ++ ys ≡ xs ++ zs → ys ≡ zs
append-cancel [] h = h
append-cancel (x ∷ xs) h = append-cancel xs (cc)

module _ (json : Chunks) where
  open json use {Chunk, Error, is_done, chunk_of}

  -- The goroutine has not returned, and no turn is possible.
  pub record Blocked (s : Channels json) : Type 0 where
    pub open_ : s.goroutine ≢ returned
    pub waits : (t : Turn) → move json t s ≡ none

  -- The goroutine has not returned, and it is blocked, or will be by its only turn.
  pub record Strands (s : Channels json) : Type 0 where
    pub open_ : s.goroutine ≢ returned
    pub stands :
        Blocked s
        ⊎ ((s' : Channels json) × (move json go s ≡ some s')
            × Blocked s'
            × ((t : Turn) → t ≢ go → move json t s ≡ none))

  -- The goroutine behind a read: it does not read on before the next turn.
  abbrev Paused : Goroutine json → Type 0
  Paused (reading reader) = ⊥
  Paused _ = Unit

  offered-Paused : (rest : Bytes) (r : Error ⊎ Chunk) → Paused (offered json rest r)
  offered-Paused rest (inl e) = tt
  offered-Paused rest (inr c) = tt

  behind_event-Paused : (r : Event) → Paused (behind_event json r)
  behind_event-Paused ended = tt
  behind_event-Paused out_of_fuel = tt
  behind_event-Paused (event s rest) = elim (Bool-cases (is_done s)) [
    | inl h ↦ rw h tt
    | inr h ↦ rw h (offered-Paused rest (chunk_of s))
  ]

  read-Paused : (reader : Bytes) → Paused (read json reader)
  unfolding read
  read-Paused reader = behind_event-Paused (next (length reader + 1) reader)

  -- The receiver has left, and the goroutine has a chunk to send.
  abbrev left : Goroutine json → List Chunk → List Error → Channels json
  left g cs es = record { goroutine = g; received = cs; errors = es; listening = false }

  abbrev Stuck : Channels json → Type 0
  Stuck s =
      (s.listening ≡ false)
      × Quiet json s.goroutine s.errors
      × (c : Chunk) × (later : List Chunk) × ((pending json s.goroutine s.errors).0 ≡ c ∷ later)

  sending-Blocked :
      (c : Chunk) (rest : Bytes) (cs : List Chunk) (es : List Error)
      → Blocked (left (sending c rest) cs es)
  unfolding move
  sending-Blocked c rest cs es = record { open_ = λ e. cc; waits = waits }
    where
      waits : (t : Turn) → move json t (left (sending c rest) cs es) ≡ none
      waits go = refl
      waits take = refl
      waits leave = refl

  only_go :
      (reader : Bytes) (cs : List Chunk) (es : List Error) (t : Turn)
      → t ≢ go
      → move json t (left (reading reader) cs es) ≡ none
  unfolding move
  only_go reader cs es go n = absurd (n refl)
  only_go reader cs es take n = refl
  only_go reader cs es leave n = refl

  reading-Strands :
      (reader : Bytes) (g : Goroutine json) (cs : List Chunk) (es : List Error) {c : Chunk}
      {later : List Chunk}
      → read json reader ≡ g
      → Paused g
      → (pending json g []).0 ≡ c ∷ later
      → Strands (left (reading reader) cs es)
  unfolding move
  reading-Strands reader (reading rest) cs es e p h = absurd p
  reading-Strands reader (sending c rest) cs es e p h = record {
    open_ = λ r. cc;
    stands = inr (
      left (sending c rest) cs es,
      rw e refl,
      sending-Blocked c rest cs es,
      only_go reader cs es,
    );
  }
  reading-Strands reader (failing x) cs es e p h = absurd cc
  reading-Strands reader returned cs es e p h = absurd cc

  left-Strands :
      (g : Goroutine json) (cs : List Chunk) (es : List Error) {c : Chunk} {later : List Chunk}
      → (pending json g es).0 ≡ c ∷ later
      → Strands (left g cs es)
  left-Strands (reading reader) cs es h =
      reading-Strands reader (read json reader) cs es refl (read-Paused reader)
        (ap (λ r. r.0) (read-pending json reader).0 ∙ h)
  left-Strands (sending c rest) cs es h = record {
    open_ = λ e. cc;
    stands = inl (sending-Blocked c rest cs es);
  }
  left-Strands (failing x) cs es h = absurd cc
  left-Strands returned cs es h = absurd cc

  abbrev StuckIn : Option (Channels json) → Type 0
  StuckIn none = Unit
  StuckIn (some s) = Stuck s

  -- No turn takes the chunk away.
  move-Stuck :
      (t : Turn) (g : Goroutine json) (cs : List Chunk) (es : List Error) (l : Bool)
      → Stuck (record { goroutine = g; received = cs; errors = es; listening = l })
      → StuckIn (move json t (record { goroutine = g; received = cs; errors = es; listening = l }))
  unfolding move
  move-Stuck go (reading reader) cs es l (k, q, c, later, h) =
      let (p, quiet) = read-pending json reader in rw q (k, quiet, c, later, ap (λ r. r.0) p ∙ h)
  move-Stuck go (sending x rest) cs es l k = tt
  move-Stuck go (failing x) cs es l (_, q, c, later, h) = absurd cc
  move-Stuck go returned cs es l k = tt
  move-Stuck take (reading reader) cs es l k = tt
  move-Stuck take (sending x rest) cs es true (k, _, _, _, _) = absurd cc
  move-Stuck take (sending x rest) cs es false k = tt
  move-Stuck take (failing x) cs es l k = tt
  move-Stuck take returned cs es l k = tt
  move-Stuck leave g cs es true (k, _, _, _, _) = absurd cc
  move-Stuck leave g cs es false k = tt

  moved-Stuck :
      (later : Channels json → Option (Channels json))
      → ((s : Channels json) → Stuck s → StuckIn (later s))
      → (r : Option (Channels json)) → StuckIn r
      → StuckIn (moved json later r)
  moved-Stuck later k none h = tt
  moved-Stuck later k (some s) h = k s h

  run-Stuck : (ts : List Turn) (s : Channels json) → Stuck s → StuckIn (run json ts s)
  unfolding run
  run-Stuck [] s k = k
  run-Stuck (t ∷ ts) s k =
      moved-Stuck (run json ts) (run-Stuck ts) (move json t s)
        (move-Stuck t s.goroutine s.received s.errors s.listening k)

  Stuck-Strands : (s : Channels json) → Stuck s → Strands s
  Stuck-Strands s (l, q, c, later, h) =
      subst
        (λ listening. Strands (record {
          goroutine = s.goroutine;
          received = s.received;
          errors = s.errors;
          listening = listening;
        }))
        (sym l) (left-Strands s.goroutine s.received s.errors h)

  -- The receiver leaves in a state whose goroutine has a chunk to send, and turns follow.
  run_leave-Strands :
      (ts : List Turn) (s : Channels json) {s' : Channels json} {c : Chunk} {later : List Chunk}
      → Quiet json s.goroutine s.errors
      → (pending json s.goroutine s.errors).0 ≡ c ∷ later
      → run json (leave ∷ ts) s ≡ some s'
      → Strands s'
  unfolding run move
  run_leave-Strands ts s {s'} {c} {later} q h r = elim (Bool-cases s.listening) [
    | inl l ↦
        let gone : Channels json = left s.goroutine s.received s.errors in
        let runs : run json ts gone ≡ some s' = rw l at r in
        Stuck-Strands s' (subst StuckIn runs (run-Stuck ts gone (refl, q, c, later, h)))
    | inr l ↦ let none_ : ◌≡◌ {A = Option (Channels json)} none (some s') = rw l at r in absurd cc
  ]

module _ (gw : Gateway) (c : Client) (model : Bytes) (messages : List Message) (w : gw.World) where
  -- If the receiver leaves before it has taken all of the chunks that `ChatStream` has to send,
  -- whatever turns were taken before and whatever turns follow: the goroutine has not returned, and it
  -- is blocked, with no turn possible for it or the receiver, or it is by its next turn, the only one
  -- that is possible.
  pub leave-Strands :
      (before behind : List Turn) {s s' : Channels (chunks gw)} (chunk : ChatChunk)
      (later : List ChatChunk)
      → run (chunks gw) before (start (chunks gw) (launch gw c model messages w).0) ≡ some s
      → ((chat_stream gw c model messages w).0).0 ≡ s.received ++ chunk ∷ later
      → run (chunks gw) (leave ∷ behind) s ≡ some s'
      → Strands (chunks gw) s'
  leave-Strands before behind {s} chunk later b n r =
      let (a, q) = run-Agrees gw c model messages w before b in
      run_leave-Strands (chunks gw) behind s q (append-cancel s.received (ap (λ t. t.0) a ∙ n)) r
