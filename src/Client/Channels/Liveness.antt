-- ===== src/Client/Channels/Liveness.antt =====
-- sdk/go/client/client.go: how long the turns of `ChatStream` go on, and when none is possible.
use noetivela_open.Prelude.{
  ℕ, zero, suc, ◌+◌, ◌*◌, ◌<◌, ◌≤◌, Bool, true, false, Bool-cases, Option, none, some, List, [],
  ◌∷◌, ◌++◌, ◌==◌, Bytes, length, arith, ◌⊎◌, inl, inr, ◌≡◌, refl, sym, subst,
}
use noetivela_open.Client.Types.{Message}
use noetivela_open.Client.Call.{Gateway, Client}
use noetivela_open.Client.Streaming.{chunks}
use noetivela_open.Client.Events.{Event, ended, out_of_fuel, event, next, Chunks}
use noetivela_open.Client.Events.Progress.{Yields, next-Yields}
use noetivela_open.Client.Channels.{
  Turn, go, take, leave, Goroutine, reading, sending, failing, returned, Channels, start, offered,
  behind_event, read, move, moved, run, launch,
}
use noetivela_open.Client.Channels.Refinement.{Quiet, run-Quiet, read-pending}

module _ (json : Chunks) where
  open json use {Chunk, Error, is_done, chunk_of}

  -- At most the turns of the goroutine, and of the receiver's chunks, that are left.
  abbrev pub turns_left : Goroutine json → ℕ
  turns_left (reading reader) = 2 * length reader + 2
  turns_left (sending c rest) = 2 * length rest + 3
  turns_left (failing e) = 1
  turns_left returned = 0

  abbrev one_if : Bool → ℕ
  one_if true = 1
  one_if false = 0

  abbrev measure : Channels json → ℕ
  measure s = turns_left s.goroutine + one_if s.listening

  abbrev Decreases : ℕ → Option (Channels json) → Type 0
  Decreases n none = Unit
  Decreases n (some s) = measure s < n

  offered-left :
      (rest : Bytes) (r : Error ⊎ Chunk) → turns_left (offered json rest r) ≤ 2 * length rest + 3
  offered-left rest (inl e) = omega arith
  offered-left rest (inr c) = omega arith

  behind_event-left :
      (reader : Bytes) (r : Event)
      → Yields reader r
      → turns_left (behind_event json r) < 2 * length reader + 2
  behind_event-left reader ended y = omega arith
  behind_event-left reader out_of_fuel y = omega arith
  behind_event-left reader (event s rest) y = elim (Bool-cases (is_done s)) [
    | inl h ↦ rw h (omega arith)
    | inr h ↦ rw h (omega (arith, offered-left rest (chunk_of s)))
  ]

  read-left : (reader : Bytes) → turns_left (read json reader) < 2 * length reader + 2
  unfolding read
  read-left reader =
      behind_event-left reader (next (length reader + 1) reader)
        (next-Yields (length reader + 1) reader (omega arith))

  move-Decreases :
      (t : Turn) (g : Goroutine json) (cs : List Chunk) (es : List Error) (l : Bool)
      → Decreases
          (turns_left g + one_if l)
          (move json t (record { goroutine = g; received = cs; errors = es; listening = l }))
  unfolding move
  move-Decreases go (reading reader) cs es l = omega (arith, read-left reader)
  move-Decreases go (sending c rest) cs es l = tt
  move-Decreases go (failing e) cs [] l = omega arith
  move-Decreases go (failing e) cs (e' ∷ es) l = elim (Bool-cases (length (e' ∷ es) == 0)) [
    | inl h ↦ absurd (ground arith)
    | inr h ↦ rw h tt
  ]
  move-Decreases go returned cs es l = tt
  move-Decreases take (reading reader) cs es l = tt
  move-Decreases take (sending c rest) cs es true = omega arith
  move-Decreases take (sending c rest) cs es false = tt
  move-Decreases take (failing e) cs es l = tt
  move-Decreases take returned cs es l = tt
  move-Decreases leave g cs es true = omega arith
  move-Decreases leave g cs es false = tt

  abbrev Bounded : ℕ → ℕ → Option (Channels json) → Type 0
  Bounded n k none = Unit
  Bounded n k (some s) = k + measure s ≤ n

  moved-Bounded :
      (ts : List Turn) (n : ℕ) (r : Option (Channels json))
      → ((s : Channels json) → Bounded (measure s) (length ts) (run json ts s))
      → Decreases n r
      → Bounded n (length (go ∷ ts)) (moved json (run json ts) r)
  moved-Bounded ts n none k d = tt
  moved-Bounded ts n (some s) k d = weaker (run json ts s) (k s)
    where
      weaker :
          (r : Option (Channels json))
          → Bounded (measure s) (length ts) r
          → Bounded n (length (go ∷ ts)) r
      weaker none b = tt
      weaker (some s') b = omega arith

  run-Bounded :
      (ts : List Turn) (s : Channels json) → Bounded (measure s) (length ts) (run json ts s)
  unfolding run
  run-Bounded [] s = omega arith
  run-Bounded (t ∷ ts) s =
      moved-Bounded ts (measure s) (move json t s) (run-Bounded ts)
        (move-Decreases t s.goroutine s.received s.errors s.listening)

  -- From the answer with a body of `n` bytes on, the goroutine and the receiver take at most `2 n + 3`
  -- turns, however these are ordered.
  pub run-length :
      (reader : Bytes) (ts : List Turn) {s : Channels json}
      → run json ts (start json (reading reader)) ≡ some s
      → length ts ≤ 2 * length reader + 3
  run-length reader ts {s} h =
      let bounded =
        subst (Bounded (measure (start json (reading reader))) (length ts)) h
          (run-Bounded ts (start json (reading reader))) in
      omega arith

  -- Some turns lead to the return of the goroutine.
  pub record Returns (s : Channels json) : Type 0 where
    pub turns : List Turn
    pub last : Channels json
    pub reaches : run json turns s ≡ some last
    pub at_end : last.goroutine ≡ returned

  before : (t : Turn) {s s' : Channels json} → move json t s ≡ some s' → Returns s' → Returns s
  unfolding run
  before t m r = record {
    turns = t ∷ r.turns;
    last = r.last;
    reaches = rw m (r.reaches);
    at_end = r.at_end;
  }

  Quiet-Returns :
      (n : ℕ) (g : Goroutine json) (cs : List Chunk) (es : List Error)
      → turns_left g < n
      → Quiet json g es
      → Returns (record { goroutine = g; received = cs; errors = es; listening = true })
  unfolding move run
  Quiet-Returns zero g cs es h q = absurd (omega arith)
  Quiet-Returns (suc n) (reading reader) cs es h q = before go refl (
      Quiet-Returns n (read json reader) cs es (omega (arith, read-left reader))
        (rw q ((read-pending json reader).1)))
  Quiet-Returns (suc n) (sending c rest) cs es h q =
      before take refl (Quiet-Returns n (reading rest) (cs ++ c ∷ []) es (omega arith) q)
  Quiet-Returns (suc n) (failing e) cs [] h q =
      before go refl (Quiet-Returns n returned cs (e ∷ []) (omega arith) tt)
  Quiet-Returns (suc n) (failing e) cs (e' ∷ es) h q = absurd cc
  Quiet-Returns (suc n) returned cs es h q = record {
    turns = [];
    last = _;
    reaches = refl;
    at_end = refl;
  }

module _ (gw : Gateway) (c : Client) (model : Bytes) (messages : List Message) (w : gw.World) where
  -- As long as the receiver listens the goroutine can return: whatever turns were taken, some turns
  -- are possible that lead to its return.
  pub run-Returns :
      (ts : List Turn) {s : Channels (chunks gw)}
      → run (chunks gw) ts (start (chunks gw) (launch gw c model messages w).0) ≡ some s
      → s.listening ≡ true
      → Returns (chunks gw) s
  run-Returns ts {s} h l =
      subst
        (λ listening. Returns (chunks gw) (record {
          goroutine = s.goroutine;
          received = s.received;
          errors = s.errors;
          listening = listening;
        }))
        (sym l)
        (Quiet-Returns (chunks gw) (turns_left (chunks gw) s.goroutine + 1) s.goroutine s.received
          s.errors (omega arith) (run-Quiet gw c model messages w ts h))
