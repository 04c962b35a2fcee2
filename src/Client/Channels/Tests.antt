-- ===== src/Client/Channels/Tests.antt =====
-- A gateway that streams a chunk, on which the theorems on the turns of `ChatStream` are applied.
use noetivela_open.Prelude.{
  ℕ, none, some, true, false, List, [], ◌∷◌, inr, codes, equal, length, ◌+◌, ◌*◌, ◌≤◌, ◌≡◌, refl,
}
use noetivela_open.Client.Types.{ChatChunk}
use noetivela_open.Client.Lines.{
  scan, cut_line, drop_cr, trim_space, trim_left, trim_right, is_space_text, after_prefix,
}
use noetivela_open.Client.Call.{
  Gateway, set, set_named, set_names, body_bytes, set_contract, new_request,
}
use noetivela_open.Client.Events.{next, stream_loop, stream}
use noetivela_open.Client.Calls.Tests.{gateway, client, greeting}
use noetivela_open.Client.Streaming.{chunks, chat_stream}
use noetivela_open.Client.Channels.{
  go, take, leave, Goroutine, reading, sending, returned, Channels, start, read, move, run, launch,
}
use noetivela_open.Client.Channels.Refinement.{Delivers, run-chat_stream}
use noetivela_open.Client.Channels.Liveness.{Returns, run-Returns, run-length}
use noetivela_open.Client.Channels.Leaks.{Strands, leave-Strands}

abbrev chunk : ChatChunk
chunk = record { delta = codes "1"; finish_reason = []; usage = none }

abbrev body : List ℕ
body = codes "data:{}\ndata:{}\n"

abbrev streaming : Gateway
streaming = record gateway {
  unmarshal_done = λ s. inr (equal s (codes "{\"done\":true}"));
  unmarshal_chunk = λ s. inr chunk;
  round_trip = λ req w. (inr (record { status = 200; body = body; read_error = none }), w);
}

abbrev beginning : Goroutine (chunks streaming)
beginning = (launch streaming client (codes "auto") greeting 0).0

abbrev behind_return : Channels (chunks streaming)
behind_return = record {
  goroutine = returned;
  received = chunk ∷ chunk ∷ [];
  errors = [];
  listening = true;
}

everything : Unit {0}
unfolding launch new_request body_bytes set_contract set_names set_named set equal chat_stream run
    move read next stream_loop stream scan cut_line drop_cr trim_space trim_left trim_right
    is_space_text after_prefix
everything = tt

abbrev behind_turn : Channels (chunks streaming)
behind_turn = record {
  goroutine = sending chunk (codes "data:{}\n");
  received = [];
  errors = [];
  listening = true;
}

takes_turns :
    run (chunks streaming) (go ∷ take ∷ go ∷ take ∷ go ∷ []) (start (chunks streaming) beginning)
    ≡ some behind_return
unfolding everything
takes_turns = refl

takes_a_turn :
    run (chunks streaming) (go ∷ []) (start (chunks streaming) beginning) ≡ some behind_turn
unfolding everything
takes_a_turn = refl

gives_chunk : ((chat_stream streaming client (codes "auto") greeting 0).0).0 ≡ chunk ∷ chunk ∷ []
unfolding everything
gives_chunk = refl

run-chat_stream_example :
    Delivers
      (chunks streaming)
      (chat_stream streaming client (codes "auto") greeting 0).0
      (chunk ∷ chunk ∷ [])
      []
      returned
run-chat_stream_example =
    run-chat_stream streaming client (codes "auto") greeting 0 (go ∷ take ∷ go ∷ take ∷ go ∷ [])
      takes_turns

run-Returns_example : Returns (chunks streaming) behind_turn
run-Returns_example =
    run-Returns streaming client (codes "auto") greeting 0 (go ∷ []) takes_a_turn refl

run-length_example : 5 ≤ 2 * length body + 3
unfolding everything
run-length_example =
    run-length (chunks streaming) body (go ∷ take ∷ go ∷ take ∷ go ∷ []) takes_turns

-- One chunk is taken, and the other is to come.
abbrev behind_chunk : Channels (chunks streaming)
behind_chunk = record {
  goroutine = reading (codes "data:{}\n");
  received = chunk ∷ [];
  errors = [];
  listening = true;
}

abbrev behind_leave : Channels (chunks streaming)
behind_leave = record {
  goroutine = sending chunk [];
  received = chunk ∷ [];
  errors = [];
  listening = false;
}

takes_a_chunk :
    run (chunks streaming) (go ∷ take ∷ []) (start (chunks streaming) beginning) ≡ some behind_chunk
unfolding everything
takes_a_chunk = refl

leaves : run (chunks streaming) (leave ∷ go ∷ []) behind_chunk ≡ some behind_leave
unfolding everything
leaves = refl

leave-Strands_example : Strands (chunks streaming) behind_leave
leave-Strands_example =
    leave-Strands streaming client (codes "auto") greeting 0 (go ∷ take ∷ []) (go ∷ []) chunk []
      takes_a_chunk gives_chunk leaves
