-- ===== src/Cli/Refused.antt =====
-- cli/main.go: a run whose request the gateway refuses.
use noetivela_open.Prelude.{
  ℕ, ◌≡◌, refl, true, ◌||◌, none, [], ◌∷◌, ◌++◌, append-nil, Bytes, codes, equal, ◌⊎◌, inl, inr,
  ltb, leb,
}
use noetivela_open.Policy.Number.{ℤ}
use noetivela_open.Go.Decimals.{decimal}
use noetivela_open.Go.Flags.{classify}
use noetivela_open.Go.Flags.RoundTrip.{write}
use noetivela_open.Client.Call.{
  Gateway, Request, Response, http, trim_slashes, new, set, set_named, set_names, body_bytes,
  set_contract, new_request, read_response, call,
}
use noetivela_open.Client.Calls.{usage}
use noetivela_open.Client.Messages.{failure_text}
use noetivela_open.Cli.Terminal.{Terminal, client, problem, line, Process}
use noetivela_open.Cli.Commands.{run_usage}
use noetivela_open.Cli.Main.{process, dispatch, main}
use noetivela_open.Cli.Messages.{Texts, problem_text, notice_text, notices_text, standard_error}
use noetivela_open.Cli.CommandLines.{Style, setting, main-command}

-- The request of a client without a contract and names, for a path and without a body.
abbrev pub plain_request : Bytes → Bytes → Request
plain_request url path = record {
  method = codes "GET";
  url = trim_slashes url ++ path;
  headers = (codes "Content-Type", codes "application/json") ∷ [];
  body = none;
}

module _ (gw : Gateway) where
  open gw use {Error, World, request_error, round_trip}

  new_request-plain :
      (url path : Bytes)
      → request_error (codes "GET") (trim_slashes url ++ path) ≡ none
      → new_request gw (new url) (codes "GET") path none ≡ inr (plain_request url path)
  unfolding new_request new body_bytes set_contract set set_names set_named equal
  new_request-plain url path h = rw h refl

  abbrev pub full_reply : ℕ → Bytes → Response Error
  full_reply status raw = record { status = status; body = raw; read_error = none }

  call-http :
      {A : Type 0} (url path : Bytes) (unmarshal : Bytes → Error ⊎ A) (status : ℕ) (raw : Bytes)
      (w w' : World)
      → request_error (codes "GET") (trim_slashes url ++ path) ≡ none
      → round_trip (plain_request url path) w ≡ (inr (full_reply status raw), w')
      → (ltb status 200 || leb 300 status) ≡ true
      → call gw (new url) (codes "GET") path none unmarshal w ≡ (inl (http status raw), w')
  unfolding call read_response
  call-http url path unmarshal status raw w w' h r o =
      rw (new_request-plain url path h) (rw r (rw o refl))

  abbrev pub refusal : ℕ → Bytes → Bytes
  refusal status raw =
      line (codes "error: noetivela: HTTP " ++ (decimal (ℤ.pos status) ++ (codes ": " ++ raw)))

  module _ (tm : Terminal gw) (tx : Texts Error) where
    -- The status and the outputs of a run, and the world behind it.
    pub record Tells (text : Bytes) (w' : World) (run : Process Error × World) : Type 0 where
      pub fails : run.0.status ≡ 1
      pub prints_nothing : run.0.output ≡ []
      pub writes : standard_error tx (run.0) ≡ text
      pub world : run.1 ≡ w'

    http-Tells :
        (status : ℕ) (raw : Bytes) (w' : World)
        → Tells
            (refusal status raw)
            w'
            (process gw tm 1 [] (problem (client (http status raw)) ∷ []), w')
    unfolding standard_error notices_text notice_text problem_text failure_text
    http-Tells status raw w' = record {
      fails = refl;
      prints_nothing = refl;
      writes = append-nil (refusal status raw);
      world = refl;
    }

    -- If the gateway refuses the request of `noetivela -url … usage` with a status outside 200 to 299,
    -- the program exits with status 1, prints nothing, and writes the status and the body of the reply
    -- on the standard error, in one message.
    pub main-usage_Tells :
        (style : Style) (url : Bytes) (status : ℕ) (raw : Bytes) (w w' : World)
        → request_error (codes "GET") (trim_slashes url ++ codes "/v1/usage") ≡ none
        → round_trip (plain_request url (codes "/v1/usage")) w ≡ (inr (full_reply status raw), w')
        → (ltb status 200 || leb 300 status) ≡ true
        → Tells
            (refusal status raw)
            w'
            (main gw tm (write (setting style (codes "url") url ∷ []) (codes "usage" ∷ [])) w)
    unfolding dispatch run_usage usage equal classify
    main-usage_Tells style url status raw w w' h r o =
        rw (main-command gw tm style url (codes "usage") [] w refl) (
          rw (call-http url (codes "/v1/usage") gw.unmarshal_raws status raw w w' h r o)
            (http-Tells status raw w'))
