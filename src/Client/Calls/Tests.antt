-- ===== src/Client/Calls/Tests.antt =====
-- A gateway on which the theorems on the client's calls are applied.
use noetivela_open.Prelude.{
  ℕ, ◌+◌, ◌==◌, ◌≡◌, refl, none, some, List, [], ◌∷◌, inl, inr, codes, equal, if◌then◌else◌,
}
use noetivela_open.Policy.Number.{ℤ}
use noetivela_open.Go.Decimals.{digits, decimal}
use noetivela_open.Client.Types.{
  Contract, Message, Usage, UnsatisfiableError, RoutingEvidence, ChatEnvelope, ChatResponse,
}
use noetivela_open.Client.Call.{
  Request, Gateway, Client, unsatisfiable, trim_slashes, new, with_contract, set, set_named,
  body_bytes, set_contract, set_names, new_request, read_response, call, map_error,
}
use noetivela_open.Client.Call.Names.{IsNamed, new_request-IsNamed}
use noetivela_open.Client.Call.Headers.{Asks, new_request-Asks}
use noetivela_open.Client.Call.Outcomes.{Explains, call-Explains}
use noetivela_open.Client.Call.Urls.{IsTrimmed, new-IsTrimmed}
use noetivela_open.Client.Calls.{add_filter, query, chat, decisions}
use noetivela_open.Client.Calls.Queries.{filtered, decisions-filtered}
use noetivela_open.Client.Calls.Replies.{Answered, Refused, chat-Answered, chat-Refused}

abbrev no_usage : Usage
no_usage = record {
  input_tokens = ℤ.pos 0;
  output_tokens = ℤ.pos 0;
  cached_tokens = ℤ.pos 0;
  reasoning_tokens = ℤ.pos 0;
}

abbrev evidence : RoutingEvidence ℕ
evidence = record {
  decision_id = codes "d-1";
  model_ref = codes "m";
  endpoint_ref = codes "e";
  tcos = record {
    direct_inference = 1;
    router_overhead = 0;
    context_movement = 0;
    cache_loss = 0;
    reliability_cost = 0;
    total = 1;
  };
}

abbrev envelope : ChatEnvelope ℕ
envelope = record {
  choices = record { content = codes "hi"; finish_reason = codes "stop" } ∷ [];
  usage = no_usage;
  noetivela = evidence;
}

abbrev refusal : UnsatisfiableError
refusal = record {
  type = codes "unsatisfiable_contract";
  message = codes "no endpoint";
  failed_gates = codes "data.region" ∷ [];
}

-- It serves the first request, and refuses each later one; the world counts them.
abbrev pub gateway : Gateway
gateway = record {
  Float = ℕ;
  Single = ℕ;
  Error = Unit;
  World = ℕ;
  request_error = λ method url. none;
  round_trip = λ req w. (
    inr (record { status = if w == 0 then 200 else 422; body = codes "{}"; read_error = none }),
    w + 1,
  );
  marshal_contract = λ ct. inr (codes "{\"task\":\"t\"}");
  marshal = λ body. inr (codes "{}");
  unmarshal_chat = λ raw. inr envelope;
  unmarshal_unsatisfiable = λ raw. inr refusal;
  unmarshal_done = λ raw. inl tt;
  unmarshal_chunk = λ raw. inl tt;
  unmarshal_validation = λ raw. inl tt;
  unmarshal_ranked = λ raw. inl tt;
  unmarshal_raw = λ raw. inr raw;
  unmarshal_raws = λ raw. inr (raw ∷ []);
  unmarshal_decisions = λ raw. inr [];
  unmarshal_training = λ raw. inl tt;
  unmarshal_replay = λ raw. inl tt;
  unmarshal_embedding = λ raw. inl tt;
}

abbrev pub contract : Contract
contract = record {
  task = codes "t";
  domain = [];
  language = [];
  modality = codes "text" ∷ [];
  response_schema = [];
  quality = none;
  latency = none;
  cost = none;
  context = none;
  policy = none;
  reliability = none;
}

unfoldable pub everything : Unit {0}
unfolding equal trim_slashes new with_contract set set_named body_bytes set_contract set_names
    new_request read_response call map_error digits decimal add_filter query chat decisions
everything = tt

abbrev pub client : Client
client = record {
  base_url = codes "http://localhost";
  contract = some contract;
  policy_name = codes "p";
  tenant = [];
  principal = [];
}

trims_slashes : (new (codes "http://localhost//")).base_url ≡ codes "http://localhost"
unfolding everything
trims_slashes = refl

-- Options with a negative offset.
prints_query :
    query (record { limit = ℤ.pos 20; offset = ℤ.negsuc 9; task = codes "t"; model = [] })
    ≡ codes "limit=20&offset=-10&task=t"
unfolding everything
prints_query = refl

abbrev request : Request
request = record {
  method = codes "GET";
  url = codes "http://localhost/v1/usage";
  headers =
      (codes "Content-Type", codes "application/json")
      ∷ (codes "X-Noetivela-Contract", codes "{\"task\":\"t\"}")
      ∷ (codes "X-Noetivela-Policy", codes "p")
      ∷ [];
  body = none;
}

makes_request : new_request gateway client (codes "GET") (codes "/v1/usage") none ≡ inr request
unfolding everything
makes_request = refl

new_request-Asks_example : Asks gateway client (codes "GET") (codes "/v1/usage") none request
new_request-Asks_example =
    new_request-Asks gateway client (codes "GET") (codes "/v1/usage") none makes_request

new_request-IsNamed_example : IsNamed request.headers
new_request-IsNamed_example =
    new_request-IsNamed gateway client (codes "GET") (codes "/v1/usage") none makes_request

new-IsTrimmed_example :
    IsTrimmed (codes "http://localhost//") ((new (codes "http://localhost//")).base_url)
new-IsTrimmed_example = new-IsTrimmed (codes "http://localhost//")

decisions-filtered_example :
    decisions gateway client (filtered (ℤ.pos 20) (ℤ.pos 0) (codes "t&model=m") []) 0
    ≡ decisions gateway client (filtered (ℤ.pos 20) (ℤ.pos 0) (codes "t") (codes "m")) 0
unfolding equal
decisions-filtered_example =
    decisions-filtered gateway client (ℤ.pos 20) (ℤ.pos 0) (codes "t") (codes "m") 0 refl refl

abbrev pub greeting : List Message
greeting = record { role = codes "user"; content = codes "hello" } ∷ []

abbrev pub greeted : ChatResponse ℕ
greeted = record {
  content = codes "hi";
  finish_reason = codes "stop";
  usage = no_usage;
  noetivela = evidence;
}

answers : chat gateway client (codes "auto") greeting 0 ≡ (inr greeted, 1)
unfolding everything
answers = refl

refuses : chat gateway client (codes "auto") greeting 1 ≡ (inl (unsatisfiable refusal), 2)
unfolding everything
refuses = refl

chat-Answered_example : Answered gateway client (codes "auto") greeting 0 1 greeted
chat-Answered_example = chat-Answered gateway client (codes "auto") greeting 0 answers

chat-Refused_example : Refused gateway client (codes "auto") greeting 1 2 refusal
chat-Refused_example = chat-Refused gateway client (codes "auto") greeting 1 refuses

call-Explains_example :
    Explains gateway client
      (codes "GET")
      (codes "/v1/usage")
      none
      gateway.unmarshal_raws
      1
      (call gateway client (codes "GET") (codes "/v1/usage") none gateway.unmarshal_raws 1)
call-Explains_example =
    call-Explains gateway client (codes "GET") (codes "/v1/usage") none gateway.unmarshal_raws 1
