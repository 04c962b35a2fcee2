-- ===== src/Client/Calls.antt =====
-- sdk/go/client/client.go: the methods that call the gateway, without `ChatStream`.
pub mod Queries
pub mod Replies
pub mod Tests
use noetivela_open.Prelude.{
  ℕ, zero, suc, ◌+◌, ◌/◌, ◌%◌, Bool, true, false, Option, none, some, List, [], ◌∷◌, ◌++◌, Bytes,
  codes, equal, length, ltb, ◌⊎◌, inl, inr, if◌then◌else◌,
}
use noetivela_open.Policy.Number.{ℤ}
use noetivela_open.Go.Decimals.{decimal}
use noetivela_open.Client.Types.{
  Contract, Message, ChatRequest, Choice, EmbeddingRequest, DecisionsOptions, DecisionSummary,
  ReplayRequest, ChatResponse, ChatEnvelope, EligibleCandidate, ValidateResult, TrainResult,
  TrainSample, TrainOptions, TrainRequest, ReplayResult, EmbeddingResponse, Body, chat as chat_body,
  train as train_body, replay as replay_body, embedding,
}
use noetivela_open.Client.Call.{
  Gateway, Client, Failure, http, empty_response, with_contract, call, map_error,
}

-- `if value != "" { q += key + value }`
unfoldable pub add_filter : Bytes → Bytes → Bytes → Bytes
add_filter key value q = if equal value [] then q else q ++ (key ++ value)

unfoldable pub query : DecisionsOptions → Bytes
query opts = add_filter (codes "&model=") opts.model (
    add_filter (codes "&task=") opts.task
      (codes "limit=" ++ decimal opts.limit ++ codes "&offset=" ++ decimal opts.offset))

-- `len(opts.Samples) > 0`
abbrev pub uploaded : {A : Type 0} → List A → Option (List A)
uploaded [] = none
uploaded (s ∷ ss) = some (s ∷ ss)

module _ (gw : Gateway) where
  open gw use {
    Float, Single, Error, World, unmarshal_chat, unmarshal_validation, unmarshal_ranked,
    unmarshal_raw, unmarshal_raws, unmarshal_decisions, unmarshal_training, unmarshal_replay,
    unmarshal_embedding,
  }

  -- What a method returns, and the world behind its round trip.
  abbrev pub Called : Type 0 → Type 0
  Called A = (Failure Error ⊎ A) × World

  module _ {A B : Type 0} where
    abbrev pub and_then :
        Called A → (A → Failure Error ⊎ B) → (Failure Error → Failure Error) → Called B
    and_then (inl e, w) f g = (inl (g e), w)
    and_then (inr a, w) f g = (f a, w)

  abbrev pub first_choice : ChatEnvelope Float → List Choice → Failure Error ⊎ ChatResponse Float
  first_choice env [] = inl empty_response
  first_choice env (c ∷ _) = inr (record {
    content = c.content;
    finish_reason = c.finish_reason;
    usage = env.usage;
    noetivela = env.noetivela;
  })

  unfoldable pub chat : Client → Bytes → List Message → World → Called (ChatResponse Float)
  chat c model messages w =
      and_then
        (call gw c (codes "POST") (codes "/v1/chat/completions")
          (some (chat_body (record { model = model; messages = messages; stream = false })))
          unmarshal_chat w)
        (λ env. first_choice env env.choices) (map_error gw)

  -- The copy of the client that `ValidateContract` and `EligibleCandidates` call.
  unfoldable pub bound_to : Client → Option Contract → Bytes → Client
  bound_to c ct policy_name = record c { contract = ct; policy_name = policy_name }

  unfoldable pub validate_contract :
      Client → Option Contract → Bytes → World → Called (ValidateResult Float)
  validate_contract c ct policy_name w =
      call gw (bound_to c ct policy_name) (codes "POST") (codes "/v1/contracts/validate") none
        unmarshal_validation w

  unfoldable pub eligible_candidates :
      Client → Option Contract → Bytes → World → Called (List (EligibleCandidate Float))
  eligible_candidates c ct policy_name w =
      call gw (bound_to c ct policy_name) (codes "POST") (codes "/v1/eligible") none
        unmarshal_ranked w

  unfoldable pub get_decision : Client → Bytes → World → Called Bytes
  get_decision c id w = call gw c (codes "GET") (codes "/v1/decisions/" ++ id) none unmarshal_raw w

  unfoldable pub decisions : Client → DecisionsOptions → World → Called (List DecisionSummary)
  decisions c opts w =
      call gw c (codes "GET") (codes "/v1/decisions?" ++ query opts) none unmarshal_decisions w

  unfoldable pub train : Client → TrainOptions Float → World → Called (TrainResult Float)
  train c opts w =
      let body : TrainRequest Float = record {
        version_id = opts.version_id;
        min_samples = opts.min_samples;
        tcos_weight = opts.tcos_weight;
        hold_out_frac = opts.hold_out_frac;
        samples = uploaded opts.samples;
      } in
      call gw c (codes "POST") (codes "/v1/train") (some (train_body body)) unmarshal_training w

  unfoldable pub replay : Client → Bytes → Bytes → ℤ → World → Called (ReplayResult Float)
  replay c baseline_endpoint policy_name limit w =
      call gw c (codes "POST") (codes "/v1/replay")
        (some (
          replay_body (record {
            baseline_endpoint = baseline_endpoint;
            policy = policy_name;
            limit = limit;
          })))
        unmarshal_replay w

  unfoldable pub embeddings :
      Client → Bytes → List Bytes → ℤ → World → Called (EmbeddingResponse Float Single)
  embeddings c model input dimensions w =
      and_then
        (call gw c (codes "POST") (codes "/v1/embeddings")
          (some (embedding (record { model = model; input = input; dimensions = dimensions })))
          unmarshal_embedding w)
        (λ out. inr out) (map_error gw)

  unfoldable pub usage : Client → World → Called (List Bytes)
  usage c w = call gw c (codes "GET") (codes "/v1/usage") none unmarshal_raws w
