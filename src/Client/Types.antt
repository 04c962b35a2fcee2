-- ===== src/Client/Types.antt =====
-- sdk/go/client/client.go: the data of requests and responses. A float64 is a value of the parameter
-- `Float`, and an int or int64 an integer.
use noetivela_open.Prelude.{Bool, Option, List, Bytes}
use noetivela_open.Policy.Number.{ℤ}

pub record Quality : Type 0 where
  pub minimum_eval_grade : Bytes
  pub grounding_required : Bool

pub record Latency : Type 0 where
  pub ttft_ms : ℤ
  pub p95_ms : ℤ
  pub deadline_ms : ℤ
  pub streaming : Bool

pub record Cost : Type 0 where
  pub ceiling_per_request : Bytes
  pub budget_account : Bytes

pub record Context : Type 0 where
  pub session_id : Bytes
  pub cache_key : Bytes
  pub prefer_cache_locality : Bool

-- `Policy` of the client, which is no policy of the DSL
pub record DataPolicy : Type 0 where
  pub data_classification : Bytes
  pub allowed_regions : List Bytes
  pub denied_providers : List Bytes
  pub provider_training : Bytes
  pub retention : Bytes

pub record Reliability : Type 0 where
  pub retry_budget : ℤ
  pub fallback : Bytes

pub record Contract : Type 0 where
  pub task : Bytes
  pub domain : Bytes
  pub language : List Bytes
  pub modality : List Bytes
  pub response_schema : Bytes
  pub quality : Option Quality
  pub latency : Option Latency
  pub cost : Option Cost
  pub context : Option Context
  pub policy : Option DataPolicy
  pub reliability : Option Reliability

pub record Message : Type 0 where
  pub role : Bytes
  pub content : Bytes

pub record Usage : Type 0 where
  pub input_tokens : ℤ
  pub output_tokens : ℤ
  pub cached_tokens : ℤ
  pub reasoning_tokens : ℤ

pub record ChatChunk : Type 0 where
  pub delta : Bytes
  pub finish_reason : Bytes
  pub usage : Option Usage

pub record UnsatisfiableError : Type 0 where
  pub type : Bytes
  pub message : Bytes
  pub failed_gates : List Bytes

pub record ChatRequest : Type 0 where
  pub model : Bytes
  pub messages : List Message
  pub stream : Bool

pub record Choice : Type 0 where
  pub content : Bytes
  pub finish_reason : Bytes

pub record EmbeddingRequest : Type 0 where
  pub model : Bytes
  pub input : List Bytes
  pub dimensions : ℤ

pub record DecisionsOptions : Type 0 where
  pub limit : ℤ
  pub offset : ℤ
  pub task : Bytes
  pub model : Bytes

pub record DecisionSummary : Type 0 where
  pub id : Bytes
  pub task : Bytes
  pub policy : Bytes
  pub selection : Option Bytes

pub record ReplayRequest : Type 0 where
  pub baseline_endpoint : Bytes
  pub policy : Bytes
  pub limit : ℤ

module _ (Float : Type 0) where
  pub record Tcos : Type 0 where
    pub direct_inference : Float
    pub router_overhead : Float
    pub context_movement : Float
    pub cache_loss : Float
    pub reliability_cost : Float
    pub total : Float

  pub record RoutingEvidence : Type 0 where
    pub decision_id : Bytes
    pub model_ref : Bytes
    pub endpoint_ref : Bytes
    pub tcos : Tcos

  pub record ChatResponse : Type 0 where
    pub content : Bytes
    pub finish_reason : Bytes
    pub usage : Usage
    pub noetivela : RoutingEvidence

  pub record ChatEnvelope : Type 0 where
    pub choices : List Choice
    pub usage : Usage
    pub noetivela : RoutingEvidence

  pub record EligibleCandidate : Type 0 where
    pub model_ref : Bytes
    pub endpoint_ref : Bytes
    pub eligible : Bool
    pub filter_reasons : List Bytes
    pub score : Float

  pub record ValidateResult : Type 0 where
    pub valid : Bool
    pub satisfiable : Bool
    pub candidates : List EligibleCandidate
    pub policy : Bytes

  pub record TrainResult : Type 0 where
    pub version_id : Bytes
    pub trained_samples : ℤ
    pub validate_mae : Float
    pub min_confidence : Float

  -- The features are JSON values, each as its text.
  pub record TrainSample : Type 0 where
    pub features : List (Bytes × Bytes)
    pub candidate_ref : Bytes
    pub quality : Float
    pub tcos : Float

  pub record TrainOptions : Type 0 where
    pub version_id : Bytes
    pub min_samples : ℤ
    pub tcos_weight : Float
    pub hold_out_frac : Float
    pub samples : List TrainSample

  -- The map that `Train` sends; `samples` is `none` where the map has no such key.
  pub record TrainRequest : Type 0 where
    pub version_id : Bytes
    pub min_samples : ℤ
    pub tcos_weight : Float
    pub hold_out_frac : Float
    pub samples : Option (List TrainSample)

  pub record StrategyResult : Type 0 where
    pub strategy : Bytes
    pub total_tcos : Float
    pub total_quality : Float
    pub quality_adj_tcos : Float
    pub served_count : ℤ
    pub denied_count : ℤ

  pub record ReplayResult : Type 0 where
    pub records : ℤ
    pub baseline : StrategyResult
    pub routed : StrategyResult
    pub savings_percent : Float
    pub verdict : Bytes

  -- The vectors hold values of another type, float32.
  pub record EmbeddingResponse (Single : Type 0) : Type 0 where
    pub vectors : List (List Single)
    pub dimensions : ℤ
    pub usage : Usage
    pub noetivela : RoutingEvidence

  -- What the methods marshal as a request's body.
  pub data Body : Type 0 where
    chat : ChatRequest → Body
    train : TrainRequest → Body
    replay : ReplayRequest → Body
    embedding : EmbeddingRequest → Body
