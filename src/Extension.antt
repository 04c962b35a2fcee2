-- ===== src/Extension.antt =====
-- contracts/go/extension/extension.go: the records that the extension points exchange, and the
-- interfaces, as records of operations. A float64 is a value of the parameter `Float`.
use noetivela_open.Prelude.{List, ◌++◌, Bytes, codes, Option, ◌⊎◌}

pub record ModelIdentity : Type 0 where
  pub id : Bytes
  pub family : Bytes
  pub provider : Bytes

pub record Endpoint (Float : Type 0) : Type 0 where
  pub id : Bytes
  pub region : Bytes
  pub provider : Bytes
  pub retention : Bytes
  pub health : Bytes
  pub price_per_mtok : Float

pub record Sample (Float : Type 0) : Type 0 where
  pub tenant : Bytes
  pub task : Bytes
  pub domain : Bytes
  pub candidate_ref : Bytes
  pub quality : Float
  pub tcos : Float

pub record UsageRecord (Float : Type 0) : Type 0 where
  pub decision_id : Bytes
  pub tenant : Bytes
  pub task : Bytes
  pub endpoint_ref : Bytes
  pub total_tcos : Float
  pub latency_ms : Float
  pub error : Bytes

pub record NotFoundError : Type 0 where
  pub msg : Bytes

-- `ErrNotFound`
abbrev pub not_found_text : Bytes
not_found_text = codes "extension: not found"

-- `NotFoundError.Error`
unfoldable pub error_text : NotFoundError → Bytes
error_text e = codes "extension: not found: " ++ e.msg

-- The interfaces, of implementations with a state of their own.
module _ (State Error : Type 0) where
  abbrev Method : Type 0 → Type 0
  Method A = State → (Error ⊎ A) × State

  pub record Store (Float : Type 0) : Type 0 where
    pub get_model : Bytes → Method ModelIdentity
    pub list_models : Method (List ModelIdentity)
    pub get_endpoint : Bytes → Method (Endpoint Float)
    pub list_endpoints : Method (List (Endpoint Float))

  pub record CredentialResolver : Type 0 where
    pub resolve : Bytes → Bytes → Method Bytes

  pub record Sink (Float : Type 0) : Type 0 where
    pub record_usage : UsageRecord Float → State → Option Error × State

  pub record Scorer (Float : Type 0) : Type 0 where
    pub score : Sample Float → Endpoint Float → State → Float × State
