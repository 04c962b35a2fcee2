-- ===== src/Client/Call.antt =====
-- sdk/go/client/client.go: `New`, `WithContract`, `newRequest`, `do` and `mapError`.
-- The packages net/http, io and encoding/json are the fields of the parameter `Gateway`.
pub mod Headers
pub mod Names
pub mod Urls
pub mod Outcomes
use noetivela_open.Prelude.{
  ℕ, Bool, ◌||◌, Option, none, some, List, [], ◌∷◌, ◌++◌, Bytes, codes, equal, ◌⊎◌, inl, inr, ltb,
  leb, ◌==◌, if◌then◌else◌,
}
use noetivela_open.Client.Types.{
  Contract, Body, ChatChunk, UnsatisfiableError, ChatEnvelope, ValidateResult, EligibleCandidate,
  DecisionSummary, TrainResult, ReplayResult, EmbeddingResponse,
}

abbrev pub Headers : Type 0
Headers = List (Bytes × Bytes)

pub record Request : Type 0 where
  pub method : Bytes
  pub url : Bytes
  pub headers : Headers
  pub body : Option Bytes

-- The bytes of the body that can be read, and the error behind them, if it is not the end.
pub record Response (Error : Type 0) : Type 0 where
  pub status : ℕ
  pub body : Bytes
  pub read_error : Option Error

pub record Gateway : Type 1 where
  -- float64 and float32
  pub Float : Type 0
  pub Single : Type 0
  pub Error : Type 0
  -- what a round trip reads and changes
  pub World : Type 0
  -- http.NewRequestWithContext, by the error that it returns
  pub request_error : Bytes → Bytes → Option Error
  pub round_trip : Request → World → (Error ⊎ Response Error) × World
  pub marshal_contract : Contract → Error ⊎ Bytes
  pub marshal : Body Float → Error ⊎ Bytes
  pub unmarshal_chat : Bytes → Error ⊎ ChatEnvelope Float
  -- the field `done` of an event, and its chunk
  pub unmarshal_done : Bytes → Error ⊎ Bool
  pub unmarshal_chunk : Bytes → Error ⊎ ChatChunk
  pub unmarshal_unsatisfiable : Bytes → Error ⊎ UnsatisfiableError
  pub unmarshal_validation : Bytes → Error ⊎ ValidateResult Float
  pub unmarshal_ranked : Bytes → Error ⊎ List (EligibleCandidate Float)
  pub unmarshal_raw : Bytes → Error ⊎ Bytes
  pub unmarshal_raws : Bytes → Error ⊎ List Bytes
  pub unmarshal_decisions : Bytes → Error ⊎ List DecisionSummary
  pub unmarshal_training : Bytes → Error ⊎ TrainResult Float
  pub unmarshal_replay : Bytes → Error ⊎ ReplayResult Float
  pub unmarshal_embedding : Bytes → Error ⊎ EmbeddingResponse Float Single

-- An empty string is a name that is not set. The HTTP client is the `round_trip` of the parameter.
pub record Client : Type 0 where
  pub base_url : Bytes
  pub contract : Option Contract
  pub policy_name : Bytes
  pub tenant : Bytes
  pub principal : Bytes

-- strings.TrimRight(s, "/")
unfoldable pub trim_slashes : Bytes → Bytes
trim_slashes [] = []
trim_slashes (c ∷ cs) = let r = c ∷ trim_slashes cs in if equal r (codes "/") then [] else r

unfoldable pub new : Bytes → Client
new base_url = record {
  base_url = trim_slashes base_url;
  contract = none;
  policy_name = [];
  tenant = [];
  principal = [];
}

unfoldable pub with_contract : Client → Option Contract → Client
with_contract c ct = record c { contract = ct }

-- `Header.Set`
unfoldable pub set : Bytes → Bytes → Headers → Headers
set key value [] = (key, value) ∷ []
set key value ((k, v) ∷ hs) =
    let rest = set key value hs in if equal k key then (key, value) ∷ hs else (k, v) ∷ rest

-- `if value != "" { req.Header.Set(key, value) }`
unfoldable pub set_named : Bytes → Bytes → Headers → Headers
set_named key value hs = let named = set key value hs in if equal value [] then hs else named

-- An `error` of the methods: one of the packages, `*Error`, `*UnsatisfiableError`, or the error of an
-- empty response.
pub data Failure (Error : Type 0) : Type 0 where
  library : Error → Failure Error
  http : ℕ → Bytes → Failure Error
  unsatisfiable : UnsatisfiableError → Failure Error
  empty_response : Failure Error

module _ {E A B : Type 0} where
  infixl 5 ◌>>=◌
  abbrev pub ◌>>=◌ : E ⊎ A → (A → E ⊎ B) → E ⊎ B
  inl e >>= f = inl e
  inr a >>= f = f a

unfoldable pub set_names : Client → Headers → Headers
set_names c hs = set_named (codes "X-Noetivela-Principal") c.principal (
    set_named (codes "X-Noetivela-Tenant") c.tenant
      (set_named (codes "X-Noetivela-Policy") c.policy_name hs))

module _ (gw : Gateway) where
  open gw use {
    Float, Error, World, request_error, round_trip, marshal_contract, marshal,
    unmarshal_unsatisfiable,
  }

  -- `if body != nil`
  unfoldable pub body_bytes : Option (Body Float) → Error ⊎ Option Bytes
  body_bytes none = inr none
  body_bytes (some b) = marshal b >>= λ raw. inr (some raw)

  abbrev pub checked : Option Error → Request → Error ⊎ Request
  checked none r = inr r
  checked (some e) r = inl e

  -- `if c.Contract != nil`
  unfoldable pub set_contract : Option Contract → Headers → Error ⊎ Headers
  set_contract none hs = inr hs
  set_contract (some ct) hs =
      marshal_contract ct >>= λ raw. inr (set (codes "X-Noetivela-Contract") raw hs)

  unfoldable pub new_request : Client → Bytes → Bytes → Option (Body Float) → Error ⊎ Request
  new_request c method path body = do
    reader ← body_bytes body
    let url = c.base_url ++ path
    req ←
        checked (request_error method url)
          (record { method = method; url = url; headers = []; body = reader })
    hs ← set_contract c.contract (set (codes "Content-Type") (codes "application/json") req.headers)
    inr (record req { headers = set_names c hs })

  module _ {A : Type 0} where
    abbrev pub lift : Error ⊎ A → Failure Error ⊎ A
    lift (inl e) = inl (library e)
    lift (inr a) = inr a

    -- The status and the body of a response, by the unmarshaller of what the call returns.
    unfoldable pub read_response : (Bytes → Error ⊎ A) → Response Error → Failure Error ⊎ A
    read_response unmarshal resp = of_read resp.read_error
      where
        of_read : Option Error → Failure Error ⊎ A
        of_read (some e) = inl (library e)
        of_read none =
            if ltb resp.status 200 || leb 300 resp.status
            then inl (http resp.status resp.body)
            else lift (unmarshal resp.body)

    abbrev pub received :
        (Bytes → Error ⊎ A) → (Error ⊎ Response Error) × World → (Failure Error ⊎ A) × World
    received unmarshal (inl e, w) = (inl (library e), w)
    received unmarshal (inr resp, w) = (read_response unmarshal resp, w)

    abbrev pub sent : (Bytes → Error ⊎ A) → Error ⊎ Request → World → (Failure Error ⊎ A) × World
    sent unmarshal (inl e) w = (inl (library e), w)
    sent unmarshal (inr req) w = received unmarshal (round_trip req w)

    -- `do`; each caller gives an `out`.
    unfoldable pub call :
        Client
        → Bytes
        → Bytes
        → Option (Body Float)
        → (Bytes → Error ⊎ A)
        → World
        → (Failure Error ⊎ A) × World
    call c method path body unmarshal w = sent unmarshal (new_request c method path body) w

  abbrev pub unsatisfied : ℕ → Bytes → Error ⊎ UnsatisfiableError → Failure Error
  unsatisfied status body (inl e) = http status body
  unsatisfied status body (inr ue) =
      if equal ue.type (codes "unsatisfiable_contract") then unsatisfiable ue else http status body

  unfoldable pub map_error : Failure Error → Failure Error
  map_error (http status body) = unsatisfied status body (unmarshal_unsatisfiable body)
  map_error e = e
