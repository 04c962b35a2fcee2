-- ===== src/Examples/Quickstart.antt =====
-- examples/quickstart/main.go: `main` on a value of NOETIVELA_URL.
use noetivela_open.Prelude.{
  ℕ, Bool, true, false, none, some, List, [], ◌∷◌, ◌++◌, Bytes, codes, inl, inr, if◌then◌else◌,
}
use noetivela_open.Policy.Number.{ℤ}
use noetivela_open.Client.Types.{Contract, Message, ChatResponse, ValidateResult, EligibleCandidate}
use noetivela_open.Client.Call.{Gateway, Client, Failure, new, with_contract}
use noetivela_open.Client.Calls.{Called, validate_contract, eligible_candidates, chat, get_decision}
use noetivela_open.Cli.Terminal.{line, default_url}
use noetivela_open.Cli.Output.{show_usage}

-- The verbs `%.nf`, and `%q`, which quotes a string.
pub record Verbs (Float : Type 0) : Type 0 where
  pub fixed : ℕ → Float → Bytes
  pub quoted : Bytes → Bytes

abbrev pub contract : Contract
contract = record {
  task = codes "contract_clause_extraction";
  domain = codes "legal";
  language = [];
  modality = codes "text" ∷ [];
  response_schema = codes "legal_clause_v3";
  quality = some (record { minimum_eval_grade = codes "A-"; grounding_required = false });
  latency =
      some (record {
        ttft_ms = ℤ.pos 0;
        p95_ms = ℤ.pos 3500;
        deadline_ms = ℤ.pos 0;
        streaming = false;
      });
  cost = none;
  context =
      some
        (record { session_id = codes "case-8821"; cache_key = []; prefer_cache_locality = true });
  policy = some (record {
    data_classification = codes "confidential";
    allowed_regions = codes "sg" ∷ codes "cn-north" ∷ [];
    denied_providers = [];
    provider_training = codes "prohibited";
    retention = codes "none";
  });
  reliability = none;
}

abbrev pub policy_name : Bytes
policy_name = codes "legal-confidential-v2"

abbrev pub messages : List Message
messages =
    record { role = codes "system"; content = codes "You extract clauses from contracts." }
    ∷ record {
      role = codes "user";
      content = codes "Extract the indemnity clause from this contract: ...";
    }
    ∷ []

abbrev pub show_bool : Bool → Bytes
show_bool b = if b then codes "true" else codes "false"

-- `cc`
abbrev pub governed : Client → Client
governed c = record (with_contract c (some contract)) { policy_name = policy_name }

-- How the program ends: with status 0, or by `fatal` at a step, with status 1; with its output.
pub data Finish (Error : Type 0) : Type 0 where
  finished : Bytes → Finish Error
  fatal : Bytes → Failure Error → Bytes → Finish Error

module _ (gw : Gateway) (vb : Verbs gw.Float) where
  open gw use {Float, Error, World}
  open vb use {fixed, quoted}

  unfoldable pub print_candidates : List (EligibleCandidate Float) → Bytes
  print_candidates [] = []
  print_candidates (c ∷ cs) =
      line (
        codes "  candidate model="
        ++ (c.model_ref
            ++ (codes " endpoint="
                ++ (c.endpoint_ref ++ (codes " eligible=" ++ show_bool c.eligible)))))
      ++ print_candidates cs

  unfoldable pub print_validation : ValidateResult Float → Bytes
  print_validation res =
      line (
        codes "contract satisfiable: "
        ++ (show_bool res.satisfiable ++ (codes " (policy " ++ (quoted res.policy ++ codes ")"))))
      ++ print_candidates res.candidates

  unfoldable pub print_scores : List (EligibleCandidate Float) → Bytes
  print_scores [] = []
  print_scores (c ∷ cs) =
      line (
        codes "  "
        ++ (c.model_ref
            ++ (codes " @ " ++ (c.endpoint_ref ++ (codes " score=" ++ fixed 3 c.score)))))
      ++ print_scores cs

  unfoldable pub print_ranked : List (EligibleCandidate Float) → Bytes
  print_ranked cs = line (codes "ranked eligible candidates:") ++ print_scores cs

  unfoldable pub print_answer : ChatResponse Float → Bytes
  print_answer r =
      line (
        codes "model="
        ++ (r.noetivela.model_ref
            ++ (codes " endpoint="
                ++ (r.noetivela.endpoint_ref ++ (codes " decision=" ++ r.noetivela.decision_id)))))
      ++ (line (codes "content: " ++ r.content)
          ++ (line (codes "usage: " ++ show_usage r.usage)
              ++ line (codes "tcos: " ++ fixed 6 r.noetivela.tcos.total)))

  abbrev pub Ended : Type 0
  Ended = Finish Error × World

  -- Each step, on the output so far and what its call returned, with the next call.
  abbrev pub on_trace : Bytes → Called gw Bytes → Ended
  on_trace out (inl e, w) = (fatal (codes "decision") e out, w)
  on_trace out (inr trace, w) = (finished (out ++ line (codes "decision trace: " ++ trace)), w)

  abbrev pub on_answer : Client → Bytes → Called gw (ChatResponse Float) → Ended
  on_answer c out (inl e, w) = (fatal (codes "chat") e out, w)
  on_answer c out (inr r, w) =
      on_trace (out ++ print_answer r) (get_decision gw c r.noetivela.decision_id w)

  abbrev pub on_ranked : Client → Bytes → Called gw (List (EligibleCandidate Float)) → Ended
  on_ranked c out (inl e, w) = (fatal (codes "eligible") e out, w)
  on_ranked c out (inr cs, w) =
      on_answer c (out ++ print_ranked cs) (chat gw (governed c) (codes "auto") messages w)

  abbrev pub on_validation : Client → Called gw (ValidateResult Float) → Ended
  on_validation c (inl e, w) = (fatal (codes "validate") e [], w)
  on_validation c (inr res, w) =
      on_ranked c (print_validation res) (eligible_candidates gw c (some contract) policy_name w)

  unfoldable pub quickstart : Bytes → World → Ended
  quickstart environment w =
      let c = new (default_url environment) in
      on_validation c (validate_contract gw c (some contract) policy_name w)
