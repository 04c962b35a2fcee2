-- ===== src/Examples/Traces.antt =====
-- examples/quickstart/main.go as a state machine: its stages, and the calls between them.
use noetivela_open.Prelude.{◌≡◌, refl, some, List, Bytes, codes, inl, inr}
use noetivela_open.Client.Types.{ChatResponse, ValidateResult, EligibleCandidate}
use noetivela_open.Client.Call.{Gateway, Client, Failure, new}
use noetivela_open.Client.Calls.{Called, validate_contract, eligible_candidates, chat, get_decision}
use noetivela_open.Cli.Terminal.{default_url}
use noetivela_open.Examples.Quickstart.{
  Verbs, contract, policy_name, messages, Finish, finished, fatal, on_trace, on_answer, governed,
  on_ranked, on_validation, quickstart,
}

module _ (gw : Gateway) where
  open gw use {Float, Error, World}

  pub data Stage : Type 0 where
    begun validated ranked : Stage
    answered : ChatResponse Float → Stage
    traced : Bytes → Stage

  module _ (c : Client) where
    -- A call that succeeds leads from a stage to the next.
    pub data Step : Stage → World → Stage → World → Type 0 where
      validate :
          {w w' : World} {res : ValidateResult Float}
          → validate_contract gw c (some contract) policy_name w ≡ (inr res, w')
          → Step begun w validated w'
      rank :
          {w w' : World} {cs : List (EligibleCandidate Float)}
          → eligible_candidates gw c (some contract) policy_name w ≡ (inr cs, w')
          → Step validated w ranked w'
      answer :
          {w w' : World} {r : ChatResponse Float}
          → chat gw (governed c) (codes "auto") messages w ≡ (inr r, w')
          → Step ranked w (answered r) w'
      trace :
          {w w' : World} {r : ChatResponse Float} {t : Bytes}
          → get_decision gw c r.noetivela.decision_id w ≡ (inr t, w')
          → Step (answered r) w (traced t) w'

    -- A call that fails ends the program at its step.
    pub data Fails : Stage → World → Bytes → Failure Error → World → Type 0 where
      at_validate :
          {w w' : World} {e : Failure Error}
          → validate_contract gw c (some contract) policy_name w ≡ (inl e, w')
          → Fails begun w (codes "validate") e w'
      at_rank :
          {w w' : World} {e : Failure Error}
          → eligible_candidates gw c (some contract) policy_name w ≡ (inl e, w')
          → Fails validated w (codes "eligible") e w'
      at_answer :
          {w w' : World} {e : Failure Error}
          → chat gw (governed c) (codes "auto") messages w ≡ (inl e, w')
          → Fails ranked w (codes "chat") e w'
      at_trace :
          {w w' : World} {r : ChatResponse Float} {e : Failure Error}
          → get_decision gw c r.noetivela.decision_id w ≡ (inl e, w')
          → Fails (answered r) w (codes "decision") e w'

    pub data Reaches (w : World) : Stage → World → Type 0 where
      here : Reaches w begun w
      next : {s t : Stage} {w₁ w₂ : World} → Reaches w s w₁ → Step s w₁ t w₂ → Reaches w t w₂

    -- An end of the program, as a run of the state machine.
    abbrev pub Follows : World → Finish Error × World → Type 0
    Follows w (finished _, w') = (t : Bytes) × Reaches w (traced t) w'
    Follows w (fatal step e _, w') =
        (s : Stage) × (w₁ : World) × Reaches w s w₁ × Fails s w₁ step e w'

  module _ (vb : Verbs Float) (c : Client) (w : World) where
    trace-Follows :
        (out : Bytes) {r : ChatResponse Float} {w₁ : World}
        → Reaches c w (answered r) w₁
        → (result : Called gw Bytes) → get_decision gw c r.noetivela.decision_id w₁ ≡ result
        → Follows c w (on_trace gw vb out result)
    trace-Follows out reached (inl e, w') h = (_, _, reached, at_trace h)
    trace-Follows out reached (inr t, w') h = (t, next reached (trace h))

    answer-Follows :
        (out : Bytes) {w₁ : World}
        → Reaches c w ranked w₁
        → (result : Called gw (ChatResponse Float))
        → chat gw (governed c) (codes "auto") messages w₁ ≡ result
        → Follows c w (on_answer gw vb c out result)
    answer-Follows out reached (inl e, w') h = (_, _, reached, at_answer h)
    answer-Follows out reached (inr r, w') h =
        trace-Follows _ (next reached (answer h)) (get_decision gw c r.noetivela.decision_id w')
          refl

    ranked-Follows :
        (out : Bytes) {w₁ : World}
        → Reaches c w validated w₁
        → (result : Called gw (List (EligibleCandidate Float)))
        → eligible_candidates gw c (some contract) policy_name w₁ ≡ result
        → Follows c w (on_ranked gw vb c out result)
    ranked-Follows out reached (inl e, w') h = (_, _, reached, at_rank h)
    ranked-Follows out reached (inr cs, w') h =
        answer-Follows _ (next reached (rank h)) (chat gw (governed c) (codes "auto") messages w')
          refl

    validation-Follows :
        (result : Called gw (ValidateResult Float))
        → validate_contract gw c (some contract) policy_name w ≡ result
        → Follows c w (on_validation gw vb c result)
    validation-Follows (inl e, w') h = (_, _, here, at_validate h)
    validation-Follows (inr res, w') h =
        ranked-Follows _ (next here (validate h))
          (eligible_candidates gw c (some contract) policy_name w') refl

  -- The quickstart follows the state machine: it finishes only behind a validation, a ranking, an
  -- answer and the trace of this answer's decision, each of which succeeded, in this order; and it
  -- ends at a step if the calls before it succeeded and the call of the step failed, and makes no
  -- other call.
  pub quickstart-Follows :
      (vb : Verbs Float) (environment : Bytes) (w : World)
      → Follows (new (default_url environment)) w (quickstart gw vb environment w)
  unfolding quickstart
  quickstart-Follows vb environment w =
      validation-Follows vb (new (default_url environment)) w _ refl
