-- ===== src/Cli/Output.antt =====
-- cli/main.go: what the commands print.
use noetivela_open.Prelude.{
  Option, none, some, List, [], ◌∷◌, ◌++◌, Bytes, codes, equal, ◌⊎◌, inl, inr, if◌then◌else◌,
}
use noetivela_open.Go.Decimals.{decimal}
use noetivela_open.Go.Format.{pad_right, show_list}
use noetivela_open.Client.Types.{
  Usage, ChatResponse, EligibleCandidate, ValidateResult, DecisionSummary, TrainResult,
  StrategyResult, ReplayResult,
}
use noetivela_open.Client.Call.{Gateway}
use noetivela_open.Cli.Terminal.{Terminal, line}

infixr 40 ◌+++◌
abbrev ◌+++◌ : Bytes → Bytes → Bytes
a +++ b = a ++ b

-- `%+v` of a `Usage`
unfoldable pub show_usage : Usage → Bytes
show_usage u =
    codes "{InputTokens:"
    +++ decimal u.input_tokens
    +++ codes " OutputTokens:"
    +++ decimal u.output_tokens
    +++ codes " CachedTokens:"
    +++ decimal u.cached_tokens
    +++ codes " ReasoningTokens:"
    +++ decimal u.reasoning_tokens
    +++ codes "}"

abbrev pub selection_text : Option Bytes → Bytes
selection_text none = codes "<none>"
selection_text (some raw) = if equal raw [] then codes "<none>" else raw

unfoldable pub print_decision : DecisionSummary → Bytes
print_decision d = line (
    d.id
    +++ codes "  task="
    +++ d.task
    +++ codes " policy="
    +++ d.policy
    +++ codes "  selection="
    +++ selection_text d.selection)

unfoldable pub print_decisions : List DecisionSummary → Bytes
print_decisions [] = []
print_decisions (d ∷ ds) = print_decision d ++ print_decisions ds

unfoldable pub print_lines : List Bytes → Bytes
print_lines [] = []
print_lines (l ∷ ls) = line l ++ print_lines ls

module _ (gw : Gateway) (tm : Terminal gw) where
  open gw use {Float, Error}
  open tm use {indent_validation, is_zero, fixed}

  -- The error of the marshaller is dropped, with no bytes.
  abbrev indented : Error ⊎ Bytes → Bytes
  indented (inl e) = []
  indented (inr out) = out

  unfoldable pub print_validation : ValidateResult Float → Bytes
  print_validation res = line (indented (indent_validation res))

  unfoldable pub print_candidate : EligibleCandidate Float → Bytes
  print_candidate c = line (
      pad_right 24 c.model_ref
      +++ codes " "
      +++ pad_right 20 c.endpoint_ref
      +++ codes " "
      +++ (if c.eligible then codes "eligible" else codes "ineligible")
      +++ codes "  score="
      +++ fixed 3 c.score
      +++ codes " "
      +++ show_list c.filter_reasons)

  unfoldable pub print_candidates : List (EligibleCandidate Float) → Bytes
  print_candidates [] = []
  print_candidates (c ∷ cs) = print_candidate c ++ print_candidates cs

  unfoldable pub print_chat : ChatResponse Float → Bytes
  print_chat resp =
      line (
        codes "model: "
        +++ resp.noetivela.model_ref
        +++ codes "  endpoint: "
        +++ resp.noetivela.endpoint_ref
        +++ codes "  decision: "
        +++ resp.noetivela.decision_id)
      ++ (line (codes "content: " +++ resp.content)
          ++ line (
              codes "usage: "
              +++ show_usage resp.usage
              +++ codes "  tcos: "
              +++ fixed 6 resp.noetivela.tcos.total))

  unfoldable pub print_training : TrainResult Float → Bytes
  print_training res = line (
      codes "trained router "
      +++ res.version_id
      +++ codes " on "
      +++ decimal res.trained_samples
      +++ codes " samples (min_confidence="
      +++ fixed 3 res.min_confidence
      +++ codes ")"
      +++ (if is_zero res.validate_mae
          then []
          else codes " validate_mae=" +++ fixed 4 res.validate_mae))

  unfoldable pub print_strategy : Bytes → StrategyResult Float → Bytes
  print_strategy label s = line (
      label
      +++ codes "quality-adjusted TCoS="
      +++ fixed 4 s.quality_adj_tcos
      +++ codes " served="
      +++ decimal s.served_count
      +++ codes " denied="
      +++ decimal s.denied_count)

  unfoldable pub print_replay : ReplayResult Float → Bytes
  print_replay res =
      line (
        codes "records: "
        +++ decimal res.records
        +++ codes "  savings: "
        +++ fixed 2 res.savings_percent
        +++ codes "%  verdict: "
        +++ res.verdict)
      ++ (print_strategy (codes "  baseline: ") res.baseline
          ++ print_strategy (codes "  routed:   ") res.routed)
