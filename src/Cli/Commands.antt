-- ===== src/Cli/Commands.antt =====
-- cli/main.go: `loadContract` and the commands, each on the arguments from its own name on.
use noetivela_open.Prelude.{some, List, [], ◌∷◌, Bytes, codes, equal, ◌⊎◌, inl, inr, if◌then◌else◌}
use noetivela_open.Policy.Number.{ℤ}
use noetivela_open.Go.Flags.{
  Flags, Parsed, Value, ok, err, help, text, integer, float, parse_flags, text_of, integer_of,
  float_of,
}
use noetivela_open.Client.Types.{Contract, Message, TrainOptions}
use noetivela_open.Client.Call.{Gateway, Client, with_contract}
use noetivela_open.Client.Calls.{
  Called, validate_contract, eligible_candidates, chat, decisions, train, replay, usage,
}
use noetivela_open.Cli.Terminal.{
  Terminal, CliError, contract_required, version_required, baseline_required, read_error,
  parse_contract, client, flag_help, flag_problem, Ending, done, failed, exits,
}
use noetivela_open.Cli.Output.{
  print_validation, print_candidates, print_chat, print_decisions, print_training, print_lines,
  print_replay,
}

-- `args[1:]`
abbrev pub behind_first : List Bytes → List Bytes
behind_first [] = []
behind_first (_ ∷ args) = args

module _ (gw : Gateway) (tm : Terminal gw) where
  open gw use {Float, Error, World}
  open tm use {read_file, unmarshal_contract, parse_float, one_half, zero}

  abbrev pub Command : Type 0
  Command = World → Ending Error × World

  abbrev pub FlagsOf : Type 0
  FlagsOf = Flags Float parse_float

  abbrev pub string_flag : Bytes → Bytes × Value Float parse_float
  string_flag name = (name, text [])

  abbrev pub named_text : Bytes → FlagsOf → Bytes
  named_text = text_of Float parse_float

  abbrev pub named_integer : Bytes → FlagsOf → ℤ
  named_integer = integer_of Float parse_float

  -- `flag.ExitOnError`
  abbrev pub on_parsed : Bytes → (FlagsOf → Command) → Parsed Float parse_float → Command
  on_parsed name k (ok fs rest) w = k fs w
  on_parsed name k (err e) w = (exits 2 (flag_problem name e), w)
  on_parsed name k help w = (exits 0 (flag_help name), w)

  unfoldable pub with_flags : Bytes → FlagsOf → List Bytes → (FlagsOf → Command) → Command
  with_flags name fs args k w = on_parsed name k (parse_flags Float parse_float args fs) w

  unfoldable pub required : Bytes → CliError Error → Command → Command
  required value e k w = let more = k w in if equal value [] then (failed e, w) else more

  abbrev pub parsed_contract : Bytes → Error ⊎ Contract → CliError Error ⊎ Contract
  parsed_contract path (inl e) = inl (parse_contract path e)
  parsed_contract path (inr ct) = inr ct

  abbrev pub contract_in : Bytes → Error ⊎ Bytes → CliError Error ⊎ Contract
  contract_in path (inl e) = inl (read_error e)
  contract_in path (inr raw) = parsed_contract path (unmarshal_contract raw)

  unfoldable pub load_contract : Bytes → CliError Error ⊎ Contract
  load_contract path = contract_in path (read_file path)

  abbrev pub on_contract : (Contract → Command) → CliError Error ⊎ Contract → Command
  on_contract k (inl e) w = (failed e, w)
  on_contract k (inr ct) w = k ct w

  -- The check of `-contract` with the load of its file.
  unfoldable pub with_contract_file : FlagsOf → (Contract → Command) → Command
  with_contract_file fs k =
      required (named_text (codes "contract") fs) contract_required
        (on_contract k (load_contract (named_text (codes "contract") fs)))

  abbrev pub printed : {A : Type 0} → (A → Bytes) → Called gw A → Ending Error × World
  printed print (inl e, w) = (failed (client e), w)
  printed print (inr a, w) = (done (print a), w)

  abbrev pub contract_flags : FlagsOf
  contract_flags = string_flag (codes "contract") ∷ string_flag (codes "policy") ∷ []

  unfoldable pub run_validate : Client → List Bytes → Command
  run_validate c args = with_flags (codes "validate") contract_flags (behind_first args) λ fs.
      with_contract_file fs λ ct w.
        printed (print_validation gw tm)
          (validate_contract gw c (some ct) (named_text (codes "policy") fs) w)

  unfoldable pub run_eligible : Client → List Bytes → Command
  run_eligible c args = with_flags (codes "eligible") contract_flags (behind_first args) λ fs.
      with_contract_file fs λ ct w.
        printed (print_candidates gw tm)
          (eligible_candidates gw c (some ct) (named_text (codes "policy") fs) w)

  abbrev pub chat_flags : FlagsOf
  chat_flags =
      string_flag (codes "contract")
      ∷ string_flag (codes "policy")
      ∷ string_flag (codes "prompt")
      ∷ []

  -- `cc` of `runChat`
  abbrev pub governed : Client → Contract → Bytes → Client
  governed c ct policy_name = record (with_contract c (some ct)) { policy_name = policy_name }

  abbrev pub user_message : Bytes → List Message
  user_message prompt = record { role = codes "user"; content = prompt } ∷ []

  unfoldable pub run_chat : Client → List Bytes → Command
  run_chat c args = with_flags (codes "chat") chat_flags (behind_first args) λ fs.
      with_contract_file fs λ ct w. printed (print_chat gw tm) (
        chat gw (governed c ct (named_text (codes "policy") fs)) (codes "auto")
          (user_message (named_text (codes "prompt") fs)) w)

  abbrev pub decisions_flags : FlagsOf
  decisions_flags =
      (codes "limit", integer (ℤ.pos 50))
      ∷ (codes "offset", integer (ℤ.pos 0))
      ∷ string_flag (codes "task")
      ∷ string_flag (codes "model")
      ∷ []

  unfoldable pub run_decisions : Client → List Bytes → Command
  run_decisions c args = with_flags (codes "decisions") decisions_flags (behind_first args) λ fs w.
      printed print_decisions (
        decisions gw c
          (record {
            limit = named_integer (codes "limit") fs;
            offset = named_integer (codes "offset") fs;
            task = named_text (codes "task") fs;
            model = named_text (codes "model") fs;
          })
          w)

  abbrev pub train_flags : FlagsOf
  train_flags =
      string_flag (codes "version")
      ∷ (codes "min-samples", integer (ℤ.pos 10))
      ∷ (codes "tcos-weight", float one_half)
      ∷ (codes "hold-out", float zero)
      ∷ []

  unfoldable pub run_train : Client → List Bytes → Command
  run_train c args = with_flags (codes "train") train_flags (behind_first args) λ fs.
      required (named_text (codes "version") fs) version_required λ w.
        let opts : TrainOptions Float = record {
          version_id = named_text (codes "version") fs;
          min_samples = named_integer (codes "min-samples") fs;
          tcos_weight = float_of Float parse_float (codes "tcos-weight") one_half fs;
          hold_out_frac = float_of Float parse_float (codes "hold-out") zero fs;
          samples = [];
        } in
        printed (print_training gw tm) (train gw c opts w)

  unfoldable pub run_usage : Client → Command
  run_usage c w = printed print_lines (usage gw c w)

  abbrev pub replay_flags : FlagsOf
  replay_flags =
      string_flag (codes "baseline")
      ∷ string_flag (codes "policy")
      ∷ (codes "limit", integer (ℤ.pos 0))
      ∷ []

  unfoldable pub run_replay : Client → List Bytes → Command
  run_replay c args = with_flags (codes "replay") replay_flags (behind_first args) λ fs.
      required (named_text (codes "baseline") fs) baseline_required λ w.
        printed (print_replay gw tm) (
          replay gw c (named_text (codes "baseline") fs) (named_text (codes "policy") fs)
            (named_integer (codes "limit") fs) w)
