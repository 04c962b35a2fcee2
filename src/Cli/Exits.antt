-- ===== src/Cli/Exits.antt =====
-- cli/main.go: how a run of the program ends.
use noetivela_open.Prelude.{
  Bool, true, false, List, [], ◌∷◌, Bytes, equal, ◌⊎◌, inl, inr, if◌then◌else◌, if_cases,
}
use noetivela_open.Go.Flags.{Parsed, ok, err, help, parse_flags}
use noetivela_open.Client.Types.{Contract}
use noetivela_open.Client.Call.{Gateway, Client, new}
use noetivela_open.Client.Calls.{Called}
use noetivela_open.Cli.Terminal.{
  Terminal, CliError, Notice, usage_text, flag_help, problem, Ending, exits, Process,
}
use noetivela_open.Cli.Commands.{
  Command, FlagsOf, on_parsed, with_flags, required, on_contract, load_contract, with_contract_file,
  printed, run_validate, run_eligible, run_chat, run_decisions, run_train, run_usage, run_replay,
}
use noetivela_open.Cli.Main.{
  process, dispatch, left_by, run_command, with_globals, global_flags, main,
}

module _ (gw : Gateway) (tm : Terminal gw) where
  open gw use {Float, Error, World}
  open tm use {parse_float}

  -- How a command that starts in the world `w` ends: the world of an exit is that of its start.
  pub data Ends (w : World) : Ending Error × World → Type 0 where
    done : (out : Bytes) (w' : World) → Ends w (Ending.done out, w')
    failed : (e : CliError Error) (w' : World) → Ends w (Ending.failed e, w')
    misused : (n : Notice Error) → Ends w (exits 2 n, w)
    helped : (name : Bytes) → Ends w (exits 0 (flag_help name), w)

  abbrev AlwaysEnds : Command gw tm → Type 0
  AlwaysEnds k = (w : World) → Ends w (k w)

  printed-Ends :
      {A : Type 0} (print : A → Bytes) (w : World) (r : Called gw A)
      → Ends w (printed gw tm print r)
  printed-Ends print w (inl e, w') = failed _ w'
  printed-Ends print w (inr a, w') = done _ w'

  required-AlwaysEnds :
      (value : Bytes) (e : CliError Error) (k : Command gw tm)
      → AlwaysEnds k
      → AlwaysEnds (required gw tm value e k)
  unfolding required
  required-AlwaysEnds value e k h w =
      if_cases (Ends w) (equal value []) _ _ (λ _. failed e w) (λ _. h w)

  on_contract-AlwaysEnds :
      (k : Contract → Command gw tm) (r : CliError Error ⊎ Contract)
      → ((ct : Contract) → AlwaysEnds (k ct))
      → AlwaysEnds (on_contract gw tm k r)
  on_contract-AlwaysEnds k (inl e) h w = failed e w
  on_contract-AlwaysEnds k (inr ct) h w = h ct w

  with_contract_file-AlwaysEnds :
      (fs : FlagsOf gw tm) (k : Contract → Command gw tm)
      → ((ct : Contract) → AlwaysEnds (k ct))
      → AlwaysEnds (with_contract_file gw tm fs k)
  unfolding with_contract_file
  with_contract_file-AlwaysEnds fs k h =
      required-AlwaysEnds _ _ _ (on_contract-AlwaysEnds k (load_contract gw tm _) h)

  on_parsed-AlwaysEnds :
      (name : Bytes) (k : FlagsOf gw tm → Command gw tm) (r : Parsed Float parse_float)
      → ((fs : FlagsOf gw tm) → AlwaysEnds (k fs))
      → AlwaysEnds (on_parsed gw tm name k r)
  on_parsed-AlwaysEnds name k (ok fs rest) h w = h fs w
  on_parsed-AlwaysEnds name k (err e) h w = misused _
  on_parsed-AlwaysEnds name k help h w = helped name

  with_flags-AlwaysEnds :
      (name : Bytes) (fs : FlagsOf gw tm) (args : List Bytes) (k : FlagsOf gw tm → Command gw tm)
      → ((fs : FlagsOf gw tm) → AlwaysEnds (k fs))
      → AlwaysEnds (with_flags gw tm name fs args k)
  unfolding with_flags
  with_flags-AlwaysEnds name fs args k h =
      on_parsed-AlwaysEnds name k (parse_flags Float parse_float args fs) h

  module _ (c : Client) (args : List Bytes) where
    validate-AlwaysEnds : AlwaysEnds (run_validate gw tm c args)
    unfolding run_validate
    validate-AlwaysEnds =
        with_flags-AlwaysEnds _ _ _ _
          λ fs. with_contract_file-AlwaysEnds fs _ λ ct w. printed-Ends _ w _

    eligible-AlwaysEnds : AlwaysEnds (run_eligible gw tm c args)
    unfolding run_eligible
    eligible-AlwaysEnds =
        with_flags-AlwaysEnds _ _ _ _
          λ fs. with_contract_file-AlwaysEnds fs _ λ ct w. printed-Ends _ w _

    chat-AlwaysEnds : AlwaysEnds (run_chat gw tm c args)
    unfolding run_chat
    chat-AlwaysEnds =
        with_flags-AlwaysEnds _ _ _ _
          λ fs. with_contract_file-AlwaysEnds fs _ λ ct w. printed-Ends _ w _

    decisions-AlwaysEnds : AlwaysEnds (run_decisions gw tm c args)
    unfolding run_decisions
    decisions-AlwaysEnds = with_flags-AlwaysEnds _ _ _ _ λ fs w. printed-Ends _ w _

    train-AlwaysEnds : AlwaysEnds (run_train gw tm c args)
    unfolding run_train
    train-AlwaysEnds =
        with_flags-AlwaysEnds _ _ _ _ λ fs. required-AlwaysEnds _ _ _ λ w. printed-Ends _ w _

    replay-AlwaysEnds : AlwaysEnds (run_replay gw tm c args)
    unfolding run_replay
    replay-AlwaysEnds =
        with_flags-AlwaysEnds _ _ _ _ λ fs. required-AlwaysEnds _ _ _ λ w. printed-Ends _ w _

  usage-AlwaysEnds : (c : Client) → AlwaysEnds (run_usage gw tm c)
  unfolding run_usage
  usage-AlwaysEnds c w = printed-Ends _ w _

  dispatch-AlwaysEnds :
      (c : Client) (name : Bytes) (args : List Bytes) → AlwaysEnds (dispatch gw tm c name args)
  unfolding dispatch
  dispatch-AlwaysEnds c name args =
      branch _ (λ w. done _ w)
        (branch _ (validate-AlwaysEnds c args) (
          branch _ (eligible-AlwaysEnds c args) (
            branch _ (chat-AlwaysEnds c args) (
              branch _ (decisions-AlwaysEnds c args) (
                branch _ (replay-AlwaysEnds c args) (
                  branch _ (train-AlwaysEnds c args)
                    (branch _ (usage-AlwaysEnds c) (λ w. misused _))))))))
    where
      branch :
          (b : Bool) {x y : Command gw tm}
          → AlwaysEnds x
          → AlwaysEnds y
          → AlwaysEnds (if b then x else y)
      branch true h k = h
      branch false h k = k

  -- What a run of the program that starts in the world `w` leaves.
  pub data Leaves (w : World) : Process Error × World → Type 0 where
    finished : (out : Bytes) (w' : World) → Leaves w (process gw tm 0 out [], w')
    refused : (e : CliError Error) (w' : World) → Leaves w (process gw tm 1 [] (problem e ∷ []), w')
    misused : (n : Notice Error) → Leaves w (process gw tm 2 [] (n ∷ []), w)
    helped : (name : Bytes) → Leaves w (process gw tm 0 [] (flag_help name ∷ []), w)

  left_by-Leaves : (w : World) {r : Ending Error × World} → Ends w r → Leaves w (left_by gw tm r)
  left_by-Leaves w (done out w') = finished out w'
  left_by-Leaves w (failed e w') = refused e w'
  left_by-Leaves w (misused n) = misused n
  left_by-Leaves w (helped name) = helped name

  run_command-Leaves :
      (c : Client) (args : List Bytes) (w : World) → Leaves w (run_command gw tm c args w)
  unfolding run_command
  run_command-Leaves c [] w = misused usage_text
  run_command-Leaves c (name ∷ args) w =
      left_by-Leaves w (dispatch-AlwaysEnds c name (name ∷ args) w)

  with_globals-Leaves :
      (r : Parsed Float parse_float) (w : World) → Leaves w (with_globals gw tm r w)
  with_globals-Leaves (ok fs args) w = run_command-Leaves (new _) args w
  with_globals-Leaves (err e) w = misused _
  with_globals-Leaves help w = helped _

  -- Every run of the program ends in one of four ways: status 0 with its output and no message;
  -- status 1 with an error and no output; status 2 with one message and no output, or status 0 with
  -- the help on flags, and in these two cases nothing was sent: the world is as it was.
  pub main-Leaves : (args : List Bytes) (w : World) → Leaves w (main gw tm args w)
  unfolding main
  main-Leaves args w =
      with_globals-Leaves (parse_flags Float parse_float args (global_flags gw tm)) w
