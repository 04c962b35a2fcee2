-- ===== src/Cli/Main.antt =====
-- cli/main.go: `main`, on the arguments behind the program's name.
use noetivela_open.Prelude.{ℕ, ◌||◌, List, [], ◌∷◌, ◌++◌, Bytes, codes, equal, if◌then◌else◌}
use noetivela_open.Go.Flags.{Parsed, ok, err, help, text, parse_flags}
use noetivela_open.Client.Call.{Gateway, Client, new}
use noetivela_open.Cli.Terminal.{
  Terminal, Notice, usage_text, flag_help, flag_problem, problem, Ending, done, failed, exits,
  Process, line, default_url,
}
use noetivela_open.Cli.Commands.{
  Command, FlagsOf, named_text, run_validate, run_eligible, run_chat, run_decisions, run_train,
  run_usage, run_replay,
}

module _ (gw : Gateway) (tm : Terminal gw) where
  open gw use {Float, Error, World}
  open tm use {version, environment_url, parse_float}

  abbrev pub process : ℕ → Bytes → List (Notice Error) → Process Error
  process status output notices = record { status = status; output = output; notices = notices }

  -- `switch args[0]`
  unfoldable pub dispatch : Client → Bytes → List Bytes → Command gw tm
  dispatch c name args =
      if equal name (codes "version")
      then (λ w. (done (line (codes "noetivela " ++ version)), w))
      else if equal name (codes "contract") || equal name (codes "validate")
      then run_validate gw tm c args
      else if equal name (codes "eligible")
      then run_eligible gw tm c args
      else if equal name (codes "chat")
      then run_chat gw tm c args
      else if equal name (codes "decisions")
      then run_decisions gw tm c args
      else if equal name (codes "replay")
      then run_replay gw tm c args
      else if equal name (codes "train")
      then run_train gw tm c args
      else if equal name (codes "usage")
      then run_usage gw tm c
      else (λ w. (exits 2 usage_text, w))

  -- The rest of `main`, behind the switch.
  abbrev pub left_by : Ending Error × World → Process Error × World
  left_by (done out, w) = (process 0 out [], w)
  left_by (failed e, w) = (process 1 [] (problem e ∷ []), w)
  left_by (exits status n, w) = (process status [] (n ∷ []), w)

  unfoldable pub run_command : Client → List Bytes → World → Process Error × World
  run_command c [] w = (process 2 [] (usage_text ∷ []), w)
  run_command c (name ∷ args) w = left_by (dispatch c name (name ∷ args) w)

  -- The flags of the program, with the base URL.
  abbrev pub global_flags : FlagsOf gw tm
  global_flags = (codes "url", text (default_url environment_url)) ∷ []

  abbrev pub with_globals : Parsed Float parse_float → World → Process Error × World
  with_globals (ok fs args) w = run_command (new (named_text gw tm (codes "url") fs)) args w
  with_globals (err e) w = (process 2 [] (flag_problem (codes "noetivela") e ∷ []), w)
  with_globals help w = (process 0 [] (flag_help (codes "noetivela") ∷ []), w)

  unfoldable pub main : List Bytes → World → Process Error × World
  main args w = with_globals (parse_flags Float parse_float args global_flags) w
