-- ===== src/Cli/Documented.antt =====
-- cli/main.go: the commands as the usage text has them.
use noetivela_open.Prelude.{List, [], ◌∷◌, Bytes, codes, equal, ◌≡◌, refl}
use noetivela_open.Go.Flags.{classify, find, parse_flags}
use noetivela_open.Client.Call.{Gateway}
use noetivela_open.Cli.Terminal.{Terminal, contract_required, problem}
use noetivela_open.Cli.Commands.{with_flags, required, with_contract_file, run_validate}
use noetivela_open.Cli.Main.{process, dispatch, run_command, main}

module _ (gw : Gateway) (tm : Terminal gw) where
  -- `noetivela contract validate`, with whatever flags behind it, is refused for a contract that is
  -- not given, and sends nothing.
  pub main-contract_validate :
      (args : List Bytes) (w : gw.World)
      → main gw tm (codes "contract" ∷ codes "validate" ∷ args) w
        ≡ (process gw tm 1 [] (problem contract_required ∷ []), w)
  unfolding main parse_flags classify find equal run_command dispatch run_validate with_flags
      with_contract_file required
  main-contract_validate [] w = refl
  main-contract_validate (a ∷ args) w = refl
