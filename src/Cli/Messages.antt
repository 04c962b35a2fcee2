-- ===== src/Cli/Messages.antt =====
-- cli/main.go: what a run writes on the standard error. The texts of package flag, and of the errors
-- of the packages, are the fields of the parameter `Texts`.
use noetivela_open.Prelude.{List, [], ◌∷◌, ◌++◌, Bytes, codes}
use noetivela_open.Go.Flags.{FlagError}
use noetivela_open.Client.Messages.{failure_text}
use noetivela_open.Cli.Output.{print_lines}
use noetivela_open.Cli.Terminal.{
  CliError, contract_required, version_required, baseline_required, read_error, parse_contract,
  client, Notice, usage_text, flag_help, flag_problem, problem, Process, line,
}

pub record Texts (Error : Type 0) : Type 0 where
  -- the method `Error` of an error of package os, net/http, io or encoding/json
  pub said : Error → Bytes
  -- the defaults of a flag set, and a problem with its flags
  pub flag_defaults : Bytes → Bytes
  pub flag_complaint : Bytes → FlagError → Bytes

-- `usage`
abbrev pub usage_lines : Bytes
usage_lines = print_lines (
    codes "usage: noetivela <command> [flags]"
    ∷ codes ""
    ∷ codes "commands:"
    ∷ codes "  contract validate -contract file.json [-policy name]   check feasibility (no tokens)"
    ∷ codes "  eligible -contract file.json [-policy name]            ranked eligible candidates"
    ∷ codes "  chat -contract file.json [-prompt text]                governed inference request"
    ∷ codes
        "  decisions [-limit n] [-offset n] [-task t] [-model m]   list routing decisions (filtered)"
    ∷ codes
        "  replay -baseline endpoint [-policy name] [-limit n]    counterfactual replay vs fixed baseline"
    ∷ codes
        "  train -version v [-min-samples n] [-tcos-weight w]     fit/register the learned router"
    ∷ codes "  usage                                               show TCoS ledger"
    ∷ [])

module _ {Error : Type 0} (tx : Texts Error) where
  open tx use {said, flag_defaults, flag_complaint}

  unfoldable pub problem_text : CliError Error → Bytes
  problem_text contract_required = codes "-contract is required"
  problem_text version_required = codes "-version is required"
  problem_text baseline_required = codes "-baseline is required"
  problem_text (read_error e) = said e
  problem_text (parse_contract path e) = codes "parse contract " ++ (path ++ (codes ": " ++ said e))
  problem_text (client e) = failure_text said e

  unfoldable pub notice_text : Notice Error → Bytes
  notice_text usage_text = usage_lines
  notice_text (flag_help name) = flag_defaults name
  notice_text (flag_problem name e) = flag_complaint name e
  notice_text (problem e) = line (codes "error: " ++ problem_text e)

  unfoldable pub notices_text : List (Notice Error) → Bytes
  notices_text [] = []
  notices_text (n ∷ ns) = notice_text n ++ notices_text ns

  unfoldable pub standard_error : Process Error → Bytes
  standard_error p = notices_text p.notices
