-- ===== src/Cli/Terminal.antt =====
-- cli/main.go: what the program uses of its environment, and what it leaves. Files, JSON and float64
-- are the fields of the parameter `Terminal`.
use noetivela_open.Prelude.{ℕ, List, [], ◌∷◌, ◌++◌, Bool, Bytes, codes, equal, ◌⊎◌, if◌then◌else◌}
use noetivela_open.Go.Integers
use noetivela_open.Go.Flags.{FlagError}
use noetivela_open.Client.Types.{Contract, ValidateResult}
use noetivela_open.Client.Call.{Gateway, Failure}

pub record Terminal (gw : Gateway) : Type 0 where
  -- the variable `version`, which the build sets
  pub version : Bytes
  -- os.Getenv("NOETIVELA_URL")
  pub environment_url : Bytes
  -- os.ReadFile, on files that the run does not change
  pub read_file : Bytes → gw.Error ⊎ Bytes
  pub unmarshal_contract : Bytes → gw.Error ⊎ Contract
  -- json.MarshalIndent
  pub indent_validation : ValidateResult gw.Float → gw.Error ⊎ Bytes
  -- strconv.ParseFloat on any text, and the constants 0.5 and 0.0
  pub parse_float : Bytes → Integers.Parsed gw.Float
  pub one_half : gw.Float
  pub zero : gw.Float
  pub is_zero : gw.Float → Bool
  -- the verb `%.nf`
  pub fixed : ℕ → gw.Float → Bytes

-- The value of `version` where the build sets none.
abbrev pub default_version : Bytes
default_version = codes "1.0.0-rc"

module _ (Error : Type 0) where
  -- The errors of the commands.
  pub data CliError : Type 0 where
    contract_required version_required baseline_required : CliError
    read_error : Error → CliError
    parse_contract : Bytes → Error → CliError
    client : Failure Error → CliError

  -- What is written on the standard error: the text of `usage`, what package flag writes for a flag
  -- set of a name, and `error: …`.
  pub data Notice : Type 0 where
    usage_text : Notice
    flag_help : Bytes → Notice
    flag_problem : Bytes → FlagError → Notice
    problem : CliError → Notice

  -- How a command ends: it returns with its output, returns an error, or exits with a status.
  pub data Ending : Type 0 where
    done : Bytes → Ending
    failed : CliError → Ending
    exits : ℕ → Notice → Ending

  -- What a run of the program leaves.
  pub record Process : Type 0 where
    pub status : ℕ
    pub output : Bytes
    pub notices : List Notice

-- A newline behind a text.
abbrev pub line : Bytes → Bytes
line s = s ++ b'\n' ∷ []

-- `defaultURL`
unfoldable pub default_url : Bytes → Bytes
default_url environment =
    if equal environment [] then codes "http://localhost:8080" else environment
