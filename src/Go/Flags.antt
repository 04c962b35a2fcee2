-- ===== src/Go/Flags.antt =====
-- Package flag: `FlagSet.Parse` on flags of strings, ints and float64s.
pub mod RoundTrip
use noetivela_open.Prelude.{
  ℕ, Bool, true, false, ◌||◌, Option, none, some, List, [], ◌∷◌, Bytes, codes, equal, ◌==◌,
  if◌then◌else◌,
}
use noetivela_open.Policy.Number.{ℤ}
use noetivela_open.Go.Integers
use noetivela_open.Go.Integers.{NumError, parse_int}

-- The errors of `parseOne`, with the values that their messages show.
pub data FlagError : Type 0 where
  bad_syntax : Bytes → FlagError
  not_defined : Bytes → FlagError
  needs_argument : Bytes → FlagError
  invalid_value : Bytes → Bytes → NumError → FlagError

-- What an argument is: no flag, the `--` that ends the flags, or a flag with or without a value.
pub data Argument : Type 0 where
  plain terminator bad : Argument
  named : Bytes → Option Bytes → Argument

-- The name up to the first `=`, and the value behind it.
unfoldable pub split_value : Bytes → Bytes × Option Bytes
split_value [] = ([], none)
split_value (c ∷ s) =
    let (name, value) = split_value s in if c == b'=' then ([], some s) else (c ∷ name, value)

-- `name[0]` is tested first, and the `=` looked for behind it.
unfoldable pub name_of : Bytes → Argument
name_of [] = bad
name_of (c ∷ s) =
    let (name, value) = split_value s in
    if c == b'-' || c == b'=' then bad else named (c ∷ name) value

unfoldable pub classify : Bytes → Argument
classify [] = plain
classify (c ∷ []) = plain
classify (c ∷ d ∷ []) =
    if c == b'-' then (if d == b'-' then terminator else name_of (d ∷ [])) else plain
classify (c ∷ d ∷ e ∷ s) =
    if c == b'-' then (if d == b'-' then name_of (e ∷ s) else name_of (d ∷ e ∷ s)) else plain

module _ (Float : Type 0) (parse_float : Bytes → Integers.Parsed Float) where
  -- A variable that a flag sets, of the flag's type.
  pub data Value : Type 0 where
    text : Bytes → Value
    integer : ℤ → Value
    float : Float → Value

  -- The flags that are defined, with the values of their variables.
  abbrev pub Flags : Type 0
  Flags = List (Bytes × Value)

  pub data Parsed : Type 0 where
    ok : Flags → List Bytes → Parsed
    err : FlagError → Parsed
    help : Parsed

  unfoldable pub find : Bytes → Flags → Option Value
  find name [] = none
  find name ((n, v) ∷ fs) = let rest = find name fs in if equal n name then some v else rest

  unfoldable pub store : Bytes → Value → Flags → Flags
  store name value [] = []
  store name value ((n, v) ∷ fs) =
      let rest = store name value fs in if equal n name then (n, value) ∷ fs else (n, v) ∷ rest

  abbrev pub as_integer : Integers.Parsed ℤ → Integers.Parsed Value
  as_integer (Integers.ok n) = Integers.ok (integer n)
  as_integer (Integers.err e) = Integers.err e

  abbrev pub as_float : Integers.Parsed Float → Integers.Parsed Value
  as_float (Integers.ok x) = Integers.ok (float x)
  as_float (Integers.err e) = Integers.err e

  -- `Value.Set`
  unfoldable pub set_value : Value → Bytes → Integers.Parsed Value
  set_value (text _) s = Integers.ok (text s)
  set_value (integer _) s = as_integer (parse_int s)
  set_value (float _) s = as_float (parse_float s)

  module _ (again : Flags → Parsed) where
    abbrev pub assigned : Bytes → Bytes → Flags → Integers.Parsed Value → Parsed
    assigned name s fs (Integers.ok v) = again (store name v fs)
    assigned name s fs (Integers.err e) = err (invalid_value s name e)

    module _ (spaced : Bytes → Value → Flags → Parsed) where
      abbrev pub on_flag : Bytes → Option Bytes → Option Value → Flags → Parsed
      on_flag name s none fs =
          if equal name (codes "help") || equal name (codes "h")
          then help
          else err (not_defined name)
      on_flag name (some s) (some old) fs = assigned name s fs (set_value old s)
      on_flag name none (some old) fs = spaced name old fs

      abbrev pub on_argument : Bytes → List Bytes → Argument → Flags → Parsed
      on_argument s args plain fs = ok fs (s ∷ args)
      on_argument s args terminator fs = ok fs args
      on_argument s args bad fs = err (bad_syntax s)
      on_argument s args (named name value) fs = on_flag name value (find name fs) fs

  abbrev pub missing : Bytes → Value → Flags → Parsed
  missing name old fs = err (needs_argument name)

  -- A flag's value stands behind its `=`, or is the next argument.
  unfoldable pub parse_flags : List Bytes → Flags → Parsed
  parse_flags [] fs = ok fs []
  parse_flags (s ∷ []) fs = on_argument (parse_flags []) missing s [] (classify s) fs
  parse_flags (s ∷ v ∷ args) fs =
      on_argument (parse_flags (v ∷ args))
        (λ name old fs'. assigned (parse_flags args) name v fs' (set_value old v)) s (v ∷ args)
        (classify s) fs

  abbrev text_in : Option Value → Bytes
  text_in (some (text s)) = s
  text_in _ = []

  -- The variable of a string flag.
  abbrev pub text_of : Bytes → Flags → Bytes
  text_of name fs = text_in (find name fs)

  abbrev integer_in : Option Value → ℤ
  integer_in (some (integer n)) = n
  integer_in _ = ℤ.pos 0

  abbrev pub integer_of : Bytes → Flags → ℤ
  integer_of name fs = integer_in (find name fs)

  abbrev float_in : Float → Option Value → Float
  float_in default (some (float x)) = x
  float_in default _ = default

  abbrev pub float_of : Bytes → Float → Flags → Float
  float_of name default fs = float_in default (find name fs)
