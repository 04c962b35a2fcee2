-- ===== src/Cli/Training.antt =====
-- cli/main.go: a command line of `noetivela train`, from its arguments to the request.
use noetivela_open.Prelude.{
  ◌≡◌, refl, ◌∙◌, ap, none, some, false, List, [], ◌∷◌, Bytes, codes, equal,
}
use noetivela_open.Policy.Number.{ℤ}
use noetivela_open.Go.Decimals.{decimal}
use noetivela_open.Go.Integers
use noetivela_open.Go.Integers.Bounds.{IsInt64}
use noetivela_open.Go.Integers.RoundTrip.{parse_int-decimal}
use noetivela_open.Go.Flags.{classify, text, integer, float, find, store, set_value, parse_flags}
use noetivela_open.Go.Flags.RoundTrip.{
  Setting, Sets, unchanged, changed, write, flag_name, parse_flags-write,
}
use noetivela_open.Client.Types.{Body, train as train_body}
use noetivela_open.Client.Call.{Gateway, Client, new, call}
use noetivela_open.Client.Calls.{train}
use noetivela_open.Cli.Terminal.{Terminal}
use noetivela_open.Cli.Output.{print_training}
use noetivela_open.Cli.Commands.{FlagsOf, with_flags, required, printed, train_flags, run_train}
use noetivela_open.Cli.Main.{dispatch, left_by, main}
use noetivela_open.Cli.CommandLines.{Style, setting, main-command}

-- The flags of a training, the numbers as texts.
abbrev pub training : Style → Bytes → ℤ → Bytes → Bytes → List Setting
training style version min_samples weight hold_out =
    setting style (codes "version") version
    ∷ setting style (codes "min-samples") (decimal min_samples)
    ∷ setting style (codes "tcos-weight") weight
    ∷ setting style (codes "hold-out") hold_out
    ∷ []

module _ (gw : Gateway) (tm : Terminal gw) where
  open gw use {Float, World, unmarshal_training}
  open tm use {parse_float}

  abbrev trained : Bytes → ℤ → Float → Float → FlagsOf gw tm
  trained version min_samples x y =
      (codes "version", text version)
      ∷ (codes "min-samples", integer min_samples)
      ∷ (codes "tcos-weight", float x)
      ∷ (codes "hold-out", float y)
      ∷ []

  training-Sets :
      (style : Style) (version : Bytes) (min_samples : ℤ) (weight hold_out : Bytes) (x y : Float)
      → IsInt64 min_samples
      → parse_float weight ≡ Integers.ok x
      → parse_float hold_out ≡ Integers.ok y
      → Sets Float parse_float
          (training style version min_samples weight hold_out)
          (train_flags gw tm)
          (trained version min_samples x y)
  unfolding find store set_value equal
  training-Sets style version min_samples weight hold_out x y i h k =
      changed (text []) (text version) (flag_name (codes "version") refl) refl refl (
        changed (integer (ℤ.pos 10)) (integer min_samples) (flag_name (codes "min-samples") refl)
          refl (rw (parse_int-decimal min_samples i) refl)
          (changed (float tm.one_half) (float x) (flag_name (codes "tcos-weight") refl) refl
            (rw h refl)
            (changed (float tm.zero) (float y) (flag_name (codes "hold-out") refl) refl (rw k refl)
              unchanged)))

  -- The body of the request, without samples.
  abbrev pub training_request : Bytes → ℤ → Float → Float → Body Float
  training_request version min_samples x y = train_body (record {
    version_id = version;
    min_samples = min_samples;
    tcos_weight = x;
    hold_out_frac = y;
    samples = none;
  })

  run_train-training :
      (style : Style) (c : Client) (version : Bytes) (min_samples : ℤ) (weight hold_out : Bytes)
      (x y : Float) (w : World)
      → equal version [] ≡ false
      → IsInt64 min_samples
      → parse_float weight ≡ Integers.ok x
      → parse_float hold_out ≡ Integers.ok y
      → run_train gw tm c
          (codes "train" ∷ write (training style version min_samples weight hold_out) [])
          w
        ≡ printed gw tm (print_training gw tm) (
            call gw c
              (codes "POST")
              (codes "/v1/train")
              (some (training_request version min_samples x y))
              unmarshal_training
              w)
  unfolding run_train with_flags required train
  run_train-training style c version min_samples weight hold_out x y w v i h k =
      rw
        (parse_flags-write Float parse_float (training style version min_samples weight hold_out) []
          (train_flags gw tm) (trained version min_samples x y)
          (training-Sets style version min_samples weight hold_out x y i h k))
        (unfold parse_flags find equal in rw v refl)

  -- A command line `noetivela -url … train …` with a version, a number of samples of the range of
  -- int64 and two texts that are read as float64s, each flag written with one dash or two and with its
  -- value behind `=` or as the next argument, asks the gateway of the URL for a training with these
  -- options and without samples, and leaves its result printed or its error.
  pub main-train :
      (style : Style) (url version : Bytes) (min_samples : ℤ) (weight hold_out : Bytes)
      (x y : Float) (w : World)
      → equal version [] ≡ false
      → IsInt64 min_samples
      → parse_float weight ≡ Integers.ok x
      → parse_float hold_out ≡ Integers.ok y
      → main gw tm
          (write
            (setting style (codes "url") url ∷ [])
            (codes "train" ∷ write (training style version min_samples weight hold_out) []))
          w
        ≡ left_by gw tm (
            printed gw tm (print_training gw tm) (
              call gw
                (new url)
                (codes "POST")
                (codes "/v1/train")
                (some (training_request version min_samples x y))
                unmarshal_training
                w))
  unfolding dispatch equal classify
  main-train style url version min_samples weight hold_out x y w v i h k =
      main-command gw tm style url (codes "train") _ w refl
      ∙ ap (left_by gw tm)
          (run_train-training style (new url) version min_samples weight hold_out x y w v i h k)
