-- ===== src/Cli/Replaying.antt =====
-- cli/main.go: a command line of `noetivela replay`, from its arguments to the request.
use noetivela_open.Prelude.{◌≡◌, refl, ◌∙◌, ap, some, false, List, [], ◌∷◌, Bytes, codes, equal}
use noetivela_open.Policy.Number.{ℤ}
use noetivela_open.Go.Decimals.{decimal}
use noetivela_open.Go.Integers.Bounds.{IsInt64}
use noetivela_open.Go.Integers.RoundTrip.{parse_int-decimal}
use noetivela_open.Go.Flags.{classify, text, integer, find, store, set_value, parse_flags}
use noetivela_open.Go.Flags.RoundTrip.{
  Setting, Sets, unchanged, changed, write, flag_name, parse_flags-write,
}
use noetivela_open.Client.Types.{Body, replay as replay_body}
use noetivela_open.Client.Call.{Gateway, Client, new, call}
use noetivela_open.Client.Calls.{replay}
use noetivela_open.Cli.Terminal.{Terminal}
use noetivela_open.Cli.Output.{print_replay}
use noetivela_open.Cli.Commands.{FlagsOf, with_flags, required, printed, replay_flags, run_replay}
use noetivela_open.Cli.Main.{dispatch, left_by, main}
use noetivela_open.Cli.CommandLines.{Style, setting, main-command}

abbrev pub replaying : Style → Bytes → Bytes → ℤ → List Setting
replaying style baseline policy_name limit =
    setting style (codes "baseline") baseline
    ∷ setting style (codes "policy") policy_name
    ∷ setting style (codes "limit") (decimal limit)
    ∷ []

abbrev pub replay_request : {Float : Type 0} → Bytes → Bytes → ℤ → Body Float
replay_request baseline policy_name limit =
    replay_body (record { baseline_endpoint = baseline; policy = policy_name; limit = limit })

module _ (gw : Gateway) (tm : Terminal gw) where
  open gw use {Float, World, unmarshal_replay}
  open tm use {parse_float}

  abbrev replayed : Bytes → Bytes → ℤ → FlagsOf gw tm
  replayed baseline policy_name limit =
      (codes "baseline", text baseline)
      ∷ (codes "policy", text policy_name)
      ∷ (codes "limit", integer limit)
      ∷ []

  replaying-Sets :
      (style : Style) (baseline policy_name : Bytes) (limit : ℤ)
      → IsInt64 limit
      → Sets Float parse_float
          (replaying style baseline policy_name limit)
          (replay_flags gw tm)
          (replayed baseline policy_name limit)
  unfolding find store set_value equal
  replaying-Sets style baseline policy_name limit i =
      changed (text []) (text baseline) (flag_name (codes "baseline") refl) refl refl (
        changed (text []) (text policy_name) (flag_name (codes "policy") refl) refl refl (
          changed (integer (ℤ.pos 0)) (integer limit) (flag_name (codes "limit") refl) refl
            (rw (parse_int-decimal limit i) refl) unchanged))

  run_replay-replaying :
      (style : Style) (c : Client) (baseline policy_name : Bytes) (limit : ℤ) (w : World)
      → equal baseline [] ≡ false
      → IsInt64 limit
      → run_replay gw tm c
          (codes "replay" ∷ write (replaying style baseline policy_name limit) [])
          w
        ≡ printed gw tm (print_replay gw tm) (
            call gw c
              (codes "POST")
              (codes "/v1/replay")
              (some (replay_request baseline policy_name limit))
              unmarshal_replay
              w)
  unfolding run_replay with_flags required replay
  run_replay-replaying style c baseline policy_name limit w b i =
      rw
        (parse_flags-write Float parse_float (replaying style baseline policy_name limit) []
          (replay_flags gw tm) (replayed baseline policy_name limit)
          (replaying-Sets style baseline policy_name limit i))
        (unfold parse_flags find equal in rw b refl)

  -- A command line `noetivela -url … replay …` with a baseline, a policy and a limit of the range of
  -- int64, each flag written with one dash or two and with its value behind `=` or as the next
  -- argument, asks the gateway of the URL for the replay with these options, and leaves its result
  -- printed or its error.
  pub main-replay :
      (style : Style) (url baseline policy_name : Bytes) (limit : ℤ) (w : World)
      → equal baseline [] ≡ false
      → IsInt64 limit
      → main gw tm
          (write
            (setting style (codes "url") url ∷ [])
            (codes "replay" ∷ write (replaying style baseline policy_name limit) []))
          w
        ≡ left_by gw tm (
            printed gw tm (print_replay gw tm) (
              call gw
                (new url)
                (codes "POST")
                (codes "/v1/replay")
                (some (replay_request baseline policy_name limit))
                unmarshal_replay
                w))
  unfolding dispatch equal classify
  main-replay style url baseline policy_name limit w b i =
      main-command gw tm style url (codes "replay") _ w refl
      ∙ ap (left_by gw tm) (run_replay-replaying style (new url) baseline policy_name limit w b i)
