-- ===== src/Cli/Paging.antt =====
-- cli/main.go: `noetivela decisions` on written flags.
use noetivela_open.Prelude.{◌≡◌, refl, ◌∙◌, ap, List, [], ◌∷◌, Bytes, codes, equal}
use noetivela_open.Policy.Number.{ℤ}
use noetivela_open.Go.Decimals.{decimal}
use noetivela_open.Go.Integers.Bounds.{IsInt64}
use noetivela_open.Go.Integers.RoundTrip.{parse_int-decimal}
use noetivela_open.Go.Flags.{classify, text, integer, find, store, set_value, parse_flags}
use noetivela_open.Go.Flags.RoundTrip.{
  Setting, Sets, unchanged, changed, write, flag_name, parse_flags-write,
}
use noetivela_open.Client.Call.{Gateway, Client, new}
use noetivela_open.Client.Calls.{decisions}
use noetivela_open.Client.Calls.Queries.{filtered}
use noetivela_open.Cli.Terminal.{Terminal}
use noetivela_open.Cli.Output.{print_decisions}
use noetivela_open.Cli.Main.{dispatch, left_by, main}
use noetivela_open.Cli.CommandLines.{Style, setting, main-command}
use noetivela_open.Cli.Commands.{FlagsOf, with_flags, printed, decisions_flags, run_decisions}

abbrev pub page : Style → ℤ → ℤ → Bytes → Bytes → List Setting
page style limit offset task model =
    setting style (codes "limit") (decimal limit)
    ∷ setting style (codes "offset") (decimal offset)
    ∷ setting style (codes "task") task
    ∷ setting style (codes "model") model
    ∷ []

module _ (gw : Gateway) (tm : Terminal gw) where
  open gw use {Float, World}
  open tm use {parse_float}

  abbrev paged : ℤ → ℤ → Bytes → Bytes → FlagsOf gw tm
  paged limit offset task model =
      (codes "limit", integer limit)
      ∷ (codes "offset", integer offset)
      ∷ (codes "task", text task)
      ∷ (codes "model", text model)
      ∷ []

  page-Sets :
      (style : Style) (limit offset : ℤ) (task model : Bytes)
      → IsInt64 limit
      → IsInt64 offset
      → Sets Float parse_float
          (page style limit offset task model)
          (decisions_flags gw tm)
          (paged limit offset task model)
  unfolding find store set_value equal
  page-Sets style limit offset task model l o =
      changed (integer (ℤ.pos 50)) (integer limit) (flag_name (codes "limit") refl) refl
        (rw (parse_int-decimal limit l) refl)
        (changed (integer (ℤ.pos 0)) (integer offset) (flag_name (codes "offset") refl) refl
          (rw (parse_int-decimal offset o) refl)
          (changed (text []) (text task) (flag_name (codes "task") refl) refl refl
            (changed (text []) (text model) (flag_name (codes "model") refl) refl refl unchanged)))

  run_decisions-page :
      (style : Style) (c : Client) (limit offset : ℤ) (task model : Bytes) (w : World)
      → IsInt64 limit
      → IsInt64 offset
      → run_decisions gw tm c (codes "decisions" ∷ write (page style limit offset task model) []) w
        ≡ printed gw tm print_decisions (decisions gw c (filtered limit offset task model) w)
  unfolding run_decisions with_flags
  run_decisions-page style c limit offset task model w l o =
      rw
        (parse_flags-write Float parse_float (page style limit offset task model) []
          (decisions_flags gw tm) (paged limit offset task model)
          (page-Sets style limit offset task model l o))
        (unfold parse_flags find equal in refl)

  -- A command line `noetivela -url … decisions …` with a limit and an offset of the range of int64, a
  -- task and a model, each flag written with one dash or two and with its value behind `=` or as the
  -- next argument, asks the gateway of the URL for the decisions with these options, and leaves them
  -- printed or the error.
  pub main-decisions :
      (style : Style) (url : Bytes) (limit offset : ℤ) (task model : Bytes) (w : World)
      → IsInt64 limit
      → IsInt64 offset
      → main gw tm
          (write
            (setting style (codes "url") url ∷ [])
            (codes "decisions" ∷ write (page style limit offset task model) []))
          w
        ≡ left_by gw tm (
            printed gw tm print_decisions
              (decisions gw (new url) (filtered limit offset task model) w))
  unfolding dispatch equal classify
  main-decisions style url limit offset task model w l o =
      main-command gw tm style url (codes "decisions") _ w refl
      ∙ ap (left_by gw tm) (run_decisions-page style (new url) limit offset task model w l o)
