-- ===== src/Cli/CommandLines.antt =====
-- cli/main.go: `main` on a written base URL and a command.
use noetivela_open.Prelude.{◌≡◌, refl, List, [], ◌∷◌, Bool, Bytes, codes, equal}
use noetivela_open.Go.Flags.{
  Argument, plain, classify, text, find, store, set_value, Flags, Parsed, parse_flags,
}
use noetivela_open.Go.Flags
use noetivela_open.Go.Flags.RoundTrip.{
  Setting, unchanged, changed, write, flag_name, parse_flags-write,
}
use noetivela_open.Client.Call.{Gateway, new}
use noetivela_open.Cli.Terminal.{Terminal, Ending, done, failed, exits}
use noetivela_open.Cli.Commands.{FlagsOf}
use noetivela_open.Cli.Main.{process, dispatch, left_by, run_command, global_flags, main}

-- How a flag of a name is written: with two dashes, and with its value behind `=`.
abbrev pub Style : Type 0
Style = Bytes → Bool × Bool

abbrev pub setting : Style → Bytes → Bytes → Setting
setting style name value = record {
  double = (style name).0;
  joined = (style name).1;
  name = name;
  value = value;
}

module _ (gw : Gateway) (tm : Terminal gw) where
  open gw use {Float, World}
  open tm use {parse_float}

  parse_flags-plain :
      (s : Bytes) (args : List Bytes) (fs : FlagsOf gw tm)
      → classify s ≡ plain
      → parse_flags Float parse_float (s ∷ args) fs ≡ Flags.ok fs (s ∷ args)
  unfolding parse_flags
  parse_flags-plain s [] fs h = rw h refl
  parse_flags-plain s (a ∷ args) fs h = rw h refl

  -- A command behind a base URL is run by a client of this URL, on the arguments from its name on.
  pub main-command :
      (style : Style) (url name : Bytes) (args : List Bytes) (w : World)
      → classify name ≡ plain
      → main gw tm (write (setting style (codes "url") url ∷ []) (name ∷ args)) w
        ≡ left_by gw tm (dispatch gw tm (new url) name (name ∷ args) w)
  unfolding main run_command find store set_value equal
  main-command style url name args w h =
      rw
        (parse_flags-write Float parse_float (setting style (codes "url") url ∷ []) (name ∷ args)
          (global_flags gw tm) ((codes "url", text url) ∷ [])
          (changed (text _) (text url) (flag_name (codes "url") refl) refl refl unchanged))
        (rw (parse_flags-plain name args ((codes "url", text url) ∷ []) h) refl)

  -- A process that ends with status 0 and no message is left by a command that printed its output.
  pub left_by-done :
      (e : Ending gw.Error) (w w' : World) {out : Bytes}
      → left_by gw tm (e, w) ≡ (process gw tm 0 out [], w')
      → ◌≡◌ {A = Ending gw.Error × World} (e, w) (done out, w')
  left_by-done (done o) w w' h = cc
  left_by-done (failed e) w w' h = cc
  left_by-done (exits status n) w w' h = cc
