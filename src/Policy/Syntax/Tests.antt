-- ===== src/Policy/Syntax/Tests.antt =====
-- The rules on a written policy.
use noetivela_open.Prelude.{◌≡◌, ◌↔◌, codes}
use noetivela_open.Policy.Parser.{ok, panic, parse}
use noetivela_open.Policy.Tests.{decimals}
use noetivela_open.Policy.Grammar.{render}
use noetivela_open.Policy.Grammar.Clauses.{print_policy}
use noetivela_open.Policy.Grammar.Tests.{small, spelling}
use noetivela_open.Policy.Syntax.Panics.{BreaksIn, parse_panic_iff}
use noetivela_open.Policy.Syntax.Exact.{Writes, parse_iff}

parse_iff_example :
    (parse decimals (render (print_policy spelling small)) ≡ ok small)
    ↔ Writes decimals (render (print_policy spelling small)) small
parse_iff_example = parse_iff decimals (render (print_policy spelling small)) small

parse_panic_iff_example :
    (parse decimals (codes "policy p { optimize") ≡ panic)
    ↔ BreaksIn decimals (codes "policy p { optimize")
parse_panic_iff_example = parse_panic_iff decimals (codes "policy p { optimize")
