-- ===== src/Cli/Tests.antt =====
-- Runs of the command line client.
use noetivela_open.Prelude.{
  ◌≡◌, refl, true, ◌==◌, List, [], ◌∷◌, some, inr, Bytes, codes, equal, arith,
}
use noetivela_open.Go.Decimals.{digits, decimal}
use noetivela_open.Go.Integers
use noetivela_open.Go.Integers.{
  digit_value, scan_uint, underscores_ok, has_underscore, based, parse_uint, parse_int,
}
use noetivela_open.Go.Format.{rune_tail, rune_count, spaces, pad_right, spaced, show_list}
use noetivela_open.Go.Flags.{
  needs_argument, split_value, name_of, classify, find, store, set_value, parse_flags,
}
use noetivela_open.Client.Calls.Tests
use noetivela_open.Client.Calls.Tests.{gateway, client, contract, greeted}
use noetivela_open.Cli.Terminal.{
  Terminal, usage_text, contract_required, flag_problem, problem, default_version, default_url,
}
use noetivela_open.Cli.Output.{
  show_usage, print_training, print_replay, print_decision, print_decisions, print_lines,
  print_chat,
}
use noetivela_open.Cli.Commands.{
  printed, with_flags, required, load_contract, with_contract_file, run_validate, run_eligible,
  run_chat, run_decisions, run_train, run_usage, run_replay,
}
use noetivela_open.Cli.Main.{process, left_by, dispatch, run_command, main}
use noetivela_open.Cli.Exits.{Leaves, main-Leaves}
use noetivela_open.Cli.Documented.{main-contract_validate}
use noetivela_open.Policy.Number.{ℤ}
use noetivela_open.Go.Flags.RoundTrip.{write}
use noetivela_open.Client.Calls.{decisions}
use noetivela_open.Client.Call.{call, new}
use noetivela_open.Client.Calls.Queries.{filtered}
use noetivela_open.Cli.Training.{training, training_request, main-train}
use noetivela_open.Cli.Messages.{Texts, usage_lines, notice_text, notices_text, standard_error}
use noetivela_open.Cli.Refused.{refusal, Tells, main-usage_Tells}
use noetivela_open.Cli.Replaying.{replaying, replay_request, main-replay}
use noetivela_open.Cli.CommandLines.{Style, setting}
use noetivela_open.Cli.Paging.{page, main-decisions}
use noetivela_open.Cli.Chats.{Governs, main-Governs}

abbrev terminal : Terminal gateway
terminal = record {
  version = default_version;
  environment_url = [];
  read_file = λ path. inr (codes "{}");
  unmarshal_contract = λ raw. inr contract;
  indent_validation = λ res. inr (codes "{}");
  parse_float = λ s. Integers.ok 1;
  one_half = 1;
  zero = 0;
  is_zero = λ x. x == 0;
  fixed = λ n x. codes "0.1";
}

everything : Unit {0}
unfolding Tests.everything digits decimal digit_value scan_uint underscores_ok has_underscore based
    parse_uint parse_int rune_tail rune_count spaces pad_right spaced show_list split_value name_of
    classify find store set_value parse_flags default_url show_usage print_decision print_decisions
    print_lines print_chat with_flags required load_contract with_contract_file run_validate
    run_eligible run_chat run_decisions run_train run_usage run_replay dispatch run_command main
everything = tt

no_arguments : main gateway terminal [] 0 ≡ (process gateway terminal 2 [] (usage_text ∷ []), 0)
unfolding everything
no_arguments = refl

prints_version :
    main gateway terminal (codes "-url=x" ∷ codes "version" ∷ []) 0
    ≡ (process gateway terminal 0 (codes "noetivela 1.0.0-rc\n") [], 0)
unfolding everything
prints_version = refl

misses_value : main gateway terminal (codes "decisions" ∷ codes "-limit" ∷ []) 0 ≡ (
  process gateway terminal 2 []
      (flag_problem (codes "decisions") (needs_argument (codes "limit")) ∷ []),
  0,
)
unfolding everything
misses_value = refl

main-Leaves_example : Leaves gateway terminal 0 (main gateway terminal (codes "usage" ∷ []) 0)
main-Leaves_example = main-Leaves gateway terminal (codes "usage" ∷ []) 0

main-contract_validate_example :
    main gateway terminal
      (codes "contract" ∷ codes "validate" ∷ codes "-contract" ∷ codes "c.json" ∷ [])
      0
    ≡ (process gateway terminal 1 [] (problem contract_required ∷ []), 0)
main-contract_validate_example =
    main-contract_validate gateway terminal (codes "-contract" ∷ codes "c.json" ∷ []) 0

abbrev joined : Style
joined name = (true, true)

abbrev separate : Style
separate name = (true, equal name (codes "url"))

abbrev at_host : List Bytes → List Bytes
at_host = write (setting joined (codes "url") (codes "http://h/") ∷ [])

abbrev chat_arguments : List Bytes
chat_arguments =
    codes "-policy" ∷ codes "p" ∷ codes "-contract" ∷ codes "c.json" ∷ codes "--prompt=hi" ∷ []

chats :
    main gateway terminal (at_host (codes "chat" ∷ chat_arguments)) 0
    ≡ (process gateway terminal 0 (print_chat gateway terminal greeted) [], 1)
unfolding everything write
chats = refl

main-Governs_example :
    Governs gateway terminal
      (new (codes "http://h/"))
      (codes "chat" ∷ chat_arguments)
      0
      (print_chat gateway terminal greeted)
      1
main-Governs_example =
    main-Governs gateway terminal joined (codes "http://h/") chat_arguments 0 chats

main-decisions_example :
    main gateway terminal
      (at_host (
        codes "decisions"
        ∷ write (page separate (ℤ.pos 20) (ℤ.negsuc 0) (codes "t") (codes "-m")) []))
      0
    ≡ left_by gateway terminal (
        printed gateway terminal print_decisions (
          decisions gateway
            (new (codes "http://h/"))
            (filtered (ℤ.pos 20) (ℤ.negsuc 0) (codes "t") (codes "-m"))
            0))
unfolding equal
main-decisions_example =
    main-decisions gateway terminal separate (codes "http://h/") (ℤ.pos 20) (ℤ.negsuc 0) (codes "t")
      (codes "-m") 0 (omega arith) (omega arith)

main-train_example :
    main gateway terminal
      (write (setting joined (codes "url") (codes "http://h/") ∷ []) (
        codes "train" ∷ write (training joined (codes "v2") (ℤ.pos 10) (codes "1") (codes "1")) []))
      0
    ≡ left_by gateway terminal (
        printed gateway terminal (print_training gateway terminal) (
          call gateway
            (new (codes "http://h/"))
            (codes "POST")
            (codes "/v1/train")
            (some (training_request gateway terminal (codes "v2") (ℤ.pos 10) 1 1))
            gateway.unmarshal_training
            0))
unfolding equal
main-train_example =
    main-train gateway terminal joined (codes "http://h/") (codes "v2") (ℤ.pos 10) (codes "1")
      (codes "1") 1 1 0 refl (omega arith) refl refl

main-replay_example :
    main gateway terminal
      (write
        (setting joined (codes "url") (codes "http://h/") ∷ [])
        (codes "replay" ∷ write (replaying joined (codes "ep") (codes "p") (ℤ.pos 0)) []))
      0
    ≡ left_by gateway terminal (
        printed gateway terminal (print_replay gateway terminal) (
          call gateway
            (new (codes "http://h/"))
            (codes "POST")
            (codes "/v1/replay")
            (some (replay_request (codes "ep") (codes "p") (ℤ.pos 0)))
            gateway.unmarshal_replay
            0))
unfolding equal
main-replay_example =
    main-replay gateway terminal joined (codes "http://h/") (codes "ep") (codes "p") (ℤ.pos 0) 0
      refl (omega arith)

abbrev texts : Texts gateway.Error
texts = record {
  said = λ e. codes "unexpected EOF";
  flag_defaults = λ name. codes "Usage of noetivela:\n";
  flag_complaint = λ name e. codes "flag needs an argument\n";
}

-- The gateway of the tests refuses in the world 1.
main-usage_Tells_example :
    Tells gateway terminal texts
      (refusal gateway 422 (codes "{}"))
      2
      (main gateway terminal (at_host (codes "usage" ∷ [])) 1)
main-usage_Tells_example =
    main-usage_Tells gateway terminal texts joined (codes "http://h/") 422 (codes "{}") 1 2 refl
      refl refl

tells_usage : standard_error texts ((main gateway terminal [] 0).0) ≡ usage_lines
unfolding everything standard_error notices_text notice_text
tells_usage = refl

tells_refusal : refusal gateway 422 (codes "{}") ≡ codes "error: noetivela: HTTP 422: {}\n"
unfolding digits decimal
tells_refusal = refl
