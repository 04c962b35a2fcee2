-- ===== src/Cli/Chats.antt =====
-- cli/main.go: `runChat`, its flags, the contract of the file, the request and the output.
use noetivela_open.Prelude.{
  ◌≡◌, refl, sym, ◌∙◌, false, Bool-cases, some, List, [], ◌∷◌, Bytes, codes, equal, ◌⊎◌, inl, inr,
  subst,
}
use noetivela_open.Go.Flags.{classify, Parsed, ok, err, help, parse_flags}
use noetivela_open.Go.Flags.RoundTrip.{write}
use noetivela_open.Client.Types.{Contract, Message, ChatResponse}
use noetivela_open.Client.Call.{Gateway, Client, new, with_contract}
use noetivela_open.Client.Call.Headers.{Asks, new_request-Asks}
use noetivela_open.Client.Calls.{Called, chat}
use noetivela_open.Client.Calls.Replies.{Answered, chat_request, chat-Answered}
use noetivela_open.Cli.Terminal.{Terminal, Ending, done, failed, exits}
use noetivela_open.Cli.Output.{print_chat}
use noetivela_open.Cli.Main.{process, dispatch, main}
use noetivela_open.Cli.CommandLines.{Style, setting, main-command, left_by-done}
use noetivela_open.Cli.Commands.{
  FlagsOf, named_text, behind_first, on_parsed, with_flags, required, parsed_contract, contract_in,
  load_contract, on_contract, with_contract_file, printed, chat_flags, governed, user_message,
  run_chat,
}

module _ (gw : Gateway) (tm : Terminal gw) where
  open gw use {Float, Error, World}
  open tm use {read_file, unmarshal_contract, parse_float}

  -- The client under a contract and the policy that the flags name.
  abbrev pub bound_client : Client → Contract → FlagsOf gw tm → Client
  bound_client c ct fs = record {
    base_url = c.base_url;
    contract = some ct;
    policy_name = named_text gw tm (codes "policy") fs;
    tenant = c.tenant;
    principal = c.principal;
  }

  abbrev pub only_message : FlagsOf gw tm → List Message
  only_message fs =
      record { role = codes "user"; content = named_text gw tm (codes "prompt") fs } ∷ []

  -- The flags were read, the contract's file too, and the client sent a request under this contract
  -- and the policy of the flags, with the prompt as its only message; the reply's answer is printed.
  pub record Governs (c : Client) (args : List Bytes) (w : World) (out : Bytes) (w' : World)
      : Type 0 where
    pub fs : FlagsOf gw tm
    pub others : List Bytes
    pub parsed : parse_flags Float parse_float (behind_first args) (chat_flags gw tm) ≡ ok fs others
    pub given : equal (named_text gw tm (codes "contract") fs) [] ≡ false
    pub raw : Bytes
    pub file : read_file (named_text gw tm (codes "contract") fs) ≡ inr raw
    pub ct : Contract
    pub reads : unmarshal_contract raw ≡ inr ct
    pub response : ChatResponse Float
    pub answered : Answered gw (bound_client c ct fs) (codes "auto") (only_message fs) w w' response
    pub asked :
        Asks gw
          (bound_client c ct fs)
          (codes "POST")
          (codes "/v1/chat/completions")
          (chat_request (codes "auto") (only_message fs))
          (answered.reply.req)
    pub prints : out ≡ print_chat gw tm response

  module _ (c : Client) (args : List Bytes) (w : World) where
    abbrev Explains : Ending Error × World → Type 0
    Explains (done out, w') = Governs c args w out w'
    Explains (failed _, w') = Unit
    Explains (exits _ _, w') = Unit

    module _ (fs : FlagsOf gw tm) (others : List Bytes)
        (parsed : parse_flags Float parse_float (behind_first args) (chat_flags gw tm)
          ≡ ok fs others)
        (given : equal (named_text gw tm (codes "contract") fs) [] ≡ false) where
      abbrev bound : Contract → Client
      bound ct = governed gw tm c ct (named_text gw tm (codes "policy") fs)

      abbrev called : Contract → Called gw (ChatResponse Float)
      called ct =
          chat gw (bound ct) (codes "auto")
            (user_message gw tm (named_text gw tm (codes "prompt") fs)) w

      response-Explains :
          (raw : Bytes) (ct : Contract)
          → read_file (named_text gw tm (codes "contract") fs) ≡ inr raw
          → unmarshal_contract raw ≡ inr ct
          → (r : Called gw (ChatResponse Float)) → called ct ≡ r
          → Explains (printed gw tm (print_chat gw tm) r)
      unfolding with_contract
      response-Explains raw ct f u (inl e, w') h = tt
      response-Explains raw ct f u (inr response, w') h =
          let answered = chat-Answered gw (bound ct) (codes "auto") _ w h in
          record {
            fs = fs;
            others = others;
            parsed = parsed;
            given = given;
            raw = raw;
            file = f;
            ct = ct;
            reads = u;
            response = response;
            answered = answered;
            asked = new_request-Asks gw (bound ct) _ _ _ answered.reply.asked;
            prints = refl;
          }

      contract-Explains :
          (raw : Bytes) (r : Error ⊎ Contract)
          → read_file (named_text gw tm (codes "contract") fs) ≡ inr raw
          → unmarshal_contract raw ≡ r
          → Explains (
              on_contract gw tm
                (λ ct w. printed gw tm (print_chat gw tm) (
                  chat gw
                    (bound ct)
                    (codes "auto")
                    (user_message gw tm (named_text gw tm (codes "prompt") fs))
                    w))
                (parsed_contract gw tm (named_text gw tm (codes "contract") fs) r)
                w)
      contract-Explains raw (inl e) f u = tt
      contract-Explains raw (inr ct) f u = response-Explains raw ct f u (called ct) refl

      file-Explains :
          (r : Error ⊎ Bytes)
          → read_file (named_text gw tm (codes "contract") fs) ≡ r
          → Explains (
              on_contract gw tm
                (λ ct w. printed gw tm (print_chat gw tm) (
                  chat gw
                    (bound ct)
                    (codes "auto")
                    (user_message gw tm (named_text gw tm (codes "prompt") fs))
                    w))
                (contract_in gw tm (named_text gw tm (codes "contract") fs) r)
                w)
      file-Explains (inl e) f = tt
      file-Explains (inr raw) f = contract-Explains raw (unmarshal_contract raw) f refl

    flags-Explains :
        (r : Parsed Float parse_float)
        → parse_flags Float parse_float (behind_first args) (chat_flags gw tm) ≡ r
        → Explains (
            on_parsed gw tm
              (codes "chat")
              (λ fs. with_contract_file gw tm fs λ ct w. printed gw tm (print_chat gw tm) (
                chat gw
                  (governed gw tm c ct (named_text gw tm (codes "policy") fs))
                  (codes "auto")
                  (user_message gw tm (named_text gw tm (codes "prompt") fs))
                  w))
              r
              w)
    unfolding with_contract_file required load_contract
    flags-Explains (ok fs others) p =
        elim (Bool-cases (equal (named_text gw tm (codes "contract") fs) [])) [
          | inl e ↦ rw e tt
          | inr g ↦ rw g (
              file-Explains fs others p g (read_file (named_text gw tm (codes "contract") fs)) refl)
        ]
    flags-Explains (err e) p = tt
    flags-Explains help p = tt

    run_chat-Explains : Explains (run_chat gw tm c args w)
    unfolding run_chat with_flags
    run_chat-Explains =
        flags-Explains (parse_flags Float parse_float (behind_first args) (chat_flags gw tm)) refl

    run_chat-Governs :
        {out : Bytes} {w' : World}
        → run_chat gw tm c args w ≡ (done out, w')
        → Governs c args w out w'
    run_chat-Governs h = subst Explains h run_chat-Explains

  -- If `noetivela -url … chat`, with whatever arguments behind it, ends with status 0, an output and no
  -- message, it has read its flags and the contract's file, its request was sent to the gateway of the
  -- URL under this contract, with the policy and the prompt of the flags and the alias `auto`, it was
  -- answered with a status from 200 to 299, and the output is the answer of the reply.
  pub main-Governs :
      (style : Style) (url : Bytes) (args : List Bytes) (w : World) {out : Bytes} {w' : World}
      → main gw tm (write (setting style (codes "url") url ∷ []) (codes "chat" ∷ args)) w
        ≡ (process gw tm 0 out [], w')
      → Governs (new url) (codes "chat" ∷ args) w out w'
  unfolding dispatch equal classify
  main-Governs style url args w {out} {w'} h = run_chat-Governs (new url) (codes "chat" ∷ args) w (
      left_by-done gw tm _ _ w' (sym (main-command gw tm style url (codes "chat") args w refl) ∙ h))
