-- ===== src/Client/Messages.antt =====
-- sdk/go/client/client.go: the methods `Error` of the errors of the client.
use noetivela_open.Prelude.{◌++◌, Bytes, codes}
use noetivela_open.Policy.Number.{ℤ}
use noetivela_open.Go.Decimals.{decimal}
use noetivela_open.Client.Call.{Failure, library, http, unsatisfiable, empty_response}

module _ {Error : Type 0} (said : Error → Bytes) where
  -- The text of an error, by those of the packages' errors.
  unfoldable pub failure_text : Failure Error → Bytes
  failure_text (library e) = said e
  failure_text (http status body) =
      codes "noetivela: HTTP " ++ (decimal (ℤ.pos status) ++ (codes ": " ++ body))
  failure_text (unsatisfiable ue) = ue.message
  failure_text empty_response = codes "noetivela: empty response"
