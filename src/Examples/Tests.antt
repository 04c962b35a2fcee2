-- ===== src/Examples/Tests.antt =====
-- Runs of the examples, against a gateway that serves.
use noetivela_open.Prelude.{true, ℕ, ◌≡◌, refl, [], ◌∷◌, ◌++◌, inr, codes, equal}
use noetivela_open.Policy.Number.{ℤ}
use noetivela_open.Client.Call.{Gateway, new}
use noetivela_open.Client.Calls.{train}
use noetivela_open.Client.Calls.Tests
use noetivela_open.Client.Calls.Tests.{gateway}
use noetivela_open.Go.Decimals.{digits, decimal}
use noetivela_open.Cli.Terminal.{line, default_url}
use noetivela_open.Examples.Quickstart.{Verbs, finished, quickstart}
use noetivela_open.Examples.TrainDataset.{print_training, train_dataset}
use noetivela_open.Examples.Trains.{Trains, train_dataset-Trains}
use noetivela_open.Examples.Traces.{Follows, quickstart-Follows}

abbrev serving : Gateway
serving = record gateway {
  unmarshal_validation =
      λ raw. inr (record { valid = true; satisfiable = true; candidates = []; policy = codes "p" });
  unmarshal_ranked = λ raw. inr [];
  unmarshal_training = λ raw. inr (record {
    version_id = codes "v2";
    trained_samples = ℤ.pos 2;
    validate_mae = 0;
    min_confidence = 0;
  });
}

abbrev verbs : Verbs ℕ
verbs = record { fixed = λ n x. codes "0.1"; quoted = λ s. b'"' ∷ s ++ b'"' ∷ [] }

quickstart-Follows_example :
    Follows serving (new (default_url [])) 0 (quickstart serving verbs [] 0)
quickstart-Follows_example = quickstart-Follows serving verbs [] 0

trains : train_dataset serving verbs (λ m k. m) [] 0 ≡ (
  finished (line (codes "version=v2 trained_samples=2 min_confidence=0.1 validate_mae=0.1")),
  1,
)
unfolding Tests.everything train_dataset print_training default_url digits decimal equal train
trains = refl

train_dataset-Trains_example :
    Trains serving verbs
      (λ m k. m)
      (default_url [])
      0
      (line (codes "version=v2 trained_samples=2 min_confidence=0.1 validate_mae=0.1"))
      1
train_dataset-Trains_example = train_dataset-Trains serving verbs (λ m k. m) [] 0 trains
