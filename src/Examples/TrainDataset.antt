-- ===== src/Examples/TrainDataset.antt =====
-- examples/train-dataset/main.go: `main` on a value of NOETIVELA_URL.
use noetivela_open.Prelude.{ℕ, [], ◌∷◌, ◌++◌, Bytes, codes, inl, inr}
use noetivela_open.Policy.Number.{ℤ}
use noetivela_open.Go.Decimals.{decimal}
use noetivela_open.Client.Types.{TrainSample, TrainOptions, TrainResult}
use noetivela_open.Client.Call.{Gateway, new}
use noetivela_open.Client.Calls.{Called, train}
use noetivela_open.Cli.Terminal.{line, default_url}
use noetivela_open.Examples.Quickstart.{Verbs, Finish, finished, fatal}

module _ (gw : Gateway) (vb : Verbs gw.Float) (constant : ℕ → ℕ → gw.Float) where
  open gw use {Float, Error, World}
  open vb use {fixed}

  -- `constant m k` is the float64 constant m / 10^k. The features are in the order of the source.
  abbrev pub judged : TrainSample Float
  judged = record {
    features =
        (codes "task", codes "\"contract_clause_extraction\"")
        ∷ (codes "domain", codes "\"legal\"")
        ∷ (codes "input_tokens_est", codes "1200")
        ∷ (codes "has_session", codes "true")
        ∷ (codes "tool_use_required", codes "false")
        ∷ (codes "structured_output", codes "false")
        ∷ (codes "has_deadline", codes "true")
        ∷ (codes "has_latency_p95", codes "true")
        ∷ [];
    candidate_ref = codes "ep-openai-sg/v1";
    quality = constant 9 1;
    tcos = constant 2 3;
  }

  abbrev pub reviewed : TrainSample Float
  reviewed = record {
    features =
        (codes "task", codes "\"code_review\"")
        ∷ (codes "domain", codes "\"software\"")
        ∷ (codes "input_tokens_est", codes "3000")
        ∷ [];
    candidate_ref = codes "ep-groq-sg/v1";
    quality = constant 4 1;
    tcos = constant 1 4;
  }

  abbrev pub options : TrainOptions Float
  options = record {
    version_id = codes "v2";
    min_samples = ℤ.pos 10;
    tcos_weight = constant 5 1;
    hold_out_frac = constant 0 1;
    samples = judged ∷ reviewed ∷ [];
  }

  unfoldable pub print_training : TrainResult Float → Bytes
  print_training res = line (
      codes "version="
      ++ (res.version_id
          ++ (codes " trained_samples="
              ++ (decimal res.trained_samples
                  ++ (codes " min_confidence="
                      ++ (fixed 3 res.min_confidence
                          ++ (codes " validate_mae=" ++ fixed 3 res.validate_mae)))))))

  abbrev pub on_training : Called gw (TrainResult Float) → Finish Error × World
  on_training (inl e, w) = (fatal (codes "train") e [], w)
  on_training (inr res, w) = (finished (print_training res), w)

  unfoldable pub train_dataset : Bytes → World → Finish Error × World
  train_dataset environment w = on_training (train gw (new (default_url environment)) options w)
