-- ===== src/Examples/Trains.antt =====
-- examples/train-dataset/main.go: the request of `main`, its reply and its output.
use noetivela_open.Prelude.{◌≡◌, refl, ℕ, some, [], ◌∷◌, Bytes, codes, inl, inr, subst}
use noetivela_open.Policy.Number.{ℤ}
use noetivela_open.Client.Types.{TrainResult, Body, train as train_body}
use noetivela_open.Client.Call.{Gateway, new}
use noetivela_open.Client.Call.Outcomes
use noetivela_open.Client.Call.Outcomes.{Succeeds, call-Explains}
use noetivela_open.Client.Calls.{Called, train}
use noetivela_open.Cli.Terminal.{default_url}
use noetivela_open.Examples.Quickstart.{Verbs, Finish, finished, fatal}
use noetivela_open.Examples.TrainDataset.{
  judged, reviewed, print_training, on_training, train_dataset,
}

module _ (gw : Gateway) (vb : Verbs gw.Float) (constant : ℕ → ℕ → gw.Float) where
  open gw use {Float, Error, World, unmarshal_training}

  abbrev pub training : Body Float
  training = train_body (record {
    version_id = codes "v2";
    min_samples = ℤ.pos 10;
    tcos_weight = constant 5 1;
    hold_out_frac = constant 0 1;
    samples = some (judged gw vb constant ∷ reviewed gw vb constant ∷ []);
  })

  -- A training on the two samples was asked for at the URL, and succeeded with the result printed.
  pub record Trains (url : Bytes) (w : World) (out : Bytes) (w' : World) : Type 0 where
    pub res : TrainResult Float
    pub answered :
        Succeeds gw
          (new url)
          (codes "POST")
          (codes "/v1/train")
          (some training)
          unmarshal_training
          w
          res
          w'
    pub prints : out ≡ print_training gw vb constant res

  module _ (environment : Bytes) (w : World) where
    abbrev Reports : Finish Error × World → Type 0
    Reports (finished out, w') = Trains (default_url environment) w out w'
    Reports (fatal _ _ _, w') = Unit

    on_training-Reports :
        (r : Called gw (TrainResult Float))
        → Outcomes.Explains gw
            (new (default_url environment))
            (codes "POST")
            (codes "/v1/train")
            (some training)
            unmarshal_training
            w
            r
        → Reports (on_training gw vb constant r)
    on_training-Reports (inl e, w') h = tt
    on_training-Reports (inr res, w') h = record { res = res; answered = h; prints = refl }

    -- If the program ends well, it has asked the gateway of NOETIVELA_URL, or of the default, for a
    -- training on its two samples, the reply had a status from 200 to 299, and what is printed is the
    -- result read from its body.
    pub train_dataset-Trains :
        {out : Bytes} {w' : World}
        → train_dataset gw vb constant environment w ≡ (finished out, w')
        → Trains (default_url environment) w out w'
    unfolding train_dataset train
    train_dataset-Trains h = subst Reports h (
        on_training-Reports _ (
          call-Explains gw (new (default_url environment)) (codes "POST") (codes "/v1/train")
            (some training) unmarshal_training w))
