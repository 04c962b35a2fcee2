-- ===== src/Client/Calls/Queries.antt =====
-- The query of `Decisions`.
use noetivela_open.Prelude.{
  false, [], ◌∷◌, ◌++◌, Bytes, codes, equal, ◌≡◌, refl, sym, ◌∙◌, append_assoc, ap,
}
use noetivela_open.Policy.Number.{ℤ}
use noetivela_open.Go.Decimals.{decimal}
use noetivela_open.Client.Types.{DecisionsOptions}
use noetivela_open.Client.Call.{Gateway, Client}
use noetivela_open.Client.Calls.{add_filter, query, decisions}

-- The options of a call with a task and a model.
abbrev pub filtered : ℤ → ℤ → Bytes → Bytes → DecisionsOptions
filtered limit offset task model = record {
  limit = limit;
  offset = offset;
  task = task;
  model = model;
}

append-ne-nil : (s t : Bytes) → equal s [] ≡ false → equal (s ++ t) [] ≡ false
unfolding equal
append-ne-nil [] t h = cc
append-ne-nil (c ∷ s) t h = refl

add_filter-set :
    (key value q : Bytes) → equal value [] ≡ false → add_filter key value q ≡ q ++ (key ++ value)
unfolding add_filter
add_filter-set key value q h = rw h refl

query-filtered :
    (limit offset : ℤ) (task model : Bytes)
    → equal task [] ≡ false
    → equal model [] ≡ false
    → query (filtered limit offset (task ++ (codes "&model=" ++ model)) [])
      ≡ query (filtered limit offset task model)
unfolding query
query-filtered limit offset task model t m =
    let q = codes "limit=" ++ decimal limit ++ codes "&offset=" ++ decimal offset in
    let both = task ++ (codes "&model=" ++ model) in
    let swallowed =
      add_filter-set (codes "&task=") both q (append-ne-nil task (codes "&model=" ++ model) t) in
    let tasked = add_filter-set (codes "&task=") task q t in
    let modelled = add_filter-set (codes "&model=") model (add_filter (codes "&task=") task q) m in
    unfold add_filter equal in
    (swallowed
      ∙ sym (append_assoc q (codes "&task=" ++ task) (codes "&model=" ++ model))
      ∙ sym (modelled ∙ ap (λ s. s ++ (codes "&model=" ++ model)) tasked))

module _ (gw : Gateway) where
  -- `Decisions` does not tell a task that holds `&model=` and a model's name from a task and a model:
  -- the two calls give the same result, and leave the same world.
  pub decisions-filtered :
      (c : Client) (limit offset : ℤ) (task model : Bytes) (w : gw.World)
      → equal task [] ≡ false
      → equal model [] ≡ false
      → decisions gw c (filtered limit offset (task ++ (codes "&model=" ++ model)) []) w
        ≡ decisions gw c (filtered limit offset task model) w
  unfolding decisions
  decisions-filtered c limit offset task model w t m =
      rw (query-filtered limit offset task model t m) refl
