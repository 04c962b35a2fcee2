-- ===== src/Client/Call/Urls.antt =====
-- The base URL of a client.
use noetivela_open.Prelude.{
  ℕ, zero, suc, false, Bool-cases, [], ◌∷◌, ◌++◌, Bytes, codes, equal, equal_iff, ◌≡◌, refl, ap,
  ◌∙◌, inl, inr,
}
use noetivela_open.Client.Call.{trim_slashes, new}

pub slashes : ℕ → Bytes
slashes zero = []
slashes (suc n) = b'/' ∷ slashes n

-- The last byte is a slash.
pub data EndsInSlash : Bytes → Type 0 where
  here : EndsInSlash (b'/' ∷ [])
  there : {c : ℕ} {s : Bytes} → EndsInSlash s → EndsInSlash (c ∷ s)

-- A text, and what is left of it without the slashes at its end.
pub record IsTrimmed (s t : Bytes) : Type 0 where
  pub count : ℕ
  pub splits : s ≡ t ++ slashes count
  pub trimmed : EndsInSlash t → ⊥

there-trimmed :
    (c : ℕ) (t : Bytes)
    → equal (c ∷ t) (codes "/") ≡ false
    → (EndsInSlash t → ⊥)
    → EndsInSlash (c ∷ t)
    → ⊥
unfolding equal
there-trimmed c t h k here = cc
there-trimmed c t h k (there e) = k e

trim_slashes-IsTrimmed : (s : Bytes) → IsTrimmed s (trim_slashes s)
unfolding trim_slashes slashes
trim_slashes-IsTrimmed [] = record { count = 0; splits = refl; trimmed = λ e. elim e [ ] }
trim_slashes-IsTrimmed (c ∷ cs) =
    let rest = trim_slashes-IsTrimmed cs in
    elim (Bool-cases (equal (c ∷ trim_slashes cs) (codes "/"))) [
      | inl h ↦ rw h (record {
        count = suc rest.count;
        splits =
            ap (λ t. c ∷ t) rest.splits
            ∙ ap (λ t. t ++ slashes rest.count) ((equal_iff (c ∷ trim_slashes cs) (codes "/")).0 h);
        trimmed = λ e. elim e [ ];
      })
      | inr h ↦ rw h (record {
        count = rest.count;
        splits = ap (λ t. c ∷ t) rest.splits;
        trimmed = there-trimmed c (trim_slashes cs) h rest.trimmed;
      })
    ]

-- The base URL of a new client is the URL that was given without the slashes at its end.
pub new-IsTrimmed : (url : Bytes) → IsTrimmed url ((new url).base_url)
unfolding new
new-IsTrimmed url = trim_slashes-IsTrimmed url
