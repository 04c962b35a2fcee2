-- ===== src/Client/Call/Headers.antt =====
-- What `newRequest` puts into a request.
use noetivela_open.Prelude.{
  false, Bool-cases, Option, none, some, [], ◌∷◌, ◌++◌, Bytes, codes, equal, equal_iff, equal_refl,
  ◌⊎◌, inl, inr, ◌≡◌, refl, sym, ◌∙◌, ap, subst, if◌then◌else◌,
}
use noetivela_open.Client.Types.{Contract, Body}
use noetivela_open.Client.Call.{
  Headers, Request, Gateway, Client, set, set_named, set_names, body_bytes, checked, set_contract,
  new_request, ◌>>=◌,
}

-- `Header.Get`, where a header that is not there is no empty one.
unfoldable pub get : Bytes → Headers → Option Bytes
get key [] = none
get key ((k, v) ∷ hs) = let rest = get key hs in if equal k key then some v else rest

get-set_same : (key value : Bytes) (hs : Headers) → get key (set key value hs) ≡ some value
unfolding get set
get-set_same key value [] = rw (equal_refl key) refl
get-set_same key value ((k, v) ∷ hs) = elim (Bool-cases (equal k key)) [
  | inl h ↦ rw h (rw (equal_refl key) refl)
  | inr h ↦ rw h (rw (h, get-set_same key value hs) refl)
]

get-set_other :
    (other key value : Bytes) (hs : Headers)
    → equal key other ≡ false
    → get other (set key value hs) ≡ get other hs
unfolding get set
get-set_other other key value [] n = rw n refl
get-set_other other key value ((k, v) ∷ hs) n = elim (Bool-cases (equal k key)) [
  | inl h ↦ rw h (rw n (rw (ap (λ s. equal s other) ((equal_iff k key).0 h) ∙ n) refl))
  | inr h ↦ rw h (rw (get-set_other other key value hs n) refl)
]

-- An empty string stands for no header.
abbrev pub named : Bytes → Option Bytes
named value = if equal value [] then none else some value

get-set_named_same :
    (key value : Bytes) (hs : Headers)
    → get key hs ≡ none
    → get key (set_named key value hs) ≡ named value
unfolding set_named
get-set_named_same key value hs h = elim (Bool-cases (equal value [])) [
  | inl e ↦ rw e h
  | inr e ↦ rw e (get-set_same key value hs)
]

get-set_named_other :
    (other key value : Bytes) (hs : Headers)
    → equal key other ≡ false
    → get other (set_named key value hs) ≡ get other hs
unfolding set_named
get-set_named_other other key value hs n = elim (Bool-cases (equal value [])) [
  | inl e ↦ rw e refl
  | inr e ↦ rw e (get-set_other other key value hs n)
]

pub inr-injective : {E A : Type 0} {a b : A} → ◌≡◌ {A = E ⊎ A} (inr a) (inr b) → a ≡ b
inr-injective h = cc

pub bind-inr :
    {E A B : Type 0} {b : B} (x : E ⊎ A) (f : A → E ⊎ B)
    → (x >>= f) ≡ inr b
    → (a : A) × (x ≡ inr a) × (f a ≡ inr b)
bind-inr (inl e) f h = cc
bind-inr (inr a) f h = (a, refl, h)

module _ (gw : Gateway) where
  open gw use {Float, request_error, marshal_contract, marshal}

  -- A contract is sent as its JSON text, and without a contract there is no such header.
  abbrev pub ContractIs : Option Contract → Option Bytes → Type 0
  ContractIs none h = h ≡ none
  ContractIs (some ct) h = (raw : Bytes) × (marshal_contract ct ≡ inr raw) × (h ≡ some raw)

  abbrev pub BodyIs : Option (Body Float) → Option Bytes → Type 0
  BodyIs none b = b ≡ none
  BodyIs (some body) b = (raw : Bytes) × (marshal body ≡ inr raw) × (b ≡ some raw)

  pub record Asks (c : Client) (method path : Bytes) (body : Option (Body Float)) (req : Request)
      : Type 0 where
    pub method_is : req.method ≡ method
    pub url_is : req.url ≡ c.base_url ++ path
    pub body_is : BodyIs body req.body
    pub type_is : get (codes "Content-Type") req.headers ≡ some (codes "application/json")
    pub contract_is : ContractIs c.contract (get (codes "X-Noetivela-Contract") req.headers)
    pub policy_is : get (codes "X-Noetivela-Policy") req.headers ≡ named c.policy_name
    pub tenant_is : get (codes "X-Noetivela-Tenant") req.headers ≡ named c.tenant
    pub principal_is : get (codes "X-Noetivela-Principal") req.headers ≡ named c.principal

  body_bytes-BodyIs :
      (body : Option (Body Float)) {b : Option Bytes} → body_bytes gw body ≡ inr b → BodyIs body b
  unfolding body_bytes
  body_bytes-BodyIs none h = cc
  body_bytes-BodyIs (some body) h = let (raw, m, e) = bind-inr (marshal body) _ h in (raw, m, cc)

  pub checked-bind :
      {B : Type 0} {b : B} (o : Option gw.Error) (r : Request) (f : Request → gw.Error ⊎ B)
      → (checked gw o r >>= f) ≡ inr b
      → f r ≡ inr b
  checked-bind none r f h = h
  checked-bind (some e) r f h = cc

  -- The header of the contract is set, and no other.
  record Contracts (ct : Option Contract) (hs later : Headers) : Type 0 where
    set_is : ContractIs ct (get (codes "X-Noetivela-Contract") later)
    others_are :
        (other : Bytes)
        → equal (codes "X-Noetivela-Contract") other ≡ false
        → get other later ≡ get other hs

  set_contract-Contracts :
      (ct : Option Contract) (hs : Headers) {later : Headers}
      → get (codes "X-Noetivela-Contract") hs ≡ none
      → set_contract gw ct hs ≡ inr later
      → Contracts ct hs later
  unfolding set_contract
  set_contract-Contracts none hs {later} n h =
      let e : hs ≡ later = cc in
      subst (Contracts none hs) e (record { set_is = n; others_are = λ other k. refl })
  set_contract-Contracts (some ct) hs {later} n h =
      let key = codes "X-Noetivela-Contract" in
      let (raw, m, e) = bind-inr (marshal_contract ct) _ h in
      let e' : set key raw hs ≡ later = cc in
      subst (Contracts (some ct) hs) e' (record {
        set_is = (raw, m, get-set_same key raw hs);
        others_are = λ other k. get-set_other other key raw hs k;
      })

  get-set_names :
      (c : Client) (hs : Headers) (other : Bytes)
      → equal (codes "X-Noetivela-Policy") other ≡ false
      → equal (codes "X-Noetivela-Tenant") other ≡ false
      → equal (codes "X-Noetivela-Principal") other ≡ false
      → get other (set_names c hs) ≡ get other hs
  unfolding set_names
  get-set_names c hs other p t q =
      get-set_named_other other _ c.principal _ q
      ∙ get-set_named_other other _ c.tenant _ t
      ∙ get-set_named_other other _ c.policy_name hs p

  names-Asks :
      (c : Client) (method path : Bytes) (body : Option (Body Float)) (reader : Option Bytes)
      (hs : Headers)
      → BodyIs body reader
      → Contracts c.contract (set (codes "Content-Type") (codes "application/json") []) hs
      → Asks c method path body (record {
        method = method;
        url = c.base_url ++ path;
        headers = set_names c hs;
        body = reader;
      })
  unfolding get set equal set_names
  names-Asks c method path body reader hs b k =
      let policy = codes "X-Noetivela-Policy" in
      let tenant = codes "X-Noetivela-Tenant" in
      let principal = codes "X-Noetivela-Principal" in
      let with_policy = set_named policy c.policy_name hs in
      let with_tenant = set_named tenant c.tenant with_policy in
      record {
        method_is = refl;
        url_is = refl;
        body_is = b;
        type_is =
            get-set_names c hs (codes "Content-Type") refl refl refl
            ∙ k.others_are (codes "Content-Type") refl;
        contract_is =
            subst (ContractIs c.contract)
              (sym (get-set_names c hs (codes "X-Noetivela-Contract") refl refl refl)) k.set_is;
        policy_is =
            get-set_named_other policy principal c.principal with_tenant refl
            ∙ get-set_named_other policy tenant c.tenant with_policy refl
            ∙ get-set_named_same policy c.policy_name hs (k.others_are policy refl);
        tenant_is =
            get-set_named_other tenant principal c.principal with_tenant refl
            ∙ get-set_named_same tenant c.tenant with_policy (
                get-set_named_other tenant policy c.policy_name hs refl ∙ k.others_are tenant refl);
        principal_is = get-set_named_same principal c.principal with_tenant (
            get-set_named_other principal tenant c.tenant with_policy refl
            ∙ get-set_named_other principal policy c.policy_name hs refl
            ∙ k.others_are principal refl);
      }

  -- A request that `newRequest` returns has the method, the URL and the body that were asked for,
  -- the content type, the contract's JSON text exactly if the client has a contract, and each of the
  -- policy, tenant and principal exactly if it is not empty.
  pub new_request-Asks :
      (c : Client) (method path : Bytes) (body : Option (Body Float)) {req : Request}
      → new_request gw c method path body ≡ inr req
      → Asks c method path body req
  unfolding new_request
  new_request-Asks c method path body h =
      let (reader, b, h₁) = bind-inr (body_bytes gw body) _ h in
      let h₂ = checked-bind (request_error method (c.base_url ++ path)) _ _ h₁ in
      let (hs, sc, h₃) = bind-inr (set_contract gw c.contract _) _ h₂ in
      subst (Asks c method path body) (inr-injective h₃) (
        names-Asks c method path body reader hs (body_bytes-BodyIs body b)
          (set_contract-Contracts c.contract _ (unfold get set equal in refl) sc))
