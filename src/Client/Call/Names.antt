-- ===== src/Client/Call/Names.antt =====
-- The names of the headers that `newRequest` sets.
use noetivela_open.Prelude.{
  Bool, true, ◌||◌, ◌++◌, Bool-cases, Option, none, some, [], Bytes, codes, equal, inl, inr, ◌≡◌,
  refl, subst, All,
}
use noetivela_open.Prelude.Keys.{IsDistinct, Replaces, put-IsDistinct, put-All}
use noetivela_open.Client.Types.{Contract, Body}
use noetivela_open.Client.Call.{
  Headers, Request, Gateway, Client, set, set_named, set_names, body_bytes, set_contract,
  new_request,
}
use noetivela_open.Client.Call.Headers.{inr-injective, bind-inr, checked-bind}

set-Replaces : Replaces set
unfolding set
set-Replaces = record {
  at_end = λ key value. refl;
  in_place = λ key value k v hs h. rw h refl;
  behind = λ key value k v hs h. rw h refl;
}

-- `Content-Type` and the four headers of the protocol.
unfoldable pub is_known : Bytes → Bool
is_known key =
    equal key (codes "Content-Type")
    || equal key (codes "X-Noetivela-Contract")
    || equal key (codes "X-Noetivela-Policy")
    || equal key (codes "X-Noetivela-Tenant")
    || equal key (codes "X-Noetivela-Principal")

abbrev IsKnown : Bytes → Type 0
IsKnown key = is_known key ≡ true

-- Each header has a name of the protocol, and no two have one name.
pub record IsNamed (hs : Headers) : Type 0 where
  pub distinct : IsDistinct hs
  pub known : All {A = Bytes × Bytes} (λ p. IsKnown (p.0)) hs

set-IsNamed :
    (key value : Bytes) (hs : Headers) → IsKnown key → IsNamed hs → IsNamed (set key value hs)
set-IsNamed key value hs k n = record {
  distinct = put-IsDistinct set set-Replaces key value hs n.distinct;
  known = put-All set set-Replaces IsKnown key value hs k n.known;
}

set_named-IsNamed :
    (key value : Bytes) (hs : Headers) → IsKnown key → IsNamed hs → IsNamed (set_named key value hs)
unfolding set_named
set_named-IsNamed key value hs k n = elim (Bool-cases (equal value [])) [
  | inl e ↦ rw e n
  | inr e ↦ rw e (set-IsNamed key value hs k n)
]

set_names-IsNamed : (c : Client) (hs : Headers) → IsNamed hs → IsNamed (set_names c hs)
unfolding set_names is_known equal
set_names-IsNamed c hs n = set_named-IsNamed (codes "X-Noetivela-Principal") c.principal _ refl (
    set_named-IsNamed (codes "X-Noetivela-Tenant") c.tenant _ refl
      (set_named-IsNamed (codes "X-Noetivela-Policy") c.policy_name hs refl n))

content_type-IsNamed : IsNamed (set (codes "Content-Type") (codes "application/json") [])
unfolding is_known equal
content_type-IsNamed =
    set-IsNamed (codes "Content-Type") (codes "application/json") [] refl
      (record { distinct = tt; known = tt })

module _ (gw : Gateway) where
  open gw use {Float, request_error, marshal_contract, marshal}

  set_contract-IsNamed :
      (ct : Option Contract) (hs : Headers) {later : Headers}
      → IsNamed hs
      → set_contract gw ct hs ≡ inr later
      → IsNamed later
  unfolding set_contract is_known equal
  set_contract-IsNamed none hs {later} n h = let e : hs ≡ later = cc in subst IsNamed e n
  set_contract-IsNamed (some ct) hs {later} n h =
      let key = codes "X-Noetivela-Contract" in
      let (raw, m, e) = bind-inr (marshal_contract ct) _ h in
      let e' : set key raw hs ≡ later = cc in subst IsNamed e' (set-IsNamed key raw hs refl n)

  -- Every header of a request that `newRequest` returns is `Content-Type` or one of the four headers
  -- of the protocol, and the request has each of them once at most.
  pub new_request-IsNamed :
      (c : Client) (method path : Bytes) (body : Option (Body Float)) {req : Request}
      → new_request gw c method path body ≡ inr req
      → IsNamed req.headers
  unfolding new_request
  new_request-IsNamed c method path body h =
      let (reader, _, h₁) = bind-inr (body_bytes gw body) _ h in
      let h₂ = checked-bind gw (request_error method (c.base_url ++ path)) _ _ h₁ in
      let (hs, s, e) = bind-inr (set_contract gw c.contract _) _ h₂ in
      let n = set_names-IsNamed c hs (set_contract-IsNamed c.contract _ content_type-IsNamed s) in
      subst (λ req. IsNamed (Request.headers req)) (inr-injective e) n
