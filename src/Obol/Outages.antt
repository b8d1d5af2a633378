-- ===== src/Obol/Outages.antt =====
-- obolresolver/obolresolver.go behind reresolve.go: what a failing call of the service does to a
-- live session.
use go_vai_oidc.Prelude.{
  ◌≡◌, refl, sym, subst, ◌∙◌, ap, ◌↔◌, false, Option, none, some, arith, Result, ok, err, ◌>>=◌,
  err-injective, err-ne-ok, some-eq, ℕ, ltb, length, Bool-cases, Result-cases, inl, inr,
}
use go_vai_oidc.Prelude.Text.{Str, is_empty}
use go_vai_oidc.Errors.{Error}
use go_vai_oidc.User.{User}
use go_vai_oidc.Config.{Admission, revalidation}
use go_vai_oidc.Auth.{Auth}
use go_vai_oidc.Idp.{Token}
use go_vai_oidc.Admission.Domains.{PassesDomain}
use go_vai_oidc.Admission.Gates.{PassesVerified}
use go_vai_oidc.Session.Payload.{SessionPayload}
use go_vai_oidc.Reresolve.{reresolve, soft, revalidation_identity}
use go_vai_oidc.Reresolve.Soft.{IsOutage, soft_iff}
use go_vai_oidc.Obol.{
  IdentityEnsureRequest, ObolEnvelope, Incoming, Outgoing, HttpClient, ObolConfig, Wire,
}
use go_vai_oidc.Obol.Resolver.{
  failed, read_limited, check_status, is_success, check_envelope, ensure, resolve, resolver_of,
  new_resolver, body_limit,
}

-- What fails there fails with an outage.
abbrev pub FailsForeign : {A : Type 0} → Result Error A → Type 0
FailsForeign m = (e : Error) → m ≡ err e → IsOutage e

-- The parameters of the resolver wrap none of the module's own refusals: encoding/json, net/http
-- and the client know nothing of them.
pub record IsForeign (wire : Wire) (client : HttpClient) : Type 0 where
  pub marshal : (q : IdentityEnsureRequest) → FailsForeign (wire.marshal q)
  pub check_endpoint : (s : Str) → FailsForeign (wire.check_endpoint s)
  pub envelope : (s : Str) → FailsForeign (wire.envelope s)
  pub response : (s : Str) → FailsForeign (wire.response s)
  pub client_fails : (q : Outgoing) → FailsForeign (client q)
  pub read_fails :
      (q : Outgoing) (r : Incoming)
      → client q ≡ ok r
      → (e : Error) → r.read_error ≡ some e
      → IsOutage e

>>=-FailsForeign :
    {A B : Type 0} (m : Result Error A) (k : A → Result Error B)
    → FailsForeign m
    → ((x : A) → m ≡ ok x → FailsForeign (k x))
    → FailsForeign (m >>= k)
>>=-FailsForeign (err e) k hm hk f h = hm f (ap err (err-injective h))
>>=-FailsForeign (ok x) k hm hk f h = hk x refl f h

failed-IsOutage :
    {A : Type 0} {text : Str} {e : Error}
    → ◌≡◌ {A = Result Error A} (err (failed text)) (err e)
    → IsOutage e
failed-IsOutage h = subst IsOutage (err-injective h) (refl, refl, refl, refl)

check_status-FailsForeign :
    (endpoint : Str) (code : ℕ) (body : Str) → FailsForeign (check_status endpoint code body)
check_status-FailsForeign endpoint code body e h = elim (Bool-cases (is_success code)) [
  | inl good ↦ absurd (err-ne-ok (sym (rw good at h)))
  | inr bad ↦ failed-IsOutage (rw bad at h)
]

check_envelope-FailsForeign : (env : ObolEnvelope) → FailsForeign (check_envelope env)
check_envelope-FailsForeign env = of_error env.error env.data_text
  where
    of_error :
        (o : Option (Str × Str)) (body : Str)
        → FailsForeign (check_envelope (record { data_text = body; error = o }))
    of_error none body e h = absurd (err-ne-ok (sym h))
    of_error (some (code, text)) body e h = failed-IsOutage h

read_limited-FailsForeign :
    (r : Incoming)
    → ((e : Error) → r.read_error ≡ some e → IsOutage e)
    → FailsForeign (read_limited r)
unfolding read_limited
read_limited-FailsForeign r foreign e h = elim (Bool-cases (ltb (length r.body) body_limit)) [
  | inl short ↦ foreign e (ground arith)
  | inr long ↦ absurd (err-ne-ok (sym (rw long at h)))
]

new_resolver-resolve :
    (wire : Wire) (cfg : ObolConfig) (client : HttpClient)
    → cfg.client ≡ some client
    → is_empty cfg.base_url ≡ false
    → new_resolver wire cfg ≡ some (resolve wire cfg client)
unfolding new_resolver
new_resolver-resolve wire cfg client held based =
    rw based (ap (λ c. some (resolver_of wire cfg c)) held)

module _ (wire : Wire) (cfg : ObolConfig) (client : HttpClient) (foreign : IsForeign wire client)
    (kind : Admission) where
  ensure-FailsForeign : (u : User) → FailsForeign (ensure wire cfg client kind u)
  unfolding ensure
  ensure-FailsForeign u = >>=-FailsForeign _ _ (foreign.marshal _) λ body marshalled.
      >>=-FailsForeign _ _ (foreign.check_endpoint _) λ checked fine.
        >>=-FailsForeign _ _ (foreign.client_fails _) λ response came.
          >>=-FailsForeign _ _
            (read_limited-FailsForeign response (foreign.read_fails _ response came))
            λ text read.
              >>=-FailsForeign _ _ (check_status-FailsForeign _ response.status_code text)
                λ success good. >>=-FailsForeign _ _ (foreign.envelope text) λ env parsed.
                  >>=-FailsForeign _ _ (check_envelope-FailsForeign env)
                    λ inner found. foreign.response inner

  resolve-fails_iff :
      (u : User)
      → ((e : Error) × (resolve wire cfg client kind (some u) ≡ err e) × IsOutage e)
        ↔ ((e : Error) × (ensure wire cfg client kind u ≡ err e))
  unfolding resolve
  resolve-fails_iff u = (
    λ (e, h, out). elim (Result-cases (ensure wire cfg client kind u)) [
      | inl (inner, answered) ↦ absurd (err-ne-ok (sym (rw answered at h)))
      | inr (f, failing) ↦ (f, failing)
    ],
    λ (e, failing). (e, rw failing refl, ensure-FailsForeign u e failing),
  )

-- With the Obol resolver installed, and an identity that passes the gates, a re-resolution leaves
-- the session as it is exactly when the call of the service fails: an outage of the service or an
-- answer outside the contract never ends a session, and no readable answer is taken for an outage.
-- The errors of the client and of the parameters wrap none of the module's own refusals.
pub reresolve-soft_iff_ensure :
    (wire : Wire) (cfg : ObolConfig) (client : HttpClient) (a : Auth) (p : SessionPayload)
    (fresh : Option Token)
    → IsForeign wire client
    → cfg.client ≡ some client
    → is_empty cfg.base_url ≡ false
    → a.cfg.user_resolver ≡ new_resolver wire cfg
    → let u = revalidation_identity a p fresh in
      PassesVerified (some u) a.cfg.require_email_verified
      → PassesDomain (some u) a.cfg.require_email_domain
      → (reresolve a p fresh ≡ soft)
        ↔ ((e : Error) × (ensure wire cfg client revalidation u ≡ err e))
reresolve-soft_iff_ensure wire cfg client a p fresh foreign held based installed verified domain =
    let u = revalidation_identity a p fresh in
    let installed_here = installed ∙ new_resolver-resolve wire cfg client held based in
    let (to, from) = soft_iff a p fresh in
    let (fails, failing) = resolve-fails_iff wire cfg client foreign revalidation u in
    (
      λ h.
          let (v, d, (ask, is_ask, broken)) = to h in
          fails (
            subst (λ ask. (e : Error) × (ask revalidation (some u) ≡ err e) × IsOutage e)
              (some-eq (sym is_ask ∙ installed_here)) broken),
      λ q. from (verified, domain, (resolve wire cfg client, installed_here, failing q)),
    )
