-- ===== src/Scenarios/Failing.antt =====
-- A service that answers 503 while a session is re-resolved, on concrete input.
use go_vai_oidc.Prelude.{
  ◌≡◌, ◌↔◌, refl, sym, false, none, some, [], Result, ok, err, err-ne-ok, inl,
}
use go_vai_oidc.Prelude.Text.{codes}
use go_vai_oidc.Errors.{Error}
use go_vai_oidc.Config.{UserResolver, revalidation}
use go_vai_oidc.Auth.{Auth}
use go_vai_oidc.Reresolve.{reresolve, soft, revalidation_identity}
use go_vai_oidc.Reresolve.Soft.{IsOutage, reresolve_soft_iff}
use go_vai_oidc.Admission.Domains.{IsInDomain}
use go_vai_oidc.Admission.Gates.{PassesVerified}
use go_vai_oidc.Obol.{Incoming, ObolConfig, HttpClient}
use go_vai_oidc.Obol.Resolver.{ensure, new_resolver}
use go_vai_oidc.Obol.Outages.{FailsForeign, IsForeign, reresolve-soft_iff_ensure}
use go_vai_oidc.Scenarios.World.{config, deployment, session}
use go_vai_oidc.Scenarios.Placing.{wire, obol}

abbrev unavailable_answer : Result Error Incoming
unavailable_answer = ok (record { status_code = 503; body = codes "down"; read_error = none })

abbrev unavailable : HttpClient
unavailable = λ req. unavailable_answer

abbrev broken_obol : ObolConfig
broken_obol = record obol { client = some unavailable }

abbrev through_outage : Auth
through_outage = record (deployment (codes "ada") session) {
  cfg = record config { user_resolver = new_resolver (wire []) broken_obol };
}

never_fails : {A : Type 0} (x : A) → FailsForeign (ok x)
never_fails x e h = absurd (err-ne-ok (sym h))

foreign : IsForeign (wire []) unavailable
foreign = record {
  marshal = λ q. never_fails _;
  check_endpoint = λ s. never_fails _;
  envelope = λ s. never_fails _;
  response = λ s. never_fails _;
  client_fails = λ q. never_fails _;
  read_fails = λ q r came e h. absurd (unread came h);
}
  where
    unread :
        {r : Incoming} {e : Error}
        → ◌≡◌ {A = Result Error Incoming} unavailable_answer (ok r)
        → r.read_error ≡ some e
        → ⊥
    unread came h = cc

reresolve-soft_iff_ensure_example : (reresolve through_outage session none ≡ soft) ↔ (
    (e : Error) × (ensure
        (wire [])
        broken_obol
        unavailable
        revalidation
        (revalidation_identity through_outage session none)
      ≡ err e))
unfolding codes
reresolve-soft_iff_ensure_example =
    reresolve-soft_iff_ensure (wire []) broken_obol unavailable through_outage session none foreign
      refl refl refl (inl refl) (inl refl)

reresolve_soft_iff_example : (reresolve through_outage session none ≡ soft) ↔ (
    PassesVerified (some (revalidation_identity through_outage session none)) false
    × IsInDomain (some (revalidation_identity through_outage session none)) []
    × ((ask : UserResolver) × (through_outage.cfg.user_resolver ≡ some ask)
        × ((e : Error) × (ask revalidation
                (some (revalidation_identity through_outage session none))
              ≡ err e)
            × IsOutage e)))
reresolve_soft_iff_example = reresolve_soft_iff through_outage session none tt

an_outage_is_soft : reresolve through_outage session none ≡ soft
unfolding codes reresolve go_vai_oidc.Admission.admit_identity
    go_vai_oidc.Admission.require_verified go_vai_oidc.Admission.enforce_email_domain new_resolver
    go_vai_oidc.Obol.Resolver.resolve ensure go_vai_oidc.Obol.Resolver.read_limited
    go_vai_oidc.Admission.admission_reason
an_outage_is_soft = refl
