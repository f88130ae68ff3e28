-- ===== src/Api/Tests.antt =====
-- The gates at concrete requests.
use cire_rag.Base.{
  if◌then◌else◌, All, ◌≡◌, refl, ◌≢◌, ◌↔◌, true, false, ◌||◌, none, some, [], ◌∷◌, ◌==◌,
}
use cire_rag.Base.Text.{is_empty, strip}
use cire_rag.Base.Value.{str, dict, Fields, end, field, Python}
use cire_rag.Api.Auth.{
  Settings, Credentials, admitted, expected_secret, bearer_token, header_secret, first_text,
  env_inconsistent, require_service_auth, admitted_iff,
}
use cire_rag.Api.Tenant
use cire_rag.Api.Tenant.{
  Request, Context, handled, dispatch, dispatch_iff, bind, is_exempt, is_tenant_id, text_of, tenant,
  enforce_tenant_match, query_tenant, gate, guards_agree, guards_differ, tenant_mismatch,
  tenant_header_required, is_alnum, is_tail_char, run_length, starts_with,
}
use cire_rag.Api.LeakCanary.{verified, verify_isolation, IsOwned, verified_iff}

-- A printer that is good enough for texts in lower case.
instance abbrev plain : Python
plain = record { lower = λ s. s; upper = λ s. s; show = λ v. "" }

abbrev deployed : Settings
deployed = record {
  rag_service_secret = some " s3cret ";
  running_in_docker = true;
  app_env = "production";
  environment = "production";
  is_deployed_environment = true;
}

abbrev bearer : Credentials
bearer = record { scheme = "bearer"; credentials = "s3cret" }

admitted_iff_example : require_service_auth deployed (some bearer) none ≡ admitted ↔ (
    (is_empty (expected_secret deployed) ≡ false)
    × (expected_secret deployed ≢ "development-secret")
    × (first_text (bearer_token (some bearer)) (header_secret none)
        ≡ some (expected_secret deployed)))
admitted_iff_example = admitted_iff deployed (some bearer) none refl

admits : require_service_auth deployed (some bearer) none ≡ admitted
unfolding require_service_auth expected_secret bearer_token header_secret env_inconsistent strip
admits = refl

abbrev no_context : Context
no_context = record { tenant_id = none; user_id = none }

abbrev request : Request
request = record { path = "/chat"; tenant_header = some "acme-1 "; user_header = none }

abbrev acme : Context
acme = record { tenant_id = some "acme-1"; user_id = none }

program : Unit {0}
unfolding dispatch is_exempt is_tenant_id is_alnum is_tail_char run_length starts_with
    enforce_tenant_match query_tenant strip
program = tt

dispatched : dispatch no_context request ≡ handled acme no_context
unfolding program
dispatched = refl

gate_example : enforce_tenant_match acme (some "other") ≡ (
    if is_empty (strip "other") || strip "other" == strip "acme-1 "
    then tenant (strip "acme-1 ")
    else Tenant.raised tenant_mismatch)
unfolding is_exempt starts_with
gate_example = gate no_context acme no_context request (some "other") refl dispatched

abbrev metadata : Fields
metadata = field "institution_id" (str "other") end

abbrev row : Fields
row = field "id" (str "r") (field "metadata" (dict metadata) end)

verified_iff_example :
    verify_isolation "acme" (row ∷ []) ≡ verified ↔ All (IsOwned "acme") (row ∷ [])
verified_iff_example = verified_iff "acme" (row ∷ []) refl
