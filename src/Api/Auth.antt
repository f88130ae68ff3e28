-- ===== src/Api/Auth.antt =====
-- app/api/v1/auth.py: `_extract_bearer_token` and `require_service_auth`.
-- A missing header is `none`. Logging is left out.
use cire_rag.Base.{
  if◌then◌else◌, ℕ, String, ◌≡◌, ◌≢◌, ◌↔◌, Bool, true, false, not, ◌||◌, Option, none, some, [],
  ◌∷◌, arith, ◌==◌, eq_iff,
}
use cire_rag.Base.Text.{is_empty, strip, has}
use cire_rag.Base.Value.{Python}

-- The settings that the gate reads.
pub record Settings : Type 0 where
  pub rag_service_secret : Option String
  pub running_in_docker : Bool
  pub app_env : String
  pub environment : String
  pub is_deployed_environment : Bool

-- `HTTPAuthorizationCredentials`
pub record Credentials : Type 0 where
  pub scheme : String
  pub credentials : String

pub data AuthError : Type 0 where
  auth_env_inconsistent auth_misconfigured unauthorized : AuthError

pub data Verdict : Type 0 where
  admitted : Verdict
  raised : AuthError → Verdict

-- `ApiError.status_code`
abbrev pub status_code : AuthError → ℕ
status_code unauthorized = 401
status_code _ = 500

-- `s or None`
abbrev pub non_empty : String → Option String
non_empty s = if is_empty s then none else some s

-- `a or b`, where an empty text counts as missing
abbrev pub first_text : Option String → Option String → Option String
first_text (some s) b = if is_empty s then b else some s
first_text none b = b

abbrev pub same_text : Option String → String → Bool
same_text none e = false
same_text (some c) e = c == e

same_text_iff : (o : Option String) (e : String) → same_text o e ≡ true ↔ (o ≡ some e)
same_text_iff none e = (λ h. cc, λ h. cc)
same_text_iff (some c) e = (λ h. ground (arith, eq_iff c e), λ h. ground (arith, eq_iff c e))

unfoldable pub env_inconsistent : Settings → Bool
env_inconsistent s =
    s.running_in_docker
    || has s.app_env ("staging" ∷ "production" ∷ "prod" ∷ [])
    || has s.environment ("staging" ∷ "production" ∷ "prod" ∷ [])

-- `str(settings.RAG_SERVICE_SECRET or "").strip()`
unfoldable pub expected_secret : Settings → String
expected_secret s = elim s.rag_service_secret [ none ↦ strip "" | some t ↦ strip t ]

-- `x_service_secret.strip() if x_service_secret else None`
unfoldable pub header_secret : Option String → Option String
header_secret none = none
header_secret (some t) = if is_empty t then none else some (strip t)

module _ ⦃py : Python⦄ where
  -- The token of a bearer credential, if its scheme is `bearer` and it is not blank.
  unfoldable pub bearer_token : Option Credentials → Option String
  bearer_token none = none
  bearer_token (some c) =
      if py.lower c.scheme == "bearer" then non_empty (strip c.credentials) else none

  unfoldable pub require_service_auth : Settings → Option Credentials → Option String → Verdict
  require_service_auth s bearer_credentials x_service_secret =
      let expected = expected_secret s in
      let candidate =
        first_text (bearer_token bearer_credentials) (header_secret x_service_secret) in
      if not s.is_deployed_environment
      then (if env_inconsistent s then raised auth_env_inconsistent else admitted)
      else if is_empty expected || expected == "development-secret"
      then raised auth_misconfigured
      else if same_text candidate expected
      then admitted
      else raised unauthorized

  -- In a deployed environment a request is admitted exactly if the secret is configured, is not the
  -- development secret, and equals the candidate: the bearer token, or else the header's secret.
  pub admitted_iff :
      (s : Settings) (b : Option Credentials) (x : Option String)
      → s.is_deployed_environment ≡ true
      → require_service_auth s b x ≡ admitted ↔ (
          (is_empty (expected_secret s) ≡ false)
          × (expected_secret s ≢ "development-secret")
          × (first_text (bearer_token b) (header_secret x) ≡ some (expected_secret s)))
  unfolding require_service_auth
  admitted_iff s b x deployed =
      let e = expected_secret s in
      let c = first_text (bearer_token b) (header_secret x) in
      (
        λ h. (
          ground arith,
          λ same. ground (arith, eq_iff e "development-secret"),
          (same_text_iff c e).0 (ground arith),
        ),
        λ h. ground (arith, eq_iff e "development-secret", (same_text_iff c e).1),
      )

  -- Outside a deployed environment the credentials play no part: a request is admitted exactly if
  -- nothing in the settings points to a deployment, and every other request raises that error.
  local_bypass :
      (s : Settings) (b : Option Credentials) (x : Option String)
      → s.is_deployed_environment ≡ false
      → require_service_auth s b x ≡ (
          if s.running_in_docker
            || has s.app_env ("staging" ∷ "production" ∷ "prod" ∷ [])
            || has s.environment ("staging" ∷ "production" ∷ "prod" ∷ [])
          then raised auth_env_inconsistent
          else admitted)
  unfolding require_service_auth env_inconsistent
  local_bypass s b x h = ground arith

  -- A blank bearer token does not hide a valid header secret, and a bearer token that is not blank
  -- is the only candidate, whatever the header holds.
  candidate_order :
      (c : Credentials) (x : Option String)
      → py.lower c.scheme ≡ "bearer"
      → first_text (bearer_token (some c)) (header_secret x)
        ≡ (if is_empty (strip c.credentials) then header_secret x else some (strip c.credentials))
  unfolding bearer_token
  candidate_order c x h = ground (arith, eq_iff (py.lower c.scheme) "bearer")
