-- ===== src/Api/Tenant.antt =====
-- The tenant of a request: app/api/middleware/business_context.py (`BusinessContextMiddleware`),
-- app/api/v1/tenant_guard.py, and `_enforce_tenant_match` of
-- app/infrastructure/supabase/queries/ingestion_query_service.py.
use Prim.Native.Char.{Char, code}
use cire_rag.Base.{
  leb, eqb, if◌then◌else◌, ℕ, suc, String, ◌≡◌, refl, ◌↔◌, Bool, true, false, not, ◌&&◌, ◌||◌,
  Option, none, some, [], ◌∷◌, arith, ◌==◌, eq_iff,
}
use cire_rag.Base.Text.{is_empty, strip, strip_idem, has}

-- A letter or a digit of ASCII, and the characters that may follow the first.
unfoldable pub is_alnum : Char → Bool
is_alnum ch =
    let c = code ch in
    (leb b'0' c && leb c b'9') || (leb b'A' c && leb c b'Z') || (leb b'a' c && leb c b'z')

unfoldable pub is_tail_char : Char → Bool
is_tail_char ch = is_alnum ch || eqb (code ch) b'_' || eqb (code ch) b'-'

-- How many characters a text has, if all of them satisfy the test.
unfoldable pub run_length : (Char → Bool) → String → Option ℕ
run_length p String.[] = some 0
run_length p (String.◌∷◌ c s) =
    let rest = run_length p s in
    if p c then elim rest [ none ↦ none | some n ↦ some (suc n) ] else none

-- `TENANT_ID_PATTERN.fullmatch`: `[A-Za-z0-9][A-Za-z0-9_-]{1,127}`.
unfoldable pub is_tenant_id : String → Bool
is_tenant_id String.[] = false
is_tenant_id (String.◌∷◌ c s) =
    is_alnum c && elim (run_length is_tail_char s) [ none ↦ false | some n ↦ leb 1 n && leb n 127 ]

-- `s.startswith(p)`
unfoldable pub starts_with : String → String → Bool
starts_with String.[] s = true
starts_with (String.◌∷◌ c p) String.[] = false
starts_with (String.◌∷◌ c p) (String.◌∷◌ d s) =
    let rest = starts_with p s in if eqb (code c) (code d) then rest else false

empty_text : (s : String) → is_empty s ≡ true → s ≡ ""
empty_text String.[] h = refl
empty_text (String.◌∷◌ c s) h = cc

tenant_id_not_empty : (s : String) → is_tenant_id s ≡ true → is_empty s ≡ false
unfolding is_tenant_id
tenant_id_not_empty String.[] h = cc
tenant_id_not_empty (String.◌∷◌ c s) h = refl

pub data TenantError : Type 0 where
  tenant_header_required invalid_tenant_header tenant_mismatch : TenantError

pub record Request : Type 0 where
  pub path : String
  pub tenant_header : Option String
  pub user_header : Option String

-- The context variables that the handlers read.
pub record Context : Type 0 where
  pub tenant_id : Option String
  pub user_id : Option String

-- The middleware answers by itself, or the handler ran in a context, after which another is left.
pub data Answer : Type 0 where
  refused : TenantError → Answer
  handled : Context → Context → Answer

abbrev pub text_of : Option String → String
text_of none = ""
text_of (some s) = s

unfoldable pub is_exempt : String → Bool
is_exempt path =
    has path ("/health" ∷ "/openapi.json" ∷ "/api/v1/management/tenants" ∷ [])
    || starts_with "/docs" path

-- `set` and, in the `finally`, `reset` to the value before.
abbrev pub bind : Context → String → Option String → Context
bind ctx tenant user = record {
  tenant_id = some tenant;
  user_id = if is_empty (text_of user) then ctx.user_id else user;
}

-- `dispatch`; the context of the caller comes in, and goes out as it was.
unfoldable pub dispatch : Context → Request → Answer
unfolding is_exempt
dispatch ctx r =
    let tenant = strip (text_of r.tenant_header) in
    if is_exempt r.path
    then handled ctx ctx
    else if is_empty tenant
    then refused tenant_header_required
    else if is_tenant_id tenant
    then handled (bind ctx tenant r.user_header) ctx
    else refused invalid_tenant_header

pub data Checked : Type 0 where
  tenant : String → Checked
  raised : TenantError → Checked

-- `require_tenant_from_context`
unfoldable pub require_tenant_from_context : Context → Checked
require_tenant_from_context ctx =
    let t = strip (text_of ctx.tenant_id) in
    if is_empty t then raised tenant_header_required else tenant t

-- `enforce_tenant_match`
unfoldable pub enforce_tenant_match : Context → Option String → Checked
enforce_tenant_match ctx tenant_from_payload =
    let payload = strip (text_of tenant_from_payload) in
    elim (require_tenant_from_context ctx) [
      | raised e ↦ raised e
      | tenant header ↦
          if not (is_empty payload) && not (payload == header)
          then raised tenant_mismatch
          else tenant header
    ]

-- `ManualIngestionQueryService._enforce_tenant_match`: the tenant that a query is scoped to.
unfoldable pub query_tenant : Context → Option String → Checked
query_tenant ctx tenant_id =
    let req = strip (text_of tenant_id) in
    let own = strip (text_of ctx.tenant_id) in
    if not (is_empty own) && not (is_empty req) && not (own == req)
    then raised tenant_mismatch
    else tenant (if is_empty req then own else req)

-- A request that is not exempt reaches its handler exactly if its stripped tenant header fits the
-- pattern; the handler then runs under that tenant, and the caller's context is left as it was.
pub dispatch_iff :
    (ctx inner outer : Context) (r : Request)
    → is_exempt r.path ≡ false
    → dispatch ctx r ≡ handled inner outer ↔ (
        (is_tenant_id (strip (text_of r.tenant_header)) ≡ true)
        × (inner ≡ bind ctx (strip (text_of r.tenant_header)) r.user_header)
        × (outer ≡ ctx))
unfolding dispatch
dispatch_iff ctx inner outer r open_path =
    (λ h. ground arith, λ h. ground (arith, tenant_id_not_empty (strip (text_of r.tenant_header))))

-- Behind the middleware, on a path that is not exempt, `enforce_tenant_match` returns the header's
-- tenant if the payload names none or the same one, and raises the mismatch otherwise; it never
-- finds the context empty.
pub gate :
    (ctx inner outer : Context) (r : Request) (payload : Option String)
    → is_exempt r.path ≡ false
    → dispatch ctx r ≡ handled inner outer
    → enforce_tenant_match inner payload ≡ (
        if is_empty (strip (text_of payload))
          || strip (text_of payload) == strip (text_of r.tenant_header)
        then tenant (strip (text_of r.tenant_header))
        else raised tenant_mismatch)
unfolding enforce_tenant_match require_tenant_from_context
gate ctx inner outer r payload open_path h =
    let (fits, in_eq, out_eq) = (dispatch_iff ctx inner outer r open_path).0 h in
    let t = strip (text_of r.tenant_header) in
    rw in_eq (
      ground (
        arith,
        strip_idem (text_of r.tenant_header),
        tenant_id_not_empty t fits,
        eq_iff (strip (text_of payload)) t,
      ))

-- Under a tenant context the guard of the routes and the guard of the queries agree on every
-- payload.
pub guards_agree :
    (ctx : Context) (payload : Option String)
    → is_empty (strip (text_of ctx.tenant_id)) ≡ false
    → query_tenant ctx payload ≡ enforce_tenant_match ctx payload
unfolding query_tenant enforce_tenant_match require_tenant_from_context
guards_agree ctx payload h = ground (
  arith,
  eq_iff (strip (text_of payload)) (strip (text_of ctx.tenant_id)),
  eq_iff (strip (text_of ctx.tenant_id)) (strip (text_of payload)),
)

-- Without one, the routes' guard raises for every payload, while the queries' guard takes the tenant
-- that the payload names.
pub guards_differ :
    (ctx : Context) (payload : Option String)
    → is_empty (strip (text_of ctx.tenant_id)) ≡ true
    → (enforce_tenant_match ctx payload ≡ raised tenant_header_required)
      × (query_tenant ctx payload ≡ tenant (strip (text_of payload)))
unfolding query_tenant enforce_tenant_match require_tenant_from_context
guards_differ ctx payload h =
    let own = strip (text_of ctx.tenant_id) in
    let req = strip (text_of payload) in
    (ground arith, ground (arith, empty_text own, empty_text req))
