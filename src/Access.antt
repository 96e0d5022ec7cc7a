-- ===== src/Access.antt =====
-- Who reaches which operation: the routes of backend/internal/router and backend/cmd/server/main.go,
-- with RequireAnyPermission of backend/internal/middleware/rbac.go, and the parameters that the
-- handlers read with ParseUintParam and Pagination of backend/internal/util/http.go.
use cert_rollover_impact_ass.Prelude.{
  ℕ, ◌≡◌, Bool, true, false, not, ◌||◌, Option, none, some, List, [], ◌∷◌, ◌++◌, String, ◌==◌, ltb,
  if◌then◌else◌,
}
use cert_rollover_impact_ass.Constants.{
  Role, Permission, read, anchor_write, chain_write, dependency_write, scenario_write, scenario_run,
  scenario_verify, audit_read, has_permission,
}
use cert_rollover_impact_ass.Service.{Actor, forbidden, unauthorized, validation, Attempt, ok, err}
pub mod Login
pub mod Guarded

pub data Method : Type 0 where
  http_get http_post http_put : Method

-- the handlers
pub data Operation : Type 0 where
  anchor_list anchor_import anchor_get anchor_lifecycle : Operation
  chain_list chain_import chain_get chain_transition chain_compare : Operation
  service_list service_create service_get service_update service_deactivate : Operation
  scenario_list scenario_create scenario_get scenario_simulate scenario_transition scenario_replay
        scenario_compare :
      Operation
  audit_list enum_list : Operation

-- a route behind the authentication; any one of its permissions is enough
pub record Route : Type 0 where
  pub method : Method
  pub path : String
  pub permissions : List Permission
  pub operation : Operation

abbrev pub route : Method → String → List Permission → Operation → Route
route method path permissions operation = record {
  method = method;
  path = path;
  permissions = permissions;
  operation = operation;
}

abbrev pub anchor_routes : List Route
anchor_routes =
    route http_get "/trust-anchors" (read ∷ []) anchor_list
    ∷ route http_post "/trust-anchors" (anchor_write ∷ []) anchor_import
    ∷ route http_get "/trust-anchors/:id" (read ∷ []) anchor_get
    ∷ route http_post "/trust-anchors/:id/lifecycle" (anchor_write ∷ []) anchor_lifecycle
    ∷ []

abbrev pub chain_routes : List Route
chain_routes =
    route http_get "/certificate-chains" (read ∷ []) chain_list
    ∷ route http_post "/certificate-chains" (chain_write ∷ []) chain_import
    ∷ route http_get "/certificate-chains/:id" (read ∷ []) chain_get
    ∷ route http_post "/certificate-chains/:id/transition" (chain_write ∷ []) chain_transition
    ∷ route http_get "/certificate-chains/:id/compare/:other_id" (read ∷ []) chain_compare
    ∷ []

abbrev pub service_routes : List Route
service_routes =
    route http_get "/dependent-services" (read ∷ []) service_list
    ∷ route http_post "/dependent-services" (dependency_write ∷ []) service_create
    ∷ route http_get "/dependent-services/:id" (read ∷ []) service_get
    ∷ route http_put "/dependent-services/:id" (dependency_write ∷ []) service_update
    ∷ route http_post "/dependent-services/:id/deactivate" (dependency_write ∷ [])
        service_deactivate
    ∷ []

abbrev pub scenario_routes : List Route
scenario_routes =
    route http_get "/rollover-scenarios" (read ∷ []) scenario_list
    ∷ route http_post "/rollover-scenarios" (scenario_write ∷ []) scenario_create
    ∷ route http_get "/rollover-scenarios/:id" (read ∷ []) scenario_get
    ∷ route http_post "/rollover-scenarios/:id/simulate" (scenario_run ∷ []) scenario_simulate
    ∷ route http_post "/rollover-scenarios/:id/transition" (scenario_write ∷ scenario_verify ∷ [])
        scenario_transition
    ∷ route http_post "/rollover-scenarios/:id/replay" (scenario_run ∷ []) scenario_replay
    ∷ route http_get "/rollover-scenarios/:id/compare/:other_id" (read ∷ []) scenario_compare
    ∷ []

unfoldable pub routes : List Route
routes =
    anchor_routes
    ++ (chain_routes
        ++ (service_routes
            ++ (scenario_routes
                ++ (route http_get "/audit-logs" (audit_read ∷ []) audit_list
                    ∷ route http_get "/meta/enums" (read ∷ []) enum_list
                    ∷ []))))

-- the loop of RequireAnyPermission
unfoldable pub has_any_permission : Role → List Permission → Bool
unfolding has_permission
has_any_permission role [] = false
has_any_permission role (p ∷ ps) =
    let others = has_any_permission role ps in if has_permission role p then true else others

-- RequireAnyPermission before what comes next
unfoldable pub require_any_permission :
    {A : Type 0} → List Permission → Option Actor → (Actor → Attempt A) → Attempt A
unfolding has_any_permission
require_any_permission permissions none next = err unauthorized
require_any_permission permissions (some actor) next =
    if has_any_permission actor.role permissions then next actor else err forbidden

-- ParseUintParam, with what strconv.ParseUint gives
unfoldable pub parse_uint_param : Option ℕ → Attempt ℕ
parse_uint_param none = err validation
parse_uint_param (some n) = if n == 0 then err validation else ok n

-- An int that strconv.Atoi gives, of whatever text: its error is not looked at.
pub data Number : Type 0 where
  from_zero : ℕ → Number
  below_zero : ℕ → Number

-- whether it is less than 1
abbrev pub below_one : Number → Bool
below_one (from_zero n) = ltb n 1
below_one (below_zero n) = true

abbrev pub number_or : ℕ → Number → ℕ
number_or fallback (from_zero n) = n
number_or fallback (below_zero n) = fallback

-- Pagination
unfoldable pub pagination : Number → Number → ℕ × ℕ
pagination page size =
    let size1 = if below_one size then 100 else number_or 100 size in
    (if below_one page then 1 else number_or 1 page, if ltb 200 size1 then 200 else size1)
