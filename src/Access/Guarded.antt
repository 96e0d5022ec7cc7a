-- ===== src/Access/Guarded.antt =====
-- What the routes let through.
use cert_rollover_impact_ass.Prelude.{
  ℕ, ◌≡◌, ◌≤◌, refl, Bool, true, false, ◌||◌, List, [], ◌∷◌, Memᴰ, All, mem_of_All, arith, Option,
  none, some, sym, ◌∙◌, if◌then◌else◌,
}
use cert_rollover_impact_ass.Constants.{
  Role, admin, pki_operator, service_owner, security_reviewer, auditor, unknown, Permission,
  has_permission,
}
use cert_rollover_impact_ass.Service.{Actor, forbidden, Attempt, ok, err}
use cert_rollover_impact_ass.Access.{
  Method, http_get, Operation, anchor_import, anchor_lifecycle, chain_import, chain_transition,
  service_create, service_update, service_deactivate, scenario_create, scenario_simulate,
  scenario_transition, scenario_replay, Route, routes, has_any_permission, require_any_permission,
  Number, from_zero, pagination,
}

-- whose operation changes the tables
abbrev pub area : Operation → List Role
area anchor_import = admin ∷ pki_operator ∷ []
area anchor_lifecycle = admin ∷ pki_operator ∷ []
area chain_import = admin ∷ pki_operator ∷ []
area chain_transition = admin ∷ pki_operator ∷ []
area service_create = admin ∷ pki_operator ∷ service_owner ∷ []
area service_update = admin ∷ pki_operator ∷ service_owner ∷ []
area service_deactivate = admin ∷ pki_operator ∷ service_owner ∷ []
area scenario_create = admin ∷ pki_operator ∷ service_owner ∷ []
area scenario_simulate = admin ∷ pki_operator ∷ service_owner ∷ []
area scenario_replay = admin ∷ pki_operator ∷ service_owner ∷ []
area scenario_transition = admin ∷ pki_operator ∷ service_owner ∷ security_reviewer ∷ []
area _ = []

abbrev pub changes : Operation → Bool
changes operation = elim (area operation) [ [] ↦ false | role ∷ roles ↦ true ]

abbrev same_role : Role → Role → Bool
same_role admin admin = true
same_role pki_operator pki_operator = true
same_role service_owner service_owner = true
same_role security_reviewer security_reviewer = true
same_role auditor auditor = true
same_role unknown unknown = true
same_role _ _ = false

abbrev pub is_in_area : Role → List Role → Bool
is_in_area role [] = false
is_in_area role (r ∷ roles) = same_role role r || is_in_area role roles

abbrev pub is_get : Method → Bool
is_get http_get = true
is_get _ = false

-- A route that changes the tables is no GET and lets in exactly the roles of its area.
abbrev pub IsGuardedFor : Role → Route → Type 0
IsGuardedFor role r =
    changes r.operation ≡ true
    → (is_get r.method ≡ false)
      × (has_any_permission role r.permissions ≡ is_in_area role (area r.operation))

routes_guarded : (role : Role) → All (IsGuardedFor role) routes
unfolding routes has_any_permission has_permission
routes_guarded admin = ground arith
routes_guarded pki_operator = ground arith
routes_guarded service_owner = ground arith
routes_guarded security_reviewer = ground arith
routes_guarded auditor = ground arith
routes_guarded unknown = ground arith

require_any_permission_lem :
    {A : Type 0} (permissions : List Permission) (caller : Option Actor) (next : Actor → Attempt A)
    (x : A)
    → require_any_permission permissions caller next ≡ ok x
    → (a : Actor) × (caller ≡ some a)
      × (has_any_permission a.role permissions ≡ true)
      × (next a ≡ ok x)
unfolding require_any_permission
require_any_permission_lem permissions none next x h = cc
require_any_permission_lem {A} permissions (some a) next x h =
    go (has_any_permission a.role permissions) refl h
  where
    go :
        (b : Bool)
        → has_any_permission a.role permissions ≡ b
        → (if b then next a else err forbidden) ≡ ok x
        → (a' : Actor) × (some a ≡ some a')
          × (has_any_permission a'.role permissions ≡ true)
          × (next a' ≡ ok x)
    go true e h = (a, refl, e, h)
    go false e h = cc

-- A request that is answered on a route whose operation changes the tables is no GET and comes from
-- a caller who is signed in, with a role of the operation's area: administrators and PKI operators
-- for every operation, service owners for those on services and scenarios, security reviewers for
-- the transition of a scenario, and nobody else.
pub changes_guarded :
    {A : Type 0} (r : Route) (caller : Option Actor) (next : Actor → Attempt A) (x : A)
    → Memᴰ r routes
    → changes r.operation ≡ true
    → require_any_permission r.permissions caller next ≡ ok x
    → (a : Actor) × (caller ≡ some a)
      × (next a ≡ ok x)
      × (is_get r.method ≡ false)
      × (is_in_area a.role (area r.operation) ≡ true)
changes_guarded r caller next x m c h =
    let (a, known, allowed, answered) = require_any_permission_lem r.permissions caller next x h in
    let (no_get, exactly) = mem_of_All (IsGuardedFor a.role) routes (routes_guarded a.role) r m c in
    (a, known, answered, no_get, sym exactly ∙ allowed)

-- Whatever a request asks for, the page is at least 1 and its size is from 1 to 200, so that no
-- query is unbounded; a page and a size within these bounds are taken as they are.
pub pagination_bounds :
    (page size : Number)
    → let (p, s) = pagination page size in
      (1 ≤ p)
      × (1 ≤ s)
      × (s ≤ 200)
      × ((n m : ℕ)
          → page ≡ from_zero n
          → size ≡ from_zero m
          → 1 ≤ n
          → 1 ≤ m
          → m ≤ 200
          → (p ≡ n) × (s ≡ m))
unfolding pagination
pagination_bounds page size =
    (ground arith, ground arith, ground arith, λ n m e f a b c. ground arith)
