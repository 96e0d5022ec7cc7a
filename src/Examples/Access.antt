-- ===== src/Examples/Access.antt =====
-- The theorems about access at concrete requests.
use cert_rollover_impact_ass.Prelude.{
  ◌+◌, ◌*◌, ◌≡◌, ◌≤◌, refl, sym, true, false, Option, some, none, String, str_eq, Memᴰ, ℕ, [], ◌∷◌,
  if◌then◌else◌, arith,
}
use native.Mathlib.Decide.{ℕ_discrete}
use cert_rollover_impact_ass.Simulator.Snapshot.{Instant}
use cert_rollover_impact_ass.Constants.{
  security_reviewer, scenario_write, scenario_verify, has_permission,
}
use cert_rollover_impact_ass.Service.{Actor, Attempt, ok, Fetch, found}
use cert_rollover_impact_ass.Access.{
  http_post, scenario_transition, Route, route, routes, has_any_permission, require_any_permission,
}
use cert_rollover_impact_ass.Access.Guarded.{area, is_in_area, is_get, changes_guarded}
use cert_rollover_impact_ass.Access.Login.{
  Claims, User, AuthConfig, Credentials, Tokens, Session, actor_of, bearer, login, require_auth,
}
use cert_rollover_impact_ass.Access.Login.RoundTrip.{IsJwt, second, login_round_trip}
use cert_rollover_impact_ass.Examples.Memory.{String-discrete}
use cert_rollover_impact_ass.Examples.Sample.{start, hour}

abbrev user : User
user = record {
  id = 9;
  username = "reviewer";
  display_name = "Reviewer";
  team = "security";
  role = security_reviewer;
  password_hash = "hash";
  active = true;
}

abbrev cfg : AuthConfig
cfg = record { jwt_secret = "secret"; jwt_issuer = "pki"; jwt_expiry = 8 * hour }

abbrev claims : Claims
claims = record {
  user_id = 9;
  username = "reviewer";
  display_name = "Reviewer";
  team = "security";
  role = security_reviewer;
  issuer = "pki";
  subject = "reviewer";
  issued_at = start;
  expires_at = start + 8 * hour;
}

Claims-discrete : Discrete Claims
Claims-discrete = hlevel (ℕ_discrete, String-discrete)

-- the token of the sample claims, and of no others
sign_sample : Claims → Option String
sign_sample c = elim (Claims-discrete c claims) [ yes _ ↦ some "token" | no _ ↦ none ]

unfoldable tokens : Tokens
unfolding sign_sample
tokens = record {
  accepts = λ credentials. true;
  matches = λ hash password. str_eq hash password;
  numeric_date = λ t. t;
  sign = λ secret c. sign_sample c;
  parse = λ secret issuer now raw. if str_eq raw "token" then some claims else none;
  trim_space = λ s. s;
  has_prefix = λ s p. true;
  trim_prefix = λ s p. "token";
}

-- what has been signed
signed_sample :
    (c : Claims) (token : String) → sign_sample c ≡ some token → (c ≡ claims) × (token ≡ "token")
unfolding sign_sample
signed_sample c token h = go (Claims-discrete c claims) h
  where
    go :
        (d : Dec (c ≡ claims))
        → let o : Option String = elim d [ yes _ ↦ some "token" | no _ ↦ none ] in
          o ≡ some token → (c ≡ claims) × (token ≡ "token")
    go (yes e) h = (e, cc)
    go (no _) h = cc

signs_sample : sign_sample claims ≡ some "token"
unfolding sign_sample
signs_sample = go (Claims-discrete claims claims)
  where
    go :
        (d : Dec (claims ≡ claims))
        → let o : Option String = elim d [ yes _ ↦ some "token" | no _ ↦ none ] in o ≡ some "token"
    go (yes e) = refl
    go (no n) = absurd (n refl)

tokens-IsJwt : IsJwt tokens
unfolding tokens
tokens-IsJwt = record {
  dated = λ t. omega arith;
  dated_once = λ t. refl;
  read_back = λ secret token c now h _ _ _. let (e, t) = signed_sample c token h in rw (t, e) refl;
  no_space = λ secret token c h. let (_, t) = signed_sample c token h in (refl, refl, sym t);
}

abbrev credentials : Credentials
credentials = record { username = "reviewer"; password = "hash" }

abbrev session : Session
session = record { access_token = "token"; expires_at = start + 8 * hour; user = actor_of user }

signs_in : login tokens cfg credentials (found user) start ≡ ok session
unfolding login tokens
signs_in = simp signs_sample

login_round_trip_example :
    ((u : User) × (◌≡◌ {A = Fetch User} (found user) (found u))
      × (u.active ≡ true)
      × (tokens.matches u.password_hash "hash" ≡ true)
      × (session.user ≡ actor_of u))
    × ((later : Instant)
        → later + second ≤ start + 8 * hour
        → require_auth tokens cfg (bearer "token") later ≡ ok (actor_of user))
login_round_trip_example =
    login_round_trip tokens cfg tokens-IsJwt credentials (found user) start session signs_in

-- the transition of a scenario, by the reviewer
abbrev transition_route : Route
transition_route =
    route http_post "/rollover-scenarios/:id/transition" (scenario_write ∷ scenario_verify ∷ [])
      scenario_transition

listed : Memᴰ transition_route routes
unfolding routes
listed = Memᴰ.tail (
    Memᴰ.tail (
      Memᴰ.tail (
        Memᴰ.tail (
          Memᴰ.tail (
            Memᴰ.tail (
              Memᴰ.tail (
                Memᴰ.tail (
                  Memᴰ.tail (
                    Memᴰ.tail (
                      Memᴰ.tail (
                        Memᴰ.tail (
                          Memᴰ.tail (
                            Memᴰ.tail (
                              Memᴰ.tail
                                (Memᴰ.tail (Memᴰ.tail (Memᴰ.tail (Memᴰ.head refl))))))))))))))))))

reached :
    require_any_permission transition_route.permissions (some (actor_of user)) (λ a. ok a.user_id)
    ≡ ok 9
unfolding require_any_permission has_any_permission has_permission
reached = refl

changes_guarded_example :
    (a : Actor) × (some (actor_of user) ≡ some a)
    × (◌≡◌ {A = Attempt ℕ} (ok a.user_id) (ok 9))
    × (is_get transition_route.method ≡ false)
    × (is_in_area a.role (area transition_route.operation) ≡ true)
changes_guarded_example =
    changes_guarded transition_route (some (actor_of user)) (λ a. ok a.user_id) 9 listed refl
      reached
