-- ===== src/Access/Login.antt =====
-- Signing in and being known: Login and RequireAuth of backend/internal/middleware/auth.go. Tokens
-- and password hashes are made and read by jwt and bcrypt, which are fields of Tokens.
use cert_rollover_impact_ass.Prelude.{
  ℕ, ◌+◌, ◌≡◌, Bool, true, false, not, ◌||◌, Option, none, some, String, concat, List, [], ◌∷◌,
  if◌then◌else◌,
}
use cert_rollover_impact_ass.Simulator.Snapshot.{Instant}
use cert_rollover_impact_ass.Constants.{Role}
use cert_rollover_impact_ass.Service.{
  Actor, validation, unauthorized, internal, Attempt, ok, err, ◌>>=◌, ◌>>◌, guard, some_or, Fetch,
  found_or,
}
pub mod RoundTrip

pub record Claims : Type 0 where
  pub user_id : ℕ
  pub username : String
  pub display_name : String
  pub team : String
  pub role : Role
  pub issuer : String
  pub subject : String
  pub issued_at : Instant
  pub expires_at : Instant

-- what Login reads of a user
pub record User : Type 0 where
  pub id : ℕ
  pub username : String
  pub display_name : String
  pub team : String
  pub role : Role
  pub password_hash : String
  pub active : Bool

-- what the authentication reads of the configuration
pub record AuthConfig : Type 0 where
  pub jwt_secret : String
  pub jwt_issuer : String
  pub jwt_expiry : ℕ

pub record Credentials : Type 0 where
  pub username : String
  pub password : String

pub record Tokens : Type 0 where
  -- the binding of the request
  pub accepts : Credentials → Bool
  -- bcrypt.CompareHashAndPassword returns no error
  pub matches : String → String → Bool
  -- jwt.NewNumericDate
  pub numeric_date : Instant → Instant
  -- SignedString with the secret
  pub sign : String → Claims → Option String
  -- ParseWithClaims with the secret, the issuer and the time
  pub parse : String → String → Instant → String → Option Claims
  pub trim_space : String → String
  pub has_prefix : String → String → Bool
  pub trim_prefix : String → String → String

-- the answer of Login
pub record Session : Type 0 where
  pub access_token : String
  pub expires_at : Instant
  pub user : Actor

abbrev pub actor_of : User → Actor
actor_of u = record {
  user_id = u.id;
  username = u.username;
  display_name = u.display_name;
  team = u.team;
  role = u.role;
}

-- what a client sends back
abbrev pub bearer : String → String
bearer token = concat ("Bearer " ∷ token ∷ [])

module _ (tokens : Tokens) (cfg : AuthConfig) where
  abbrev pub claims_of : User → Instant → Claims
  claims_of u now = record {
    user_id = u.id;
    username = u.username;
    display_name = u.display_name;
    team = u.team;
    role = u.role;
    issuer = cfg.jwt_issuer;
    subject = u.username;
    issued_at = tokens.numeric_date now;
    expires_at = tokens.numeric_date (now + cfg.jwt_expiry);
  }

  abbrev pub session_of : User → Instant → Attempt Session
  session_of u now = do
    token ← some_or (tokens.sign cfg.jwt_secret (claims_of u now)) internal
    ok (record { access_token = token; expires_at = now + cfg.jwt_expiry; user = actor_of u })

  -- Login, with what FindByUsername gives
  unfoldable pub login : Credentials → Fetch User → Instant → Attempt Session
  login credentials fetched now = do
    guard (tokens.accepts credentials) validation
    u ← found_or fetched unauthorized
    guard (not (not u.active || not (tokens.matches u.password_hash credentials.password)))
        unauthorized
    session_of u now

  abbrev pub actor_in : Claims → Actor
  actor_in c = record {
    user_id = c.user_id;
    username = c.username;
    display_name = c.display_name;
    team = c.team;
    role = c.role;
  }

  -- RequireAuth of a request with the header, at a time
  unfoldable pub require_auth : String → Instant → Attempt Actor
  require_auth raw_header now =
      let header = tokens.trim_space raw_header in
      if not (tokens.has_prefix header "Bearer ")
      then err unauthorized
      else let raw = tokens.trim_space (tokens.trim_prefix header "Bearer ") in
        some_or (tokens.parse cfg.jwt_secret cfg.jwt_issuer now raw) unauthorized >>= λ c.
        ok (actor_in c)
