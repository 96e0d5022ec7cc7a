-- ===== src/Access/Login/RoundTrip.antt =====
-- Who signs in is known by the token.
use cert_rollover_impact_ass.Prelude.{
  ℕ, ◌+◌, ◌≡◌, ◌≤◌, ◌<◌, refl, true, not, ◌||◌, some, String, arith, ap, sym, ◌∙◌, subst,
}
use cert_rollover_impact_ass.Simulator.Snapshot.{Instant}
use cert_rollover_impact_ass.Service.{
  validation, unauthorized, internal, ok, guard, some_or, Fetch, found, no_record, broken, found_or,
  ServiceError,
}
use cert_rollover_impact_ass.Service.Laws.{>>=-inv, guard_lem, some_or_lem}
use cert_rollover_impact_ass.Access.Login.{
  Claims, User, AuthConfig, Credentials, Tokens, Session, actor_of, claims_of, session_of, login,
  actor_in, require_auth, bearer,
}

abbrev pub second : ℕ
second = 1_000_000_000

-- The documented behaviour of the libraries: dates are cut to the second, what was signed with a
-- secret is read back with it until it expires, and a token has no space in it.
pub record IsJwt (tokens : Tokens) : Type 0 where
  pub dated : (t : Instant) → t < tokens.numeric_date t + second
  pub dated_once :
      (t : Instant) → tokens.numeric_date (tokens.numeric_date t) ≡ tokens.numeric_date t
  pub read_back :
      (secret token : String) (c : Claims) (now : Instant)
      → tokens.sign secret c ≡ some token
      → tokens.numeric_date c.issued_at ≡ c.issued_at
      → tokens.numeric_date c.expires_at ≡ c.expires_at
      → now < c.expires_at
      → tokens.parse secret c.issuer now token ≡ some c
  pub no_space :
      (secret token : String) (c : Claims)
      → tokens.sign secret c ≡ some token
      → (tokens.trim_space (bearer token) ≡ bearer token)
        × (tokens.has_prefix (bearer token) "Bearer " ≡ true)
        × (tokens.trim_space (tokens.trim_prefix (bearer token) "Bearer ") ≡ token)

module _ (tokens : Tokens) (cfg : AuthConfig) where
  -- what a sign-in that succeeded is made of
  record SignedIn (credentials : Credentials) (fetched : Fetch User) (now : Instant)
      (session : Session) : Type 0 where
    user : User
    is_found : fetched ≡ found user
    admitted :
        not (not user.active || not (tokens.matches user.password_hash credentials.password)) ≡ true
    signed : tokens.sign cfg.jwt_secret (claims_of tokens cfg user now) ≡ some session.access_token
    known_as : session.user ≡ actor_of user

  found_or_lem : (f : Fetch User) (e : ServiceError) (u : User) → found_or f e ≡ ok u → f ≡ found u
  found_or_lem (found x) e u h = cc
  found_or_lem no_record e u h = cc
  found_or_lem broken e u h = cc

  login_lem :
      (credentials : Credentials) (fetched : Fetch User) (now : Instant) (session : Session)
      → login tokens cfg credentials fetched now ≡ ok session
      → SignedIn credentials fetched now session
  unfolding login
  login_lem credentials fetched now session h =
      let (_, _, h1) = >>=-inv (guard (tokens.accepts credentials) validation) _ session h in
      let (u, f, h2) = >>=-inv (found_or fetched unauthorized) _ session h1 in
      let (v, g, h3) =
        >>=-inv
          (guard (not (not u.active || not (tokens.matches u.password_hash credentials.password)))
            unauthorized)
          (λ _. session_of tokens cfg u now) session h2 in
      let (token, t, h4) =
        >>=-inv (some_or (tokens.sign cfg.jwt_secret (claims_of tokens cfg u now)) internal)
          (λ token. ok (made u token)) session h3 in
      let same : made u token ≡ session = cc in
      subst (SignedIn credentials fetched now) same (record {
        user = u;
        is_found = found_or_lem fetched unauthorized u f;
        admitted = guard_lem _ unauthorized v g;
        signed = some_or_lem _ internal token t;
        known_as = refl;
      })
    where
      made : User → String → Session
      made u token = record {
        access_token = token;
        expires_at = now + cfg.jwt_expiry;
        user = actor_of u;
      }

  require_auth_ok :
      (header : String) (now : Instant) (token : String) (c : Claims)
      → tokens.trim_space header ≡ header
      → tokens.has_prefix header "Bearer " ≡ true
      → tokens.trim_space (tokens.trim_prefix header "Bearer ") ≡ token
      → tokens.parse cfg.jwt_secret cfg.jwt_issuer now token ≡ some c
      → require_auth tokens cfg header now ≡ ok (actor_in tokens cfg c)
  unfolding require_auth
  require_auth_ok header now token c t p r q = rw (t, p, r, q) refl

  -- A sign-in that succeeds is one of a user who is found, active and whose password matches, and for
  -- as long as the session lasts, up to a second before its end, a request with the session's token
  -- is known as the user's, with the user's id, team and role.
  pub login_round_trip :
      (jwt : IsJwt tokens) (credentials : Credentials) (fetched : Fetch User) (now : Instant)
      (session : Session)
      → login tokens cfg credentials fetched now ≡ ok session
      → ((u : User) × (fetched ≡ found u)
          × (u.active ≡ true)
          × (tokens.matches u.password_hash credentials.password ≡ true)
          × (session.user ≡ actor_of u))
        × ((later : Instant)
            → later + second ≤ now + cfg.jwt_expiry
            → require_auth tokens cfg (bearer session.access_token) later ≡ ok session.user)
  login_round_trip jwt credentials fetched now session h =
      let s = login_lem credentials fetched now session h in
      let admitted = s.admitted in
      (
        (s.user, s.is_found, ground arith, ground arith, s.known_as),
        λ later in_time.
            let c = claims_of tokens cfg s.user now in
            let (t, p, r) = jwt.no_space cfg.jwt_secret session.access_token c s.signed in
            let ends = jwt.dated (now + cfg.jwt_expiry) in
            let parsed =
              jwt.read_back cfg.jwt_secret session.access_token c later s.signed
                (jwt.dated_once now) (jwt.dated_once (now + cfg.jwt_expiry)) (omega arith) in
            require_auth_ok (bearer session.access_token) later session.access_token c t p r parsed
            ∙ ap ok (sym s.known_as),
      )
