-- ===== src/Interface/Jwt.antt =====
-- The token service of apps/bzy-interface/internal/auth/jwt.go. The JWT library, the clock and the fresh
-- identifiers are parameters.
pub mod Laws
use bzy_personal.Prelude.{ℕ, ◌+◌, ◌*◌, ◌/◌, ◌<◌, ◌≡◌, ◌≢◌, String, List, []}
use bzy_personal.Errors.{Error, wrap, Result, ok, err}
use bzy_personal.Runtime.{Env}
use bzy_personal.Interface.Middleware.{Claims}

-- `jwt.RegisteredClaims`, the fields that are set. Times are nanoseconds.
pub record Registered : Type 0 where
  pub subject : String
  pub issued_at : ℕ
  pub expires_at : ℕ
  pub id : String
  pub issuer : String

-- The payload: the platform's claims, and those that are embedded.
pub record Payload : Type 0 where
  pub claims : Claims
  pub registered : Registered

pub record TokenPair : Type 0 where
  pub access_token : String
  pub refresh_token : String
  pub expires_at : ℕ

pub record JwtService : Type 0 where
  pub secret : String
  pub access_expiry : ℕ
  pub refresh_expiry : ℕ

unfoldable pub new_jwt_service : String → ℕ → ℕ → JwtService
new_jwt_service secret access refresh = record {
  secret = secret;
  access_expiry = access;
  refresh_expiry = refresh;
}

-- The library: `SignedString` with HS256 and a secret, and `ParseWithClaims` with a secret at a time, which
-- also refuses the other signing methods and tokens that are not valid.
pub record Library : Type 0 where
  pub sign : String → Payload → Result String
  pub parse : String → ℕ → String → Result Payload

-- The claims of the access token.
unfoldable pub access_claims : JwtService → ℕ → String → String → String → List String → Payload
access_claims s now id user email roles = record {
  claims = record { user_id = user; email = email; roles = roles };
  registered = record {
    subject = user;
    issued_at = now;
    expires_at = now + s.access_expiry;
    id = id;
    issuer = "bzy-interface";
  };
}

-- The claims of the refresh token.
unfoldable pub refresh_claims : JwtService → ℕ → String → String → Payload
refresh_claims s now id user = record {
  claims = record { user_id = user; email = ""; roles = [] };
  registered = record {
    subject = user;
    issued_at = now;
    expires_at = now + s.refresh_expiry;
    id = id;
    issuer = "bzy-interface";
  };
}

both_signed : String → ℕ → Result String → Result TokenPair
both_signed access expires (err e) = err (wrap "sign refresh token: " e)
both_signed access expires (ok refresh) =
    ok (record { access_token = access; refresh_token = refresh; expires_at = expires })

module _ {W : Type 0} (env : Env W) (lib : Library) (s : JwtService) where
  after_access : ℕ → String → W → Result String → Result TokenPair × W
  unfolding both_signed refresh_claims
  after_access now user w (err e) = (err (wrap "sign access token: " e), w)
  after_access now user w (ok access) =
      let (id, w') = env.fresh w in
      (
        both_signed access (now + s.access_expiry)
            (lib.sign s.secret (refresh_claims s now id user)),
        w',
      )

  -- `Issue`
  unfoldable pub issue : String → String → List String → W → Result TokenPair × W
  unfolding access_claims after_access
  issue user email roles w =
      let (now, w1) = env.now w in
      let (id, w2) = env.fresh w1 in
      after_access now user w2 (lib.sign s.secret (access_claims s now id user email roles))

parsed : Result Payload → Result Claims
parsed (ok p) = ok p.claims
parsed (err e) = err (wrap "invalid token: " e)

-- `Validate`, at a time. The test of the claims' type and of `Valid` after the parse does not fail: the
-- library puts the claims into the value it is given, and returns no error only with a valid token.
unfoldable pub validate : Library → JwtService → ℕ → String → Result Claims
unfolding parsed
validate lib s now token = parsed (lib.parse s.secret now token)

-- What the library documents: a token that was signed with a secret is not empty, and is read back with the
-- same secret until it expires, with the claims it was signed for. Times are cut to seconds.
pub record Faithful (lib : Library) : Type 0 where
  pub not_empty : (secret : String) (p : Payload) (t : String) → lib.sign secret p ≡ ok t → t ≢ ""
  pub reads_back :
      (secret : String) (p : Payload) (t : String) (now : ℕ)
      → lib.sign secret p ≡ ok t
      → now < p.registered.expires_at / 1000000000 * 1000000000
      → (q : Payload) × (lib.parse secret now t ≡ ok q) × (q.claims ≡ p.claims)
