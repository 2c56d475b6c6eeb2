-- ===== src/Client/Http/Account/Admitted.antt =====
-- A client that has logged in, at the gateway: pkg/client/auth.go and client.go with the handlers of
-- apps/bzy-interface/internal/httpserver and the middleware.
use bzy_personal.Prelude.{◌≡◌, ◌≢◌, refl, ◌∙◌, ℕ, ◌<◌, String, List, Option, none, some, str_eq_ne}
use bzy_personal.Prelude.Ints.{pos}
use bzy_personal.Prelude.Map.{Map, lookup, lookup-insert_self}
use bzy_personal.Prelude.Texts.{◌<>◌}
use bzy_personal.Errors.{Result, ok}
use bzy_personal.Runtime.{Env}
use bzy_personal.Interface.Middleware.{Claims, ApiKeys, admitted, require_auth}
use bzy_personal.Interface.Middleware.Auth.{require_auth-bearer}
use bzy_personal.Interface.Jwt.{Library, Faithful, JwtService, validate, issue}
use bzy_personal.Interface.Jwt
use bzy_personal.Interface.Jwt.Laws.{seconds, issue-Issued, validate-access}
use bzy_personal.Interface.Login.{
  Reply, refusal, tokens, Row, row, Column, scan, handle_login, handle_refresh,
}
use bzy_personal.Interface.Login
use bzy_personal.Interface.Login.Answers.{handle_login-found}
use bzy_personal.Client.Retry.{Waits}
use bzy_personal.Client.Http.{Client, Net, Request, Response, set_auth, set_token}
use bzy_personal.Client.Http.Answered.{request_once-answered, request-first}
use bzy_personal.Client.Http.Account.{Codec, TokenPair, no_pair, keep_pair, login, after_request}

-- `Header.Get`
unfoldable pub header : String → Request → String
header key req = elim (lookup key req.headers) [ none ↦ "" | some v ↦ v ]

authorization_header :
    (c : Client) (req : Request)
    → c.cfg.api_key ≡ ""
    → c.access_token ≢ ""
    → header "Authorization" (set_auth c req) ≡ "Bearer " <> c.access_token
unfolding header set_auth
authorization_header c req no_key some_token =
    rw (no_key, str_eq_ne c.access_token "" some_token)
      (rw (lookup-insert_self "Authorization" ("Bearer " <> c.access_token) req.headers, header)
        refl)

-- A token that validates, in a request of a client with no API key.
pub set_auth-admitted :
    (valid : String → Result Claims) (keys : ApiKeys) (c : Client) (req : Request) (claims : Claims)
    → c.cfg.api_key ≡ ""
    → c.access_token ≢ ""
    → valid c.access_token ≡ ok claims
    → require_auth valid keys
        (header "Authorization" (set_auth c req))
        (header "X-Api-Key" (set_auth c req))
      ≡ admitted (some claims) claims.user_id
set_auth-admitted valid keys c req claims no_key some_token h =
    rw (authorization_header c req no_key some_token) (
      require_auth-bearer valid keys c.access_token (header "X-Api-Key" (set_auth c req)) claims
        some_token h)

-- The answer of a handler as the transport gives it back: `c.JSON`, and `gin.Recovery` for a panic.
unfoldable pub respond : (Jwt.TokenPair → String) → (String → String → String) → Reply → Response
respond encode_pair encode_error (tokens pair) = record { status = 200; body = encode_pair pair }
respond encode_pair encode_error (refusal status code message) = record {
  status = status;
  body = encode_error code message;
}

unfoldable pub answered :
    {W : Type 0}
    → (Jwt.TokenPair → String)
    → (String → String → String)
    → W
    → Option (Reply × W)
    → Result Response × W
unfolding respond
answered encode_pair encode_error w none = (ok (record { status = 500; body = "" }), w)
answered encode_pair encode_error w (some (r, w')) = (ok (respond encode_pair encode_error r), w')

-- The pair that the client reads from the server's.
abbrev pub read_pair : Jwt.TokenPair → TokenPair
read_pair p = record {
  access_token = p.access_token;
  refresh_token = p.refresh_token;
  expires_at = p.expires_at;
}

abbrev pub body_text : Option String → String
body_text none = ""
body_text (some s) = s

-- The gateway that a client with no API key logs in at: its database, its tokens, and the codecs between the
-- two. Each law is about one request.
pub record Setting {W : Type 0} (env : Env W) (lib : Library) (s : JwtService) (net : Net W)
    (codec : Codec) (c : Client) (email password : String) : Type 0 where
  pub query : String → String → W → Row × W
  pub bind : String → Result Login.LoginRequest
  pub encode_pair : Jwt.TokenPair → String
  pub encode_error : String → String → String
  pub url : String
  pub body : String
  pub no_key : c.cfg.api_key ≡ ""
  pub tries : ℕ
  pub sends_once : c.cfg.max_retries ≡ pos tries
  pub joins : net.join_path c.cfg.base_url "/api/v1/auth/login" ≡ ok url
  pub builds : net.bad_request "POST" url ≡ none
  pub marshals : codec.marshal_login (record { email = email; password = password }) ≡ ok body
  pub binds : bind body ≡ ok (record { email = email; password = password })
  pub serves :
      (req : Request) (w : W)
      → req.method ≡ "POST"
      → req.url ≡ url
      → net.send req w
        ≡ answered encode_pair encode_error w
            (handle_login env lib s query (bind (body_text req.body)) w)

module _ {W : Type 0} (env : Env W) (lib : Library) (s : JwtService) (net : Net W) (codec : Codec)
    (int63n : ℕ → ℕ) (waits : Waits W) where
  login-answered :
      (c : Client) (email password : String)
      → (at : Setting env lib s net codec c email password) → (pair : Jwt.TokenPair) (w w2 : W)
      → handle_login env lib s at.query (ok (record { email = email; password = password })) w
        ≡ some (tokens pair, w2)
      → codec.decode_pair (at.encode_pair pair) no_pair ≡ (ok tt, read_pair pair)
      → login net codec int63n waits email password c w
        ≡ some (ok (read_pair pair), keep_pair (read_pair pair) c, w2)
  unfolding login after_request answered respond
  login-answered c email password at pair w w2 found decodes =
      let reply : Response = record { status = 200; body = at.encode_pair pair } in
      let sends : (headers : Map String)
          → net.send
              (record { method = "POST"; url = at.url; body = some at.body; headers = headers }) w
            ≡ (ok reply, w2) =
        λ headers.
          at.serves
            (record { method = "POST"; url = at.url; body = some at.body; headers = headers }) w
            refl refl
          ∙ rw at.binds (rw found refl) in
      rw at.marshals (
        rw
          (
            request-first net int63n waits c "POST" "/api/v1/auth/login" (some (ok at.body))
                (some codec.decode_pair) no_pair (read_pair pair) w w2 (at.tries, at.sends_once)
                (request_once-answered net c "POST" "/api/v1/auth/login" at.url at.body
                  codec.decode_pair no_pair (read_pair pair) reply w w2 at.joins at.builds sends
                  refl refl decodes),
            after_request,
          )
          refl)

  -- A client with no API key and no negative number of retries logs in with what a row of the users has: `Login` succeeds, and from then on,
  -- until the access token expires, every request of the client passes `RequireAuth` as the user of the row,
  -- with the address and the roles of the row. The tokens are issued, the transport reaches the gateway, the
  -- client reads the pair that was written, and the JWT library does what it documents.
  pub login-admitted :
      (faithful : Faithful lib) (c : Client) (email password : String)
      (at : Setting env lib s net codec c email password) (user address : String) (column : Column)
      (roles : List String) (pair : Jwt.TokenPair) (w w1 w2 : W)
      → at.query email password w ≡ (row user address column, w1)
      → scan column ≡ some (ok roles)
      → issue env lib s user address roles w1 ≡ (ok pair, w2)
      → codec.decode_pair (at.encode_pair pair) no_pair ≡ (ok tt, read_pair pair)
      → (c' : Client) × (login net codec int63n waits email password c w
          ≡ some (ok (read_pair pair), c', w2))
        × ((keys : ApiKeys) (req : Request) (later : ℕ)
            → later < seconds pair.expires_at
            → require_auth
                (validate lib s later)
                keys
                (header "Authorization" (set_auth c' req))
                (header "X-Api-Key" (set_auth c' req))
              ≡ admitted (some (record { user_id = user; email = address; roles = roles })) user)
  unfolding keep_pair set_token
  login-admitted faithful c email password at user address column roles pair w w1 w2 found scans
        issues decodes =
      let issued = issue-Issued env lib s user address roles w1 w2 pair issues in
      (
        keep_pair (read_pair pair) c,
        login-answered c email password at pair w w2
            (handle_login-found env lib s at.query email password user address column roles pair w
              w1 w2 found scans issues)
            decodes,
        λ keys req later h.
            set_auth-admitted (validate lib s later) keys (keep_pair (read_pair pair) c) req
              (record { user_id = user; email = address; roles = roles }) at.no_key
              (faithful.not_empty s.secret _ pair.access_token issued.access_signed)
              (validate-access lib s faithful (env.now w1).0 later user address roles pair issued
                h),
      )
