-- ===== src/Client/Http.antt =====
-- pkg/client/client.go and options.go: the client's state and what a request carries. The URL library, the
-- transport and the codecs of bodies are parameters.
pub mod Account
pub mod Answered
pub mod Recorded
use bzy_personal.Prelude.{
  ℕ, Bool, true, false, not, String, List, [], ◌∷◌, Option, none, some, ◌==◌, leb, ◌||◌, str_eq,
  if◌then◌else◌,
}
use bzy_personal.Prelude.Ints.{ℤ, pos}
use bzy_personal.Prelude.Map.{Map, lookup, insert}
use bzy_personal.Prelude.Texts.{◌<>◌}
use bzy_personal.Errors.{Error, api, wrap, Result, ok, err}
use bzy_personal.Client.Retry.{Waits, do_retry}

-- Durations are nanoseconds. The `*http.Client` is the transport, a parameter.
pub record Config : Type 0 where
  pub base_url : String
  pub api_key : String
  pub timeout : ℕ
  pub max_retries : ℤ
  pub retry_wait : ℕ
  pub user_agent : String

unfoldable pub default_config : String → Config
default_config base_url = record {
  base_url = base_url;
  api_key = "";
  timeout = 30000000000;
  max_retries = pos 3;
  retry_wait = 500000000;
  user_agent = "bzy-client/1.0";
}

unfoldable pub with_api_key : String → Config → Config
with_api_key key c = record c { api_key = key }

unfoldable pub with_timeout : ℕ → Config → Config
with_timeout d c = record c { timeout = d }

unfoldable pub with_max_retries : ℤ → Config → Config
with_max_retries n c = record c { max_retries = n }

unfoldable pub with_user_agent : String → Config → Config
with_user_agent ua c = record c { user_agent = ua }

-- The sub-clients hold the client and nothing else.
pub record Client : Type 0 where
  pub cfg : Config
  pub access_token : String
  pub refresh_token : String
  pub token_expiry : ℕ

apply_all : List (Config → Config) → Config → Config
apply_all [] cfg = cfg
apply_all (o ∷ opts) cfg = apply_all opts (o cfg)

-- `New`
unfoldable pub new_client : String → List (Config → Config) → Client
unfolding apply_all
new_client base_url opts = record {
  cfg = apply_all opts (default_config base_url);
  access_token = "";
  refresh_token = "";
  token_expiry = 0;
}

unfoldable pub set_token : String → String → ℕ → Client → Client
set_token access refresh expiry c = record c {
  access_token = access;
  refresh_token = refresh;
  token_expiry = expiry;
}

unfoldable pub token : Client → String
token c = c.access_token

pub record Request : Type 0 where
  pub method : String
  pub url : String
  pub body : Option String
  pub headers : Map String

pub record Response : Type 0 where
  pub status : ℕ
  pub body : String

-- A response whose body is read as it comes, and the error that ends it where that is not the end of the file.
pub record Stream : Type 0 where
  pub status : ℕ
  pub body : String
  pub ending : Option Error

-- `setAuth`: an API key goes before a token.
unfoldable pub set_auth : Client → Request → Request
set_auth c req =
    if not (str_eq c.cfg.api_key "")
    then record req { headers = insert "X-Api-Key" c.cfg.api_key req.headers }
    else if not (str_eq c.access_token "")
    then record req { headers = insert "Authorization" ("Bearer " <> c.access_token) req.headers }
    else req

-- What the standard library gives: `url.JoinPath`, the errors of `http.NewRequestWithContext`, the transport,
-- what an error body leaves in the error
-- it is decoded into, and `http.StatusText`.
pub record Net (W : Type 0) : Type 0 where
  pub join_path : String → String → Result String
  pub bad_request : String → String → Option Error
  pub send : Request → W → Result Response × W
  -- the transport with no timeout
  pub stream : Request → W → Result Stream × W
  pub error_body : String → Option Error × (String × String × String)
  pub status_text : ℕ → String

api_error : (ℕ → String) → ℕ → Option Error × (String × String × String) → Error
api_error status_text status (none, (code, message, detail)) = api status code message detail
api_error status_text status (some e, (code, message, detail)) =
    api status code (status_text status) detail

-- `Decode(out)`: how it ends, and what `out` holds then. `none` is a nil `out`.
abbrev pub Decode : Type 0 → Type 0
Decode A = Option (String → A → Result (Unit {0}) × A)

-- A body that is not nil, encoded.
abbrev pub Body : Type 0
Body = Option (Result String)

encoded : Body → Result (Option String)
encoded none = ok none
encoded (some (ok s)) = ok (some s)
encoded (some (err e)) = err (wrap "marshal request: " e)

module _ {W : Type 0} (net : Net W) where
  -- `decodeError`
  unfoldable pub decode_error : ℕ → String → Error
  unfolding api_error
  decode_error status body = api_error net.status_text status (net.error_body body)

  module _ {A : Type 0} where
    after_status : Decode A → Response → A → Result (Unit {0}) × A
    unfolding decode_error
    after_status decode r out =
        if leb 400 r.status then (err (decode_error r.status r.body), out) else elim decode [
          | none ↦ (ok tt, out)
          | some d ↦ if r.status == 204 then (ok tt, out) else d r.body out
        ]

    after_send : Decode A → A → Result Response × W → Result (Unit {0}) × A × W
    unfolding after_status
    after_send decode out (err e, w) = (err e, out, w)
    after_send decode out (ok r, w) = let (u, out') = after_status decode r out in (u, out', w)

    built : Request → Decode A → A → W → Option Error → Result (Unit {0}) × A × W
    unfolding after_send
    built req decode out w (some e) = (err e, out, w)
    built req decode out w none = after_send decode out (net.send req w)

    after_body :
        Client
        → String
        → String
        → Decode A
        → A
        → W
        → Result (Option String)
        → Result (Unit {0}) × A × W
    unfolding built
    after_body c method url decode out w (err e) = (err e, out, w)
    after_body c method url decode out w (ok body) =
        let headers =
          insert "User-Agent" c.cfg.user_agent
            (insert "Accept" "application/json" (insert "Content-Type" "application/json" [])) in
        let req : Request = record { method = method; url = url; body = body; headers = headers } in
        built (set_auth c req) decode out w (net.bad_request method url)

    after_url :
        Client → String → Body → Decode A → A → W → Result String → Result (Unit {0}) × A × W
    unfolding after_body encoded
    after_url c method body decode out w (err e) = (err e, out, w)
    after_url c method body decode out w (ok url) =
        after_body c method url decode out w (encoded body)

    -- `requestOnce`
    unfoldable pub request_once :
        Client → String → String → Body → Decode A → A → W → Result (Unit {0}) × A × W
    unfolding after_url
    request_once c method path body decode out w =
        after_url c method body decode out w (net.join_path c.cfg.base_url path)

    keep_out : Waits W → Waits (A × W)
    keep_out waits d (out, w) = let (e, w') = waits d w in (e, (out, w'))

    -- `request`: the calls that are repeated share `out`. `none` is a panic of the waits.
    unfoldable pub request :
        (ℕ → ℕ)
        → Waits W
        → Client
        → String
        → String
        → Body
        → Decode A
        → A × W
        → Option (Result (Unit {0}) × (A × W))
    unfolding request_once keep_out
    request int63n waits c method path body decode w =
        do_retry int63n (keep_out waits) c.cfg.retry_wait
          (λ (out, w').
            let (u, out', w'') = request_once c method path body decode out w' in (u, (out', w'')))
          c.cfg.max_retries w

  insert_all : Map String → Map String → Map String
  insert_all [] headers = headers
  insert_all ((k, v) ∷ more) headers = insert_all more (insert k v headers)

  raw_built : Request → W → Option Error → Result Stream × W
  raw_built req w (some e) = (err e, w)
  raw_built req w none = net.stream req w

  raw_body : Client → String → String → Map String → W → Result (Option String) → Result Stream × W
  unfolding raw_built insert_all
  raw_body c method url extra w (err e) = (err e, w)
  raw_body c method url extra w (ok body) =
      let headers =
        insert "User-Agent" c.cfg.user_agent (insert "Content-Type" "application/json" []) in
      let req : Request = record {
        method = method;
        url = url;
        body = body;
        headers = insert_all extra headers;
      } in
      raw_built (set_auth c req) w (net.bad_request method url)

  raw_url : Client → String → Body → Map String → W → Result String → Result Stream × W
  unfolding raw_body encoded
  raw_url c method body extra w (err e) = (err e, w)
  raw_url c method body extra w (ok url) = raw_body c method url extra w (encoded body)

  -- `rawRequest`
  unfoldable pub raw_request : Client → String → String → Body → Map String → W → Result Stream × W
  unfolding raw_url
  raw_request c method path body extra w =
      raw_url c method body extra w (net.join_path c.cfg.base_url path)
