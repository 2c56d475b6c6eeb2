-- ===== src/Client/Http/Account.antt =====
-- pkg/client/auth.go: the tokens that a client holds. The codecs of the bodies are parameters.
pub mod Admitted
mod Examples
use bzy_personal.Prelude.{ℕ, ◌+◌, String, Option, none, some, ltb, str_eq, if◌then◌else◌}
use bzy_personal.Errors.{Error, text, wrap, Result, ok, err}
use bzy_personal.Client.Retry.{Waits}
use bzy_personal.Client.Http.{Client, Net, Decode, set_token, request}

pub record LoginRequest : Type 0 where
  pub email : String
  pub password : String

pub record TokenPair : Type 0 where
  pub access_token : String
  pub refresh_token : String
  pub expires_at : ℕ

pub record RefreshRequest : Type 0 where
  pub refresh_token : String

abbrev pub no_pair : TokenPair
no_pair = record { access_token = ""; refresh_token = ""; expires_at = 0 }

-- `time.Minute`
abbrev pub minute : ℕ
minute = 60000000000

unfoldable pub keep_pair : TokenPair → Client → Client
keep_pair pair c = set_token pair.access_token pair.refresh_token pair.expires_at c

-- `json.Marshal` of the two requests, and the decoding of the pair.
pub record Codec : Type 0 where
  pub marshal_login : LoginRequest → Result String
  pub marshal_refresh : RefreshRequest → Result String
  pub decode_pair : String → TokenPair → Result (Unit {0}) × TokenPair

-- A pair is kept where the request ends without an error. `none` is a panic of the waits.
unfoldable pub after_request :
    {W : Type 0}
    → String
    → Client
    → Option (Result (Unit {0}) × (TokenPair × W))
    → Option (Result TokenPair × Client × W)
unfolding keep_pair
after_request prefix c none = none
after_request prefix c (some (err e, (pair, w))) = some (err (wrap prefix e), c, w)
after_request prefix c (some (ok u, (pair, w))) = some (ok pair, keep_pair pair c, w)

only_error :
    {W : Type 0} → Option (Result TokenPair × Client × W) → Option (Option Error × Client × W)
only_error none = none
only_error (some (err e, c, w)) = some (some e, c, w)
only_error (some (ok pair, c, w)) = some (none, c, w)

module _ {W : Type 0} (net : Net W) (codec : Codec) (int63n : ℕ → ℕ) (waits : Waits W) where
  -- `Login`
  unfoldable pub login : String → String → Client → W → Option (Result TokenPair × Client × W)
  unfolding after_request
  login email password c w = after_request "login: " c (
      request net int63n waits c "POST" "/api/v1/auth/login"
        (some (codec.marshal_login (record { email = email; password = password })))
        (some codec.decode_pair) (no_pair, w))

  -- `Refresh`
  unfoldable pub refresh : Client → W → Option (Result TokenPair × Client × W)
  unfolding after_request
  refresh c w =
      if str_eq c.refresh_token ""
      then some (err (text "no refresh token stored"), c, w)
      else after_request "refresh: " c (
          request net int63n waits c "POST" "/api/v1/auth/refresh"
            (some (codec.marshal_refresh (record { refresh_token = c.refresh_token })))
            (some codec.decode_pair) (no_pair, w))

  -- `EnsureFresh`, at a time.
  unfoldable pub ensure_fresh : ℕ → Client → W → Option (Option Error × Client × W)
  unfolding refresh only_error
  ensure_fresh now c w =
      if ltb (now + minute) c.token_expiry then some (none, c, w) else only_error (refresh c w)
