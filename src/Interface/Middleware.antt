-- ===== src/Interface/Middleware.antt =====
-- apps/bzy-interface/internal/middleware/middleware.go and the API keys of internal/auth/jwt.go: what
-- a request must carry to reach a handler. The JWT library is a parameter.
pub mod Auth
pub mod Answers
use bzy_personal.Prelude.{
  ℕ, zero, suc, ◌≡◌, Bool, true, false, not, String, List, [], ◌∷◌, Option, none, some, ◌||◌,
  str_eq, if◌then◌else◌,
}
use bzy_personal.Prelude.Map.{Map, lookup, insert}
use bzy_personal.Prelude.Texts.{has_prefix, drop_prefix}
use bzy_personal.Errors.{Code, Error, Result, ok, err, rate_limited_error, http_status}
use bzy_personal.Errors.Chain.{Domain, as_domain}

-- The fields of the claims that the middleware reads and passes on.
pub record Claims : Type 0 where
  pub user_id : String
  pub email : String
  pub roles : List String

-- `APIKeyService`: key to user.
abbrev pub ApiKeys : Type 0
ApiKeys = Map String

unfoldable pub register_key : String → String → ApiKeys → ApiKeys
register_key key user keys = insert key user keys

unfoldable pub validate_key : String → ApiKeys → Option String
validate_key key keys = lookup key keys

-- `extractBearer`: the seven bytes of the prefix are ASCII.
unfoldable pub extract_bearer : String → String
extract_bearer header = if has_prefix "Bearer " header then drop_prefix "Bearer " header else ""

-- The handler chain goes on with `user_id` and perhaps `claims` in the context, or the request is
-- answered 401 with this text.
pub data Verdict : Type 0 where
  admitted : Option Claims → String → Verdict
  refused : String → Verdict

by_token : Result Claims → Verdict
by_token (ok c) = admitted (some c) c.user_id
by_token (err e) = refused "invalid token"

by_key : Option String → Verdict
by_key (some user) = admitted none user
by_key none = refused "invalid api key"

-- `RequireAuth`, on the Authorization and X-API-Key headers.
unfoldable pub require_auth : (String → Result Claims) → ApiKeys → String → String → Verdict
unfolding by_token by_key extract_bearer
require_auth validate keys authorization api_key =
    let token = extract_bearer authorization in
    if not (str_eq token "")
    then by_token (validate token)
    else if not (str_eq api_key "")
    then by_key (validate_key api_key keys)
    else refused "authentication required"

-- What `ErrorHandler` answers after the handlers: nothing, or a status and the domain error.
pub data Answer : Type 0 where
  as_it_is : Answer
  domain_answer : ℕ → Domain → Answer
  internal_answer : Answer

answer_of : Option Domain → Answer
answer_of none = internal_answer
answer_of (some d) = domain_answer (http_status d.code) d

unfoldable pub error_handler : List Error → Answer
unfolding answer_of
error_handler [] = as_it_is
error_handler (e ∷ []) = answer_of (as_domain e)
error_handler (e ∷ f ∷ es) = error_handler (f ∷ es)

-- `CORS`: the value of Access-Control-Allow-Origin if the four headers are set, and whether the
-- request is answered 204 at once.
contains : List String → String → Bool
contains [] s = false
contains (x ∷ xs) s = str_eq x s || contains xs s

unfoldable pub cors : List String → String → String → Option String × Bool
unfolding contains
cors origins origin method = (
  if contains origins origin || contains origins "*" then some origin else none,
  str_eq method "OPTIONS",
)
