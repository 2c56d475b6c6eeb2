-- ===== src/Interface/Login.antt =====
-- The handlers of /auth of apps/bzy-interface/internal/httpserver/server.go, and the scan of the roles of a
-- user. The binding of a body and the query of the database are parameters.
pub mod Roles
pub mod Answers
use Prim.Native.Char.{code}
use Prim.Native.String
use bzy_personal.Prelude.{
  ℕ, Bool, true, false, String, List, [], ◌∷◌, ◌++◌, Option, none, some, ◌==◌, str_eq,
  if◌then◌else◌,
}
use bzy_personal.Prelude.Texts.{◌<>◌}
use bzy_personal.Errors.{Error, text, Result, ok, err, error_message}
use bzy_personal.Runtime.{Env}
use bzy_personal.Interface.Middleware.{Claims}
use bzy_personal.Interface.Jwt.{Library, JwtService, TokenPair, issue, validate}

pub record LoginRequest : Type 0 where
  pub email : String
  pub password : String

-- What a handler writes: a status with a code and a message, or a pair of tokens with 200.
pub data Reply : Type 0 where
  refusal : ℕ → String → String → Reply
  tokens : TokenPair → Reply

-- The value of a column of type TEXT[] as the driver gives it.
pub data Column : Type 0 where
  null other : Column
  literal : String → Column

-- The loop of `splitPGArray`, with `cur`.
split_from : String → String → List String
split_from cur String.[] = if str_eq cur "" then [] else cur ∷ []
split_from cur (String.◌∷◌ c s) =
    let cut = split_from "" s in
    let on = split_from (cur <> String.◌∷◌ c "") s in if code c == 44 then cur ∷ cut else on

-- `splitPGArray`
unfoldable pub split_pg_array : String → List String
unfolding split_from
split_pg_array s = split_from "" s

-- `s[1:len(s)-1]`, for a text whose first and last characters are one byte. A shorter one panics: `none`.
unfoldable pub drop_last : String → String
drop_last String.[] = ""
drop_last (String.◌∷◌ c String.[]) = ""
drop_last (String.◌∷◌ c (String.◌∷◌ d s)) = String.◌∷◌ c (drop_last (String.◌∷◌ d s))

unfoldable pub inner_text : String → Option String
unfolding drop_last
inner_text String.[] = none
inner_text (String.◌∷◌ c String.[]) = none
inner_text (String.◌∷◌ c (String.◌∷◌ d s)) = some (drop_last (String.◌∷◌ d s))

scan_inner : Option String → Option (Result (List String))
scan_inner none = none
scan_inner (some s) = if str_eq s "" then some (ok []) else some (ok (split_pg_array s))

-- `pqStringArray.Scan`: nil and the empty slice are one list.
unfoldable pub scan : Column → Option (Result (List String))
unfolding scan_inner inner_text
scan null = some (ok [])
scan other = some (err (text "pqStringArray: unexpected type"))
scan (literal s) = scan_inner (inner_text s)

-- What the query gives: no row, an error, or the columns of a row.
pub data Row : Type 0 where
  no_rows : Row
  query_failed : Error → Row
  row : String → String → Column → Row

after_issue : Result TokenPair → Reply
after_issue (ok pair) = tokens pair
after_issue (err e) = refusal 500 "INTERNAL" "could not issue token"

module _ {W : Type 0} (env : Env W) (lib : Library) (s : JwtService) where
  reply_issued : String → String → List String → W → Reply × W
  unfolding after_issue
  reply_issued user email roles w =
      let (pair, w') = issue env lib s user email roles w in (after_issue pair, w')

  -- After the columns are scanned.
  after_scan : String → String → W → Result (List String) → Reply × W
  unfolding reply_issued
  after_scan user email w (err e) = (refusal 500 "INTERNAL" "database error", w)
  after_scan user email w (ok roles) = reply_issued user email roles w

  scanned : String → String → W → Option (Result (List String)) → Option (Reply × W)
  unfolding after_scan
  scanned user email w none = none
  scanned user email w (some roles) = some (after_scan user email w roles)

  after_row : W → Row → Option (Reply × W)
  unfolding scanned scan
  after_row w no_rows = some (refusal 401 "INVALID_CREDENTIALS" "invalid email or password", w)
  after_row w (query_failed e) = some (refusal 500 "INTERNAL" "database error", w)
  after_row w (row user email roles) = scanned user email w (scan roles)

  -- `handleLogin`, on what the binding of the body gives. `none` is a panic, which gin answers with 500.
  unfoldable pub handle_login :
      (String → String → W → Row × W) → Result LoginRequest → W → Option (Reply × W)
  unfolding after_row
  handle_login query (err e) w = some (refusal 400 "BAD_REQUEST" (error_message e), w)
  handle_login query (ok req) w =
      let (found, w') = query req.email req.password w in after_row w' found

  after_validate : W → Result Claims → Reply × W
  unfolding reply_issued
  after_validate w (err e) = (refusal 401 "INVALID_TOKEN" "invalid or expired refresh token", w)
  after_validate w (ok c) = reply_issued c.user_id c.email c.roles w

  -- `handleRefresh`
  unfoldable pub handle_refresh : Result String → W → Reply × W
  unfolding after_validate
  handle_refresh (err e) w = (refusal 400 "BAD_REQUEST" (error_message e), w)
  handle_refresh (ok token) w =
      let (now, w') = env.now w in after_validate w' (validate lib s now token)
