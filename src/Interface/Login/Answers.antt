-- ===== src/Interface/Login/Answers.antt =====
-- What the handlers of /auth answer.
use bzy_personal.Prelude.{◌≡◌, refl, ℕ, ◌+◌, ◌<◌, String, List, [], some}
use bzy_personal.Prelude.Texts.{◌<>◌}
use bzy_personal.Errors.{ok}
use bzy_personal.Runtime.{Env}
use bzy_personal.Interface.Middleware.{ApiKeys, admitted, require_auth}
use bzy_personal.Interface.Middleware.Auth.{require_auth-bearer}
use bzy_personal.Interface.Jwt.{Library, Faithful, JwtService, TokenPair, issue, validate}
use bzy_personal.Interface.Jwt.Laws.{
  seconds, Issued, issue-Issued, validate-access, validate-refresh,
}
use bzy_personal.Interface.Login.{
  tokens, Row, row, Column, scan, scanned, after_scan, reply_issued, after_issue, after_row,
  handle_login, after_validate, handle_refresh,
}

module _ {W : Type 0} (env : Env W) (lib : Library) (s : JwtService) where
  pub handle_login-found :
      (query : String → String → W → Row × W) (email password user address : String)
      (column : Column) (roles : List String) (pair : TokenPair) (w w1 w2 : W)
      → query email password w ≡ (row user address column, w1)
      → scan column ≡ some (ok roles)
      → issue env lib s user address roles w1 ≡ (ok pair, w2)
      → handle_login env lib s query (ok (record { email = email; password = password })) w
        ≡ some (tokens pair, w2)
  unfolding handle_login after_row scanned after_scan reply_issued after_issue
  handle_login-found query email password user address column roles pair w w1 w2 found scans
        issues =
      rw (found, handle_login) (rw (scans, after_row) (rw issues refl))

  -- A refresh token is a token like the other: until it expires `RequireAuth` admits its bearer as the user,
  -- with no address and no roles. `handleRefresh` answers it with a new pair, where that can be issued, and the
  -- access token of the new pair has no address and no roles either, whatever the user logged in with.
  pub handle_refresh-forgets :
      (faithful : Faithful lib) (signed : ℕ) (user address : String) (roles : List String)
      (pair fresh : TokenPair) (w w2 : W)
      → Issued lib s signed user address roles pair
      → (env.now w).0 < seconds (signed + s.refresh_expiry)
      → issue env lib s user "" [] (env.now w).1 ≡ (ok fresh, w2)
      → (handle_refresh env lib s (ok pair.refresh_token) w ≡ (tokens fresh, w2))
        × ((later : ℕ)
            → later < seconds fresh.expires_at
            → validate lib s later fresh.access_token
              ≡ ok (record { user_id = user; email = ""; roles = [] }))
        × ((keys : ApiKeys) (later : ℕ)
            → later < seconds (signed + s.refresh_expiry)
            → require_auth (validate lib s later) keys ("Bearer " <> pair.refresh_token) ""
              ≡ admitted (some (record { user_id = user; email = ""; roles = [] })) user)
  unfolding handle_refresh after_validate reply_issued after_issue
  handle_refresh-forgets faithful signed user address roles pair fresh w w2 old in_time issues =
      let reads : (later : ℕ)
          → later < seconds (signed + s.refresh_expiry)
          → validate lib s later pair.refresh_token
            ≡ ok (record { user_id = user; email = ""; roles = [] }) =
        λ later h. validate-refresh lib s faithful signed later user address roles pair old h in
      let again = issue-Issued env lib s user "" [] (env.now w).1 w2 fresh issues in
      (
        rw (reads (env.now w).0 in_time, handle_refresh) (rw issues refl),
        λ later h.
            validate-access lib s faithful (env.now (env.now w).1).0 later user "" [] fresh again h,
        λ keys later h.
            require_auth-bearer (validate lib s later) keys pair.refresh_token ""
              (record { user_id = user; email = ""; roles = [] })
              (faithful.not_empty s.secret _ pair.refresh_token old.refresh_signed) (reads later h),
      )
