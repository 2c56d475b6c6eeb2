-- ===== src/Interface/Session.antt =====
-- apps/bzy-interface/internal/session/session.go: sessions in Redis. The Redis client and the JSON codec are
-- parameters.
pub mod Kept
use bzy_personal.Prelude.{ℕ, String, List, Option, none, some}
use bzy_personal.Prelude.Texts.{◌<>◌}
use bzy_personal.Errors.{Error, wrap, Result, ok, err}
use bzy_personal.Runtime.{Env}

pub record Session : Type 0 where
  pub user_id : String
  pub email : String
  pub roles : List String
  pub created_at : ℕ
  pub last_seen : ℕ

-- SET with a time to live, GET, EXPIRE and DEL.
pub record Redis (W : Type 0) : Type 0 where
  pub set : String → String → ℕ → W → Option Error × W
  pub get : String → W → Result String × W
  pub expire : String → ℕ → W → W
  pub del : String → W → Option Error × W

pub record Codec : Type 0 where
  pub marshal : Session → Result String
  pub unmarshal : String → Result Session

unfoldable pub session_key : String → String
session_key token = "bzy:session:" <> token

module _ {W : Type 0} (env : Env W) (redis : Redis W) (codec : Codec) (ttl : ℕ) where
  stored : String → W → Result String → String × Option Error × W
  unfolding session_key
  stored token w (err e) = ("", some e, w)
  stored token w (ok raw) = let (e, w') = redis.set (session_key token) raw ttl w in (token, e, w')

  -- `Create`: the token, the error, and the session as the caller sees it afterwards.
  unfoldable pub create : Session → W → String × Option Error × Session × W
  unfolding stored
  create s w =
      let (token, w1) = env.fresh w in
      let (now, w2) = env.now w1 in
      let s' : Session = record s { created_at = now; last_seen = now } in
      let (t, e, w3) = stored token w2 (codec.marshal s') in (t, e, s', w3)

  touched : String → W → Result Session → Result Session × W
  unfolding session_key
  touched token w (err e) = (err e, w)
  touched token w (ok s) = (ok s, redis.expire (session_key token) ttl w)

  after_read : String → Result String × W → Result Session × W
  unfolding touched
  after_read token (err e, w) = (err (wrap "session not found: " e), w)
  after_read token (ok raw, w) = touched token w (codec.unmarshal raw)

  -- `Get`
  unfoldable pub get : String → W → Result Session × W
  unfolding after_read session_key
  get token w = after_read token (redis.get (session_key token) w)

  -- `Delete`
  unfoldable pub delete : String → W → Option Error × W
  unfolding session_key
  delete token w = redis.del (session_key token) w
