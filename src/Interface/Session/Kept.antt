-- ===== src/Interface/Session/Kept.antt =====
-- A session that was created, read.
use bzy_personal.Prelude.{◌≡◌, refl, ℕ, String, none}
use bzy_personal.Errors.{ok}
use bzy_personal.Runtime.{Env}
use bzy_personal.Interface.Session.{
  Session, Redis, Codec, session_key, stored, create, touched, after_read, get,
}

module _ {W : Type 0} (env : Env W) (redis : Redis W) (codec : Codec) (ttl : ℕ) where
  -- `Get` of a key that holds the encoding of a session gives the session, with the time it was last seen as it
  -- was stored: a read does not change it, and only the time to live of the key starts again.
  pub get-held :
      (token raw : String) (s : Session) (w w' : W)
      → redis.get (session_key token) w ≡ (ok raw, w')
      → codec.unmarshal raw ≡ ok s
      → get env redis codec ttl token w ≡ (ok s, redis.expire (session_key token) ttl w')
  unfolding get after_read touched
  get-held token raw s w w' held reads = rw (held, get) (rw (reads, after_read) refl)

  -- A session that was created with no error is what `Get` of its token gives next, where the codec and the store
  -- give back what they are given.
  pub create-get :
      (s : Session) (raw : String) (w w3 : W)
      → let now = (env.now (env.fresh w).1).0 in
        let s' : Session = record s { created_at = now; last_seen = now } in
        let token = (env.fresh w).0 in
        codec.marshal s' ≡ ok raw
        → codec.unmarshal raw ≡ ok s'
        → redis.set (session_key token) raw ttl (env.now (env.fresh w).1).1 ≡ (none, w3)
        → redis.get (session_key token) w3 ≡ (ok raw, w3)
        → (create env redis codec ttl s w ≡ (token, none, s', w3))
          × (get env redis codec ttl token w3 ≡ (ok s', redis.expire (session_key token) ttl w3))
  unfolding create stored
  create-get s raw w w3 marshals reads sets holds = (
    rw (marshals, create) (rw (sets, stored) refl),
    get-held (env.fresh w).0 raw _ w3 w3 holds reads,
  )
