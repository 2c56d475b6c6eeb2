-- ===== src/Interface/Jwt/Laws.antt =====
-- What `Issue` has signed, `Validate` reads.
use mathlib.Core.Path.{subst}
use bzy_personal.Prelude.{ℕ, ◌+◌, ◌*◌, ◌/◌, ◌<◌, ◌≡◌, refl, sym, ap, String, List, []}
use bzy_personal.Errors.{wrap, Result, ok, err}
use bzy_personal.Runtime.{Env}
use bzy_personal.Interface.Jwt.{
  Library, Faithful, JwtService, Payload, TokenPair, access_claims, refresh_claims, both_signed,
  after_access, parsed, issue, validate,
}

-- A time to the second.
abbrev pub seconds : ℕ → ℕ
seconds t = t / 1000000000 * 1000000000

-- A pair of tokens, and what was signed for it.
pub record Issued (lib : Library) (s : JwtService) (now : ℕ) (user email : String)
    (roles : List String) (pair : TokenPair) : Type 0 where
  pub access_id : String
  pub refresh_id : String
  pub access_signed :
      lib.sign s.secret (access_claims s now access_id user email roles) ≡ ok pair.access_token
  pub expiry : pair.expires_at ≡ now + s.access_expiry
  pub refresh_signed :
      lib.sign s.secret (refresh_claims s now refresh_id user) ≡ ok pair.refresh_token

abbrev minted : String → String → ℕ → TokenPair
minted access refresh expires = record {
  access_token = access;
  refresh_token = refresh;
  expires_at = expires;
}

module _ {W : Type 0} (env : Env W) (lib : Library) (s : JwtService) where
  both_signed-Issued :
      (now : ℕ) (user email : String) (roles : List String) (id id' access : String)
      (pair : TokenPair) (x : Result String)
      → lib.sign s.secret (access_claims s now id user email roles) ≡ ok access
      → lib.sign s.secret (refresh_claims s now id' user) ≡ x
      → both_signed access (now + s.access_expiry) x ≡ ok pair
      → Issued lib s now user email roles pair
  unfolding both_signed
  both_signed-Issued now user email roles id id' access pair (err e) h k eq = absurd (cc eq)
  both_signed-Issued now user email roles id id' access pair (ok t) h k eq =
      let same : minted access t (now + s.access_expiry) ≡ pair = cc eq in
      subst (λ q. Issued lib s now user email roles q) same
        (record {
          access_id = id;
          refresh_id = id';
          access_signed = h;
          refresh_signed = k;
          expiry = refl;
        })

  after_access-Issued :
      (now : ℕ) (user email : String) (roles : List String) (id : String) (w w' : W)
      (pair : TokenPair) (x : Result String)
      → lib.sign s.secret (access_claims s now id user email roles) ≡ x
      → after_access env lib s now user w x ≡ (ok pair, w')
      → Issued lib s now user email roles pair
  unfolding after_access
  after_access-Issued now user email roles id w w' pair (err e) h eq =
      let none_issued : err (wrap "sign access token: " e) ≡ ok pair =
        ap {B = Result TokenPair} (λ p. p.0) eq in
      absurd (cc none_issued)
  after_access-Issued now user email roles id w w' pair (ok t) h eq =
      both_signed-Issued now user email roles id (env.fresh w).0 t pair
        (lib.sign s.secret (refresh_claims s now (env.fresh w).0 user)) h refl (ap (λ p. p.0) eq)

  pub issue-Issued :
      (user email : String) (roles : List String) (w w' : W) (pair : TokenPair)
      → issue env lib s user email roles w ≡ (ok pair, w')
      → Issued lib s (env.now w).0 user email roles pair
  unfolding issue
  issue-Issued user email roles w w' pair eq =
      let (now, w1) = env.now w in
      let (id, w2) = env.fresh w1 in
      after_access-Issued now user email roles id w2 w' pair
        (lib.sign s.secret (access_claims s now id user email roles)) refl eq

module _ (lib : Library) (s : JwtService) (faithful : Faithful lib) where
  validate-signed :
      (p : Payload) (t : String) (later : ℕ)
      → lib.sign s.secret p ≡ ok t
      → later < seconds p.registered.expires_at
      → validate lib s later t ≡ ok p.claims
  unfolding validate parsed
  validate-signed p t later h k =
      let (q, e, same) = faithful.reads_back s.secret p t later h k in rw (e, same) refl

  -- The access token is read as the user it was issued for, with the address and the roles.
  pub validate-access :
      (now later : ℕ) (user email : String) (roles : List String) (pair : TokenPair)
      → Issued lib s now user email roles pair
      → later < seconds pair.expires_at
      → validate lib s later pair.access_token
        ≡ ok (record { user_id = user; email = email; roles = roles })
  unfolding access_claims
  validate-access now later user email roles pair i h =
      validate-signed (access_claims s now i.access_id user email roles) pair.access_token later
        i.access_signed (rw (sym i.expiry) h)

  -- The refresh token is read as the user, with neither.
  pub validate-refresh :
      (now later : ℕ) (user email : String) (roles : List String) (pair : TokenPair)
      → Issued lib s now user email roles pair
      → later < seconds (now + s.refresh_expiry)
      → validate lib s later pair.refresh_token
        ≡ ok (record { user_id = user; email = ""; roles = [] })
  unfolding refresh_claims
  validate-refresh now later user email roles pair i h =
      validate-signed (refresh_claims s now i.refresh_id user) pair.refresh_token later
        i.refresh_signed h
