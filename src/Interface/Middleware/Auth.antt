-- ===== src/Interface/Middleware/Auth.antt =====
-- Who gets past `RequireAuth`.
use bzy_personal.Prelude.{
  ◌≡◌, ◌≢◌, ◌↔◌, refl, ap, ◌∙◌, String, Option, none, some, str_eq, str_eq_ne, ne_of_str_eq,
  Bool-cases, inl, inr, eq_iff,
}
use bzy_personal.Prelude.Texts.{◌<>◌, has_prefix}
use bzy_personal.Prelude.Texts.Laws.{has_prefix-append, drop_prefix-append}
use bzy_personal.Errors.{Result, ok, err}
use bzy_personal.Interface.Middleware.{
  Claims, ApiKeys, validate_key, extract_bearer, Verdict, admitted, refused, by_token, by_key,
  require_auth,
}

-- The credentials of a user in the two headers. A bearer token, once there, is the only one that
-- counts.
pub data Credential (validate : String → Result Claims) (keys : ApiKeys)
    (authorization api_key user : String) : Type 0 where
  token :
      (c : Claims)
      → extract_bearer authorization ≢ ""
      → validate (extract_bearer authorization) ≡ ok c
      → c.user_id ≡ user
      → Credential validate keys authorization api_key user
  key :
      extract_bearer authorization ≡ ""
      → api_key ≢ ""
      → validate_key api_key keys ≡ some user
      → Credential validate keys authorization api_key user

abbrev pub Admits : Verdict → String → Type 0
Admits (admitted c u) user = u ≡ user
Admits (refused s) user = ⊥

module _ (validate : String → Result Claims) (keys : ApiKeys)
    (authorization api_key user : String) where
  Admits-require_auth :
      Credential validate keys authorization api_key user
      → Admits (require_auth validate keys authorization api_key) user
  unfolding require_auth
  Admits-require_auth (token c some_token valid same) =
      rw (str_eq_ne (extract_bearer authorization) "" some_token) (rw valid same)
  Admits-require_auth (key no_token some_key found) =
      rw no_token (rw (str_eq_ne api_key "" some_key) (rw found refl))

  by_key-Credential :
      extract_bearer authorization ≡ ""
      → api_key ≢ ""
      → (o : Option String) → validate_key api_key keys ≡ o
      → Admits (by_key o) user
      → Credential validate keys authorization api_key user
  unfolding by_key
  by_key-Credential empty sent none e h = absurd h
  by_key-Credential empty sent (some u) e h = key empty sent (e ∙ ap some h)

  by_token-Credential :
      extract_bearer authorization ≢ ""
      → (r : Result Claims) → validate (extract_bearer authorization) ≡ r
      → Admits (by_token r) user
      → Credential validate keys authorization api_key user
  unfolding by_token
  by_token-Credential sent (err x) e h = absurd h
  by_token-Credential sent (ok c) e h = token c sent e h

  Credential-require_auth :
      Admits (require_auth validate keys authorization api_key) user
      → Credential validate keys authorization api_key user
  unfolding require_auth
  Credential-require_auth h = elim (Bool-cases (str_eq (extract_bearer authorization) "")) [
    | inl empty ↦ elim (Bool-cases (str_eq api_key "")) [
      | inl nothing ↦ absurd (rw (empty, nothing) at h)
      | inr sent ↦
          by_key-Credential ((eq_iff (extract_bearer authorization) "").0 empty)
            (ne_of_str_eq api_key "" sent) (validate_key api_key keys) refl (rw (empty, sent) at h)
    ]
    | inr sent ↦
        by_token-Credential (ne_of_str_eq (extract_bearer authorization) "" sent)
          (validate (extract_bearer authorization)) refl (rw sent at h)
  ]

-- A request reaches the handlers as a user exactly if it carries a credential of that user: a
-- bearer token that the JWT library accepts with claims of the user, or, only if there is no
-- bearer token, a registered API key of the user. A bad token is refused whatever the key.
pub require_auth-iff-Credential :
    (validate : String → Result Claims) (keys : ApiKeys) (authorization api_key user : String)
    → Admits (require_auth validate keys authorization api_key) user
      ↔ Credential validate keys authorization api_key user
require_auth-iff-Credential validate keys authorization api_key user = (
  Credential-require_auth validate keys authorization api_key user,
  Admits-require_auth validate keys authorization api_key user,
)

extract_bearer-append : (t : String) → extract_bearer ("Bearer " <> t) ≡ t
unfolding extract_bearer has_prefix
extract_bearer-append t =
    rw (has_prefix-append "Bearer " "Bearer " t refl) (drop_prefix-append "Bearer " t)

-- A token in its header.
pub require_auth-bearer :
    (validate : String → Result Claims) (keys : ApiKeys) (t api_key : String) (c : Claims)
    → t ≢ ""
    → validate t ≡ ok c
    → require_auth validate keys ("Bearer " <> t) api_key ≡ admitted (some c) c.user_id
unfolding require_auth by_token
require_auth-bearer validate keys t api_key c some_token valid =
    rw (extract_bearer-append t, str_eq_ne t "" some_token, valid) refl
