-- ===== src/Client/Http/Account/Examples.antt =====
-- A user who logs in, at a gateway with one user and a library that signs two payloads.
use mathlib.Core.Bool.{false≢true}
use bzy_personal.Prelude.{
  ◌≡◌, refl, sym, ap, ℕ, ◌<◌, Bool, true, false, ◌&&◌, String, List, [], ◌∷◌, none, some, str_eq,
  eq_iff, inl, inr, ◌⊎◌, if◌then◌else◌, ne_of_str_eq, arith,
}
use bzy_personal.Prelude.Texts.{◌<>◌}
use bzy_personal.Errors.{text, Result, ok, err}
use bzy_personal.Runtime.{Env}
use bzy_personal.Interface.Middleware.{Claims, ApiKeys, admitted, require_auth}
use bzy_personal.Interface.Jwt
use bzy_personal.Interface.Jwt.{Library, Faithful, JwtService, Payload, issue, validate}
use bzy_personal.Interface.Jwt.Laws.{seconds, issue-Issued}
use bzy_personal.Interface.Login
use bzy_personal.Interface.Login.{
  Row, row, literal, scan, inner_text, drop_last, split_pg_array, tokens, handle_login,
  handle_refresh,
}
use bzy_personal.Interface.Login.Answers.{handle_refresh-forgets}
use bzy_personal.Client.Retry.{Waits}
use bzy_personal.Client.Http.{Client, Net, Request, set_auth, new_client, default_config}
use bzy_personal.Client.Http.Account.{Codec, login}
use bzy_personal.Client.Http.Account.Admitted.{
  Setting, answered, body_text, read_pair, header, login-admitted,
}

abbrev ann : Claims
ann = record { user_id = "ann"; email = "a@x"; roles = "admin" ∷ [] }

abbrev bare : Claims
bare = record { user_id = "ann"; email = ""; roles = [] }

abbrev one_admin : List String → Bool
one_admin [] = false
one_admin (r ∷ []) = str_eq r "admin"
one_admin (r ∷ s ∷ more) = false

abbrev no_role : List String → Bool
no_role [] = true
no_role (r ∷ more) = false

both_true : (a b : Bool) → (a && b) ≡ true → (a ≡ true) × (b ≡ true)
both_true true b h = (refl, h)
both_true false b h = absurd (false≢true h)

one_admin-same : (l : List String) → one_admin l ≡ true → l ≡ "admin" ∷ []
one_admin-same [] h = absurd (false≢true h)
one_admin-same (r ∷ []) h = ap (λ x. x ∷ []) ((eq_iff r "admin").0 h)
one_admin-same (r ∷ s ∷ more) h = absurd (false≢true h)

no_role-same : (l : List String) → no_role l ≡ true → l ≡ []
no_role-same [] h = refl
no_role-same (r ∷ more) h = absurd (false≢true h)

abbrev is_ann : Claims → Bool
is_ann c = str_eq c.user_id "ann" && (str_eq c.email "a@x" && one_admin c.roles)

abbrev is_bare : Claims → Bool
is_bare c = str_eq c.user_id "ann" && (str_eq c.email "" && no_role c.roles)

is_ann-same : (c : Claims) → is_ann c ≡ true → c ≡ ann
is_ann-same c h =
    let (u, more) =
      both_true (str_eq c.user_id "ann") (str_eq c.email "a@x" && one_admin c.roles) h in
    let (e, r) = both_true (str_eq c.email "a@x") (one_admin c.roles) more in
    same_claims ((eq_iff c.user_id "ann").0 u) ((eq_iff c.email "a@x").0 e)
      (one_admin-same c.roles r)
  where
    same_claims : c.user_id ≡ "ann" → c.email ≡ "a@x" → c.roles ≡ "admin" ∷ [] → c ≡ ann
    same_claims p q r i = record { user_id = p i; email = q i; roles = r i }

is_bare-same : (c : Claims) → is_bare c ≡ true → c ≡ bare
is_bare-same c h =
    let (u, more) = both_true (str_eq c.user_id "ann") (str_eq c.email "" && no_role c.roles) h in
    let (e, r) = both_true (str_eq c.email "") (no_role c.roles) more in
    same_claims ((eq_iff c.user_id "ann").0 u) ((eq_iff c.email "").0 e) (no_role-same c.roles r)
  where
    same_claims : c.user_id ≡ "ann" → c.email ≡ "" → c.roles ≡ [] → c ≡ bare
    same_claims p q r i = record { user_id = p i; email = q i; roles = r i }

abbrev with_claims : Claims → Payload
with_claims c = record {
  claims = c;
  registered = record { subject = ""; issued_at = 0; expires_at = 0; id = ""; issuer = "" };
}

-- A library whose tokens do not expire.
signed_as : Bool → Bool → Result String
signed_as true b = ok "full"
signed_as false true = ok "bare"
signed_as false false = err (text "unknown")

abbrev read_as : String → Result Payload
read_as t =
    if str_eq t "full"
    then ok (with_claims ann)
    else if str_eq t "bare"
    then ok (with_claims bare)
    else err (text "unknown")

abbrev two : Library
two = record {
  sign = λ secret p. signed_as (is_ann p.claims) (is_bare p.claims);
  parse = λ secret now t. read_as t;
}

signed_as-text :
    (a b : Bool) (t : String)
    → signed_as a b ≡ ok t
    → (t ≡ "full") × (a ≡ true) ⊎ (t ≡ "bare") × (b ≡ true)
unfolding signed_as
signed_as-text true b t h = inl (sym (cc h), refl)
signed_as-text false true t h = inr (sym (cc h), refl)
signed_as-text false false t h = absurd (cc h)

two-Faithful : Faithful two
two-Faithful = record {
  not_empty = λ secret p t h. elim (signed_as-text (is_ann p.claims) (is_bare p.claims) t h) [
    | inl (e, a) ↦ rw e (ne_of_str_eq "full" "" refl)
    | inr (e, b) ↦ rw e (ne_of_str_eq "bare" "" refl)
  ];
  reads_back = λ secret p t now h later.
      elim (signed_as-text (is_ann p.claims) (is_bare p.claims) t h) [
        | inl (e, a) ↦ (with_claims ann, rw e refl, sym (is_ann-same p.claims a))
        | inr (e, b) ↦ (with_claims bare, rw e refl, sym (is_bare-same p.claims b))
      ];
}

abbrev still : Env (Unit {0})
still = record { now = λ w. (0, w); fresh = λ w. ("id", w) }

abbrev service : JwtService
service = record { secret = "k"; access_expiry = 3600000000000; refresh_expiry = 86400000000000 }

abbrev ann_pair : Jwt.TokenPair
ann_pair = record { access_token = "full"; refresh_token = "bare"; expires_at = 3600000000000 }

abbrev bare_pair : Jwt.TokenPair
bare_pair = record { access_token = "bare"; refresh_token = "bare"; expires_at = 3600000000000 }

issue_ann : issue still two service "ann" "a@x" ("admin" ∷ []) tt ≡ (ok ann_pair, tt)
unfolding issue signed_as
issue_ann = refl

issue_bare : issue still two service "ann" "" [] tt ≡ (ok bare_pair, tt)
unfolding issue signed_as
issue_bare = refl

handle_refresh-forgets_example :
    (handle_refresh still two service (ok "bare") tt ≡ (tokens bare_pair, tt))
    × ((later : ℕ) → later < seconds 3600000000000 → validate two service later "bare" ≡ ok bare)
    × ((keys : ApiKeys) (later : ℕ)
        → later < seconds 86400000000000
        → require_auth (validate two service later) keys ("Bearer " <> "bare") ""
          ≡ admitted (some bare) "ann")
handle_refresh-forgets_example =
    handle_refresh-forgets still two service two-Faithful 0 "ann" "a@x" ("admin" ∷ []) ann_pair
      bare_pair tt tt
      (issue-Issued still two service "ann" "a@x" ("admin" ∷ []) tt tt ann_pair issue_ann) ground
      arith issue_bare

abbrev ann_row : String → String → Unit {0} → Row × Unit {0}
ann_row email password w = (row "ann" "a@x" (literal "{admin}"), w)

scan_ann : scan (literal "{admin}") ≡ some (ok ("admin" ∷ []))
unfolding scan inner_text split_pg_array drop_last
scan_ann = refl

abbrev bound : String → Result Login.LoginRequest
bound body = ok (record { email = "a@x"; password = "pw" })

abbrev gateway : Net (Unit {0})
gateway = record {
  join_path = λ base path. ok (base <> path);
  bad_request = λ method url. none;
  send = λ req w.
      answered (λ p. "pair") (λ code message. code) w
        (handle_login still two service ann_row (bound (body_text req.body)) w);
  stream = λ req w. (err (text "no stream"), w);
  error_body = λ body. (none, ("", body, ""));
  status_text = λ status. "";
}

abbrev codec : Codec
codec = record {
  marshal_login = λ r. ok "login";
  marshal_refresh = λ r. ok "refresh";
  decode_pair = λ body old. (ok tt, read_pair ann_pair);
}

abbrev new : Client
new = new_client "http://localhost:8080" []

new-Setting : Setting still two service gateway codec new "a@x" "pw"
unfolding new_client default_config
new-Setting = record {
  query = ann_row;
  bind = bound;
  encode_pair = λ p. "pair";
  encode_error = λ code message. code;
  url = "http://localhost:8080/api/v1/auth/login";
  body = "login";
  no_key = refl;
  tries = 3;
  sends_once = refl;
  joins = refl;
  builds = refl;
  marshals = refl;
  binds = refl;
  serves = λ req w method url. refl;
}

abbrev no_wait : Waits (Unit {0})
no_wait d w = (none, w)

login-admitted_example :
    (c' : Client) × (login gateway codec (λ n. 0) no_wait "a@x" "pw" new tt
      ≡ some (ok (read_pair ann_pair), c', tt))
    × ((keys : ApiKeys) (req : Request) (later : ℕ)
        → later < seconds 3600000000000
        → require_auth
            (validate two service later)
            keys
            (header "Authorization" (set_auth c' req))
            (header "X-Api-Key" (set_auth c' req))
          ≡ admitted (some ann) "ann")
unfolding new-Setting
login-admitted_example =
    login-admitted still two service gateway codec (λ n. 0) no_wait two-Faithful new "a@x" "pw"
      new-Setting "ann" "a@x" (literal "{admin}") ("admin" ∷ []) ann_pair tt tt tt refl scan_ann
      issue_ann refl
