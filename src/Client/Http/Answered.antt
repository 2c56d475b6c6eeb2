-- ===== src/Client/Http/Answered.antt =====
-- A request of pkg/client/client.go that is answered.
use bzy_personal.Prelude.{
  ◌≡◌, refl, ap, ◌∙◌, ℕ, [], false, String, none, some, leb, ◌==◌, str_eq, Bool-cases, inl, inr,
}
use bzy_personal.Prelude.Ints.{pos}
use bzy_personal.Prelude.Map.{Map, insert}
use bzy_personal.Errors.{Result, ok}
use bzy_personal.Client.Retry.{Waits}
use bzy_personal.Client.Retry.Calls.{do_retry-first}
use bzy_personal.Client.Http.{
  Client, Net, Request, Response, Decode, Body, set_auth, request_once, request, after_url,
  after_body, encoded, built, after_send, after_status, keep_out,
}

-- `setAuth` touches the headers and nothing else.
pub set_auth-parts :
    (c : Client) (req : Request)
    → (set_auth c req) ≡ record req { headers = (set_auth c req).headers }
unfolding set_auth
set_auth-parts c req = elim (Bool-cases (str_eq c.cfg.api_key "")) [
  | inr e ↦ rw e refl
  | inl e ↦ elim (Bool-cases (str_eq c.access_token "")) [
    | inl f ↦ rw (e, f) refl
    | inr f ↦ rw (e, f) refl
  ]
]

module _ {W A : Type 0} (net : Net W) where
  after_send-answered :
      (d : String → A → Result (Unit {0}) × A) (out a : A) (r : Response)
      (sent : Result Response × W) (w' : W)
      → sent ≡ (ok r, w')
      → leb 400 r.status ≡ false
      → (r.status == 204) ≡ false
      → d r.body out ≡ (ok tt, a)
      → after_send net (some d) out sent ≡ (ok tt, a, w')
  unfolding after_send after_status
  after_send-answered d out a r sent w' e fine some_content decodes =
      rw e (rw (fine, some_content, decodes) refl)

  pub request_once-answered :
      (c : Client) (method path url body : String) (d : String → A → Result (Unit {0}) × A)
      (out a : A) (r : Response) (w w' : W)
      → net.join_path c.cfg.base_url path ≡ ok url
      → net.bad_request method url ≡ none
      → ((headers : Map String)
          → net.send (record { method = method; url = url; body = some body; headers = headers }) w
            ≡ (ok r, w'))
      → leb 400 r.status ≡ false
      → (r.status == 204) ≡ false
      → d r.body out ≡ (ok tt, a)
      → request_once net c method path (some (ok body)) (some d) out w ≡ (ok tt, a, w')
  unfolding request_once after_url after_body encoded built
  request_once-answered c method path url body d out a r w w' joins builds sends fine some_content
        decodes =
      let req : Request = record {
        method = method;
        url = url;
        body = some body;
        headers =
            insert "User-Agent" c.cfg.user_agent
              (insert "Accept" "application/json" (insert "Content-Type" "application/json" []));
      } in
      let sent = ap (λ q. net.send q w) (set_auth-parts c req) ∙ sends (set_auth c req).headers in
      rw (joins, request_once)
        (rw (builds, after_url)
          (after_send-answered d out a r (net.send (set_auth c req) w) w' sent fine some_content
            decodes))

module _ {W A : Type 0} (net : Net W) (int63n : ℕ → ℕ) (waits : Waits W) where
  pub request-first :
      (c : Client) (method path : String) (b : Body) (decode : Decode A) (out a : A) (w w' : W)
      → (tries : ℕ) × (c.cfg.max_retries ≡ pos tries)
      → request_once net c method path b decode out w ≡ (ok tt, a, w')
      → request net int63n waits c method path b decode (out, w) ≡ some (ok tt, (a, w'))
  unfolding request keep_out
  request-first c method path b decode out a w w' (tries, enough) e =
      do_retry-first int63n (keep_out net waits) c.cfg.retry_wait
        (λ (o, v). let (u, o', v') = request_once net c method path b decode o v in (u, (o', v')))
        c.cfg.max_retries tries (out, w) (a, w') enough (rw e refl)
