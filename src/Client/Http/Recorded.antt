-- ===== src/Client/Http/Recorded.antt =====
-- What the client of pkg/client/client.go sends, seen by a transport that writes down the method and
-- the path of each request.
use bzy_personal.Prelude.{◌≡◌, refl, ap, ℕ, String, List, [], ◌∷◌, none, some}
use bzy_personal.Prelude.Ints.{pos}
use bzy_personal.Errors.{Result, ok, err}
use bzy_personal.Client.Retry.{Waits}
use bzy_personal.Client.Http.{
  Client, Net, Response, Stream, Decode, Body, encoded, after_status, after_send, built, after_body,
  after_url, request_once, request, raw_built, raw_body, raw_url, raw_request,
}
use bzy_personal.Client.Http.Answered.{set_auth-parts, request-first}

-- The last request first.
abbrev pub Log : Type 0
Log = List (String × String)

abbrev no_content : Response
no_content = record { status = 204; body = "" }

abbrev pub empty_stream : Stream
empty_stream = record { status = 200; body = ""; ending = none }

-- The URL of a request is its path, and no request is refused: one for a stream gets an empty one, any other
-- has no content for an answer.
abbrev pub recording : Net Log
recording = record {
  join_path = λ base path. ok path;
  bad_request = λ method url. none;
  send = λ req w. (ok no_content, (req.method, req.url) ∷ w);
  stream = λ req w. (ok empty_stream, (req.method, req.url) ∷ w);
  error_body = λ body. (none, ("", body, ""));
  status_text = λ status. "";
}

-- There is no body, or it is encoded without an error.
abbrev pub IsEncoded : Body → Type 0
IsEncoded none = Unit
IsEncoded (some (ok s)) = Unit
IsEncoded (some (err e)) = ⊥

module _ {A : Type 0} where
  after_send-recorded :
      (decode : Decode A) (out : A) (sent : Result Response × Log) (w : Log)
      → sent ≡ (ok no_content, w)
      → after_send recording decode out sent ≡ (ok tt, out, w)
  unfolding after_send after_status
  after_send-recorded none out sent w e = rw e refl
  after_send-recorded (some d) out sent w e = rw e refl

  request_once-recorded :
      (c : Client) (method path : String) (b : Body) (decode : Decode A) (out : A) (w : Log)
      → IsEncoded b
      → request_once recording c method path b decode out w ≡ (ok tt, out, (method, path) ∷ w)
  unfolding request_once after_url after_body encoded built
  request_once-recorded c method path none decode out w fine =
      after_send-recorded decode out _ ((method, path) ∷ w)
        (ap (λ q. recording.send q w) (set_auth-parts c _))
  request_once-recorded c method path (some (ok s)) decode out w fine =
      after_send-recorded decode out _ ((method, path) ∷ w)
        (ap (λ q. recording.send q w) (set_auth-parts c _))
  request_once-recorded c method path (some (err e)) decode out w fine = absurd fine

  pub request-recorded :
      (int63n : ℕ → ℕ) (waits : Waits Log) (c : Client) (method path : String) (b : Body)
      (decode : Decode A) (out : A) (w : Log)
      → (tries : ℕ) × (c.cfg.max_retries ≡ pos tries)
      → IsEncoded b
      → request recording int63n waits c method path b decode (out, w)
        ≡ some (ok tt, (out, (method, path) ∷ w))
  request-recorded int63n waits c method path b decode out w enough fine =
      request-first recording int63n waits c method path b decode out out w ((method, path) ∷ w)
        enough (request_once-recorded c method path b decode out w fine)

pub raw_request-recorded :
    (c : Client) (method path : String) (b : Body) (w : Log)
    → IsEncoded b
    → raw_request recording c method path b (("Accept", "text/event-stream") ∷ []) w
      ≡ (ok empty_stream, (method, path) ∷ w)
unfolding raw_request raw_url raw_body encoded raw_built
raw_request-recorded c method path none w fine = ap (λ q. recording.stream q w) (set_auth-parts c _)
raw_request-recorded c method path (some (ok s)) w fine =
    ap (λ q. recording.stream q w) (set_auth-parts c _)
raw_request-recorded c method path (some (err e)) w fine = absurd fine
