-- ===== src/Client/Api/Recorded.antt =====
-- What the sub-clients of pkg/client send, seen by the transport that writes requests down.
use bzy_personal.Prelude.{◌≡◌, ap, ℕ, String, [], ◌∷◌, Option, none, some}
use bzy_personal.Prelude.Ints.{pos}
use bzy_personal.Errors.{ok}
use bzy_personal.Client.Http.{Client, Body}
use bzy_personal.Client.Http.Recorded.{
  Log, recording, IsEncoded, request-recorded, raw_request-recorded,
}
use bzy_personal.Client.Api.{
  Link, Reads, answer_of, call, error_of, command, after_open, open_stream,
}

abbrev pub recorder : Client → Link Log
recorder c = record { net = recording; int63n = λ n. 0; waits = λ d w. (none, w); client = c }

-- The requests of a call that has returned.
abbrev pub log_of : {R : Type 0} → Option (R × Log) → Log
log_of none = []
log_of (some (r, w)) = w

module _ (c : Client) (enough : (tries : ℕ) × (c.cfg.max_retries ≡ pos tries)) where
  pub call-recorded :
      {A : Type 0} (method path : String) (b : Body) (reads : Reads A) (empty : A)
      → IsEncoded b
      → call (recorder c) method path b reads empty [] ≡ some (ok empty, (method, path) ∷ [])
  unfolding call answer_of
  call-recorded method path b reads empty fine = ap answer_of (
      request-recorded (λ n. 0) (λ d w. (none, w)) c method path b (some reads) empty [] enough
        fine)

  pub command-recorded :
      (method path : String)
      → command (recorder c) method path [] ≡ some (none, (method, path) ∷ [])
  unfolding command error_of
  command-recorded method path = ap error_of (
      request-recorded {A = Unit} (λ n. 0) (λ d w. (none, w)) c method path none none tt [] enough
        tt)

pub open_stream-recorded :
    (c : Client) (prefix method path : String) (b : Body)
    → IsEncoded b
    → (open_stream (recorder c) prefix method path b []).1 ≡ (method, path) ∷ []
unfolding open_stream after_open
open_stream-recorded c prefix method path b fine =
    ap (λ x. (after_open (recorder c) prefix x).1) (raw_request-recorded c method path b [] fine)
