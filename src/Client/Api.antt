-- ===== src/Client/Api.antt =====
-- What the sub-clients of pkg/client share: a call that is decoded, a call with no answer, a stream that is
-- opened, and the loop of the two `Wait`s.
pub mod Tasks
pub mod Chat
pub mod Memory
pub mod Documents
pub mod Agents
pub mod Workflows
pub mod Polling
pub mod Texts
pub mod Recorded
mod Examples
use bzy_personal.Prelude.{
  ℕ, zero, suc, Bool, true, false, String, List, [], ◌∷◌, Option, none, some, leb, str_eq,
  if◌then◌else◌,
}
use bzy_personal.Prelude.Map.{Map}
use bzy_personal.Errors.{Error, wrap, Result, ok, err}
use bzy_personal.Client.Retry.{Waits}
use bzy_personal.Client.Http.{Client, Net, Body, Decode, Stream, decode_error, request, raw_request}
use bzy_personal.Client.Sse.{SseEvent, Reader, new_reader}

-- A sub-client: its client, and what a call of it goes through.
pub record Link (W : Type 0) : Type 0 where
  pub net : Net W
  pub int63n : ℕ → ℕ
  pub waits : Waits W
  pub client : Client

-- How an answer is decoded into a value that is there.
abbrev pub Reads : Type 0 → Type 0
Reads A = String → A → Result (Unit {0}) × A

decoded : {A : Type 0} → Result (Unit {0}) × A → Result A
decoded (ok u, a) = ok a
decoded (err e, a) = err e

-- `DecodeData`, into a zero value.
unfoldable pub decode_data : {A : Type 0} → Reads A → A → SseEvent → Result A
unfolding decoded
decode_data reads empty e = decoded (reads e.payload empty)

module _ {W A : Type 0} where
  with_value : (A → W → Option Error × W) → W → Result A → Option Error × W
  with_value fn w (ok a) = fn a w
  with_value fn w (err e) = (some e, w)

  -- A function on decoded values, as one on events.
  unfoldable pub on_decoded :
      Reads A → A → (A → W → Option Error × W) → SseEvent → W → Option Error × W
  unfolding with_value decode_data
  on_decoded reads empty fn e w = with_value fn w (decode_data reads empty e)

  answer_of : Option (Result (Unit {0}) × (A × W)) → Option (Result A × W)
  answer_of none = none
  answer_of (some (ok u, (a, w))) = some (ok a, w)
  answer_of (some (err e, (a, w))) = some (err e, w)

  -- A request whose answer is decoded into a zero value. `none` is a panic of the waits.
  unfoldable pub call : Link W → String → String → Body → Reads A → A → W → Option (Result A × W)
  unfolding answer_of
  call l method path body reads empty w =
      answer_of (request l.net l.int63n l.waits l.client method path body (some reads) (empty, w))

  -- `fmt.Errorf(prefix + "%w", err)` on the way out.
  unfoldable pub wrapped : String → Option (Result A × W) → Option (Result A × W)
  wrapped prefix none = none
  wrapped prefix (some (ok a, w)) = some (ok a, w)
  wrapped prefix (some (err e, w)) = some (err (wrap prefix e), w)

unfoldable pub field : {W A B : Type 0} → (A → B) → Option (Result A × W) → Option (Result B × W)
field f none = none
field f (some (ok a, w)) = some (ok (f a), w)
field f (some (err e, w)) = some (err e, w)

module _ {W : Type 0} where
  error_of : Option (Result (Unit {0}) × (Unit {0} × W)) → Option (Option Error × W)
  error_of none = none
  error_of (some (ok u, (a, w))) = some (none, w)
  error_of (some (err e, (a, w))) = some (some e, w)

  -- A request with no body whose answer is dropped.
  unfoldable pub command : Link W → String → String → W → Option (Option Error × W)
  unfolding error_of
  command l method path w =
      error_of (request l.net l.int63n l.waits l.client method path none none (tt, w))

  after_open : Link W → String → Result Stream × W → Result Reader × W
  after_open l prefix (err e, w) = (err (wrap prefix e), w)
  after_open l prefix (ok s, w) =
      if leb 400 s.status
      then (err (decode_error l.net s.status s.body), w)
      else (ok (new_reader s.body s.ending), w)

  -- A request for a stream of events, and the test of its status.
  unfoldable pub open_stream : Link W → String → String → String → Body → W → Result Reader × W
  unfolding after_open
  open_stream l prefix method path body w =
      after_open l prefix
        (raw_request l.net l.client method path body (("Accept", "text/event-stream") ∷ []) w)

-- The loop of a `Wait`: `get` asks for the state, `terminal` tests it, and `pause` is the `select` between the
-- context and the timer, for an interval. `none` is a panic of the waits of `get`, or a loop out of fuel.
module _ {W A : Type 0} (get : W → Option (Result A × W)) (terminal : A → Bool)
    (pause : W → Option Error × W) where
  after_pause : (W → Option (Result A × W)) → Option Error × W → Option (Result A × W)
  after_pause again (none, w) = again w
  after_pause again (some e, w) = some (err e, w)

  if_terminal : (W → Option (Result A × W)) → A → W → Bool → Option (Result A × W)
  unfolding after_pause
  if_terminal again a w true = some (ok a, w)
  if_terminal again a w false = after_pause again (pause w)

  after_get : (W → Option (Result A × W)) → Option (Result A × W) → Option (Result A × W)
  unfolding if_terminal
  after_get again none = none
  after_get again (some (err e, w)) = some (err e, w)
  after_get again (some (ok a, w)) = if_terminal again a w (terminal a)

  unfoldable pub poll : ℕ → W → Option (Result A × W)
  unfolding after_get
  poll zero w = none
  poll (suc fuel) w = after_get (λ w'. poll fuel w') (get w)
