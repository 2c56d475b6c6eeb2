-- ===== src/Client/Sse.antt =====
-- pkg/client/sse.go: the reader of a stream of events. The body of the response is the list of its
-- lines: the texts before each newline, and last the text before the end of the body.
pub mod Served
pub mod Received
mod Examples
use bzy_personal.Prelude.{
  ℕ, zero, suc, ◌+◌, Bool, true, false, String, List, [], ◌∷◌, Option, none, some, ◌||◌, str_eq,
  if◌then◌else◌, length,
}
use bzy_personal.Prelude.Texts.{has_prefix, drop_prefix, trim_right, trim_space, is_break, split_at}
use bzy_personal.Errors.{Error, wrap, Result, ok, err}

pub record SseEvent : Type 0 where
  pub id : String
  pub event : String
  pub payload : String

abbrev pub no_event : SseEvent
no_event = record { id = ""; event = ""; payload = "" }

-- The lines of a body, and the error that ends it where that is not the end of the file.
pub record Reader : Type 0 where
  pub lines : List String
  pub ending : Option Error

unfoldable pub new_reader : String → Option Error → Reader
new_reader body ending = record { lines = split_at 10 body; ending = ending }

-- What a line does: it ends the stream, it gives the event out, or the loop goes on with an event.
pub data Outcome : Type 0 where
  over : Outcome
  dispatched go_on : SseEvent → Outcome

-- A blank line.
unfoldable pub dispatch : SseEvent → Outcome
dispatch e =
    if str_eq e.event "done" || str_eq e.payload "[DONE]"
    then over
    else if str_eq e.payload ""
    then go_on no_event
    else dispatched e

-- The `switch` on a line.
unfoldable pub on_line : String → SseEvent → Outcome
on_line line e =
    if has_prefix "id:" line
    then go_on (record e { id = trim_space (drop_prefix "id:" line) })
    else if has_prefix "event:" line
    then go_on (record e { event = trim_space (drop_prefix "event:" line) })
    else if has_prefix "data:" line
    then go_on (record e { payload = trim_space (drop_prefix "data:" line) })
    else if str_eq line ""
    then dispatch e
    else go_on e

-- What `Next` returns: an event, `io.EOF`, or another error.
pub data Answer : Type 0 where
  event : SseEvent → Answer
  eof : Answer
  failed : Error → Answer

after_last : Outcome → Answer
after_last over = eof
after_last (dispatched e) = event e
after_last (go_on e) = eof

-- The line that ends with the body.
last_line : Option Error → SseEvent → String → Answer
unfolding on_line after_last
last_line (some x) e line = failed (wrap "sse read: " x)
last_line none e line = after_last (on_line (trim_right is_break line) e)

after_line : (SseEvent → Answer × List String) → List String → Outcome → Answer × List String
after_line again rest over = (eof, rest)
after_line again rest (dispatched e) = (event e, rest)
after_line again rest (go_on e) = again e

next_from : Option Error → List String → SseEvent → Answer × List String
unfolding last_line after_line on_line
next_from ending [] e = (last_line ending e "", [])
next_from ending (line ∷ []) e = (last_line ending e line, [])
next_from ending (line ∷ more ∷ lines) e =
    after_line (λ e'. next_from ending (more ∷ lines) e') (more ∷ lines)
      (on_line (trim_right is_break line) e)

-- `Next`
unfoldable pub next : Reader → Answer × Reader
unfolding next_from
next r = let (a, rest) = next_from r.ending r.lines no_event in (a, record r { lines = rest })

module _ {W : Type 0} (ended : W → Option Error) (fn : SseEvent → W → Option Error × W) where
  -- What `Iter` does with an answer. `none` is a loop that has run out of fuel.
  after_fn : (W → Option (Option Error × W)) → Option Error × W → Option (Option Error × W)
  after_fn again (some e, w) = some (some e, w)
  after_fn again (none, w) = again w

  after_next : (W → Option (Option Error × W)) → W → Answer → Option (Option Error × W)
  unfolding after_fn
  after_next again w eof = some (none, w)
  after_next again w (failed e) = some (some e, w)
  after_next again w (event e) = after_fn again (fn e w)

  -- The test of the context at the head of a round.
  unless_ended : Option (Option Error × W) → W → Option Error → Option (Option Error × W)
  unless_ended rest w (some e) = some (some e, w)
  unless_ended rest w none = rest

  iter_from : ℕ → Reader → W → Option (Option Error × W)
  unfolding after_next unless_ended
  iter_from zero r w = none
  iter_from (suc fuel) r w =
      let (a, r') = next r in unless_ended (after_next (λ w'. iter_from fuel r' w') w a) w (ended w)

  -- `Iter`: each event takes a line at least.
  unfoldable pub iter : Reader → W → Option (Option Error × W)
  unfolding iter_from
  iter r w = iter_from (suc (length r.lines)) r w
