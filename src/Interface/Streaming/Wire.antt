-- ===== src/Interface/Streaming/Wire.antt =====
-- `ServeSSE` and `writeSSEEvent` of apps/bzy-interface/internal/streaming/streaming.go: what is written
-- to the body of a response. `json.Marshal` is a parameter.
pub mod Frames
use bzy_personal.Prelude.{
  Bool, true, false, String, List, [], ◌∷◌, Option, none, some, str_eq, if◌then◌else◌,
}
use bzy_personal.Errors.{Error, text, Result, ok, err, ◌<>◌}
use bzy_personal.Runtime.{Json}
use bzy_personal.Interface.Streaming.{Event}

-- A field is left out where its text is empty.
unfoldable pub optional_field : String → String → String
optional_field name value = if str_eq value "" then "" else name <> (value <> "\n")

-- What `writeSSEEvent` writes for an event whose data is the text `d`.
unfoldable pub frame : Event → String → String
unfolding optional_field
frame e d =
    optional_field "event: " e.event
    <> (optional_field "id: " e.id <> ("data: " <> (d <> ("\n" <> "\n"))))

-- Data that cannot be encoded leaves the fields before it written.
after_marshal : Event → Result String → String × Option Error
unfolding optional_field frame
after_marshal e (ok d) = (frame e d, none)
after_marshal e (err x) = (optional_field "event: " e.event <> optional_field "id: " e.id, some x)

unfoldable pub write_event : (Json → Result String) → Event → String × Option Error
unfolding after_marshal
write_event marshal e = after_marshal e (marshal e.payload)

-- What a round of the loop of `ServeSSE` finds.
pub data Signal : Type 0 where
  context_over closed : Signal
  received : Event → Signal

abbrev pub done_frame : String
done_frame = "event: done\ndata: {}\n\n"

serve_on : (String × Option Error) → String × Option Error → String × Option Error
serve_on later (out, some e) = (out, some e)
serve_on (more, e) (out, none) = (out <> more, e)

-- The loop, for the signals of its rounds. At the end of the list it is still waiting.
unfoldable pub serve_loop : (Json → Result String) → List Signal → String × Option Error
unfolding serve_on write_event
serve_loop marshal [] = ("", none)
serve_loop marshal (context_over ∷ _) = ("", none)
serve_loop marshal (closed ∷ _) = (done_frame, none)
serve_loop marshal (received e ∷ signals) =
    serve_on (serve_loop marshal signals) (write_event marshal e)

-- `ServeSSE`, by whether the response can be flushed.
unfoldable pub serve_sse : Bool → (Json → Result String) → List Signal → String × Option Error
unfolding serve_loop
serve_sse false marshal signals = ("", some (text "streaming not supported"))
serve_sse true marshal signals = serve_loop marshal signals
