-- ===== src/Interface/Streaming/Wire/Frames.antt =====
-- The frames in the body that `ServeSSE` writes.
use bzy_personal.Prelude.{◌≡◌, refl, String, List, ◌∷◌}
use bzy_personal.Prelude.Texts.{◌<>◌}
use bzy_personal.Errors.{Result, ok}
use bzy_personal.Runtime.{Json}
use bzy_personal.Interface.Streaming.{Event}
use bzy_personal.Interface.Streaming.Wire.{
  Signal, received, frame, serve_loop, serve_on, write_event, after_marshal,
}

pub serve_loop-received :
    (marshal : Json → Result String) (e : Event) (d : String) (signals : List Signal)
    → marshal e.payload ≡ ok d
    → (serve_loop marshal (received e ∷ signals)).0 ≡ frame e d <> (serve_loop marshal signals).0
unfolding serve_loop write_event after_marshal serve_on
serve_loop-received marshal e d signals h = rw (h, write_event) refl
