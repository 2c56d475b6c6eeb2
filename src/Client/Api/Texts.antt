-- ===== src/Client/Api/Texts.antt =====
-- `Text` of the streams of pkg/client/chat.go and agents.go, on what the gateway serves.
use bzy_personal.Prelude.{true, ◌≡◌, refl, ◌∙◌, String, List, [], ◌∷◌, ◌++◌, map, none, some}
use bzy_personal.Prelude.Texts.{◌<>◌}
use text.Mathlib.TextLemmas.{nil-append, append_assoc, append-nil}
use bzy_personal.Errors.{Result, ok}
use bzy_personal.Runtime.{Json}
use bzy_personal.Interface.Streaming.{Event}
use bzy_personal.Interface.Streaming.Wire.{Signal, received, serve_sse}
use bzy_personal.Client.Sse.{new_reader}
use bzy_personal.Client.Sse.Received.{
  AllPlain, Stops, sent_events, run_each, then_rest, iter-serve_sse,
}
use bzy_personal.Client.Api.{on_decoded, with_value, decode_data, decoded}
use bzy_personal.Client.Api.Chat
use bzy_personal.Client.Api.Chat.{ChatDelta, no_delta, stream_text, stream_iter, add_delta}

-- The texts of the events, decoded to the deltas.
abbrev pub AllDecode : Chat.Codec → List String → List ChatDelta → Type 0
AllDecode codec [] [] = Unit
AllDecode codec (d ∷ ds) (c ∷ cs) =
    (codec.read_delta d no_delta ≡ (ok tt, c)) × AllDecode codec ds cs
AllDecode codec _ _ = ⊥

abbrev pub joined : List ChatDelta → String
joined [] = ""
joined (c ∷ cs) = c.delta <> joined cs

module _ {W : Type 0} (marshal : Json → Result String) (codec : Chat.Codec) where
  run_each-deltas :
      (es : List Event) (ds : List String) (cs : List ChatDelta) (full : String) (w : W)
      → AllPlain marshal es ds
      → AllDecode codec ds cs
      → run_each
          (λ e v. on_decoded codec.read_delta no_delta (λ d v'. add_delta codec d v') e v)
          (sent_events es ds)
          (full, w)
        ≡ (none, (full <> joined cs, w))
  unfolding run_each then_rest on_decoded with_value decode_data decoded add_delta
  run_each-deltas [] [] [] full w p h = rw (append-nil full) refl
  run_each-deltas (e ∷ es) (d ∷ ds) (c ∷ cs) full w (m, q, p) (k, h) =
      rw (k, on_decoded)
        (run_each-deltas es ds cs (full <> c.delta) w p h
          ∙ rw (append_assoc full c.delta (joined cs)) refl)
  run_each-deltas [] (d ∷ ds) cs full w p h = absurd p
  run_each-deltas (e ∷ es) [] cs full w p h = absurd p
  run_each-deltas [] [] (c ∷ cs) full w p h = absurd h
  run_each-deltas (e ∷ es) (d ∷ ds) [] full w p h = absurd h

  -- What a chat stream gives as its text is the concatenation of the deltas that the gateway has sent, in
  -- order, with no error: for events whose texts are plain and decode to the deltas, and a stream that ends.
  pub stream_text-serve_sse :
      (es : List Event) (ds : List String) (cs : List ChatDelta) (stop : Signal) (w : W)
      → AllPlain marshal es ds
      → AllDecode codec ds cs
      → Stops stop
      → stream_text codec
          (λ v. none)
          (new_reader (serve_sse true marshal (map received es ++ (stop ∷ []))).0 none)
          w
        ≡ some (none, (joined cs, w))
  unfolding stream_text stream_iter
  stream_text-serve_sse es ds cs stop w p h k =
      iter-serve_sse marshal
        (λ e v. on_decoded codec.read_delta no_delta (λ d v'. add_delta codec d v') e v) es ds stop
        ("", w) p k
      ∙ rw (run_each-deltas es ds cs "" w p h, nil-append (joined cs)) refl
