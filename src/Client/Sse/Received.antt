-- ===== src/Client/Sse/Received.antt =====
-- `Iter` of pkg/client/sse.go on the body that `ServeSSE` of apps/bzy-interface/internal/streaming writes.
use mathlib.Core.Path.{subst}
use bzy_personal.Prelude.{
  ◌≡◌, refl, ℕ, zero, suc, ◌<◌, ◌⊎◌, inl, inr, true, String, List, [], ◌∷◌, ◌++◌, map, Option, none,
  some, length, arith,
}
use bzy_personal.Prelude.Texts.{split_at, has_prefix, trim_right}
use bzy_personal.Errors.{Error, Result, ok}
use bzy_personal.Runtime.{Json}
use bzy_personal.Interface.Streaming.{Event}
use bzy_personal.Interface.Streaming.Wire.{
  Signal, received, closed, context_over, serve_loop, serve_sse,
}
use bzy_personal.Interface.Streaming.Wire.Frames.{serve_loop-received}
use bzy_personal.Client.Sse.{
  SseEvent, eof, next_from, dispatch, on_line, after_last, last_line, after_fn, after_next,
  unless_ended, new_reader, next, iter, iter_from,
}
use bzy_personal.Client.Sse.Served.{as_read, Plain, next-frame, next-done_frame, frame-lines}

-- The events, encoded to the texts, are plain.
abbrev pub AllPlain : (Json → Result String) → List Event → List String → Type 0
AllPlain marshal [] [] = Unit
AllPlain marshal (e ∷ es) (d ∷ ds) = (marshal e.payload ≡ ok d) × Plain e d × AllPlain marshal es ds
AllPlain marshal _ _ = ⊥

-- What a client should see.
abbrev pub sent_events : List Event → List String → List SseEvent
sent_events (e ∷ es) (d ∷ ds) = as_read e d ∷ sent_events es ds
sent_events _ _ = []

-- The stream is over: the channel is closed, or the context of the request ends.
abbrev pub Stops : Signal → Type 0
Stops s = (s ≡ closed) ⊎ (s ≡ context_over)

module _ {W : Type 0} (fn : SseEvent → W → Option Error × W) where
  unfoldable pub then_rest : (W → Option Error × W) → Option Error × W → Option Error × W
  then_rest again (some e, w) = (some e, w)
  then_rest again (none, w) = again w

  -- A function, called on one event after the other until it gives an error.
  unfoldable pub run_each : List SseEvent → W → Option Error × W
  unfolding then_rest
  run_each [] w = (none, w)
  run_each (e ∷ es) w = then_rest (λ w'. run_each es w') (fn e w)

module _ {W : Type 0} (marshal : Json → Result String) (fn : SseEvent → W → Option Error × W) where
  abbrev body : List Event → Signal → String
  body es stop = (serve_loop marshal (map received es ++ (stop ∷ []))).0

  next-stop : (stop : Signal) → Stops stop → (next (new_reader (body [] stop) none)).0 ≡ eof
  unfolding serve_loop next new_reader next_from split_at last_line after_last on_line dispatch
      trim_right has_prefix
  next-stop stop (inl h) = rw h next-done_frame
  next-stop stop (inr h) = rw h refl

  after_fn-then_rest :
      (again : W → Option (Option Error × W)) (more : W → Option Error × W) (x : Option Error × W)
      → ((w : W) → again w ≡ some (more w))
      → after_fn (λ w. none) fn again x ≡ some (then_rest fn more x)
  unfolding then_rest after_fn
  after_fn-then_rest again more (some e, w) h = refl
  after_fn-then_rest again more (none, w) h = h w

  iter_from-sent :
      (fuel : ℕ) (es : List Event) (ds : List String) (stop : Signal) (w : W)
      → AllPlain marshal es ds
      → Stops stop
      → length (split_at 10 (body es stop)) < fuel
      → iter_from (λ w. none) fn fuel (new_reader (body es stop) none) w
        ≡ some (run_each fn (sent_events es ds) w)
  unfolding iter_from run_each after_next unless_ended
  iter_from-sent zero es ds stop w p k h = absurd (omega arith)
  iter_from-sent (suc fuel) [] [] stop w p k h = rw (next-stop stop k) refl
  iter_from-sent (suc fuel) [] (d ∷ ds) stop w p k h = absurd p
  iter_from-sent (suc fuel) (e ∷ es) [] stop w p k h = absurd p
  iter_from-sent (suc fuel) (e ∷ es) (d ∷ ds) stop w (m, q, p) k h =
      let same = serve_loop-received marshal e d (map received es ++ (stop ∷ [])) m in
      let room : length (split_at 10 (body es stop)) < fuel = omega (
        arith,
        frame-lines e d (body es stop),
        subst (λ t. length (split_at 10 t) < suc fuel) same h,
      ) in
      rw (same, next-frame none e d (body es stop) q)
        (after_fn-then_rest
          (λ w'. iter_from (λ w. none) fn fuel (new_reader (body es stop) none) w')
          (λ w'. run_each fn (sent_events es ds) w') (fn (as_read e d) w)
          (λ w'. iter_from-sent fuel es ds stop w' p k room))

  -- ServeSSE writes, `Iter` reads: for events whose texts are plain, in their encodings, and a stream that the
  -- server closes or whose request ends there, `Iter` calls its function with each event that was sent, in
  -- order, until one call gives an error, which it returns; otherwise it returns nil. It does not run out of
  -- fuel. The context of the client does not end.
  pub iter-serve_sse :
      (es : List Event) (ds : List String) (stop : Signal) (w : W)
      → AllPlain marshal es ds
      → Stops stop
      → iter
          (λ w. none)
          fn
          (new_reader (serve_sse true marshal (map received es ++ (stop ∷ []))).0 none)
          w
        ≡ some (run_each fn (sent_events es ds) w)
  unfolding iter new_reader serve_sse
  iter-serve_sse es ds stop w p k =
      iter_from-sent (suc (length (split_at 10 (body es stop)))) es ds stop w p k (omega arith)
