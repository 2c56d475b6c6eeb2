-- ===== src/Runner/Queue/Delivery.antt =====
-- A task goes through the stream unchanged.
use mathlib.Core.Path.{subst}
use bzy_personal.Prelude.{
  str_eq, if◌then◌else◌, Bool-cases, inl, inr, ◌≡◌, refl, ap, ◌∙◌, String, [], ◌∷◌, none, some,
}
use bzy_personal.Prelude.Map.{Map, lookup}
use bzy_personal.Errors.{Result, ok, err}
use bzy_personal.Runtime.{Env}
use bzy_personal.Runner.Queue.{
  Task, TaskStatus, Redis, Codec, RedisQueue, streams, stamped, send, received, decoded, dequeue,
  enqueue,
}

-- XADD and XREADGROUP on a stream whose group has been given every message: what is added next is
-- what is read next.
abbrev pub DeliversNext : {W : Type 0} → Redis W → RedisQueue → (W → Type 0) → Type 0
DeliversNext {W} redis q Drained =
    (values : Map String) (w : W)
    → Drained w
    → (redis.xadd q.stream values w).0 ≡ none
    → (id : String) × ((redis.xread_group q.group q.consumer q.stream
          (redis.xgroup_create q.stream q.group (redis.xadd q.stream values w).1)).0
        ≡ streams ((record { id = id; values = values } ∷ []) ∷ []))

module _ {W : Type 0} (env : Env W) (redis : Redis W) (codec : Codec) (q : RedisQueue) where
  send-dequeue :
      (Drained : W → Type 0) (r : Result String) (t : Task) (w : W)
      → DeliversNext redis q Drained
      → Drained w
      → codec.marshal t ≡ r
      → (send redis codec q r t w).0 ≡ none
      → ((raw : String) → codec.marshal t ≡ ok raw → codec.unmarshal raw ≡ ok t)
      → (dequeue redis codec q (send redis codec q r t w).2).0
        ≡ ok (some (record t { worker_id = q.consumer }))
  unfolding send dequeue received lookup
  send-dequeue Drained (err e) t w next drained m sent back = cc sent
  send-dequeue Drained (ok raw) t w next drained m sent back =
      let values : Map String = ("task_id", t.id) ∷ ("type", t.type) ∷ ("data", raw) ∷ [] in
      let (id, e) = next values w drained sent in
      ap (received redis codec q) e ∙ ap (decoded redis codec q) (back raw m)

  sent_task : (r : Result String) (t : Task) (w : W) → (send redis codec q r t w).1 ≡ t
  unfolding send
  sent_task (err e) t w = refl
  sent_task (ok raw) t w = refl

  -- A task that `Enqueue` has sent without an error to a stream whose group had read everything is
  -- what the next `Dequeue` returns: queued, under the identifier it had or a fresh one if it had
  -- none, with the payload, type and limits it was given, and with the worker's name. The decoder
  -- has to give back what was encoded.
  pub enqueue-dequeue :
      (Drained : W → Type 0) (t : Task) (w : W)
      → DeliversNext redis q Drained
      → ((w' : W) → Drained w' → Drained (env.now w').1 × Drained (env.fresh w').1)
      → Drained w
      → (enqueue env redis codec q t w).0 ≡ none
      → ((raw : String)
          → codec.marshal (enqueue env redis codec q t w).1 ≡ ok raw
          → codec.unmarshal raw ≡ ok (enqueue env redis codec q t w).1)
      → let sent = (enqueue env redis codec q t w).1 in
        ((dequeue redis codec q (enqueue env redis codec q t w).2).0
          ≡ ok (some (record sent { worker_id = q.consumer })))
        × (sent.id ≡ (if str_eq t.id "" then (env.fresh w).0 else t.id))
        × (sent.status ≡ TaskStatus.queued)
        × (sent.payload ≡ t.payload)
        × (sent.type ≡ t.type)
        × (sent.timeout ≡ t.timeout)
        × (sent.max_attempts ≡ t.max_attempts)
  unfolding enqueue stamped
  enqueue-dequeue Drained t w next kept drained sent back =
      let (t1, w1) = stamped env t w in
      let same = sent_task (codec.marshal t1) t1 w1 in
      let (id, w0) = if str_eq t.id "" then env.fresh w else (t.id, w) in
      let drained0 : Drained w0 = elim (Bool-cases (str_eq t.id "")) [
        | inl p ↦ rw p (kept w drained).1
        | inr p ↦ rw p drained
      ] in
      let decodes =
        subst (λ x. (raw : String) → codec.marshal x ≡ ok raw → codec.unmarshal raw ≡ ok x) same
          back in
      rw same (
        send-dequeue Drained (codec.marshal t1) t1 w1 next (kept w0 drained0).0 refl sent decodes,
        elim (Bool-cases (str_eq t.id "")) [ inl p ↦ rw p refl | inr p ↦ rw p refl ],
        refl,
        refl,
        refl,
        refl,
        refl,
      )
