-- ===== src/Client/Api/Polling.antt =====
-- The `Wait` of pkg/client/tasks.go and of workflows.go, against a relation of its rounds.
use mathlib.Core.Path.{subst}
use mathlib.Core.Bool.{false≢true}
use bzy_personal.Prelude.{
  ◌≡◌, ◌↔◌, ◌⊎◌, inl, inr, sym, ◌∙◌, eq_iff, Bool-cases, refl, ℕ, zero, suc, ◌≤◌, Bool, true, false,
  String, Option, none, some, arith, ◌==◌, if◌then◌else◌,
}
use bzy_personal.Errors.{Error, Result, ok, err}
use bzy_personal.Client.Api.{Link, poll, after_get, if_terminal, after_pause}
use bzy_personal.Client.Api.Tasks
use bzy_personal.Client.Api.Workflows

module _ {W A : Type 0} (get : W → Option (Result A × W)) (Final : A → Type 0)
    (pause : W → Option Error × W) where
  -- How a loop ends, after a number of rounds: with a value that is final, with the error of a read, with
  -- the error of the context; before that every read gave a value that is not final and every pause passed.
  pub data Ends : ℕ → W → Result A × W → Type 0 where
    finished : (a : A) (w w1 : W) → get w ≡ some (ok a, w1) → Final a → Ends 1 w (ok a, w1)
    refused : (e : Error) (w w1 : W) → get w ≡ some (err e, w1) → Ends 1 w (err e, w1)
    stopped :
        (a : A) (e : Error) (w w1 w2 : W)
        → get w ≡ some (ok a, w1)
        → (Final a → ⊥)
        → pause w1 ≡ (some e, w2)
        → Ends 1 w (err e, w2)
    again :
        (a : A) (n : ℕ) (w w1 w2 : W) (r : Result A × W)
        → get w ≡ some (ok a, w1)
        → (Final a → ⊥)
        → pause w1 ≡ (none, w2)
        → Ends n w2 r
        → Ends (suc n) w r

-- The test of the loop decides whether a value is final.
abbrev Decides : {A : Type 0} → (A → Bool) → (A → Type 0) → Type 0
Decides {A} terminal Final = (a : A) → (terminal a ≡ true) ↔ Final a

module _ {W A : Type 0} (get : W → Option (Result A × W)) (terminal : A → Bool) (Final : A → Type 0)
    (decides : Decides terminal Final) (pause : W → Option Error × W) where
  not_final : (a : A) → (Final a → ⊥) → terminal a ≡ false
  not_final a unfinished = elim (Bool-cases (terminal a)) [
    | inl p ↦ absurd (unfinished ((decides a).0 p))
    | inr p ↦ p
  ]

  non_final : (a : A) → terminal a ≡ false → Final a → ⊥
  non_final a p final = false≢true (sym p ∙ (decides a).1 final)

  Ends-poll :
      (fuel n : ℕ) (w : W) (r : Result A × W)
      → n ≤ fuel
      → Ends get Final pause n w r
      → poll get terminal pause fuel w ≡ some r
  unfolding poll after_get if_terminal after_pause
  Ends-poll (suc fuel) _ _ _ h (finished a w w1 g t) = rw (g, poll) (rw ((decides a).1 t) refl)
  Ends-poll (suc fuel) _ _ _ h (refused e w w1 g) = rw (g, poll) refl
  Ends-poll (suc fuel) _ _ _ h (stopped a e w w1 w2 g t p) =
      rw (g, poll) (rw (not_final a t) (rw p refl))
  Ends-poll (suc fuel) _ _ _ h (again a n w w1 w2 r g t p rest) =
      rw (g, poll) (rw (not_final a t) (rw p (Ends-poll fuel n w2 r (omega arith) rest)))
  Ends-poll zero _ _ _ h (finished a w w1 g t) = absurd (omega arith)
  Ends-poll zero _ _ _ h (refused e w w1 g) = absurd (omega arith)
  Ends-poll zero _ _ _ h (stopped a e w w1 w2 g t p) = absurd (omega arith)
  Ends-poll zero _ _ _ h (again a n w w1 w2 r g t p rest) = absurd (omega arith)

  abbrev Found : ℕ → W → Result A × W → Type 0
  Found fuel w r = (n : ℕ) × (n ≤ fuel) × Ends get Final pause n w r

  module _ (fuel : ℕ) (w w1 : W) (a : A) (r : Result A × W)
      (later : (v : W) → poll get terminal pause fuel v ≡ some r → Found fuel v r) where
    after_pause-Ends :
        (x : Option Error × W)
        → get w ≡ some (ok a, w1)
        → terminal a ≡ false
        → pause w1 ≡ x
        → after_pause get terminal pause (λ v. poll get terminal pause fuel v) x ≡ some r
        → Found (suc fuel) w r
    unfolding after_pause
    after_pause-Ends (some e, w2) g t p h = (
      1,
      omega arith,
      subst (λ q. Ends get Final pause 1 w q) (cc h) (stopped a e w w1 w2 g (non_final a t) p),
    )
    after_pause-Ends (none, w2) g t p h =
        let (n, few, rest) = later w2 h in
        (suc n, omega (arith, few), again a n w w1 w2 r g (non_final a t) p rest)

    if_terminal-Ends :
        (b : Bool)
        → get w ≡ some (ok a, w1)
        → terminal a ≡ b
        → if_terminal get terminal pause (λ v. poll get terminal pause fuel v) a w1 b ≡ some r
        → Found (suc fuel) w r
    unfolding if_terminal
    if_terminal-Ends true g t h = (
      1,
      omega arith,
      subst (λ q. Ends get Final pause 1 w q) (cc h) (finished a w w1 g ((decides a).0 t)),
    )
    if_terminal-Ends false g t h = after_pause-Ends (pause w1) g t refl h

  after_get-Ends :
      (fuel : ℕ) (w : W) (r : Result A × W) (x : Option (Result A × W))
      → ((v : W) → poll get terminal pause fuel v ≡ some r → Found fuel v r)
      → get w ≡ x
      → after_get get terminal pause (λ v. poll get terminal pause fuel v) x ≡ some r
      → Found (suc fuel) w r
  unfolding after_get
  after_get-Ends fuel w r none later g h = absurd (cc h)
  after_get-Ends fuel w r (some (err e, w1)) later g h =
      (1, omega arith, subst (λ q. Ends get Final pause 1 w q) (cc h) (refused e w w1 g))
  after_get-Ends fuel w r (some (ok a, w1)) later g h =
      if_terminal-Ends fuel w w1 a r later (terminal a) g refl h

  poll-Ends :
      (fuel : ℕ) (w : W) (r : Result A × W)
      → poll get terminal pause fuel w ≡ some r
      → Found fuel w r
  unfolding poll
  poll-Ends zero w r h = absurd (cc h)
  poll-Ends (suc fuel) w r h = after_get-Ends fuel w r (get w) (λ v k. poll-Ends fuel v r k) refl h

-- The statuses after which a task does not change.
abbrev pub IsFinal : String → Type 0
IsFinal s = (s ≡ "completed") ⊎ ((s ≡ "failed") ⊎ ((s ≡ "dead") ⊎ (s ≡ "cancelled")))

-- The same of a run of a workflow.
abbrev pub IsOver : String → Type 0
IsOver s = (s ≡ "completed") ⊎ ((s ≡ "failed") ⊎ (s ≡ "cancelled"))

module _ {W : Type 0} (l : Link W) (pause : ℕ → W → Option Error × W) where
  is_terminal-IsFinal :
      (codec : Tasks.Codec) → Decides (λ t. Tasks.is_terminal l codec t) (λ t. IsFinal t.status)
  unfolding Tasks.is_terminal
  is_terminal-IsFinal codec t = ground (
    arith,
    eq_iff t.status "completed",
    eq_iff t.status "failed",
    eq_iff t.status "dead",
    eq_iff t.status "cancelled",
  )

  is_terminal-IsOver :
      (codec : Workflows.Codec)
      → Decides (λ t. Workflows.is_terminal l codec t) (λ t. IsOver t.status)
  unfolding Workflows.is_terminal
  is_terminal-IsOver codec t =
      ground
        (arith, eq_iff t.status "completed", eq_iff t.status "failed", eq_iff t.status "cancelled")

  -- `Wait` on a task returns exactly what the relation of its rounds says, for each number of rounds that the
  -- fuel allows: the first status that is completed, failed, dead or cancelled, with the task that has it, or
  -- the error of a read or of the context before that. The pauses are the interval that is asked for, or one
  -- second for an interval of 0.
  pub wait-Ends :
      (codec : Tasks.Codec) (fuel : ℕ) (id : String) (interval : ℕ) (w : W)
      (r : Result Tasks.Task × W)
      → (Tasks.wait l codec pause fuel id interval w ≡ some r) ↔ (
          (n : ℕ) × (n ≤ fuel)
          × Ends
              (λ v. Tasks.get l codec id v)
              (λ t. IsFinal t.status)
              (λ v. pause (if interval == 0 then 1000000000 else interval) v)
              n
              w
              r)
  unfolding Tasks.wait
  wait-Ends codec fuel id interval w r = (
    λ h. poll-Ends _ _ _ (is_terminal-IsFinal codec) _ fuel w r h,
    λ (n, few, e). Ends-poll _ _ _ (is_terminal-IsFinal codec) _ fuel n w r few e,
  )

  -- `Wait` on a run of a workflow likewise: the statuses are completed, failed and cancelled, and an interval
  -- of 0 is two seconds.
  pub wait_run-Ends :
      (codec : Workflows.Codec) (fuel : ℕ) (id : String) (interval : ℕ) (w : W)
      (r : Result Workflows.WorkflowRun × W)
      → (Workflows.wait l codec pause fuel id interval w ≡ some r) ↔ (
          (n : ℕ) × (n ≤ fuel)
          × Ends
              (λ v. Workflows.get_run l codec id v)
              (λ t. IsOver t.status)
              (λ v. pause (if interval == 0 then 2000000000 else interval) v)
              n
              w
              r)
  unfolding Workflows.wait
  wait_run-Ends codec fuel id interval w r = (
    λ h. poll-Ends _ _ _ (is_terminal-IsOver codec) _ fuel w r h,
    λ (n, few, e). Ends-poll _ _ _ (is_terminal-IsOver codec) _ fuel n w r few e,
  )
