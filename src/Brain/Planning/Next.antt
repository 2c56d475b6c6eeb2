-- ===== src/Brain/Planning/Next.antt =====
-- `NextTask` against the definition of a ready task.
use mathlib.Core.Bool.{false≢true}
use bzy_personal.Prelude.{
  ◌≡◌, ◌⊎◌, ◌↔◌, inl, inr, refl, ap, sym, ◌∙◌, Bool, true, false, String, List, [], ◌∷◌, ◌++◌,
  Option, none, some, ◌&&◌, if◌then◌else◌, All, Any, arith, Bool-cases, eq_iff,
}
use bzy_personal.Prelude.Map.{Map, lookup, insert, lookup-insert}
use bzy_personal.Brain.Planning.{
  TaskStatus, pending, completed, Task, Plan, is_pending, is_completed, completed_ids, is_done,
  all_done, first_ready, next_task,
}

-- Some task of the list has this identifier and is completed.
abbrev pub IsDone : List Task → String → Type 0
IsDone ts dep = Any (λ u. (u.id ≡ dep) × (u.status ≡ completed)) ts

abbrev pub IsReady : List Task → Task → Type 0
IsReady ts t = (t.status ≡ pending) × All (IsDone ts) t.dependencies

mark : (done : Map Bool) (t : Task) → Map Bool
mark done t = if is_completed t.status then insert t.id true done else done

is_done-mark :
    (done : Map Bool) (t : Task) (dep : String)
    → (is_done (mark done t) dep ≡ true)
      ↔ ((is_done done dep ≡ true) ⊎ ((t.id ≡ dep) × (t.status ≡ completed)))
unfolding is_done mark
is_done-mark done t dep = (
  (λ h. ground (arith, lookup-insert t.id dep true done, eq_iff t.id dep)),
  (λ h. ground (arith, lookup-insert t.id dep true done, eq_iff t.id dep)),
)

is_done-completed_ids :
    (done : Map Bool) (ts : List Task) (dep : String)
    → (is_done (completed_ids done ts) dep ≡ true) ↔ ((is_done done dep ≡ true) ⊎ IsDone ts dep)
unfolding completed_ids mark
is_done-completed_ids done [] dep = (inl, λ o. elim o [ inl h ↦ h | inr h ↦ absurd h ])
is_done-completed_ids done (t ∷ ts) dep =
    let ih = is_done-completed_ids (mark done t) ts dep in
    let m = is_done-mark done t dep in
    (
      (λ h. elim (ih.0 h) [
        | inl a ↦ elim (m.0 a) [ inl b ↦ inl b | inr b ↦ inr (inl b) ]
        | inr a ↦ inr (inr a)
      ]),
      (λ h. elim h [
        | inl a ↦ ih.1 (inl (m.1 (inl a)))
        | inr (inl a) ↦ ih.1 (inl (m.1 (inr a)))
        | inr (inr a) ↦ ih.1 (inr a)
      ]),
    )

and_iff : (a b : Bool) → ((a && b) ≡ true) ↔ ((a ≡ true) × (b ≡ true))
and_iff true b = ((λ h. (refl, h)), (λ h. h.1))
and_iff false b = ((λ h. cc), (λ h. cc))

all_done_iff :
    (done : Map Bool) (P : String → Type 0) (deps : List String)
    → ((dep : String) → (is_done done dep ≡ true) ↔ P dep)
    → (all_done done deps ≡ true) ↔ All P deps
unfolding all_done
all_done_iff done P [] h = ((λ _. tt), (λ _. refl))
all_done_iff done P (d ∷ deps) h =
    let ih = all_done_iff done P deps h in
    let both = and_iff (is_done done d) (all_done done deps) in
    ((λ e. ((h d).0 (both.0 e).0, ih.0 (both.0 e).1)), (λ q. both.1 ((h d).1 q.0, ih.1 q.1)))

is_pending_iff : (s : TaskStatus) → (is_pending s ≡ true) ↔ (s ≡ pending)
is_pending_iff pending = ((λ _. refl), (λ _. refl))
is_pending_iff _ = ((λ h. cc), (λ h. cc))

-- What is next: the first ready task of the list, or none if none is ready.
abbrev pub Chosen : List Task → List Task → Option Task → Type 0
Chosen ts scan none = All (λ t. ¬ IsReady ts t) scan
Chosen ts scan (some t) =
    (before : List Task) × (after : List Task) × (scan ≡ before ++ t ∷ after)
    × IsReady ts t
    × All (λ u. ¬ IsReady ts u) before

module _ (ts : List Task) where
  abbrev test : Task → Bool
  test t = is_pending t.status && all_done (completed_ids [] ts) t.dependencies

  no_entry : (dep : String) → (is_done [] dep ≡ true) → ⊥
  unfolding is_done lookup
  no_entry dep h = cc

  test_iff : (t : Task) → (test t ≡ true) ↔ IsReady ts t
  test_iff t =
      let done = completed_ids [] ts in
      let all = all_done_iff done (IsDone ts) t.dependencies (λ dep.
        let c = is_done-completed_ids [] ts dep in
        (
          (λ h. elim (c.0 h) [ inl a ↦ absurd (no_entry dep a) | inr a ↦ a ]),
          (λ h. c.1 (inr h)),
        )) in
      let both = and_iff (is_pending t.status) (all_done done t.dependencies) in
      let p = is_pending_iff t.status in
      ((λ e. (p.0 (both.0 e).0, all.0 (both.0 e).1)), (λ r. both.1 (p.1 r.0, all.1 r.1)))

  first_ready-Chosen : (scan : List Task) → Chosen ts scan (first_ready (completed_ids [] ts) scan)
  unfolding first_ready
  first_ready-Chosen [] = tt
  first_ready-Chosen (t ∷ scan) =
      let ih = first_ready-Chosen scan in
      elim (Bool-cases (test t)) [
        | inl e ↦ rw e ([], scan, refl, (test_iff t).0 e, tt)
        | inr e ↦ rw e (
            later (first_ready (completed_ids [] ts) scan)
              (λ r. false≢true (sym e ∙ (test_iff t).1 r)) ih)
      ]
    where
      later : (o : Option Task) → ¬ IsReady ts t → Chosen ts scan o → Chosen ts (t ∷ scan) o
      later none busy h = (busy, h)
      later (some u) busy (before, after, e, ready, others) =
          (t ∷ before, after, ap (λ l. t ∷ l) e, ready, (busy, others))

-- `NextTask` returns the first task of the plan that is ready, and none exactly if no task is. A
-- task is ready if it is pending and each of its dependencies is the identifier of a task of the
-- plan that is completed.
pub next_task-Chosen : (plan : Plan) → Chosen plan.tasks plan.tasks (next_task plan)
unfolding next_task
next_task-Chosen plan = first_ready-Chosen plan.tasks plan.tasks
