-- ===== src/Runner/Scheduler/Replaced.antt =====
-- Jobs that are added under one identifier, and removed.
use mathlib.Core.Path.{subst}
use bzy_personal.Prelude.{
  ◌≡◌, ◌≢◌, refl, sym, ap, ◌∙◌, ℕ, true, false, String, List, [], ◌∷◌, Option, none, some, arith,
  str_eq, if◌then◌else◌, Bool-cases, inl, inr, ◌==◌, str_eq_ne, eq_refl,
}
use bzy_personal.Prelude.Map.{
  lookup, insert, delete, lookup-insert, lookup-insert_self, lookup-delete,
}
use bzy_personal.Errors.{ok}
use bzy_personal.Runtime.{Env}
use bzy_personal.Runner.Scheduler.{
  ScheduledJob, Cron, CronScheduler, write, with_id, after_add, add_job, remove_found, remove_job,
}

-- Which entries of the library are active: one that is added is new and active and leaves the others so, and a
-- removal ends its own entry and no other.
pub record Entries {W : Type 0} (cron : Cron W) (Active : ℕ → W → Type 0) : Type 0 where
  pub adds :
      (expr : String) (at e : ℕ) (w w' : W)
      → cron.add_func expr at w ≡ (ok e, w')
      → Active e w' × ((m : ℕ) → Active m w → Active m w' × (m ≢ e))
  pub removes : (e : ℕ) (w : W) → ¬ Active e (cron.remove e w)
  pub spares : (e m : ℕ) (w : W) → m ≢ e → Active m w → Active m (cron.remove e w)

same_address : (p : ℕ) → (p == p) ≡ true
same_address p = ground arith

other_address : (p q : ℕ) → p ≢ q → (q == p) ≡ false
other_address p q h = ground arith

module _ {W : Type 0} (env : Env W) (cron : Cron W) where
  abbrev with_entry : ScheduledJob → ℕ → W → ScheduledJob
  with_entry job e w = record job { cron_id = e; next_run = some (cron.next_of e w) }

  abbrev added : ℕ → ℕ → CronScheduler → W → CronScheduler
  added at e s w = record {
    heap = write at (with_entry (s.heap at) e w) s.heap;
    jobs = insert (s.heap at).id at s.jobs;
  }

  add_job-added :
      (at e : ℕ) (s : CronScheduler) (w w' : W)
      → (s.heap at).id ≢ ""
      → cron.add_func (s.heap at).cron_expr at w ≡ (ok e, w')
      → add_job env cron at s w ≡ (none, added at e s w', w')
  unfolding add_job with_id after_add
  add_job-added at e s w w' named adds = rw (str_eq_ne (s.heap at).id "" named) (rw adds refl)

  remove_job-found :
      (at : ℕ) (id : String) (s : CronScheduler) (w : W)
      → lookup id s.jobs ≡ some at
      → remove_job env cron id s w
        ≡ (none, record s { jobs = delete id s.jobs }, cron.remove (s.heap at).cron_id w)
  unfolding remove_job remove_found
  remove_job-found at id s w found = rw found refl

  untouched : (p q e : ℕ) (s : CronScheduler) (w : W) → p ≢ q → (added p e s w).heap q ≡ s.heap q
  unfolding write
  untouched p q e s w apart = rw (other_address p q apart) refl

  entry_of : (q e : ℕ) (s : CronScheduler) (w : W) → ((added q e s w).heap q).cron_id ≡ e
  unfolding write
  entry_of q e s w = rw (same_address q) refl

  -- `RemoveJob` of one identifier after the other.
  abbrev pub removals : List String → CronScheduler → W → W
  removals [] s w = w
  removals (k ∷ ks) s w = let (r, s', w') = remove_job env cron k s w in removals ks s' w'

  module _ (Active : ℕ → W → Type 0) (entries : Entries cron Active) (e : ℕ) where
    -- No job of the scheduler has the entry.
    abbrev Lost : CronScheduler → Type 0
    Lost s = (k : String) (at : ℕ) → lookup k s.jobs ≡ some at → e ≢ (s.heap at).cron_id

    delete-Lost :
        (k : String) (s : CronScheduler) → Lost s → Lost (record s { jobs = delete k s.jobs })
    delete-Lost k s lost j at there =
        let q : (if str_eq k j then none else lookup j s.jobs) ≡ some at =
          sym (lookup-delete k j s.jobs) ∙ there in
        elim (Bool-cases (str_eq k j)) [
          | inl p ↦ let no : none ≡ some at = rw p at q in absurd (cc no)
          | inr p ↦ lost j at (rw p at q)
        ]

    remove_found-Lost :
        (k : String) (s : CronScheduler) (w : W) (o : Option ℕ)
        → lookup k s.jobs ≡ o
        → Lost s
        → Active e w
        → let (r, s', w') = remove_found env cron k s w o in Lost s' × Active e w'
    unfolding remove_found
    remove_found-Lost k s w none found lost on = (lost, on)
    remove_found-Lost k s w (some at) found lost on =
        (delete-Lost k s lost, entries.spares (s.heap at).cron_id e w (lost k at found) on)

    removals-Active :
        (ks : List String) (s : CronScheduler) (w : W)
        → Lost s
        → Active e w
        → Active e (removals ks s w)
    unfolding remove_job
    removals-Active [] s w lost on = on
    removals-Active (k ∷ ks) s w lost on =
        let (lost', on') = remove_found-Lost k s w (lookup k s.jobs) refl lost on in
        removals-Active ks _ _ lost' on'

  still_there :
      (id k : String) (p q at : ℕ) (s : CronScheduler)
      → lookup k (delete id (insert id q (insert id p s.jobs))) ≡ some at
      → lookup k s.jobs ≡ some at
  still_there id k p q at s there =
      let gone = lookup-delete id k (insert id q (insert id p s.jobs)) in
      let over = lookup-insert id k q (insert id p s.jobs) in
      let under = lookup-insert id k p s.jobs in
      elim (Bool-cases (str_eq id k)) [
        | inl e ↦
            let is : lookup k (delete id (insert id q (insert id p s.jobs))) ≡ none =
              gone ∙ rw e refl in
            let clash : some at ≡ none = sym there ∙ is in absurd (cc clash)
        | inr e ↦
            let is : lookup k (delete id (insert id q (insert id p s.jobs))) ≡ lookup k s.jobs =
              gone ∙ rw e (over ∙ rw e (under ∙ rw e refl)) in
            sym is ∙ there
      ]

  added-heap :
      (p q e1 e2 at : ℕ) (s : CronScheduler) (w w' : W)
      → at ≢ p
      → at ≢ q
      → (added q e2 (added p e1 s w) w').heap at ≡ s.heap at
  unfolding write
  added-heap p q e1 e2 at s w w' np nq =
      rw (other_address q at (λ e. nq (sym e)), other_address p at (λ e. np (sym e))) refl

  -- Two jobs at two addresses are added under one identifier, and then the identifier is removed, each with
  -- success. Then the identifier is gone from the jobs, and cron has dropped the entry of the second job, but
  -- the entry of the first is still active, and stays so whatever identifiers are removed after that: cron goes
  -- on to run a job that no `RemoveJob` can remove. The jobs that the scheduler held before are at other addresses
  -- and have active entries.
  pub remove_job-leaves :
      (Active : ℕ → W → Type 0) (entries : Entries cron Active) (s : CronScheduler) (p q e1 e2 : ℕ)
      (id : String) (w w1 w2 : W)
      → p ≢ q
      → id ≢ ""
      → (s.heap p).id ≡ id
      → (s.heap q).id ≡ id
      → ((k : String) (at : ℕ)
          → lookup k s.jobs ≡ some at
          → (at ≢ p) × (at ≢ q) × Active (s.heap at).cron_id w)
      → cron.add_func (s.heap p).cron_expr p w ≡ (ok e1, w1)
      → cron.add_func (s.heap q).cron_expr q w1 ≡ (ok e2, w2)
      → let (r1, s1, v1) = add_job env cron p s w in
        let (r2, s2, v2) = add_job env cron q s1 v1 in
        let (r3, s3, v3) = remove_job env cron id s2 v2 in
        (r1 ≡ none)
        × (r2 ≡ none)
        × (r3 ≡ none)
        × (lookup id s3.jobs ≡ none)
        × ((ks : List String) → Active e1 (removals ks s3 v3))
        × (¬ Active e2 v3)
  remove_job-leaves Active entries s p q e1 e2 id w w1 w2 apart named idp idq held first second =
      let s1 = added p e1 s w1 in
      let same = untouched p q e1 s w1 apart in
      let s2 = added q e2 s1 w2 in
      let add1 = add_job-added p e1 s w w1 (λ e. named (sym idp ∙ e)) first in
      let add2 =
        add_job-added q e2 s1 w1 w2 (subst (λ j. j.id ≢ "") (sym same) (λ e. named (sym idq ∙ e)))
          (subst (λ j. cron.add_func j.cron_expr q w1 ≡ (ok e2, w2)) (sym same) second) in
      let there : lookup id s2.jobs ≡ some q =
        subst (λ k. lookup id (insert k q s1.jobs) ≡ some q) (sym (ap (λ j. j.id) same ∙ idq))
          (lookup-insert_self id q s1.jobs) in
      let gone : lookup id (delete id s2.jobs) ≡ none =
        lookup-delete id id s2.jobs ∙ rw (eq_refl id) refl in
      let kept = (entries.adds (s.heap p).cron_expr p e1 w w1 first).0 in
      let (fresh, others) = entries.adds (s.heap q).cron_expr q e2 w1 w2 second in
      let (still, differ) = others e1 kept in
      let removed : remove_job env cron id s2 w2
          ≡ (none, record s2 { jobs = delete id s2.jobs }, cron.remove e2 w2) =
        subst
          (λ n.
            remove_job env cron id s2 w2
            ≡ (none, record s2 { jobs = delete id s2.jobs }, cron.remove n w2))
          (entry_of q e2 s1 w2) (remove_job-found q id s2 w2 there) in
      let names : delete id s2.jobs ≡ delete id (insert id q (insert id p s.jobs)) =
        ap (λ x. delete id (insert x q (insert (s.heap p).id p s.jobs))) (ap (λ j. j.id) same ∙ idq)
        ∙ ap (λ x. delete id (insert id q (insert x p s.jobs))) idp in
      let lost : Lost Active entries e1 (record s2 { jobs = delete id s2.jobs }) =
        λ k at there clash.
          let before = still_there id k p q at s (sym (ap (lookup k) names) ∙ there) in
          let (np, nq, active) = held k at before in
          let other =
            (entries.adds (s.heap p).cron_expr p e1 w w1 first).1 (s.heap at).cron_id active in
          other.1 (sym (clash ∙ ap (λ j. j.cron_id) (added-heap p q e1 e2 at s w1 w2 np nq))) in
      rw (add1) (
        rw (add2) (
          rw (removed) (
            refl,
            refl,
            refl,
            gone,
            (λ ks.
                removals-Active Active entries e1 ks _ _ lost
                  (entries.spares e2 e1 w2 differ still)),
            entries.removes e2 w2,
          )))
