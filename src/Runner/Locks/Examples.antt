-- ===== src/Runner/Locks/Examples.antt =====
-- A lock in a store in memory.
use bzy_personal.Prelude.{
  ℕ, ◌+◌, ◌==◌, if◌then◌else◌, arith, ◌≡◌, ◌≢◌, refl, sym, ap, ◌∙◌, Bool, true, false, String, List,
  [], ◌∷◌, Option, none, some, str_eq, str_eq_ne, ne_of_str_eq, eq_iff, eq_refl, Bool-cases, inl,
  inr,
}
use bzy_personal.Prelude.Map.{
  Map, lookup, insert, delete, lookup-insert, lookup-delete, lookup-insert_self,
}
use bzy_personal.Errors.{Error, Result, ok}
use bzy_personal.Runtime.{Env}
use bzy_personal.Runner.Locks.{Redis, Lock, acquire, try_acquire, release}
use bzy_personal.Runner.Locks.Waiting.{Clock, try_acquire-ends}
use bzy_personal.Runner.Locks.Exclusion.{
  IsStore, Step, acquire_step, release_step, extend_step, play, acquire-excludes,
}

abbrev still : Env (Map String)
still = record { now = λ w. (0, w); fresh = λ w. ("t1", w) }

abbrev set_if : Option String → String → String → Map String → Bool × Map String
set_if none k v w = (true, insert k v w)
set_if (some u) k v w = (false, w)

abbrev in_memory : Redis (Map String)
in_memory = record {
  refusal = λ w. none;
  get = λ k w. lookup k w;
  set_nx = λ k v ttl w. set_if (lookup k w) k v w;
  del = λ k w. delete k w;
  pexpire = λ k n w. if n == 0 then delete k w else w;
}

answers : (o : Option String) (k v : String) (w : Map String) → (set_if o k v w).0 ≡ true → o ≡ none
answers none k v w e = refl
answers (some u) k v w e = cc e

keeps :
    (o : Option String) (k v j u : String) (w : Map String)
    → lookup k w ≡ o
    → lookup j w ≡ some u
    → lookup j (set_if o k v w).1 ≡ some u
keeps (some x) k v j u w e h = h
keeps none k v j u w e h = elim (Bool-cases (str_eq k j)) [
  | inl p ↦
      let same : k ≡ j = (eq_iff k j).0 p in
      let clash : none ≡ some u = sym e ∙ ap (λ x. lookup x w) same ∙ h in cc clash
  | inr p ↦ lookup-insert k j v w ∙ rw p h
]

in_memory-IsStore : IsStore still in_memory
in_memory-IsStore = record {
  fresh_keeps = λ k w. refl;
  set_new = λ k v ttl w e. rw e (lookup-insert_self k v w);
  set_answer = λ k v ttl w e. answers (lookup k w) k v w e;
  set_keeps = λ k v j u ttl w h. keeps (lookup k w) k v j u w refl h;
  del_gone = λ k w. lookup-delete k k w ∙ rw (eq_refl k) refl;
  del_keeps = λ k j w ne. lookup-delete k j w ∙ rw (str_eq_ne k j ne) refl;
  pexpire_keeps =
      λ k j n w some_time. let long : (n == 0) ≡ false = ground (arith, some_time) in rw long refl;
  pexpire_other = λ k j n w ne. elim (Bool-cases (n == 0)) [
    | inl p ↦ rw p (lookup-delete k j w ∙ rw (str_eq_ne k j ne) refl)
    | inr p ↦ rw p refl
  ];
}

abbrev lock : Lock
lock = record { key = "bzy:lock:job"; token = "t1" }

abbrev rival : Lock
rival = record { key = "bzy:lock:job"; token = "t2" }

abbrev attempts : List Step
attempts =
    acquire_step "job" 1000
    ∷ release_step rival
    ∷ extend_step rival 5
    ∷ extend_step lock 5000000
    ∷ []

acquire-excludes_example :
    let w' = play still in_memory (acquire still in_memory "job" 1000 []).1 attempts in
    ((n : Lock) → (acquire still in_memory "job" 5 w').0 ≢ ok n)
    × (lookup "bzy:lock:job" w' ≡ some "t1")
    × (lookup "bzy:lock:job" (release in_memory lock w').1 ≡ none)
unfolding acquire lookup insert
acquire-excludes_example =
    acquire-excludes still in_memory in_memory-IsStore "job" 1000 5 [] lock attempts refl
      (
        tt,
        (
          (ne_of_str_eq "t2" "t1" refl),
          (inl (ne_of_str_eq "t2" "t1" refl), (inr (omega arith), tt)),
        ),
      )
      refl

-- A clock that counts nanoseconds, and a lock that another holds.
abbrev counting : Env ℕ
counting = record { now = λ w. (w, w + 1); fresh = λ w. ("t1", w) }

abbrev taken : Redis ℕ
taken = record {
  refusal = λ w. none;
  get = λ k w. some "t2";
  set_nx = λ k v ttl w. (false, w);
  del = λ k w. w;
  pexpire = λ k n w. w;
}

abbrev sleep : ℕ → ℕ → Option Error × ℕ
sleep d w = (none, w + d)

taken-Clock : Clock counting taken sleep (λ w. w)
unfolding acquire
taken-Clock = record {
  reads = λ w. (omega arith, omega arith);
  acquires = λ key ttl w. omega arith;
  pauses = λ d w w' e. let same : w + d ≡ w' = ap (λ x. x.1) e in omega (arith, same);
}

try_acquire-ends_example :
    (r : Result Lock × ℕ) × (try_acquire counting taken sleep (λ d. "100ms") "job" 1000 100000000 0
      ≡ some r)
try_acquire-ends_example =
    try_acquire-ends counting taken sleep (λ d. "100ms") "job" 1000 100000000 (λ w. w) taken-Clock 0
