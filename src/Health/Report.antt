-- ===== src/Health/Report.antt =====
-- The report does not depend on the order in which the checks finish.
use bzy_personal.Prelude.{
  ℕ, zero, suc, ◌<◌, ◌≡◌, ◌↔◌, ◌⊎◌, inl, inr, refl, sym, ap, ◌∙◌, true, false, List, [], ◌∷◌,
  Option, none, some, length, get_elem?, set, arith, Any, ◌==◌, if◌then◌else◌, Bool-cases,
}
use bzy_personal.Errors.{Error}
use bzy_personal.Health.{
  Status, down, Check, CheckResult, Checker, Answer, check_result, blank, write_slot, finish_all,
  overall, run, readiness_status, is_down,
}

get_elem?-set :
    {A : Type 0} (xs : List A) (i j : ℕ) (v : A)
    → i < length xs
    → get_elem? (set xs i v) j ≡ (if i == j then some v else get_elem? xs j)
get_elem?-set [] i j v h = elim h [ ]
get_elem?-set (x ∷ xs) zero zero v h = refl
get_elem?-set (x ∷ xs) zero (suc j) v h = ground arith
get_elem?-set (x ∷ xs) (suc i) zero v h = ground arith
get_elem?-set (x ∷ xs) (suc i) (suc j) v h = ground (arith, get_elem?-set xs i j v)

length-set : {A : Type 0} (xs : List A) (i : ℕ) (v : A) → length (set xs i v) ≡ length xs
length-set [] i v = refl
length-set (x ∷ xs) zero v = refl
length-set (x ∷ xs) (suc i) v = ap suc (length-set xs i v)

length-blank : (cs : List Check) → length (blank cs) ≡ length cs
length-blank [] = refl
length-blank (c ∷ cs) = ap suc (length-blank cs)

in_range : {A : Type 0} (xs : List A) (i : ℕ) (x : A) → get_elem? xs i ≡ some x → i < length xs
in_range [] i x e = cc
in_range (y ∷ xs) zero x e = omega arith
in_range (y ∷ xs) (suc i) x e = omega (arith, in_range xs i x e)

module _ (checks : List Check) (answer : ℕ → Answer) where
  length-write_slot :
      (o : Option Check) (i : ℕ) (rs : List CheckResult)
      → length (write_slot o i (answer i) rs) ≡ length rs
  unfolding write_slot
  length-write_slot none i rs = refl
  length-write_slot (some c) i rs = length-set rs i (check_result c (answer i))

  write_slot_self :
      (rs : List CheckResult) (j : ℕ) (c : Check)
      → length rs ≡ length checks
      → get_elem? checks j ≡ some c
      → get_elem? (write_slot (get_elem? checks j) j (answer j) rs) j
        ≡ some (check_result c (answer j))
  unfolding write_slot
  write_slot_self rs j c len at =
      let inside : j < length rs = omega (arith, in_range checks j c at) in
      rw (at, write_slot) (get_elem?-set rs j j (check_result c (answer j)) inside ∙ ground arith)

  write_slot-ne :
      (o : Option Check) (rs : List CheckResult) (i j : ℕ)
      → length rs ≡ length checks
      → get_elem? checks i ≡ o
      → (i == j) ≡ false
      → get_elem? (write_slot o i (answer i) rs) j ≡ get_elem? rs j
  unfolding write_slot
  write_slot-ne none rs i j len at ne = refl
  write_slot-ne (some c) rs i j len at ne =
      let inside : i < length rs = omega (arith, in_range checks i c at) in
      get_elem?-set rs i j (check_result c (answer i)) inside ∙ rw ne

  -- A slot holds its result once its goroutine has finished, and keeps it.
  slot :
      (order : List ℕ) (rs : List CheckResult) (j : ℕ) (c : Check)
      → length rs ≡ length checks
      → get_elem? checks j ≡ some c
      → Any (λ i. i ≡ j) order ⊎ (get_elem? rs j ≡ some (check_result c (answer j)))
      → get_elem? (finish_all checks answer order rs) j ≡ some (check_result c (answer j))
  unfolding finish_all
  slot [] rs j c len at (inl h) = absurd h
  slot [] rs j c len at (inr h) = h
  slot (i ∷ order) rs j c len at h =
      slot order (write_slot (get_elem? checks i) i (answer i) rs) j c
        (length-write_slot (get_elem? checks i) i rs ∙ len) at
        (elim (Bool-cases (i == j)) [ inl e ↦ inr (self (ground arith)) | inr e ↦ other e h ])
    where
      self :
          i ≡ j
          → get_elem? (write_slot (get_elem? checks i) i (answer i) rs) j
            ≡ some (check_result c (answer j))
      self e = rw e (write_slot_self rs j c len at)

      other :
          (i == j) ≡ false
          → Any (λ k. k ≡ j) (i ∷ order) ⊎ (get_elem? rs j ≡ some (check_result c (answer j)))
          → Any (λ k. k ≡ j) order
            ⊎ (get_elem? (write_slot (get_elem? checks i) i (answer i) rs) j
                ≡ some (check_result c (answer j)))
      other e (inl (inl p)) = ground arith
      other e (inl (inr p)) = inl p
      other e (inr p) = inr (write_slot-ne (get_elem? checks i) rs i j len refl e ∙ p)

  length-finish_all :
      (order : List ℕ) (rs : List CheckResult)
      → length (finish_all checks answer order rs) ≡ length rs
  unfolding finish_all
  length-finish_all [] rs = refl
  length-finish_all (i ∷ order) rs =
      length-finish_all order (write_slot (get_elem? checks i) i (answer i) rs)
      ∙ length-write_slot (get_elem? checks i) i rs

is_down-down : (s : Status) → is_down s ≡ true → s ≡ down
is_down-down s h = ground arith

-- Some slot is down.
Fails : List CheckResult → Type 0
Fails rs = (j : ℕ) × (r : CheckResult) × (get_elem? rs j ≡ some r) × (r.status ≡ down)

down-overall :
    (rs : List CheckResult) (j : ℕ) (r : CheckResult)
    → get_elem? rs j ≡ some r
    → r.status ≡ down
    → overall rs ≡ down
unfolding overall
down-overall [] j r e d = cc
down-overall (s ∷ rs) zero r e d =
    let same : s ≡ r = cc e in let falls : s.status ≡ down = ap (λ z. z.status) same ∙ d in rw falls
down-overall (s ∷ rs) (suc j) r e d = elim (Bool-cases (is_down s.status)) [
  | inl p ↦ rw p
  | inr p ↦ rw p (down-overall rs j r e d)
]

overall-Fails : (rs : List CheckResult) → overall rs ≡ down → Fails rs
unfolding overall Fails
overall-Fails [] h = cc
overall-Fails (r ∷ rs) h = elim (Bool-cases (is_down r.status)) [
  | inl p ↦ (0, r, refl, is_down-down r.status p)
  | inr p ↦ let (j, s, e, d) = overall-Fails rs (rw p at h) in (suc j, s, e, d)
]

some_of_lt :
    {A : Type 0} (xs : List A) (j : ℕ) → j < length xs → (x : A) × (get_elem? xs j ≡ some x)
some_of_lt [] j h = elim h [ ]
some_of_lt (x ∷ xs) zero h = (x, refl)
some_of_lt (x ∷ xs) (suc j) h = some_of_lt xs j (omega arith)

-- However the checks finish: if each finishes, the report has the result of every check in its
-- place, and no more.
pub run-results :
    (k : Checker) (answer : ℕ → Answer) (order : List ℕ) (now j : ℕ) (c : Check)
    → get_elem? k.checks j ≡ some c
    → Any (λ i. i ≡ j) order
    → (length (run k answer order now).checks ≡ length k.checks)
      × (get_elem? (run k answer order now).checks j ≡ some (check_result c (answer j)))
unfolding run
run-results k answer order now j c at finished = (
  length-finish_all k.checks answer order (blank k.checks) ∙ length-blank k.checks,
  slot k.checks answer order (blank k.checks) j c (length-blank k.checks) at (inl finished),
)

-- A service is ready exactly if no check fails: the status is 200 exactly if every check answers
-- without an error, and 503 exactly if one answers with an error, in whatever order all of them
-- finish.
pub readiness_status-checks :
    (k : Checker) (answer : ℕ → Answer) (order : List ℕ) (now : ℕ)
    → ((j : ℕ) (c : Check) → get_elem? k.checks j ≡ some c → Any (λ i. i ≡ j) order)
    → ((readiness_status (run k answer order now) ≡ 200)
        ↔ ((j : ℕ) (c : Check) → get_elem? k.checks j ≡ some c → (answer j).0 ≡ none))
      × ((readiness_status (run k answer order now) ≡ 503) ↔ (
          (j : ℕ) × (c : Check) × (e : Error) × (get_elem? k.checks j ≡ some c)
          × ((answer j).0 ≡ some e)))
unfolding readiness_status run Fails check_result
readiness_status-checks k answer order now finished = (
  (
    (λ ready j c at. fine ready (answer j) (placed j c at)),
    (λ quiet. elim (Bool-cases (is_down (overall results))) [
      | inl p ↦
          let (j, c, e, at, bad) = failing (is_down-down (overall results) p) in
          let clash : none ≡ some e = sym (quiet j c at) ∙ bad in cc clash
      | inr p ↦ rw p
    ]),
  ),
  (
    (λ unready. elim (Bool-cases (is_down (overall results))) [
      | inl p ↦ failing (is_down-down (overall results) p)
      | inr p ↦ absurd (omega (arith, rw p at unready))
    ]),
    (λ (j, c, e, at, bad). rw (falls (answer j) e bad (placed j c at))),
  ),
)
  where
    results : List CheckResult
    results = finish_all k.checks answer order (blank k.checks)

    placed :
        (j : ℕ) (c : Check)
        → get_elem? k.checks j ≡ some c
        → (d : Check) × (i : ℕ) × (get_elem? results i ≡ some (check_result d (answer j)))
    placed j c at = (
      c,
      j,
      slot k.checks answer order (blank k.checks) j c (length-blank k.checks) at
          (inl (finished j c at)),
    )

    fine :
        ◌≡◌ {A = ℕ} (if is_down (overall results) then 503 else 200) 200
        → (a : Answer) → (d : Check) × (i : ℕ) × (get_elem? results i ≡ some (check_result d a))
        → a.0 ≡ none
    fine ready (none, l) p = refl
    fine ready (some e, l) (d, i, at) =
        let falls : overall results ≡ down = down-overall results i _ at refl in
        absurd (omega (arith, rw falls at ready))

    falls :
        (a : Answer) (e : Error)
        → a.0 ≡ some e
        → (d : Check) × (i : ℕ) × (get_elem? results i ≡ some (check_result d a))
        → overall results ≡ down
    falls (none, l) e bad p = cc bad
    falls (some x, l) e bad (d, i, at) = down-overall results i _ at refl

    error_of :
        (d : Check) (a : Answer) → (check_result d a).status ≡ down → (e : Error) × (a.0 ≡ some e)
    error_of d (none, l) e = cc e
    error_of d (some x, l) e = (x, refl)

    failing :
        overall results ≡ down
        → (j : ℕ) × (c : Check) × (e : Error) × (get_elem? k.checks j ≡ some c)
          × ((answer j).0 ≡ some e)
    failing bad =
        let (j, r, at, d) = overall-Fails results bad in
        let len =
          length-finish_all k.checks answer order (blank k.checks) ∙ length-blank k.checks in
        let (c, there) = some_of_lt k.checks j (omega (arith, in_range results j r at, len)) in
        let held =
          slot k.checks answer order (blank k.checks) j c (length-blank k.checks) there
            (inl (finished j c there)) in
        let same : some r ≡ some (check_result c (answer j)) = sym at ∙ held in
        let eq : r ≡ check_result c (answer j) = cc same in
        let (e, fails) = error_of c (answer j) (ap (λ z. z.status) (sym eq) ∙ d) in
        (j, c, e, there, fails)
