-- ===== src/Health/Examples.antt =====
-- Two checks that finish in the other order.
use bzy_personal.Prelude.{
  ℕ, zero, suc, ◌≡◌, ◌↔◌, refl, inl, inr, [], ◌∷◌, some, none, length, get_elem?, Any,
}
use bzy_personal.Errors.{Error, text}
use bzy_personal.Health.{Check, Checker, Answer, check_result, run, readiness_status}
use bzy_personal.Health.Report.{run-results, readiness_status-checks}

abbrev check : ℕ → Check
check n = record { name = "db"; timeout = n }

abbrev two : Checker
two = record { checks = check 1 ∷ check 2 ∷ []; version = "v1" }

abbrev answers : ℕ → Answer
answers zero = (none, 5)
answers (suc n) = (some (text "refused"), 7)

run-results_example :
    (length (run two answers (1 ∷ 0 ∷ []) 9).checks ≡ length two.checks)
    × (get_elem? (run two answers (1 ∷ 0 ∷ []) 9).checks 1
        ≡ some (check_result (check 2) (answers 1)))
run-results_example = run-results two answers (1 ∷ 0 ∷ []) 9 1 (check 2) refl (inl refl)

both_finish : (j : ℕ) (c : Check) → get_elem? two.checks j ≡ some c → Any (λ i. i ≡ j) (1 ∷ 0 ∷ [])
both_finish zero c e = inr (inl refl)
both_finish (suc zero) c e = inl refl
both_finish (suc (suc j)) c e = cc e

readiness_status-checks_example :
    ((readiness_status (run two answers (1 ∷ 0 ∷ []) 9) ≡ 200)
      ↔ ((j : ℕ) (c : Check) → get_elem? two.checks j ≡ some c → (answers j).0 ≡ none))
    × ((readiness_status (run two answers (1 ∷ 0 ∷ []) 9) ≡ 503) ↔ (
        (j : ℕ) × (c : Check) × (e : Error) × (get_elem? two.checks j ≡ some c)
        × ((answers j).0 ≡ some e)))
readiness_status-checks_example = readiness_status-checks two answers (1 ∷ 0 ∷ []) 9 both_finish
