-- ===== src/Errors/Examples.antt =====
-- A wrapped domain error.
use bzy_personal.Prelude.{◌≡◌, ◌↔◌, true}
use bzy_personal.Errors.{Error, wrap, domain, not_found}
use bzy_personal.Errors.Chain.{is_code, Carries, is_code-iff-Carries}

abbrev missing_user : Error
missing_user = wrap "load: " (domain not_found "user not found" "")

is_code-iff-Carries_example :
    (is_code missing_user not_found ≡ true) ↔ Carries not_found missing_user
is_code-iff-Carries_example = is_code-iff-Carries missing_user not_found
