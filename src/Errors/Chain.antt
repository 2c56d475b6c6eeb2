-- ===== src/Errors/Chain.antt =====
-- `Is` and `As` of pkg/errors: the outermost `DomainError` of a chain of wrapped errors.
use mathlib.Core.Path.{subst}
use mathlib.Core.Logic.{ite, if_pos}
use bzy_personal.Prelude.{◌≡◌, ◌↔◌, refl, Bool, true, false, String, Option, none, some, arith}
use bzy_personal.Errors.{Code, Code-discrete, Error, text, wrap, domain, domain_caused, retryable}

-- A found `*DomainError`, by its fields.
pub record Domain : Type 0 where
  pub code : Code
  pub message : String
  pub detail : String

-- `As`: `errors.As` stops at the first error of the chain that is a `*DomainError`.
unfoldable pub as_domain : Error → Option Domain
as_domain (domain c m d) = some (record { code = c; message = m; detail = d })
as_domain (domain_caused c m d e) = some (record { code = c; message = m; detail = d })
as_domain (wrap p e) = as_domain e
as_domain (retryable e) = as_domain e
as_domain (text s) = none
as_domain _ = none

-- `Is`.
unfoldable pub is_code : Error → Code → Bool
unfolding as_domain
is_code e c = elim (as_domain e) [ none ↦ false | some d ↦ ite (Code-discrete d.code c) true false ]

-- The error has a domain error of code `c` under wrappers only: no other domain error hides it.
pub data Carries (c : Code) : Error → Type 0 where
  bare : {m d : String} → Carries c (domain c m d)
  with_cause : {m d : String} {e : Error} → Carries c (domain_caused c m d e)
  under_wrap : {p : String} {e : Error} → Carries c e → Carries c (wrap p e)
  under_retry : {e : Error} → Carries c e → Carries c (retryable e)

Carries-is_code : {c : Code} {e : Error} → Carries c e → is_code e c ≡ true
unfolding is_code
Carries-is_code {c} bare = rw (if_pos (Code-discrete c c) refl)
Carries-is_code {c} with_cause = rw (if_pos (Code-discrete c c) refl)
Carries-is_code (under_wrap h) = Carries-is_code h
Carries-is_code (under_retry h) = Carries-is_code h

same_code : (a b : Code) → ite (Code-discrete a b) true false ≡ true → a ≡ b
same_code a b h = ground arith

is_code-Carries : (e : Error) (c : Code) → is_code e c ≡ true → Carries c e
unfolding is_code
is_code-Carries (domain a m d) c h = subst (λ k. Carries k (domain a m d)) (same_code a c h) bare
is_code-Carries (domain_caused a m d e) c h =
    subst (λ k. Carries k (domain_caused a m d e)) (same_code a c h) with_cause
is_code-Carries (wrap p e) c h = under_wrap (is_code-Carries e c h)
is_code-Carries (retryable e) c h = under_retry (is_code-Carries e c h)
is_code-Carries (text s) c h = cc
is_code-Carries _ c h = cc

-- `Is` answers yes exactly when the chain of wrapped errors, read from the outside through
-- wrappers that are no domain errors, reaches a domain error of that code.
pub is_code-iff-Carries : (e : Error) (c : Code) → (is_code e c ≡ true) ↔ Carries c e
is_code-iff-Carries e c = (is_code-Carries e c, Carries-is_code)
