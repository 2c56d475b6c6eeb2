-- ===== src/Brain/Providers/Defaulting.antt =====
-- The default provider of a registry is there as soon as one provider is.
use bzy_personal.Prelude.{
  ◌≡◌, inl, inr, refl, String, List, [], ◌∷◌, Option, none, some, arith, str_eq, eq_iff,
  if◌then◌else◌, Any,
}
use bzy_personal.Prelude.Map.{lookup, lookup-insert, lookup-insert_self}
use bzy_personal.Brain.Providers.{
  Provider, Registry, new_registry, register, default, set_default, set_default_found,
}

-- The calls that change a registry.
pub data Op (W : Type 0) : Type 0 where
  add : Provider W → Op W
  choose : String → Op W

module _ {W : Type 0} where
  abbrev pub apply : Registry W → Op W → Registry W
  apply r (add p) = register p r
  apply r (choose id) = (set_default id r).1

  abbrev pub run : Registry W → List (Op W) → Registry W
  run r [] = r
  run r (o ∷ os) = run (apply r o) os

  abbrev pub IsAdd : Op W → Type 0
  IsAdd (add p) = Unit
  IsAdd (choose id) = ⊥

  abbrev pub HasDefault : Registry W → Type 0
  HasDefault r = (p : Provider W) × (default r ≡ some p)

  register-HasDefault : (r : Registry W) (p : Provider W) → HasDefault r → HasDefault (register p r)
  unfolding default register
  register-HasDefault r p (q, e) = (
    if str_eq r.default_id "" then p else if str_eq p.id r.default_id then p else q,
    ground (
      arith,
      lookup-insert p.id p.id p r.providers,
      lookup-insert p.id r.default_id p r.providers,
      eq_iff p.id p.id,
    ),
  )

  first-HasDefault : (p : Provider W) → HasDefault (register p new_registry)
  unfolding default register new_registry
  first-HasDefault p = (p, lookup-insert_self p.id p [])

  set_default-HasDefault :
      (r : Registry W) (id : String) → HasDefault r → HasDefault (set_default id r).1
  unfolding set_default default
  set_default-HasDefault r id h = go (lookup id r.providers) refl
    where
      go :
          (o : Option (Provider W))
          → lookup id r.providers ≡ o
          → HasDefault (set_default_found o id r).1
      go none e = h
      go (some q) e = (q, e)

  run-HasDefault : (r : Registry W) (os : List (Op W)) → HasDefault r → HasDefault (run r os)
  run-HasDefault r [] h = h
  run-HasDefault r (add p ∷ os) h = run-HasDefault (register p r) os (register-HasDefault r p h)
  run-HasDefault r (choose id ∷ os) h =
      run-HasDefault (set_default id r).1 os (set_default-HasDefault r id h)

  choose-new : (id : String) → (set_default id (new_registry {W = W})).1 ≡ new_registry
  unfolding set_default new_registry lookup
  choose-new id = refl

  -- After any calls of `Register` and `SetDefault` on a new registry, one of them a `Register`,
  -- `Default` is a registered provider, never nil.
  pub run-new-HasDefault : (os : List (Op W)) → Any IsAdd os → HasDefault (run new_registry os)
  run-new-HasDefault [] h = absurd h
  run-new-HasDefault (add p ∷ os) h =
      run-HasDefault (register p new_registry) os (first-HasDefault p)
  run-new-HasDefault (choose id ∷ os) (inl h) = absurd h
  run-new-HasDefault (choose id ∷ os) (inr h) = rw (choose-new id) (run-new-HasDefault os h)
