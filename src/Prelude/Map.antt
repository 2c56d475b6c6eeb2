-- ===== src/Prelude/Map.antt =====
-- Go maps with string keys, as association lists. A write replaces the entry of its key in place,
-- and drops any other, so a key stands once. The order of the list is the order in
-- which a `range` over the map visits it; Go fixes none, and no theorem rests on it.
use Prim.Native.String.{String}
use mathlib.Core.Path.{◌≡◌, refl}
use mathlib.Core.Option.{Option, none, some}
use mathlib.Core.List.{List, [], ◌∷◌}
use native.Mathlib.Omega.{arith}
use text.Mathlib.Text.{◌==◌ as str_eq}
use text.Mathlib.TextEquality.{eq_iff}
use text.Mathlib.TextPositions.{eq_refl}
use bzy_personal.Prelude.Tests.{if◌then◌else◌}

abbrev pub Map {ℓ} : Type ℓ → Type ℓ
Map V = List (String × V)

module _ {ℓ} {V : Type ℓ} where
  unfoldable pub lookup : String → Map V → Option V
  lookup k [] = none
  lookup k ((j, v) ∷ m) = if str_eq j k then some v else lookup k m

  -- Every entry of the key goes: in a map built by `insert` there is at most one.
  unfoldable pub delete : String → Map V → Map V
  delete k [] = []
  delete k ((j, w) ∷ m) = let rest = delete k m in if str_eq j k then rest else (j, w) ∷ rest

  unfoldable pub insert : String → V → Map V → Map V
  unfolding delete
  insert k v [] = (k, v) ∷ []
  insert k v ((j, w) ∷ m) = if str_eq j k then (k, v) ∷ delete k m else (j, w) ∷ insert k v m

  unfoldable pub values : Map V → List V
  values [] = []
  values ((j, v) ∷ m) = v ∷ values m

module _ {ℓ} {V : Type ℓ} where
  pub lookup-delete :
      (k j : String) (m : Map V) → lookup j (delete k m) ≡ (if str_eq k j then none else lookup j m)
  unfolding lookup delete
  lookup-delete k j [] = ground arith
  lookup-delete k j ((i, w) ∷ m) =
      ground (arith, eq_iff k j, eq_iff i k, eq_iff i j, lookup-delete k j m)

  -- A read after a write.
  pub lookup-insert :
      (at key : String) (new : V) (old : Map V)
      → lookup key (insert at new old) ≡ (if str_eq at key then some new else lookup key old)
  unfolding lookup insert
  lookup-insert at key new [] = refl
  lookup-insert at key new ((i, w) ∷ old) =
      let ih = lookup-insert at key new old in
      let gone = lookup-delete at key old in
      ground (arith, ih, gone, eq_iff i at, eq_iff at key, eq_iff i key)

  pub lookup-insert_self :
      (at : String) (new : V) (old : Map V) → lookup at (insert at new old) ≡ some new
  lookup-insert_self at new old = rw (lookup-insert at at new old, eq_refl at)

pub ruleset map_laws = (lookup-insert, lookup-delete, eq_refl)
