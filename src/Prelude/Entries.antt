-- ===== src/Prelude/Entries.antt =====
-- Statements about every entry of a map.
use mathlib.Core.Path.{◌≡◌, subst}
use mathlib.Core.Logic.{inl, inr}
use mathlib.Core.Bool.{false}
use mathlib.Core.Option.{some}
use mathlib.Core.List.{[], ◌∷◌}
use Prim.Native.String.{String}
use text.Mathlib.Text.{◌==◌ as str_eq}
use text.Mathlib.TextEquality.{eq_iff}
use bzy_personal.Prelude.Tests.{Bool-cases}
use bzy_personal.Prelude.Lists.{All}
use bzy_personal.Prelude.Map.{Map, lookup, insert, delete, values}

module _ {ℓ} {V : Type ℓ} where
  abbrev pub Entries : (String → V → Type 0) → Map V → Type 0
  Entries P [] = Unit
  Entries P ((k, v) ∷ m) = P k v × Entries P m

module _ {ℓ} {V : Type ℓ} (P : String → V → Type 0) where
  pub Entries-delete :
      (k : String) (m : Map V)
      → Entries P m
      → Entries (λ j v. P j v × (str_eq j k ≡ false)) (delete k m)
  unfolding delete
  Entries-delete k [] h = tt
  Entries-delete k ((j, w) ∷ m) h = elim (Bool-cases (str_eq j k)) [
    | inl e ↦ rw e (Entries-delete k m h.1)
    | inr e ↦ rw e ((h.0, e), Entries-delete k m h.1)
  ]

  Entries-drop :
      (k : String) (m : Map V)
      → Entries (λ j v. str_eq j k ≡ false → P j v) m
      → Entries P (delete k m)
  unfolding delete
  Entries-drop k [] h = tt
  Entries-drop k ((j, w) ∷ m) h = elim (Bool-cases (str_eq j k)) [
    | inl e ↦ rw e (Entries-drop k m h.1)
    | inr e ↦ rw e (h.0 e, Entries-drop k m h.1)
  ]

  pub Entries-insert :
      (k : String) (v : V) (m : Map V)
      → P k v
      → Entries (λ j u. str_eq j k ≡ false → P j u) m
      → Entries P (insert k v m)
  unfolding insert
  Entries-insert k v [] p h = (p, tt)
  Entries-insert k v ((j, w) ∷ m) p h = elim (Bool-cases (str_eq j k)) [
    | inl e ↦ rw e (p, Entries-drop k m h.1)
    | inr e ↦ rw e (h.0 e, Entries-insert k v m p h.1)
  ]

  pub Entries-lookup : (k : String) (m : Map V) (v : V) → Entries P m → lookup k m ≡ some v → P k v
  unfolding lookup
  Entries-lookup k [] v h e = cc
  Entries-lookup k ((j, w) ∷ m) v h e = elim (Bool-cases (str_eq j k)) [
    | inl p ↦
        let s : some w ≡ some v = rw p at e in
        let t : w ≡ v = cc s in subst (λ z. P z v) ((eq_iff j k).0 p) (subst (P j) t h.0)
    | inr p ↦ Entries-lookup k m v h.1 (rw p at e)
  ]

  pub Entries-map :
      (Q : String → V → Type 0) (m : Map V)
      → ((k : String) (v : V) → P k v → Q k v)
      → Entries P m
      → Entries Q m
  Entries-map Q [] f h = tt
  Entries-map Q ((k, v) ∷ m) f h = (f k v h.0, Entries-map Q m f h.1)

  pub Entries-values :
      (Q : V → Type 0) (m : Map V)
      → ((k : String) (v : V) → P k v → Q v)
      → Entries P m
      → All Q (values m)
  unfolding values
  Entries-values Q [] f h = tt
  Entries-values Q ((k, v) ∷ m) f h = (f k v h.0, Entries-values Q m f h.1)
