-- ===== src/Interface/Login/Roles.antt =====
-- `splitPGArray` of server.go, against `strings.Split`.
use Prim.Native.Char.{Char, code}
use text.Mathlib.TextLemmas.{nil-append, append-nil, append_assoc, cons-append}
use bzy_personal.Prelude.{
  ◌≡◌, refl, ap, ◌∙◌, String, List, [], ◌∷◌, ◌==◌, str_eq, if◌then◌else◌, Bool-cases, inl, inr,
}
use bzy_personal.Prelude.Texts.{◌<>◌, split_at, add_front}
use bzy_personal.Prelude.Texts.Laws.{split_at-cons}
use bzy_personal.Interface.Login.{split_from, split_pg_array}

-- A last piece that is empty is left out.
unfoldable pub drop_empty_end : List String → List String
drop_empty_end [] = []
drop_empty_end (s ∷ []) = if str_eq s "" then [] else s ∷ []
drop_empty_end (s ∷ t ∷ more) = s ∷ drop_empty_end (t ∷ more)

add_text : String → List String → List String
add_text cur [] = []
add_text cur (a ∷ more) = (cur <> a) ∷ more

grown : (cur a : String) (c : Char) → (cur <> String.◌∷◌ c "") <> a ≡ cur <> String.◌∷◌ c a
grown cur a c =
    append_assoc cur (String.◌∷◌ c "") a
    ∙ ap (λ t. cur <> t) (cons-append c "" a ∙ ap (String.◌∷◌ c) (nil-append a))

split_from-split_at :
    (cur s : String) → split_from cur s ≡ drop_empty_end (add_text cur (split_at 44 s))
unfolding split_from split_at drop_empty_end add_text add_front
split_from-split_at cur String.[] = rw (append-nil cur) refl
split_from-split_at cur (String.◌∷◌ c s) =
    let (a, more, f) = split_at-cons 44 s in
    elim (Bool-cases (code c == 44)) [
      | inl e ↦ rw (e, split_from-split_at "" s, f, append-nil cur, nil-append a) refl
      | inr e ↦ rw (e, split_from-split_at (cur <> String.◌∷◌ c "") s, f, grown cur a c) refl
    ]

-- The roles that the server reads from the text of an array are the pieces between its commas, less a last
-- one that is empty.
pub split_pg_array-split_at : (s : String) → split_pg_array s ≡ drop_empty_end (split_at 44 s)
unfolding split_pg_array add_text
split_pg_array-split_at s =
    let (a, more, f) = split_at-cons 44 s in rw (split_from-split_at "" s, f, nil-append a) refl
