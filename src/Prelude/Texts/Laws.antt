-- ===== src/Prelude/Texts/Laws.antt =====
-- The texts that the modelled code builds, read back.
use Prim.Native.Char.{Char, code}
use Prim.Native.String.{String}
use Prim.Native.Nat.{ℕ, suc, ◌≤◌}
use bzy_personal.Prelude.Lists.{length}
use mathlib.Core.Path.{subst, ◌≡◌, refl, sym, ap, ◌∙◌}
use mathlib.Core.Bool.{Bool, true, false, ◌&&◌, ◌||◌, false≢true}
use mathlib.Core.List.{List, [], ◌∷◌, ◌++◌}
use mathlib.Core.Logic.{inl, inr}
use native.Mathlib.Omega.{arith}
use text.Mathlib.TextLemmas.{cons-append, nil-append}
use bzy_personal.Prelude.Tests.{Bool-cases, ◌==◌, if◌then◌else◌}
use bzy_personal.Prelude.Texts.{
  has_prefix, drop_prefix, is_blank, trim_right, trim_left, trim_space, is_break, split_at,
  add_front, ◌<>◌,
}

abbrev no_longer : String → String → Bool
no_longer String.[] q = true
no_longer (String.◌∷◌ c p) String.[] = false
no_longer (String.◌∷◌ c p) (String.◌∷◌ d q) = no_longer p q

-- A prefix is decided by a beginning that is long enough.
pub has_prefix-append :
    (p q x : String) → no_longer p q ≡ true → has_prefix p (q <> x) ≡ has_prefix p q
unfolding has_prefix
has_prefix-append String.[] q x h = refl
has_prefix-append (String.◌∷◌ c p) String.[] x h = cc
has_prefix-append (String.◌∷◌ c p) (String.◌∷◌ d q) x h =
    rw (cons-append d q x, has_prefix) (rw (has_prefix-append p q x h) refl)

pub drop_prefix-append : (p x : String) → drop_prefix p (p <> x) ≡ x
unfolding drop_prefix
drop_prefix-append String.[] x = nil-append x
drop_prefix-append (String.◌∷◌ c p) x = rw (cons-append c p x, drop_prefix) (drop_prefix-append p x)

-- No character of the text is of the class.
abbrev pub Lacks : (ℕ → Bool) → String → Type 0
Lacks p String.[] = Unit
Lacks p (String.◌∷◌ c s) = (p (code c) ≡ false) × Lacks p s

unfoldable pub lacks : (ℕ → Bool) → String → Bool
lacks p String.[] = true
lacks p (String.◌∷◌ c s) = let rest = lacks p s in if p (code c) then false else rest

pub lacks-Lacks : (p : ℕ → Bool) (s : String) → lacks p s ≡ true → Lacks p s
unfolding lacks
lacks-Lacks p String.[] h = tt
lacks-Lacks p (String.◌∷◌ c s) h = elim (Bool-cases (p (code c))) [
  | inl e ↦ absurd (false≢true (subst (λ b. (if b then false else lacks p s) ≡ true) e h))
  | inr e ↦ (e, lacks-Lacks p s (subst (λ b. (if b then false else lacks p s) ≡ true) e h))
]

pub Lacks-append : (p : ℕ → Bool) (s t : String) → Lacks p s → Lacks p t → Lacks p (s <> t)
Lacks-append p String.[] t h k = rw (nil-append t) k
Lacks-append p (String.◌∷◌ c s) t h k = rw (cons-append c s t) (h.0, Lacks-append p s t h.1 k)

and_false : (a : Bool) → (a && false) ≡ false
and_false true = refl
and_false false = refl

-- A text without a class at its end is trimmed to itself.
pub trim_right-Lacks : (p : ℕ → Bool) (s : String) → Lacks p s → trim_right p s ≡ s
unfolding trim_right is_blank
trim_right-Lacks p String.[] h = refl
trim_right-Lacks p (String.◌∷◌ c s) h =
    rw (trim_right-Lacks p s h.1, h.0) (rw (and_false (is_blank s)) refl)

-- A space before a text is trimmed.
pub trim_space-append : (s : String) → trim_space (" " <> s) ≡ trim_space s
unfolding trim_space trim_left
trim_space-append s = rw (cons-append " " "" s, trim_left, nil-append s) refl

-- A separator splits a text into the pieces before it and the pieces behind it.
pub split_at-cons :
    (sep : ℕ) (s : String) → (a : String) × (more : List String) × (split_at sep s ≡ a ∷ more)
unfolding split_at add_front
split_at-cons sep String.[] = ("", [], refl)
split_at-cons sep (String.◌∷◌ c s) = elim (Bool-cases (code c == sep)) [
  | inl e ↦ ("", split_at sep s, rw e refl)
  | inr e ↦ let (a, more, f) = split_at-cons sep s in (String.◌∷◌ c a, more, rw (e, f) refl)
]

same_code : (n : ℕ) → (n == n) ≡ true
same_code n = ground arith

append-add_front :
    (c : Char) (sep : ℕ) (s : String) (ss : List String)
    → add_front c (split_at sep s) ++ ss ≡ add_front c (split_at sep s ++ ss)
unfolding add_front
append-add_front c sep s ss = go (split_at sep s) (split_at-cons sep s)
  where
    go :
        (l : List String)
        → (a : String) × (more : List String) × (l ≡ a ∷ more)
        → add_front c l ++ ss ≡ add_front c (l ++ ss)
    go l (a, more, e) = rw e refl

pub split_at-append :
    (sep : Char) (s t : String)
    → split_at (code sep) (s <> String.◌∷◌ sep t) ≡ split_at (code sep) s ++ split_at (code sep) t
unfolding split_at
split_at-append sep String.[] t =
    rw (nil-append (String.◌∷◌ sep t), split_at) (rw (same_code (code sep)) refl)
split_at-append sep (String.◌∷◌ c s) t =
    let ih = split_at-append sep s t in
    rw (cons-append c s (String.◌∷◌ sep t), split_at)
      (elim (Bool-cases (code c == code sep)) [
        | inl e ↦ rw (e, ih) refl
        | inr e ↦ rw (e, ih) (sym (append-add_front c (code sep) s (split_at (code sep) t)))
      ])

pub split_at-Lacks : (sep : ℕ) (s : String) → Lacks (λ c. c == sep) s → split_at sep s ≡ s ∷ []
unfolding split_at add_front
split_at-Lacks sep String.[] h = refl
split_at-Lacks sep (String.◌∷◌ c s) h = rw (h.0, split_at-Lacks sep s h.1) refl

-- A piece that lacks the separator, in front of one.
pub split_at-piece :
    (sep : Char) (s t : String)
    → Lacks (λ c. c == code sep) s
    → split_at (code sep) (s <> String.◌∷◌ sep t) ≡ s ∷ split_at (code sep) t
split_at-piece sep s t h = split_at-append sep s t ∙ rw (split_at-Lacks (code sep) s h) refl

newline-append : (rest : String) → "\n" <> rest ≡ String.◌∷◌ "\n" rest
newline-append rest = cons-append "\n" "" rest ∙ ap (String.◌∷◌ "\n") (nil-append rest)

or_left : (a b : Bool) → (a || b) ≡ false → a ≡ false
or_left true b h = cc h
or_left false b h = refl

no_newline : (s : String) → Lacks is_break s → Lacks (λ c. c == 10) s
unfolding is_break
no_newline String.[] h = tt
no_newline (String.◌∷◌ c s) h = (or_left (code c == 10) (code c == 13) h.0, no_newline s h.1)

-- A line that lacks breaks, in front of a newline.
pub split_at-line :
    (s t : String) → Lacks is_break s → split_at 10 (s <> ("\n" <> t)) ≡ s ∷ split_at 10 t
split_at-line s t h = rw (newline-append t) (split_at-piece "\n" s t (no_newline s h))

length-add_front : (c : Char) (l : List String) → length l ≤ length (add_front c l)
unfolding add_front
length-add_front c [] = omega arith
length-add_front c (a ∷ l) = omega arith

-- A text in front takes no line away.
pub split_at-grows :
    (sep : ℕ) (s t : String) → length (split_at sep t) ≤ length (split_at sep (s <> t))
unfolding split_at
split_at-grows sep String.[] t = rw (nil-append t) (omega arith)
split_at-grows sep (String.◌∷◌ c s) t =
    let ih = split_at-grows sep s t in
    rw (cons-append c s t) (elim (Bool-cases (code c == sep)) [
      | inl e ↦ rw e (omega (arith, ih))
      | inr e ↦ rw e (omega (arith, ih, length-add_front c (split_at sep (s <> t))))
    ])

pub split_at-newline :
    (t : String) → length (split_at 10 ("\n" <> t)) ≡ suc (length (split_at 10 t))
unfolding split_at
split_at-newline t = rw (newline-append t) refl
