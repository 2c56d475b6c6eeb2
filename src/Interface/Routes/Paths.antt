-- ===== src/Interface/Routes/Paths.antt =====
-- The segments of a path behind a prefix.
use text.Mathlib.TextLemmas.{append_assoc, cons-append, nil-append}
use bzy_personal.Prelude.{◌≡◌, ◌≢◌, refl, ap, ◌∙◌, String, [], ◌∷◌, ◌++◌, ◌==◌}
use bzy_personal.Prelude.Texts.{◌<>◌, split_at}
use bzy_personal.Prelude.Texts.Laws.{Lacks, split_at-append, split_at-Lacks, split_at-piece}

-- A text that is one segment of a path.
abbrev pub Segment : String → Type 0
Segment s = Lacks (λ c. c == 47) s × (s ≢ "")

-- A prefix that ends with a slash, in front of a path.
split_at-slash : (p t : String) → split_at 47 ((p <> "/") <> t) ≡ split_at 47 p ++ split_at 47 t
split_at-slash p t =
    ap (λ x. split_at 47 x)
      (append_assoc p "/" t
        ∙ ap (λ x. p <> x) (cons-append "/" "" t ∙ ap (String.◌∷◌ "/") (nil-append t)))
    ∙ split_at-append "/" p t

-- One segment behind a prefix, and two.
pub one_more :
    (p id : String) → Segment id → split_at 47 ((p <> "/") <> id) ≡ split_at 47 p ++ (id ∷ [])
one_more p id (h, k) = split_at-slash p id ∙ rw (split_at-Lacks 47 id h) refl

pub two_more :
    (p id s : String)
    → Segment id
    → Lacks (λ c. c == 47) s
    → split_at 47 ((p <> "/") <> (id <> ("/" <> s))) ≡ split_at 47 p ++ (id ∷ s ∷ [])
two_more p id s (h, k) l =
    split_at-slash p (id <> ("/" <> s))
    ∙ ap (λ x. split_at 47 p ++ split_at 47 x)
        (ap (λ x. id <> x) (cons-append "/" "" s ∙ ap (String.◌∷◌ "/") (nil-append s)))
    ∙ rw (split_at-piece "/" id s h) (rw (split_at-Lacks 47 s l) refl)
