-- ===== src/Brain/Rag/Chunks.antt =====
-- The chunks of a document.
use Prim.Native.Char.{Char, code}
use text.Mathlib.TextLemmas.{cons-append, nil-append}
use bzy_personal.Prelude.{
  ◌≡◌, refl, sym, ap, ◌∙◌, false, ◌&&◌, String, List, [], ◌∷◌, ◌==◌, All, map, str_eq, inl, inr,
  Bool-cases, if◌then◌else◌,
}
use bzy_personal.Prelude.Texts.{◌<>◌, trim_space, add_front}
use bzy_personal.Brain.Rag.{split_paragraphs, cut, kept, chunk_text, ChunkerConfig}

-- There is no empty line in the text, and it does not end in a newline.
abbrev pub Unbroken : String → Type 0
Unbroken String.[] = Unit
Unbroken (String.◌∷◌ c String.[]) = (code c == 10) ≡ false
Unbroken (String.◌∷◌ c (String.◌∷◌ d s)) =
    ((code c == 10 && code d == 10) ≡ false) × Unbroken (String.◌∷◌ d s)

-- Texts with an empty line between them.
abbrev pub document_text : List String → String
document_text [] = ""
document_text (p ∷ []) = p
document_text (p ∷ q ∷ ps) = p <> ("\n\n" <> document_text (q ∷ ps))

split_paragraphs-plain :
    (c : Char) (s : String)
    → (code c == 10) ≡ false
    → split_paragraphs (String.◌∷◌ c s) ≡ add_front c (split_paragraphs s)
unfolding split_paragraphs add_front
split_paragraphs-plain c String.[] h = refl
split_paragraphs-plain c (String.◌∷◌ d s) h = rw h refl

blank_between : (t : String) → split_paragraphs ("\n\n" <> t) ≡ "" ∷ split_paragraphs t
unfolding split_paragraphs cut
blank_between t = rw (cons-append "\n" "\n" t, cons-append "\n" "" t, nil-append t) refl

split_paragraphs-on :
    (c d : Char) (s : String)
    → (code c == 10 && code d == 10) ≡ false
    → split_paragraphs (String.◌∷◌ c (String.◌∷◌ d s))
      ≡ add_front c (split_paragraphs (String.◌∷◌ d s))
unfolding split_paragraphs
split_paragraphs-on c d s h = rw h refl

split_paragraphs-piece :
    (p t : String) → Unbroken p → split_paragraphs (p <> ("\n\n" <> t)) ≡ p ∷ split_paragraphs t
unfolding add_front
split_paragraphs-piece String.[] t h = rw (nil-append ("\n\n" <> t)) (blank_between t)
split_paragraphs-piece (String.◌∷◌ c String.[]) t h =
    rw
      (
        cons-append c "" ("\n\n" <> t),
        nil-append ("\n\n" <> t),
        split_paragraphs-plain c ("\n\n" <> t) h,
        blank_between t,
      )
      refl
split_paragraphs-piece (String.◌∷◌ c (String.◌∷◌ d p)) t (h, k) =
    ap split_paragraphs (
      cons-append c (String.◌∷◌ d p) ("\n\n" <> t)
      ∙ ap (String.◌∷◌ c) (cons-append d p ("\n\n" <> t)))
    ∙ split_paragraphs-on c d (p <> ("\n\n" <> t)) h
    ∙ ap (λ x. add_front c (split_paragraphs x)) (sym (cons-append d p ("\n\n" <> t)))
    ∙ ap (add_front c) (split_paragraphs-piece (String.◌∷◌ d p) t k)

split_paragraphs-last : (p : String) → Unbroken p → split_paragraphs p ≡ p ∷ []
unfolding split_paragraphs add_front
split_paragraphs-last String.[] h = refl
split_paragraphs-last (String.◌∷◌ c String.[]) h = refl
split_paragraphs-last (String.◌∷◌ c (String.◌∷◌ d p)) (h, k) =
    split_paragraphs-on c d p h ∙ ap (add_front c) (split_paragraphs-last (String.◌∷◌ d p) k)

abbrev non_blank : List String → List String
non_blank [] = []
non_blank (t ∷ ts) = let rest = non_blank ts in if str_eq t "" then rest else t ∷ rest

-- The texts without the space around them, but for those that are nothing else.
abbrev pub tidy : List String → List String
tidy ps = non_blank (map trim_space ps)

kept-tidy : (ps : List String) → kept ps ≡ tidy ps
unfolding kept
kept-tidy [] = refl
kept-tidy (p ∷ ps) = elim (Bool-cases (str_eq (trim_space p) "")) [
  | inl e ↦ rw (e, kept-tidy ps) refl
  | inr e ↦ rw (e, kept-tidy ps) refl
]

split_paragraphs-document_text :
    (p : String) (ps : List String)
    → All Unbroken (p ∷ ps)
    → split_paragraphs (document_text (p ∷ ps)) ≡ p ∷ ps
split_paragraphs-document_text p [] (h, k) = split_paragraphs-last p h
split_paragraphs-document_text p (q ∷ ps) (h, k) =
    split_paragraphs-piece p (document_text (q ∷ ps)) h
    ∙ ap (λ l. p ∷ l) (split_paragraphs-document_text q ps k)

-- A document of texts with an empty line between two of them, where no text has an empty line in it or
-- ends in a newline, is cut into exactly those texts, each without the space around it and without
-- the blank ones, whatever the configuration: single newlines cut nothing.
pub chunk_text-document_text :
    (ps : List String) (cfg : ChunkerConfig)
    → All Unbroken ps
    → chunk_text (document_text ps) cfg ≡ tidy ps
unfolding chunk_text kept split_paragraphs trim_space
chunk_text-document_text [] cfg h = refl
chunk_text-document_text (p ∷ ps) cfg h =
    ap kept (split_paragraphs-document_text p ps h) ∙ kept-tidy (p ∷ ps)
