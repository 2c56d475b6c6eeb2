-- ===== src/Brain/Rag/Stored.antt =====
-- What `Ingest` stores.
use bzy_personal.Prelude.{
  ◌≡◌, refl, ap, ◌∙◌, ℕ, ◌+◌, String, List, [], ◌∷◌, All, map, some, str_eq, if◌then◌else◌,
  Bool-cases, inl, inr,
}
use bzy_personal.Prelude.Texts.{◌<>◌}
use bzy_personal.Errors.{decimal}
use bzy_personal.Runtime.{Env}
use bzy_personal.Brain.Embedding.{Vec}
use bzy_personal.Brain.Embedding.Cached.{Sound, Good, embed-map}
use bzy_personal.Brain.Rag.{
  Document, ChunkerConfig, Vector, text_value, int_value, Pipeline, chunk_text, chunk_vector,
  vectors_from, with_first, with_id, store_all, after_embed, ingest,
}
use bzy_personal.Brain.Rag.Chunks.{Unbroken, tidy, document_text, chunk_text-document_text}

module _ (f : String → Vec) where
  -- One vector for each text: named after the document and the place of the text, with the text, its
  -- embedding and where it is from.
  unfoldable pub numbered : Document → ℕ → List String → List Vector
  numbered doc i [] = []
  numbered doc i (c ∷ cs) =
      record {
        id = doc.id <> "-chunk-" <> decimal i;
        collection = "documents";
        content = c;
        embedding = f c;
        metadata =
            ("document_id", text_value doc.id)
            ∷ ("title", text_value doc.title)
            ∷ ("source", text_value doc.source)
            ∷ ("chunk_index", int_value i)
            ∷ [];
        score = 0;
      }
      ∷ numbered doc (i + 1) cs

  vectors_from-numbered :
      (doc : Document) (i : ℕ) (cs : List String)
      → vectors_from doc i cs (map f cs) ≡ some (numbered doc i cs)
  unfolding vectors_from numbered with_first chunk_vector
  vectors_from-numbered doc i [] = refl
  vectors_from-numbered doc i (c ∷ cs) = rw (vectors_from-numbered doc (i + 1) cs) refl

-- The document that is stored: a missing identifier is a fresh one.
abbrev pub identified : {W : Type 0} → Env W → Document → W → Document
identified env doc w = record doc { id = if str_eq doc.id "" then (env.fresh w).0 else doc.id }

module _ {W : Type 0} (env : Env W) (p : Pipeline W) (f : String → Vec) (InUse : String → Type 0)
    (sound : Sound p.embedder f InUse)
    (fresh_keeps : (w : W) (k raw : String)
      → sound.held (env.fresh w).1 k ≡ some raw
      → sound.held w k ≡ some raw) where
  with_id-identified :
      (doc : Document) (w : W)
      → Good p.embedder f InUse sound w
      → (w' : W) × (with_id env p doc w ≡ (identified env doc w, w'))
        × Good p.embedder f InUse sound w'
  unfolding with_id
  with_id-identified doc w g = elim (Bool-cases (str_eq doc.id "")) [
    | inl e ↦
        ((env.fresh w).1, rw e refl, λ t raw used there. g t raw used (fresh_keeps w _ raw there))
    | inr e ↦ (w, rw e refl, g)
  ]

  -- `Ingest` of a document of texts with an empty line between two of them stores, in one batch, one
  -- vector for each text that is not blank: numbered from 0, named after the document, which gets a
  -- fresh identifier if it has none, with the text without the space around it, its embedding, and
  -- the document's identifier, title and source. Its error is the store's. No text has an empty line
  -- in it or ends in a newline; the provider embeds each text by `f`, the cache holds no other
  -- vector for a text in use, as the chunks are, and a fresh identifier adds nothing to it.
  pub ingest-stores :
      (doc : Document) (cfg : ChunkerConfig) (ps : List String) (w : W)
      → Good p.embedder f InUse sound w
      → doc.content ≡ document_text ps
      → All Unbroken ps
      → All InUse (tidy ps)
      → (w' : W) × (let doc' = identified env doc w in
          let (e, w2) = p.vec_store.upsert_batch (numbered f doc' 0 (tidy ps)) w' in
          ingest env p doc cfg w ≡ some (e, doc', w2))
        × Good p.embedder f InUse sound w'
  unfolding ingest after_embed store_all
  ingest-stores doc cfg ps w g content whole used =
      let (w1, named, g1) = with_id-identified doc w g in
      let chunks : chunk_text doc.content cfg ≡ tidy ps =
        ap (λ t. chunk_text t cfg) content ∙ chunk_text-document_text ps cfg whole in
      let (w2, vectors, g2) = embed-map p.embedder f InUse sound (tidy ps) w1 used g1 in
      (
        w2,
        rw (named, ingest)
            (rw chunks
              (rw vectors (rw (vectors_from-numbered f (identified env doc w) 0 (tidy ps)) refl))),
        g2,
      )
