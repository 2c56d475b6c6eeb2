-- ===== src/Brain/Rag.antt =====
-- apps/bzy-brain/internal/rag/rag.go: documents in, answers out. The vector store is a parameter, and so are the
-- two digits of a score behind its point. Scores are the bits of their floats, temperatures hundredths.
mod Data
pub mod Chunks
pub mod Stored
mod Examples
pub use Data.*
use Prim.Native.Char.{code}
use Prim.Native.String
use bzy_personal.Prelude.{
  ℕ, zero, suc, ◌+◌, ◌-◌, Bool, true, false, ◌&&◌, String, List, [], ◌∷◌, ◌++◌, Option, none, some,
  ◌==◌, str_eq, if◌then◌else◌,
}
use bzy_personal.Prelude.Texts.{◌<>◌, trim_space, add_front}
use bzy_personal.Errors.{Error, wrap, Result, ok, err, decimal}
use bzy_personal.Runtime.{Env}
use bzy_personal.Brain.Providers.{
  Role, Message, ChatRequest, ChatResponse, Provider, Registry, default,
}
use bzy_personal.Brain.Embedding.{Vec, Service, embed, embed_one}

-- `strings.Split(text, "\n\n")`: the pieces before each pair of newlines, from the left.
cut : List String → List String
cut rest = "" ∷ rest

unfoldable pub split_paragraphs : String → List String
unfolding add_front cut
split_paragraphs String.[] = "" ∷ []
split_paragraphs (String.◌∷◌ c String.[]) = String.◌∷◌ c "" ∷ []
split_paragraphs (String.◌∷◌ c (String.◌∷◌ d s)) =
    let behind = split_paragraphs s in
    let on = split_paragraphs (String.◌∷◌ d s) in
    if code c == 10 && code d == 10 then cut behind else add_front c on

kept : List String → List String
kept [] = []
kept (p ∷ parts) =
    let rest = kept parts in let t = trim_space p in if str_eq t "" then rest else t ∷ rest

-- `chunkText`: the configuration is not read.
unfoldable pub chunk_text : String → ChunkerConfig → List String
unfolding split_paragraphs kept
chunk_text t cfg = kept (split_paragraphs t)

-- The vector of a chunk.
unfoldable pub chunk_vector : Document → ℕ → String → Vec → Vector
chunk_vector doc i chunk embedding = record {
  id = doc.id <> ("-chunk-" <> decimal i);
  collection = collection_documents;
  content = chunk;
  embedding = embedding;
  metadata =
      ("document_id", text_value doc.id)
      ∷ ("title", text_value doc.title)
      ∷ ("source", text_value doc.source)
      ∷ ("chunk_index", int_value i)
      ∷ [];
  score = 0;
}

with_first : Vector → Option (List Vector) → Option (List Vector)
with_first v none = none
with_first v (some vs) = some (v ∷ vs)

-- The loop of `Ingest` from a chunk on. `embeddings[i]` out of range is a panic, `none`.
unfoldable pub vectors_from : Document → ℕ → List String → List Vec → Option (List Vector)
unfolding chunk_vector with_first
vectors_from doc i [] es = some []
vectors_from doc i (c ∷ cs) [] = none
vectors_from doc i (c ∷ cs) (e ∷ es) =
    with_first (chunk_vector doc i c e) (vectors_from doc (i + 1) cs es)

retrieved : List Vector → List RetrievedChunk
retrieved [] = []
retrieved (v ∷ vs) =
    record {
      chunk = record {
        id = v.id;
        document_id = "";
        content = v.content;
        index = 0;
        metadata = v.metadata;
      };
      score = v.score;
    }
    ∷ retrieved vs

-- `buildContextPrompt`, from a number on.
unfoldable pub context_from : (ℕ → String) → ℕ → List RetrievedChunk → String
context_from format i [] = ""
context_from format i (c ∷ cs) =
    "["
    <> (decimal i
        <> ("] (score: "
            <> (format c.score
                <> (")\n" <> (c.chunk.content <> ("\n\n" <> context_from format (i + 1) cs))))))

unfoldable pub build_context_prompt : (ℕ → String) → List RetrievedChunk → String
unfolding context_from
build_context_prompt format cs = context_from format 1 cs

unfoldable pub rag_system_prompt : String → String
rag_system_prompt context =
    "You are a helpful assistant. Use the following retrieved context to answer questions accurately.\nIf the context doesn't contain enough information, say so.\n\nCONTEXT:\n"
    <> context

abbrev pub plain_message : Role → String → Message
plain_message role content = record {
  role = role;
  content = content;
  tool_calls = [];
  tool_call_id = "";
}

-- The request of `Query`.
unfoldable pub query_request :
    (ℕ → String) → List RetrievedChunk → String → List Message → ChatRequest
unfolding rag_system_prompt
query_request format chunks query history = record {
  messages =
      plain_message Role.system (rag_system_prompt (build_context_prompt format chunks))
      ∷ (history ++ (plain_message Role.user query ∷ []));
  tools = [];
  temperature = 30;
}

pub record Pipeline (W : Type 0) : Type 0 where
  pub embedder : Service W
  pub vec_store : Store W
  pub chat_provider : Option (Provider W)

unfoldable pub new_pipeline : {W : Type 0} → Service W → Store W → Registry W → Pipeline W
new_pipeline embedder store reg = record {
  embedder = embedder;
  vec_store = store;
  chat_provider = default reg;
}

module _ {W : Type 0} (env : Env W) (p : Pipeline W) where
  with_id : Document → W → Document × W
  with_id doc w =
      if str_eq doc.id ""
      then (let (id, w') = env.fresh w in (record doc { id = id }, w'))
      else (doc, w)

  store_all : Document → W → Option (List Vector) → Option (Option Error × Document × W)
  store_all doc w none = none
  store_all doc w (some vs) = let (e, w') = p.vec_store.upsert_batch vs w in some (e, doc, w')

  after_embed :
      Document → List String → Option (Result (List Vec) × W) → Option (Option Error × Document × W)
  unfolding store_all vectors_from
  after_embed doc chunks none = none
  after_embed doc chunks (some (err e, w)) = some (some (wrap "rag ingest embed: " e), doc, w)
  after_embed doc chunks (some (ok es, w)) = store_all doc w (vectors_from doc 0 chunks es)

  -- `Ingest`, with the document as the caller sees it afterwards. `none` is a panic.
  unfoldable pub ingest : Document → ChunkerConfig → W → Option (Option Error × Document × W)
  unfolding with_id after_embed chunk_text
  ingest doc cfg w =
      let (doc', w') = with_id doc w in
      let chunks = chunk_text doc'.content cfg in
      after_embed doc' chunks (embed p.embedder chunks w')

  after_search : Result (List Vector) × W → Result (List RetrievedChunk) × W
  unfolding retrieved
  after_search (err e, w) = (err (wrap "rag retrieve search: " e), w)
  after_search (ok vs, w) = (ok (retrieved vs), w)

  after_embed_one : String → ℕ → Option (Result Vec × W) → Option (Result (List RetrievedChunk) × W)
  unfolding after_search
  after_embed_one collection top_k none = none
  after_embed_one collection top_k (some (err e, w)) = some (err (wrap "rag retrieve embed: " e), w)
  after_embed_one collection top_k (some (ok v, w)) =
      let q : SearchQuery = record {
        collection = collection;
        embedding = v;
        top_k = top_k;
        min_score_hundredths = 65;
      } in
      some (after_search (p.vec_store.search q w))

  -- `Retrieve`
  unfoldable pub retrieve : String → String → ℕ → W → Option (Result (List RetrievedChunk) × W)
  unfolding after_embed_one
  retrieve collection query top_k w =
      after_embed_one collection top_k (embed_one p.embedder query w)

  after_chat : ℕ → List RetrievedChunk → Result ChatResponse × W → Result QueryResult × W
  after_chat start chunks (err e, w) = (err (wrap "rag generate: " e), w)
  after_chat start chunks (ok resp, w) =
      let (finish, w') = env.now w in
      (
        ok (record { chunks = chunks; response = resp.message.content; latency = finish - start }),
        w',
      )

  generate :
      (ℕ → String)
      → ℕ
      → String
      → List Message
      → List RetrievedChunk
      → W
      → Option (Provider W)
      → Option (Result QueryResult × W)
  unfolding after_chat query_request
  generate format start query history chunks w none = none
  generate format start query history chunks w (some provider) =
      some (after_chat start chunks (provider.chat (query_request format chunks query history) w))

  after_retrieve :
      (ℕ → String)
      → ℕ
      → String
      → List Message
      → Option (Result (List RetrievedChunk) × W)
      → Option (Result QueryResult × W)
  unfolding generate
  after_retrieve format start query history none = none
  after_retrieve format start query history (some (err e, w)) = some (err e, w)
  after_retrieve format start query history (some (ok chunks, w)) =
      generate format start query history chunks w p.chat_provider

  -- `Query`. `none` is a panic.
  unfoldable pub query :
      (ℕ → String) → String → String → List Message → W → Option (Result QueryResult × W)
  unfolding retrieve after_retrieve
  query format collection q history w =
      let (start, w') = env.now w in
      after_retrieve format start q history (retrieve collection q 5 w')

  -- `DeleteDocument` does nothing yet.
  unfoldable pub delete_document : String → W → Option Error × W
  delete_document id w = (none, w)
