-- ===== src/Brain/Rag/Data.antt =====
-- The types of apps/bzy-brain/internal/rag/rag.go, and those of vectorstore.go that it uses.
use bzy_personal.Prelude.{ℕ, String, List, Option}
use bzy_personal.Errors.{Error, Result}
use bzy_personal.Brain.Embedding.{Vec}

-- A value of a metadata map.
pub data Value : Type 0 where
  text_value : String → Value
  int_value : ℕ → Value

abbrev pub Metadata : Type 0
Metadata = List (String × Value)

pub record Document : Type 0 where
  pub id : String
  pub title : String
  pub content : String
  pub source : String
  pub metadata : Metadata

pub record Chunk : Type 0 where
  pub id : String
  pub document_id : String
  pub content : String
  pub index : ℕ
  pub metadata : Metadata

pub record RetrievedChunk : Type 0 where
  pub chunk : Chunk
  pub score : ℕ

pub record QueryResult : Type 0 where
  pub chunks : List RetrievedChunk
  pub response : String
  pub latency : ℕ

pub record ChunkerConfig : Type 0 where
  pub strategy : String
  pub chunk_size : ℕ
  pub overlap : ℕ

-- `vectorstore.Vector` and `SearchQuery`, the fields that are set here.
pub record Vector : Type 0 where
  pub id : String
  pub collection : String
  pub content : String
  pub embedding : Vec
  pub metadata : Metadata
  pub score : ℕ

pub record SearchQuery : Type 0 where
  pub collection : String
  pub embedding : Vec
  pub top_k : ℕ
  pub min_score_hundredths : ℕ

pub record Store (W : Type 0) : Type 0 where
  pub upsert_batch : List Vector → W → Option Error × W
  pub search : SearchQuery → W → Result (List Vector) × W

abbrev pub collection_documents : String
collection_documents = "documents"
