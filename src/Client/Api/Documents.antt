-- ===== src/Client/Api/Documents.antt =====
-- pkg/client/documents.go. The codecs of the bodies are parameters.
use bzy_personal.Prelude.{ℕ, String, List, [], Option, some}
use bzy_personal.Prelude.Texts.{◌<>◌}
use bzy_personal.Errors.{Error, Result}
use bzy_personal.Runtime.{Json}
use bzy_personal.Client.Api.{Link, Reads, call, wrapped, field, command}
use bzy_personal.Client.Api.Chat.{Message}

pub record IngestRequest : Type 0 where
  pub title : String
  pub content : String
  pub source : String
  pub metadata : Json
  pub chunk_strategy : String
  pub chunk_size : ℕ
  pub chunk_overlap : ℕ

pub record IngestResponse : Type 0 where
  pub document_id : String
  pub chunk_count : ℕ

pub record RagQueryRequest : Type 0 where
  pub query : String
  pub collection : String
  pub top_k : ℕ
  pub history : List Message

pub record RagChunk : Type 0 where
  pub id : String
  pub content : String
  pub score : Json
  pub metadata : Json

pub record RagQueryResponse : Type 0 where
  pub response : String
  pub chunks : List RagChunk
  pub latency_ms : ℕ

pub record Codec : Type 0 where
  pub marshal_ingest : IngestRequest → Result String
  pub marshal_query : RagQueryRequest → Result String
  pub read_ingested : Reads IngestResponse
  pub read_answer : Reads RagQueryResponse

abbrev pub documents_path : String
documents_path = "/api/v1/documents/"

abbrev pub query_path : String
query_path = "/api/v1/documents/query"

abbrev pub document_path : String → String
document_path id = "/api/v1/documents/" <> id

module _ {W : Type 0} (l : Link W) (codec : Codec) where
  -- `Ingest`
  unfoldable pub ingest : IngestRequest → W → Option (Result IngestResponse × W)
  ingest req w = wrapped "ingest: " (
      call l "POST" documents_path (some (codec.marshal_ingest req)) codec.read_ingested
        (record { document_id = ""; chunk_count = 0 }) w)

  -- `Query`
  unfoldable pub query : RagQueryRequest → W → Option (Result RagQueryResponse × W)
  query req w = wrapped "rag query: " (
      call l "POST" query_path (some (codec.marshal_query req)) codec.read_answer
        (record { response = ""; chunks = []; latency_ms = 0 }) w)

  -- `Delete`
  unfoldable pub delete : String → W → Option (Option Error × W)
  delete id w = command l "DELETE" (document_path id) w

  -- `Ask`
  unfoldable pub ask : String → W → Option (Result String × W)
  unfolding query
  ask question w =
      field (λ (r : RagQueryResponse). r.response)
        (query (record { query = question; collection = ""; top_k = 0; history = [] }) w)
