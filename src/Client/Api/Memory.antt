-- ===== src/Client/Api/Memory.antt =====
-- pkg/client/memory.go. The codecs and the numbers with a fraction are parameters.
use bzy_personal.Prelude.{ℕ, Bool, String, List, [], Option, none, some, ltb, if◌then◌else◌}
use bzy_personal.Prelude.Map.{Map, insert}
use bzy_personal.Prelude.Texts.{◌<>◌}
use bzy_personal.Errors.{Error, Result, decimal}
use bzy_personal.Runtime.{Json}
use bzy_personal.Client.Api.{Link, Reads, call, wrapped, field, command}

-- A number that is not an integer is its JSON text.
pub record Memory : Type 0 where
  pub id : String
  pub session_id : String
  pub user_id : String
  pub kind : String
  pub content : String
  pub summary : String
  pub importance : Json
  pub metadata : Json
  pub created_at : ℕ
  pub updated_at : ℕ

pub record StoreMemoryRequest : Type 0 where
  pub session_id : String
  pub kind : String
  pub content : String
  pub importance : Json
  pub metadata : Json

pub record StoreMemoryResponse : Type 0 where
  pub id : String

pub record RecallResult : Type 0 where
  pub memory : Option Memory
  pub score : Json

pub record RecallResponse : Type 0 where
  pub results : List RecallResult

-- `Float` is `float32`, with its test above 0 and its text with two digits after the point.
pub record Codec (Float : Type 0) : Type 0 where
  pub marshal : StoreMemoryRequest → Result String
  pub read_stored : Reads StoreMemoryResponse
  pub read_recalled : Reads RecallResponse
  pub encode_query : Map String → String
  pub is_positive : Float → Bool
  pub format : Float → String

abbrev pub memories_path : String
memories_path = "/api/v1/memory/"

abbrev pub recall_path : String → String
recall_path query = "/api/v1/memory/recall?" <> query

abbrev pub memory_path : String → String
memory_path id = "/api/v1/memory/" <> id

module _ {W Float : Type 0} (l : Link W) (codec : Codec Float) where
  -- `Store`
  unfoldable pub store : StoreMemoryRequest → W → Option (Result String × W)
  store req w =
      field (λ (r : StoreMemoryResponse). r.id)
        (wrapped "memory store: " (
          call l "POST" memories_path (some (codec.marshal req)) codec.read_stored
            (record { id = "" }) w))

  unfoldable pub recall_query : String → ℕ → Float → Map String
  recall_query query top_k min_score =
      let q = insert "q" query [] in
      let q' = if ltb 0 top_k then insert "top_k" (decimal top_k) q else q in
      if codec.is_positive min_score then insert "min_score" (codec.format min_score) q' else q'

  -- `Recall`. `top_k` is not negative.
  unfoldable pub recall : String → ℕ → Float → W → Option (Result (List RecallResult) × W)
  unfolding recall_query
  recall query top_k min_score w =
      field (λ (r : RecallResponse). r.results)
        (wrapped "memory recall: " (
          call l "GET" (recall_path (codec.encode_query (recall_query query top_k min_score))) none
            codec.read_recalled (record { results = [] }) w))

  -- `Forget`
  unfoldable pub forget : String → W → Option (Option Error × W)
  forget id w = command l "DELETE" (memory_path id) w
