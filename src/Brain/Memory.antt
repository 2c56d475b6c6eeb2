-- ===== src/Brain/Memory.antt =====
-- apps/bzy-brain/internal/memory/memory.go: memories, sessions, and the service over a repository
-- that is a parameter. Importance and scores are the bit patterns of a float32; metadata is JSON.
pub mod Window
mod Examples
use bzy_personal.Prelude.{
  ℕ, ◌+◌, ◌-◌, Bool, String, List, [], Option, none, some, str_eq, if◌then◌else◌, ltb, length, drop,
}
use bzy_personal.Errors.{Error, Result, ok, err}
use bzy_personal.Runtime.{Env, Json}

-- `MemoryType` is an open string type in Go; these are its constants.
pub data MemoryType : Type 0 where
  episodic semantic procedural working : MemoryType
  other : String → MemoryType

pub record Memory : Type 0 where
  pub id : String
  pub session_id : String
  pub user_id : String
  pub type : MemoryType
  pub content : String
  pub summary : String
  pub importance : ℕ
  pub metadata : Json
  pub embedding : List ℕ
  pub created_at : ℕ
  pub updated_at : ℕ
  pub expires_at : Option ℕ

pub record Message : Type 0 where
  pub id : String
  pub role : String
  pub content : String
  pub created_at : ℕ

pub record Session : Type 0 where
  pub id : String
  pub user_id : String
  pub title : String
  pub messages : List Message
  pub summary : String
  pub created_at : ℕ
  pub updated_at : ℕ

pub record RecallResult : Type 0 where
  pub memory : Memory
  pub score : ℕ

-- The methods of `Repository` that the service calls.
pub record Repository (W : Type 0) : Type 0 where
  pub save : Memory → W → Option Error × W
  pub delete : String → W → Option Error × W
  pub get_session : String → W → Result Session × W
  pub append_message : String → Message → W → Option Error × W

-- The last 20 messages.
abbrev pub recent : List Message → List Message
recent msgs = if ltb 20 (length msgs) then drop (length msgs - 20) msgs else msgs

context_of : Result Session → Result (List Message)
context_of (err e) = err e
context_of (ok s) = ok (recent s.messages)

module _ {W : Type 0} (env : Env W) (repo : Repository W) where
  -- `Store` stamps the memory of its caller, and saves it.
  unfoldable pub store : Memory → W → Option Error × Memory × W
  store m w =
      let (fresh, w') = env.fresh w in
      let (id, w1) = if str_eq m.id "" then (fresh, w') else (m.id, w) in
      let (at, w2) = env.now w1 in
      let m1 = record m { id = id; created_at = at; updated_at = at } in
      let (e, w3) = repo.save m1 w2 in (e, m1, w3)

  -- `Recall` finds nothing.
  unfoldable pub recall : String → String → ℕ → W → Result (List RecallResult) × W
  recall user query top_k w = (ok [], w)

  unfoldable pub forget : String → W → Option Error × W
  forget id w = repo.delete id w

  unfoldable pub get_session : String → W → Result Session × W
  get_session id w = repo.get_session id w

  -- The message that `AddMessage` appends, and the world in which it does.
  unfoldable pub stamped : Message → W → Message × W
  stamped msg w =
      let (fresh, w') = env.fresh w in
      let (id, w1) = if str_eq msg.id "" then (fresh, w') else (msg.id, w) in
      let (at, w2) = env.now w1 in (record msg { id = id; created_at = at }, w2)

  unfoldable pub add_message : String → Message → W → Option Error × W
  unfolding stamped
  add_message session_id msg w =
      let (msg1, w1) = stamped msg w in repo.append_message session_id msg1 w1

  -- `SummarizeSession` does nothing.
  unfoldable pub summarize_session : String → W → Option Error × W
  summarize_session session_id w = (none, w)

  -- `BuildContext` does not look at the user, the query or the number of tokens.
  unfoldable pub build_context : String → String → String → ℕ → W → Result (List Message) × W
  unfolding context_of
  build_context user session_id query max_tokens w =
      let (r, w') = repo.get_session session_id w in (context_of r, w')
