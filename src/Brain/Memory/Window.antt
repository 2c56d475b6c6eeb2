-- ===== src/Brain/Memory/Window.antt =====
-- What an added message does to the context of its session.
use bzy_personal.Prelude.{ℕ, ◌≤◌, ◌<◌, ◌≡◌, ◌⊎◌, String, List, [], ◌∷◌, ◌++◌, none, All, length}
use bzy_personal.Errors.{ok}
use bzy_personal.Runtime.{Env}
use bzy_personal.Brain.Memory.{Message, Session, Repository}

-- `window` is the end of `all`, of at most 20 messages, and is shorter only if it is all of them.
abbrev pub IsWindow : List Message → List Message → Type 0
IsWindow all window =
    (older : List Message) × (all ≡ older ++ window)
    × (length window ≤ 20)
    × ((length window ≡ 20) ⊎ (older ≡ []))

-- The messages are older than the time.
abbrev pub Before : ℕ → List Message → Type 0
Before at ms = All (λ m. m.created_at < at) ms

-- What the service relies on: a session is read in the order of its messages' times, so that an
-- appended message that is newer than all of them is its last one from then on, and the clock and
-- fresh identifiers leave the sessions alone.
pub record IsRepository {W : Type 0} (env : Env W) (repo : Repository W) : Type 0 where
  pub appends :
      (id : String) (m : Message) (w : W) (s : Session)
      → (repo.append_message id m w).0 ≡ none
      → (repo.get_session id w).0 ≡ ok s
      → Before m.created_at s.messages
      → (repo.get_session id (repo.append_message id m w).1).0
        ≡ ok (record s { messages = s.messages ++ m ∷ [] })
  pub now_keeps :
      (id : String) (w : W) → (repo.get_session id (env.now w).1).0 ≡ (repo.get_session id w).0
  pub fresh_keeps :
      (id : String) (w : W) → (repo.get_session id (env.fresh w).1).0 ≡ (repo.get_session id w).0
