-- ===== src/Brain/Memory/Examples.antt =====
-- A session in memory: the world is the list of its messages.
use bzy_personal.Prelude.{ltb, if◌then◌else◌, List, [], ◌∷◌, none}
use bzy_personal.Errors.{ok}
use bzy_personal.Runtime.{Env}
use bzy_personal.Brain.Memory.{Message, Session, Repository}

abbrev still : Env (List Message)
still = record { now = λ w. (7, w); fresh = λ w. ("m1", w) }

abbrev session : List Message → Session
session ms = record {
  id = "s";
  user_id = "ann";
  title = "";
  messages = ms;
  summary = "";
  created_at = 0;
  updated_at = 0;
}

-- Reading in the order of time: a message goes behind those that are not newer.
abbrev placed : Message → List Message → List Message
placed m [] = m ∷ []
placed m (x ∷ xs) =
    let rest = placed m xs in if ltb m.created_at x.created_at then m ∷ x ∷ xs else x ∷ rest

abbrev in_memory : Repository (List Message)
in_memory = record {
  save = λ m w. (none, w);
  delete = λ id w. (none, w);
  get_session = λ id w. (ok (session w), w);
  append_message = λ id m w. (none, placed m w);
}

abbrev hi : Message
hi = record { id = ""; role = "user"; content = "hi"; created_at = 0 }

abbrev earlier : Message
earlier = record { id = "m0"; role = "assistant"; content = "hello"; created_at = 3 }
