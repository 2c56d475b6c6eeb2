-- ===== src/Runtime.antt =====
-- What the Go runtime and the `uuid` package give to every service: the clock and fresh
-- identifiers. Both read and change a world `W` of any type, in which the outside of a process
-- (a provider's server, a database) keeps its state too.
use bzy_personal.Prelude.{ℕ, String}

pub record Env (W : Type 0) : Type 0 where
  -- `time.Now`, in nanoseconds
  pub now : W → ℕ × W
  -- `uuid.New().String()`
  pub fresh : W → String × W

-- `json.RawMessage`, `map[string]any` and `any`: the JSON text, which the modelled code passes on
-- unread.
abbrev pub Json : Type 0
Json = String
