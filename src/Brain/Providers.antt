-- ===== src/Brain/Providers.antt =====
-- apps/bzy-brain/internal/providers/provider.go: the types of a chat, the interface of a backend,
-- and the registry of backends. A backend is a parameter; its calls change the world.
pub mod Defaulting
use bzy_personal.Prelude.{ℕ, Bool, String, List, [], Option, none, some, str_eq, if◌then◌else◌}
use bzy_personal.Prelude.Map.{Map, lookup, insert}
use bzy_personal.Errors.{Error, Result, ok, err, provider_not_found}
use bzy_personal.Runtime.{Json}

pub data Role : Type 0 where
  system user assistant tool : Role

pub record ToolCall : Type 0 where
  pub id : String
  pub name : String
  pub arguments : Json

pub record Message : Type 0 where
  pub role : Role
  pub content : String
  pub tool_calls : List ToolCall
  pub tool_call_id : String

pub record ToolSpec : Type 0 where
  pub name : String
  pub description : String
  pub parameters : Json

-- The fields that the modelled callers set. The temperature is in hundredths.
pub record ChatRequest : Type 0 where
  pub messages : List Message
  pub tools : List ToolSpec
  pub temperature : ℕ

pub record Usage : Type 0 where
  pub prompt_tokens : ℕ
  pub completion_tokens : ℕ
  pub total_tokens : ℕ

pub record ChatResponse : Type 0 where
  pub id : String
  pub model : String
  pub message : Message
  pub usage : Usage
  pub finish : String

-- `Provider`: its identifier, and the operations that the modelled code calls.
pub record Provider (W : Type 0) : Type 0 where
  pub id : String
  pub chat : ChatRequest → W → Result ChatResponse × W
  pub embed : List String → W → Result (List (List ℕ)) × W

pub record Registry (W : Type 0) : Type 0 where
  pub providers : Map (Provider W)
  pub default_id : String

module _ {W : Type 0} where
  unfoldable pub new_registry : Registry W
  new_registry = record { providers = []; default_id = "" }

  unfoldable pub register : Provider W → Registry W → Registry W
  register p r = record r {
    providers = insert p.id p r.providers;
    default_id = if str_eq r.default_id "" then p.id else r.default_id;
  }

  unfoldable pub get : String → Registry W → Option (Provider W)
  get id r = lookup id r.providers

  -- `none` is the nil interface, on which a call panics.
  unfoldable pub default : Registry W → Option (Provider W)
  default r = lookup r.default_id r.providers

  set_default_found : Option (Provider W) → String → Registry W → Result (Unit {0}) × Registry W
  set_default_found none id r = (err (provider_not_found id), r)
  set_default_found (some _) id r = (ok tt, record r { default_id = id })

  unfoldable pub set_default : String → Registry W → Result (Unit {0}) × Registry W
  unfolding set_default_found
  set_default id r = set_default_found (lookup id r.providers) id r
