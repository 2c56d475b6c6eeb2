-- ===== src/Interface/Examples.antt =====
-- Requests and subscribers at concrete inputs.
use bzy_personal.Prelude.{◌≡◌, ◌↔◌, String, [], ◌∷◌, some}
use bzy_personal.Errors.{Result, err, text}
use bzy_personal.Interface.Middleware.{Claims, ApiKeys, require_auth}
use bzy_personal.Interface.Middleware.Auth.{Admits, Credential, require_auth-iff-Credential}
use bzy_personal.Errors.{Error, wrap, domain, not_found}
use bzy_personal.Interface.Streaming.{Event, Hub, new_hub}
use bzy_personal.Interface.Streaming.Safety.{
  subscribe_op, unsubscribe_op, publish_op, receive_op, run, run-new_hub,
}

abbrev no_token : String → Result Claims
no_token s = err (text "bad signature")

abbrev keys : ApiKeys
keys = ("k1", "ann") ∷ []

require_auth-iff-Credential_example :
    Admits (require_auth no_token keys "" "k1") "ann" ↔ Credential no_token keys "" "k1" "ann"
require_auth-iff-Credential_example = require_auth-iff-Credential no_token keys "" "k1" "ann"

abbrev tick_event : Event
tick_event = record { id = "1"; event = "tick"; payload = "{}" }

run-new_hub_example :
    (h : Hub) × (run new_hub (
        subscribe_op "c" "t"
        ∷ publish_op "t" tick_event
        ∷ receive_op 0
        ∷ unsubscribe_op "c" "t"
        ∷ publish_op "t" tick_event
        ∷ [])
      ≡ some h)
run-new_hub_example = run-new_hub (
    subscribe_op "c" "t"
    ∷ publish_op "t" tick_event
    ∷ receive_op 0
    ∷ unsubscribe_op "c" "t"
    ∷ publish_op "t" tick_event
    ∷ [])

abbrev missing : Error
missing = wrap "load: " (domain not_found "no such user" "")
