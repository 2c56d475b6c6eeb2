-- ===== src/Plugin/Registered.antt =====
-- Which plugin an identifier names after any changes of the registry.

use bzy_personal.Prelude.{
  ℕ, ◌-◌, ◌≡◌, refl, ◌∙◌, String, List, [], ◌∷◌, Option, none, some, str_eq, if◌then◌else◌,
}
use bzy_personal.Prelude.Map.{lookup, lookup-insert, lookup-delete}
use bzy_personal.Errors.{Error, plugin_not_found}
use bzy_personal.Runtime.{Env}
use bzy_personal.Plugin.{
  Plugin, Registry, new_registry, register, unregister, Input, Output, Executed, timed, execute,
  execute_found,
}

-- The calls that change a registry.
pub data Op (W : Type 0) : Type 0 where
  add : Plugin W → Op W
  remove : String → Op W

module _ {W : Type 0} where
  abbrev pub apply : Registry W → Op W → Registry W
  apply r (add p) = register p r
  apply r (remove id) = unregister id r

  abbrev pub run : Registry W → List (Op W) → Registry W
  run r [] = r
  run r (o ∷ os) = run (apply r o) os

  -- What a call says of the identifier, or else what was said before.
  abbrev said : String → Op W → Option (Plugin W) → Option (Plugin W)
  said id (add p) before = if str_eq p.manifest.id id then some p else before
  said id (remove other) before = if str_eq other id then none else before

  -- The plugin that the last call about the identifier registers, and none if it removes it or
  -- there is no such call.
  abbrev pub last_said : String → Option (Plugin W) → List (Op W) → Option (Plugin W)
  last_said id before [] = before
  last_said id before (o ∷ os) = last_said id (said id o before) os

  lookup-apply :
      (id : String) (r : Registry W) (o : Op W) → lookup id (apply r o) ≡ said id o (lookup id r)
  unfolding register unregister
  lookup-apply id r (add p) = lookup-insert p.manifest.id id p r
  lookup-apply id r (remove other) = lookup-delete other id r

  lookup-run :
      (id : String) (os : List (Op W)) (r : Registry W)
      → lookup id (run r os) ≡ last_said id (lookup id r) os
  lookup-run id [] r = refl
  lookup-run id (o ∷ os) r = lookup-run id os (apply r o) ∙ rw (lookup-apply id r o) refl

module _ {W : Type 0} (env : Env W) where
  -- What a call of the plugin is to answer: its output with the time from one reading of the clock
  -- before it to one after it, or its error.
  abbrev measured : ℕ → Option Output → Option Error → W → Executed W
  measured start none e w = (none, e, w)
  measured start (some out) e w =
      (some (record out { latency = (env.now w).0 - start }), e, (env.now w).1)

  abbrev called : Plugin W → Input → W → Executed W
  called p input w =
      let (out, e, w') = p.execute input (env.now w).1 in measured (env.now w).0 out e w'

  abbrev answered : Option (Plugin W) → String → Input → W → Executed W
  answered none id input w = (none, some (plugin_not_found id), w)
  answered (some p) id input w = called p input w

  execute_found-answered :
      (o : Option (Plugin W)) (id : String) (input : Input) (w : W)
      → execute_found env o id input w ≡ answered o id input w
  unfolding execute_found timed
  execute_found-answered none id input w = refl
  execute_found-answered (some p) id input w = go (p.execute input (env.now w).1)
    where
      go : (x : Executed W) → timed env (env.now w).0 x ≡ measured (env.now w).0 x.0 x.1 x.2
      go (none, e, w') = refl
      go (some out, e, w') = refl

  -- After any calls of `Register` and `Unregister` on a new registry, `Execute` calls the plugin that
  -- the last of them about the identifier has registered, between two readings of the clock, and
  -- gives its output with the time between them as its latency, and its error; it answers that
  -- there is no plugin if that call has removed it or there was no such call.
  pub execute-last_said :
      (os : List (Op W)) (id : String) (input : Input) (w : W)
      → execute env (run new_registry os) id input w ≡ answered (last_said id none os) id input w
  unfolding execute new_registry lookup
  execute-last_said os id input w =
      rw (lookup-run id os []) (execute_found-answered (last_said id none os) id input w)
