-- ===== src/Brain/Embedding.antt =====
-- apps/bzy-brain/internal/embedding/embedding.go: the embeddings of texts, with a cache. The Redis client, the hash
-- and the JSON codec of a vector are parameters.
pub mod Cached
use bzy_personal.Prelude.{ℕ, String, List, [], ◌∷◌, Option, none, some}
use bzy_personal.Prelude.Texts.{◌<>◌}
use bzy_personal.Errors.{Error, wrap, Result, ok, err}
use bzy_personal.Brain.Providers.{Provider, Registry, default}

-- `[]float32`, each number by its bits.
abbrev pub Vec : Type 0
Vec = List ℕ

-- `GET` and `SET` of the Redis client, `hex(sha256(text))`, and the codec.
pub record Cache (W : Type 0) : Type 0 where
  pub get : String → W → Result String × W
  pub set : String → String → ℕ → W → Option Error × W
  pub hash : String → String
  pub marshal : Vec → Result String
  pub unmarshal : String → Result Vec

-- A nil provider is `none`.
pub record Service (W : Type 0) : Type 0 where
  pub provider : Option (Provider W)
  pub cache : Cache W
  pub cache_ttl : ℕ

unfoldable pub new_service : {W : Type 0} → Registry W → Cache W → Service W
new_service reg cache = record { provider = default reg; cache = cache; cache_ttl = 86400000000000 }

module _ {W : Type 0} (s : Service W) where
  unfoldable pub cache_key : String → String
  cache_key t = "embed:" <> s.cache.hash t

  cached_of : Result String × W → Result Vec × W
  cached_of (err e, w) = (err e, w)
  cached_of (ok raw, w) = (s.cache.unmarshal raw, w)

  -- `getCache`
  unfoldable pub get_cache : String → W → Result Vec × W
  unfolding cached_of cache_key
  get_cache t w = cached_of (s.cache.get (cache_key t) w)

  set_raw : String → W → Result String → Option Error × W
  unfolding cache_key
  set_raw t w (err e) = (some e, w)
  set_raw t w (ok raw) = s.cache.set (cache_key t) raw s.cache_ttl w

  -- `setCache`
  unfoldable pub set_cache : String → Vec → W → Option Error × W
  unfolding set_raw
  set_cache t v w = set_raw t w (s.cache.marshal v)

  known : Result Vec → Option Vec
  known (ok v) = some v
  known (err e) = none

  -- The first loop of `Embed`: `none` is an entry of `missing`.
  look_up : List String → W → List (Option Vec) × W
  unfolding get_cache known
  look_up [] w = ([], w)
  look_up (t ∷ ts) w =
      let (v, w1) = get_cache t w in let (vs, w2) = look_up ts w1 in (known v ∷ vs, w2)

  missing_texts : List String → List (Option Vec) → List String
  missing_texts (t ∷ ts) (none ∷ vs) = t ∷ missing_texts ts vs
  missing_texts (t ∷ ts) (some v ∷ vs) = missing_texts ts vs
  missing_texts _ _ = []

  filled : Vec → Option (List Vec × W) → Option (List Vec × W)
  filled v none = none
  filled v (some (vs, w)) = some (v ∷ vs, w)

  -- The second loop. A provider that gives fewer vectors than texts makes it panic.
  fill : List String → List (Option Vec) → List Vec → W → Option (List Vec × W)
  unfolding filled set_cache
  fill (t ∷ ts) (some v ∷ vs) new w = filled v (fill ts vs new w)
  fill (t ∷ ts) (none ∷ vs) [] w = none
  fill (t ∷ ts) (none ∷ vs) (v ∷ new) w =
      let (ignored, w') = set_cache t v w in filled v (fill ts vs new w')
  fill _ _ new w = some ([], w)

  succeed : Option (List Vec × W) → Option (Result (List Vec) × W)
  succeed none = none
  succeed (some (vs, w)) = some (ok vs, w)

  after_provider :
      List String → List (Option Vec) → Result (List Vec) × W → Option (Result (List Vec) × W)
  unfolding succeed fill
  after_provider ts found (err e, w) = some (err (wrap "embedding provider: " e), w)
  after_provider ts found (ok vs, w) = succeed (fill ts found vs w)

  ask_provider :
      List String
      → List (Option Vec)
      → List String
      → Option (Provider W)
      → W
      → Option (Result (List Vec) × W)
  unfolding after_provider
  ask_provider ts found [] p w = succeed (fill ts found [] w)
  ask_provider ts found (m ∷ missing) none w = none
  ask_provider ts found (m ∷ missing) (some p) w = after_provider ts found (p.embed (m ∷ missing) w)

  -- `Embed`. `none` is a panic.
  unfoldable pub embed : List String → W → Option (Result (List Vec) × W)
  unfolding look_up ask_provider missing_texts
  embed ts w =
      let (found, w') = look_up ts w in ask_provider ts found (missing_texts ts found) s.provider w'

  first_of : Option (Result (List Vec) × W) → Option (Result Vec × W)
  first_of none = none
  first_of (some (err e, w)) = some (err e, w)
  first_of (some (ok [], w)) = none
  first_of (some (ok (v ∷ vs), w)) = some (ok v, w)

  -- `EmbedOne`
  unfoldable pub embed_one : String → W → Option (Result Vec × W)
  unfolding embed first_of
  embed_one t w = first_of (embed (t ∷ []) w)
