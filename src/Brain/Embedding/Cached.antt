-- ===== src/Brain/Embedding/Cached.antt =====
-- `Embed` with a cache, against the embeddings themselves.
use bzy_personal.Prelude.{
  ◌≡◌, refl, sym, ap, ◌∙◌, ◌⊎◌, inl, inr, String, List, [], ◌∷◌, map, Option, none, some, All, ℕ,
}
use bzy_personal.Prelude.Texts.{◌<>◌, drop_prefix}
use bzy_personal.Prelude.Texts.Laws.{drop_prefix-append}
use bzy_personal.Errors.{Error, Result, ok, err}
use bzy_personal.Brain.Providers.{Provider}
use bzy_personal.Brain.Embedding.{
  Vec, Service, cache_key, cached_of, get_cache, set_raw, set_cache, known, look_up, missing_texts,
  filled, fill, succeed, after_provider, ask_provider, embed, first_of, embed_one,
}

-- What `Embed` relies on. The provider embeds each text by `f`. `held` is what Redis holds under each
-- key: a read answers with it or with an error, a write stores the value under its key or nothing,
-- and no call adds anything else, although entries may go at any time. The codec reads what it has
-- written, and the texts in use have different hashes.
pub record Sound {W : Type 0} (s : Service W) (f : String → Vec) (InUse : String → Type 0)
    : Type 0 where
  pub provider : Provider W
  pub held : W → String → Option String
  pub is_there : s.provider ≡ some provider
  pub embeds :
      (ts : List String) (w : W)
      → (w' : W) × (provider.embed ts w ≡ (ok (map f ts), w'))
        × ((k raw : String) → held w' k ≡ some raw → held w k ≡ some raw)
  pub reads :
      (key : String) (w : W)
      → (w' : W) × ((k raw : String) → held w' k ≡ some raw → held w k ≡ some raw)
        × (((raw : String) × (held w key ≡ some raw) × (s.cache.get key w ≡ (ok raw, w')))
            ⊎ (e : Error) × (s.cache.get key w ≡ (err e, w')))
  pub writes :
      (key new : String) (ttl : ℕ) (w : W) (k raw : String)
      → held (s.cache.set key new ttl w).1 k ≡ some raw
      → (held w k ≡ some raw) ⊎ ((key ≡ k) × (new ≡ raw))
  pub decodes : (v : Vec) (raw : String) → s.cache.marshal v ≡ ok raw → s.cache.unmarshal raw ≡ ok v
  pub distinct : (t u : String) → InUse t → InUse u → s.cache.hash t ≡ s.cache.hash u → t ≡ u

module _ {W : Type 0} (s : Service W) (f : String → Vec) (InUse : String → Type 0)
    (sound : Sound s f InUse) where
  -- What the cache holds under the key of a text in use is the embedding of the text, or cannot be
  -- decoded.
  abbrev pub Good : W → Type 0
  Good w =
      (t raw : String)
      → InUse t
      → sound.held w ("embed:" <> s.cache.hash t) ≡ some raw
      → (s.cache.unmarshal raw ≡ ok (f t)) ⊎ (e : Error) × (s.cache.unmarshal raw ≡ err e)

  same_text :
      (t u : String)
      → InUse t
      → InUse u
      → "embed:" <> s.cache.hash t ≡ "embed:" <> s.cache.hash u
      → t ≡ u
  same_text t u a b e = sound.distinct t u a b (
      sym (drop_prefix-append "embed:" (s.cache.hash t))
      ∙ ap (drop_prefix "embed:") e
      ∙ drop_prefix-append "embed:" (s.cache.hash u))

  get_cache-Good :
      (t : String) (w : W)
      → InUse t
      → Good w
      → (w' : W) × Good w'
        × ((get_cache s t w ≡ (ok (f t), w')) ⊎ (e : Error) × (get_cache s t w ≡ (err e, w')))
  unfolding get_cache cached_of cache_key
  get_cache-Good t w used g =
      let (w', fewer, read) = sound.reads ("embed:" <> s.cache.hash t) w in
      (
        w',
        (λ u raw b e. g u raw b (fewer ("embed:" <> s.cache.hash u) raw e)),
        elim read [
          | inl (raw, there, got) ↦ elim (g t raw used there) [
            | inl fine ↦ inl (rw got (ap {B = Result Vec × W} (λ x. (x, w')) fine))
            | inr (e, bad) ↦ inr (e, rw got (ap {B = Result Vec × W} (λ x. (x, w')) bad))
          ]
          | inr (e, missed) ↦ inr (e, rw missed refl)
        ],
      )

  set_raw-Good :
      (t : String) (w : W) (r : Result String)
      → InUse t
      → s.cache.marshal (f t) ≡ r
      → Good w
      → Good (set_raw s t w r).1
  unfolding set_raw cache_key
  set_raw-Good t w (err e) used m g = g
  set_raw-Good t w (ok new) used m g = λ u raw b there.
      elim (sound.writes ("embed:" <> s.cache.hash t) new s.cache_ttl w ("embed:" <> s.cache.hash u)
        raw there) [
          | inl before ↦ g u raw b before
          | inr (key, same) ↦ inl (
              ap s.cache.unmarshal (sym same)
              ∙ sound.decodes (f t) new m
              ∙ ap (λ x. ok (f x)) (same_text t u used b key))
        ]

  set_cache-Good : (t : String) (w : W) → InUse t → Good w → Good (set_cache s t (f t) w).1
  unfolding set_cache
  set_cache-Good t w used g = set_raw-Good t w (s.cache.marshal (f t)) used refl g

  -- What the first loop finds.
  abbrev Known : List String → List (Option Vec) → Type 0
  Known [] [] = Unit
  Known (t ∷ ts) (none ∷ vs) = Known ts vs
  Known (t ∷ ts) (some v ∷ vs) = (v ≡ f t) × Known ts vs
  Known _ _ = ⊥

  look_up-Known :
      (ts : List String) (w : W)
      → All InUse ts
      → Good w
      → (found : List (Option Vec)) × (w' : W) × (look_up s ts w ≡ (found, w'))
        × Known ts found
        × Good w'
  unfolding look_up known
  look_up-Known [] w us g = ([], w, refl, tt, g)
  look_up-Known (t ∷ ts) w (used, us) g =
      let (w1, g1, read) = get_cache-Good t w used g in
      let (found, w2, e, k, g2) = look_up-Known ts w1 us g1 in
      elim read [
        | inl hit ↦ (some (f t) ∷ found, w2, rw (hit, e) refl, (refl, k), g2)
        | inr (x, miss) ↦ (none ∷ found, w2, rw (miss, e) refl, k, g2)
      ]

  fill-Known :
      (ts : List String) (found : List (Option Vec)) (w : W)
      → All InUse ts
      → Known ts found
      → Good w
      → (w' : W) × (fill s ts found (map f (missing_texts s ts found)) w ≡ some (map f ts, w'))
        × Good w'
  unfolding fill missing_texts filled
  fill-Known [] [] w us k g = (w, refl, g)
  fill-Known (t ∷ ts) (some v ∷ found) w (used, us) (e, k) g =
      let (w', rest, g') = fill-Known ts found w us k g in (w', rw (e, rest) refl, g')
  fill-Known (t ∷ ts) (none ∷ found) w (used, us) k g =
      let (w', rest, g') =
        fill-Known ts found (set_cache s t (f t) w).1 us k (set_cache-Good t w used g) in
      (w', rw rest refl, g')
  fill-Known [] (v ∷ found) w us k g = absurd k
  fill-Known (t ∷ ts) [] w us k g = absurd k

  asked :
      (ts : List String) (found : List (Option Vec)) (missing : List String) (w : W)
      → missing_texts s ts found ≡ missing
      → All InUse ts
      → Known ts found
      → Good w
      → (w' : W) × (ask_provider s ts found missing s.provider w ≡ some (ok (map f ts), w'))
        × Good w'
  unfolding ask_provider after_provider succeed
  asked ts found [] w none_missing us k g =
      let (w', filled_up, g') = fill-Known ts found w us k g in
      (w', rw (sym (ap (λ l. fill s ts found (map f l) w) none_missing) ∙ filled_up) refl, g')
  asked ts found (m ∷ missing) w same us k g =
      let (w1, e, fewer) = sound.embeds (m ∷ missing) w in
      let g1 : Good w1 =
        λ u raw b there. g u raw b (fewer ("embed:" <> s.cache.hash u) raw there) in
      let (w2, filled_up, g2) = fill-Known ts found w1 us k g1 in
      (
        w2,
        rw (sound.is_there) (
            rw (e, ask_provider)
              (rw (sym (ap (λ l. fill s ts found (map f l) w1) same) ∙ filled_up) refl)),
        g2,
      )

  -- Where the provider embeds each text by `f`, texts in use have different hashes and the cache holds
  -- no other vector under the key of a text in use, `Embed` of texts in use returns the embedding of
  -- every text in its place, whichever of them the cache holds and misses, with no error and no
  -- panic, and the cache still holds no other vector.
  pub embed-map :
      (ts : List String) (w : W)
      → All InUse ts
      → Good w
      → (w' : W) × (embed s ts w ≡ some (ok (map f ts), w')) × Good w'
  unfolding embed
  embed-map ts w us g =
      let (found, w1, e, k, g1) = look_up-Known ts w us g in
      let (w2, answer, g2) = asked ts found (missing_texts s ts found) w1 refl us k g1 in
      (w2, rw (e, embed) answer, g2)

  pub embed_one-map :
      (t : String) (w : W)
      → InUse t
      → Good w
      → (w' : W) × (embed_one s t w ≡ some (ok (f t), w')) × Good w'
  unfolding embed_one first_of
  embed_one-map t w used g =
      let (w', e, g') = embed-map (t ∷ []) w (used, tt) g in (w', rw (e, embed_one) refl, g')
