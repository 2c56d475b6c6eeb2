-- ===== src/Runner/Locks/Exclusion.antt =====
-- A lock that is held shuts the others out.
use mathlib.Core.Path.{subst}
use bzy_personal.Prelude.{
  ℕ, ◌/◌, ◌<◌, ◌⊎◌, ◌≡◌, ◌≢◌, refl, sym, ap, ◌∙◌, Bool, true, false, String, List, [], ◌∷◌, Option,
  none, some, All, str_eq, eq_iff, eq_refl, Bool-cases, inl, inr,
}
use bzy_personal.Errors.{Error, ok}
use bzy_personal.Runtime.{Env}
use bzy_personal.Runner.Locks.{
  Redis, Lock, lock_key, holds, guarded, release, extend, set_by, set_unless, acquire,
}

-- What the commands do to the values of the keys, while no key expires.
pub record IsStore {W : Type 0} (env : Env W) (redis : Redis W) : Type 0 where
  pub fresh_keeps : (k : String) (w : W) → redis.get k (env.fresh w).1 ≡ redis.get k w
  pub set_new :
      (k v : String) (ttl : ℕ) (w : W)
      → redis.get k w ≡ none
      → redis.get k (redis.set_nx k v ttl w).1 ≡ some v
  pub set_answer :
      (k v : String) (ttl : ℕ) (w : W) → (redis.set_nx k v ttl w).0 ≡ true → redis.get k w ≡ none
  pub set_keeps :
      (k v j u : String) (ttl : ℕ) (w : W)
      → redis.get j w ≡ some u
      → redis.get j (redis.set_nx k v ttl w).1 ≡ some u
  pub del_gone : (k : String) (w : W) → redis.get k (redis.del k w) ≡ none
  pub del_keeps : (k j : String) (w : W) → k ≢ j → redis.get j (redis.del k w) ≡ redis.get j w
  pub pexpire_keeps :
      (k j : String) (n : ℕ) (w : W) → 0 < n → redis.get j (redis.pexpire k n w) ≡ redis.get j w
  pub pexpire_other :
      (k j : String) (n : ℕ) (w : W) → k ≢ j → redis.get j (redis.pexpire k n w) ≡ redis.get j w

-- What the holders of other locks, and those who want one, do.
pub data Step : Type 0 where
  acquire_step : String → ℕ → Step
  release_step : Lock → Step
  extend_step : Lock → ℕ → Step

-- The step does not end this lock: another token is released, and the lock is not extended by less
-- than a millisecond, which Redis is told as 0 and answers by deleting the key.
abbrev pub IsOther : Lock → Step → Type 0
IsOther l (acquire_step key ttl) = Unit
IsOther l (release_step m) = m.token ≢ l.token
IsOther l (extend_step m ttl) = (m.token ≢ l.token) ⊎ (0 < ttl / 1000000)

module _ {W : Type 0} (env : Env W) (redis : Redis W) where
  abbrev pub apply : W → Step → W
  apply w (acquire_step key ttl) = (acquire env redis key ttl w).1
  apply w (release_step l) = (release redis l w).1
  apply w (extend_step l ttl) = (extend redis l ttl w).1

  abbrev pub play : W → List Step → W
  play w [] = w
  play w (s ∷ ss) = play (apply w s) ss

module _ {W : Type 0} (env : Env W) (redis : Redis W) (store : IsStore env redis) where
  -- The key of the lock has its token.
  abbrev Held : Lock → W → Type 0
  Held l w = redis.get l.key w ≡ some l.token

  set_by-world : (o : Bool × W) (l : Lock) → (set_by redis o l).1 ≡ o.1
  unfolding set_by
  set_by-world (true, w) l = refl
  set_by-world (false, w) l = refl

  set_unless-Held :
      (l m : Lock) (o : Option Error) (ttl : ℕ) (w : W)
      → Held l w
      → Held l (set_unless redis o m ttl w).1
  unfolding set_unless
  set_unless-Held l m (some e) ttl w h = h
  set_unless-Held l m none ttl w h =
      ap (redis.get l.key) (set_by-world (redis.set_nx m.key m.token ttl w) m)
      ∙ store.set_keeps m.key m.token l.key l.token ttl w h

  guarded-Held :
      (change : W → W) (l m : Lock) (o : Option Error) (w : W)
      → (holds (redis.get m.key w) m.token ≡ true → Held l (change w))
      → Held l w
      → Held l (guarded redis change m o w).1
  unfolding guarded
  guarded-Held change l m (some e) w kept h = h
  guarded-Held change l m none w kept h = elim (Bool-cases (holds (redis.get m.key w) m.token)) [
    | inl p ↦ rw p (kept p)
    | inr p ↦ rw p h
  ]

  -- Two locks of one key whose tokens differ: only one of them holds it.
  other_key :
      (l m : Lock) (w : W)
      → Held l w
      → m.token ≢ l.token
      → holds (redis.get m.key w) m.token ≡ true
      → m.key ≢ l.key
  unfolding holds
  other_key l m w h ne p same =
      let held = sym (ap (λ o. holds o m.token) h) in
      let moved = sym (ap (λ k. holds (redis.get k w) m.token) same) in
      let both : str_eq l.token m.token ≡ true = held ∙ moved ∙ p in
      ne (sym ((eq_iff l.token m.token).0 both))

  apply-Held : (l : Lock) (w : W) (s : Step) → IsOther l s → Held l w → Held l (apply env redis w s)
  unfolding acquire release extend
  apply-Held l w (acquire_step key ttl) other h =
      set_unless-Held l _ (redis.refusal (env.fresh w).1) ttl (env.fresh w).1
        (store.fresh_keeps l.key w ∙ h)
  apply-Held l w (release_step m) other h =
      guarded-Held (redis.del m.key) l m (redis.refusal w) w
        (λ p. store.del_keeps m.key l.key w (other_key l m w h other p) ∙ h) h
  apply-Held l w (extend_step m ttl) (inl other) h =
      guarded-Held _ l m (redis.refusal w) w
        (λ p. store.pexpire_other m.key l.key _ w (other_key l m w h other p) ∙ h) h
  apply-Held l w (extend_step m ttl) (inr long) h =
      guarded-Held _ l m (redis.refusal w) w (λ p. store.pexpire_keeps m.key l.key _ w long ∙ h) h

  play-Held :
      (l : Lock) (ss : List Step) (w : W)
      → All (IsOther l) ss
      → Held l w
      → Held l (play env redis w ss)
  play-Held l [] w others h = h
  play-Held l (s ∷ ss) w others h =
      play-Held l ss (apply env redis w s) others.1 (apply-Held l w s others.0 h)

  set_by-ok : (o : Bool × W) (m l : Lock) → (set_by redis o m).0 ≡ ok l → (o.0 ≡ true) × (m ≡ l)
  unfolding set_by
  set_by-ok (true, w) m l e = (refl, cc e)
  set_by-ok (false, w) m l e = cc e

  set_unless-acquired :
      (o : Option Error) (m l : Lock) (ttl : ℕ) (w : W)
      → (set_unless redis o m ttl w).0 ≡ ok l
      → (m ≡ l) × Held l (set_unless redis o m ttl w).1
  unfolding set_unless
  set_unless-acquired (some x) m l ttl w e = cc e
  set_unless-acquired none m l ttl w e =
      let (was_new, same) = set_by-ok (redis.set_nx m.key m.token ttl w) m l e in
      let free = store.set_answer m.key m.token ttl w was_new in
      let held = store.set_new m.key m.token ttl w free in
      let after = sym (set_by-world (redis.set_nx m.key m.token ttl w) m) in
      (
        same,
        subst
            (λ x.
              redis.get x.key (set_by redis (redis.set_nx m.key m.token ttl w) m).1 ≡ some x.token)
            same (subst (λ v. redis.get m.key v ≡ some m.token) after held),
      )

  set_unless-taken :
      (o : Option Error) (m l : Lock) (ttl : ℕ) (w : W)
      → m.key ≡ l.key
      → Held l w
      → (n : Lock) → (set_unless redis o m ttl w).0 ≡ ok n
      → ⊥
  unfolding set_unless
  set_unless-taken (some x) m l ttl w same h n e = cc e
  set_unless-taken none m l ttl w same h n e =
      let (was_new, _) = set_by-ok (redis.set_nx m.key m.token ttl w) m n e in
      let free = store.set_answer m.key m.token ttl w was_new in
      let clash : some l.token ≡ none = sym h ∙ sym (ap (λ k. redis.get k w) same) ∙ free in
      cc clash

  -- From the `Acquire` that gives a lock on, and while no key expires: whatever others acquire,
  -- release by other tokens and extend, by a millisecond at least if it is with the lock's own
  -- token, nobody acquires the key, and the key has the token of the lock, until the release of the
  -- lock, if Redis can be reached, frees the key.
  pub acquire-excludes :
      (key : String) (ttl ttl' : ℕ) (w : W) (l : Lock) (steps : List Step)
      → (acquire env redis key ttl w).0 ≡ ok l
      → All (IsOther l) steps
      → redis.refusal (play env redis (acquire env redis key ttl w).1 steps) ≡ none
      → let w' = play env redis (acquire env redis key ttl w).1 steps in
        ((n : Lock) → (acquire env redis key ttl' w').0 ≢ ok n)
        × (redis.get l.key w' ≡ some l.token)
        × (redis.get l.key (release redis l w').1 ≡ none)
  unfolding acquire release guarded holds
  acquire-excludes key ttl ttl' w l steps got others reach =
      let (token, w1) = env.fresh w in
      let m : Lock = record { key = lock_key key; token = token } in
      let (same, first) = set_unless-acquired (redis.refusal w1) m l ttl w1 got in
      let w' = play env redis (acquire env redis key ttl w).1 steps in
      let held = play-Held l steps (acquire env redis key ttl w).1 others first in
      (
        set_unless-taken (redis.refusal (env.fresh w').1) _ l ttl' (env.fresh w').1
            (ap (λ x. x.key) same) (store.fresh_keeps l.key w' ∙ held),
        held,
        rw (reach, held, eq_refl l.token) (store.del_gone l.key w'),
      )
