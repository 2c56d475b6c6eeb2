-- ===== src/Interface/Channels.antt =====
-- Buffered Go channels, in a store by address. `none` is the panic of a send on a closed channel,
-- or of a second close.
use bzy_personal.Prelude.{
  ℕ, ◌+◌, ◌≡◌, refl, Bool, true, false, List, [], ◌∷◌, ◌++◌, Option, none, some, arith, ltb, ◌==◌,
  if◌then◌else◌, length,
}

pub record Chan (M : Type 0) : Type 0 where
  pub buffer : List M
  pub cap : ℕ
  pub closed : Bool

pub record Store (M : Type 0) : Type 0 where
  pub next : ℕ
  pub cell : ℕ → Chan M

module _ {M : Type 0} where
  abbrev pub write : ℕ → Chan M → Store M → Store M
  write a c s = record s { cell = λ b. if a == b then c else s.cell b }

  -- `make(chan M, cap)`; the address of the new channel is `s.next`.
  unfoldable pub make : ℕ → Store M → Store M
  make cap s =
      let s1 = write s.next (record { buffer = []; cap = cap; closed = false }) s in
      record s1 { next = s.next + 1 }

  -- A message is taken into the buffer if there is room, and dropped if there is not.
  abbrev pub offered : M → Chan M → Chan M
  offered m c = if ltb (length c.buffer) c.cap then record c { buffer = c.buffer ++ m ∷ [] } else c

  -- `select { case ch <- m: default: }`
  unfoldable pub try_send : ℕ → M → Store M → Option (Store M)
  try_send a m s = if (s.cell a).closed then none else some (write a (offered m (s.cell a)) s)

  -- `close(ch)`
  unfoldable pub close : ℕ → Store M → Option (Store M)
  close a s =
      if (s.cell a).closed then none else some (write a (record (s.cell a) { closed = true }) s)

  -- A receive by the other side: the oldest message leaves the buffer.
  abbrev tail_of : List M → List M
  tail_of [] = []
  tail_of (m ∷ ms) = ms

  unfoldable pub receive : ℕ → Store M → Store M
  receive a s = write a (record (s.cell a) { buffer = tail_of (s.cell a).buffer }) s

  abbrev pub IsOpen : Store M → ℕ → Type 0
  IsOpen s a = (s.cell a).closed ≡ false

  pub try_send-IsOpen :
      (a : ℕ) (m : M) (s : Store M)
      → IsOpen s a
      → (s' : Store M) × (try_send a m s ≡ some s')
        × (s'.next ≡ s.next)
        × ((b : ℕ) → (s'.cell b).closed ≡ (s.cell b).closed)
  unfolding try_send
  try_send-IsOpen a m s h = (write a (offered m (s.cell a)) s, rw h, refl, λ b. ground arith)

  pub try_send-cell :
      (a : ℕ) (m : M) (s : Store M)
      → IsOpen s a
      → (s' : Store M) × (try_send a m s ≡ some s')
        × ((b : ℕ) → s'.cell b ≡ (if a == b then offered m (s.cell a) else s.cell b))
  unfolding try_send
  try_send-cell a m s h = (write a (offered m (s.cell a)) s, rw h, λ b. refl)

  pub try_send-closed :
      (a : ℕ) (m : M) (s : Store M) → (s.cell a).closed ≡ true → try_send a m s ≡ none
  unfolding try_send
  try_send-closed a m s h = rw h

  pub close-closed : (a : ℕ) (s s' : Store M) → close a s ≡ some s' → (s'.cell a).closed ≡ true
  unfolding close
  close-closed a s s' e = ground arith

  pub close-IsOpen :
      (a : ℕ) (s : Store M)
      → IsOpen s a
      → (s' : Store M) × (close a s ≡ some s')
        × (s'.next ≡ s.next)
        × ((b : ℕ)
            → (s'.cell b) ≡ (if a == b then record (s.cell a) { closed = true } else s.cell b))
  unfolding close
  close-IsOpen a s h = (write a (record (s.cell a) { closed = true }) s, rw h, refl, λ b. refl)
