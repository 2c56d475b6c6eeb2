-- ===== src/Interface/Ws/Delivery.antt =====
-- What `SendToUser` delivers, and where it panics.
use mathlib.Core.Path.{subst}
use bzy_personal.Prelude.{
  ℕ, ◌≡◌, inl, inr, refl, ap, ◌∙◌, Bool, true, false, String, List, [], ◌∷◌, Option, none, some,
  if◌then◌else◌, ◌==◌, arith, All, Any, Bool-cases, ◌||◌,
}
use bzy_personal.Prelude.Map.{delete}
use bzy_personal.Interface.Channels.{
  Store, close, offered, IsOpen, try_send-IsOpen, try_send-cell, try_send-closed, close-closed,
}
use bzy_personal.Interface.Ws.{
  Message, Conn, Hub, of_user, with_chans, unregister, send_all, send_to_user,
}

abbrev pub IsClosed : Store Message → ℕ → Type 0
IsClosed s a = (s.cell a).closed ≡ true

send_all-closed :
    (cs : List Conn) (m : Message) (s : Store Message)
    → Any (λ c. IsClosed s c.send) cs
    → send_all cs m s ≡ none
unfolding send_all
send_all-closed [] m s h = absurd h
send_all-closed (c ∷ cs) m s (inl h) = rw (try_send-closed c.send m s h, send_all)
send_all-closed (c ∷ cs) m s (inr h) = elim (Bool-cases (s.cell c.send).closed) [
  | inl shut ↦ rw (try_send-closed c.send m s shut, send_all)
  | inr free ↦
      let (s1, sent, next, same) = try_send-IsOpen c.send m s free in
      rw (sent, send_all) (send_all-closed cs m s1 (kept cs s s1 same h))
]
  where
    kept :
        (cs : List Conn) (s s1 : Store Message)
        → ((b : ℕ) → (s1.cell b).closed ≡ (s.cell b).closed)
        → Any (λ c. IsClosed s c.send) cs
        → Any (λ c. IsClosed s1 c.send) cs
    kept [] s s1 same h = h
    kept (d ∷ ds) s s1 same (inl h) = inl (same d.send ∙ h)
    kept (d ∷ ds) s s1 same (inr h) = inr (kept ds s s1 same h)

-- A connection of the list has this send channel.
abbrev pub HasChannel : ℕ → List Conn → Type 0
HasChannel a cs = Any (λ d. d.send ≡ a) cs

HasChannel-IsClosed :
    (cs : List Conn) (a : ℕ) (s : Store Message)
    → IsClosed s a
    → HasChannel a cs
    → Any (λ d. IsClosed s d.send) cs
HasChannel-IsClosed [] a s shut h = h
HasChannel-IsClosed (d ∷ ds) a s shut (inl h) = inl (rw h shut)
HasChannel-IsClosed (d ∷ ds) a s shut (inr h) = inr (HasChannel-IsClosed ds a s shut h)

-- After a connection that its user's list holds has closed, every message to that user panics: the
-- list still holds the connection, with its closed channel.
pub unregister_then_send :
    (c : Conn) (h h' : Hub) (m : Message)
    → HasChannel c.send (of_user c.user_id h)
    → unregister c h ≡ some h'
    → send_to_user c.user_id m h' ≡ none
unfolding unregister send_to_user
unregister_then_send c h h' m held gone = go (close c.send h.chans) refl gone
  where
    go :
        (o : Option (Store Message))
        → close c.send h.chans ≡ o
        → with_chans o (record h { conns = delete c.id h.conns }) ≡ some h'
        → with_chans (send_all (of_user c.user_id h') m h'.chans) h' ≡ none
    go none e g = cc
    go (some s) e g =
        let left : Hub = record h { conns = delete c.id h.conns; chans = s } in
        let same : left ≡ h' = cc g in
        let fails : send_all (of_user c.user_id left) m left.chans ≡ none =
          send_all-closed (of_user c.user_id h) m s (
            HasChannel-IsClosed (of_user c.user_id h) c.send s (close-closed c.send h.chans s e)
              held) in
        subst (λ z. with_chans (send_all (of_user c.user_id z) m z.chans) z ≡ none) same
          (rw (fails, with_chans))

-- Some connection of the list has the channel `a`, as a test.
abbrev pub has_channel : ℕ → List Conn → Bool
has_channel a [] = false
has_channel a (c ∷ cs) = c.send == a || has_channel a cs

abbrev pub Distinct : List Conn → Type 0
Distinct [] = Unit
Distinct (c ∷ cs) = (has_channel c.send cs ≡ false) × Distinct cs

combined :
    (a : ℕ) (m : Message) (s s1 s2 : Store Message) (cs : List Conn)
    → has_channel a cs ≡ false
    → (b : ℕ) → s1.cell b ≡ (if a == b then offered m (s.cell a) else s.cell b)
    → s2.cell b ≡ (if has_channel b cs then offered m (s1.cell b) else s1.cell b)
    → s2.cell b ≡ (if a == b || has_channel b cs then offered m (s.cell b) else s.cell b)
combined a m s s1 s2 cs new b e1 e2 = elim (Bool-cases (a == b)) [
  | inl p ↦
      let eq : a ≡ b = ground arith in
      let no : has_channel b cs ≡ false = subst (λ x. has_channel x cs ≡ false) eq new in
      let f1 : s1.cell b ≡ offered m (s.cell a) = rw p at e1 in
      let f2 : s2.cell b ≡ s1.cell b = rw no at e2 in
      rw p (f2 ∙ f1 ∙ ap (λ x. offered m (s.cell x)) eq)
  | inr p ↦
      let f1 : s1.cell b ≡ s.cell b = rw p at e1 in
      rw p (e2 ∙ ap (λ x. if has_channel b cs then offered m x else x) f1)
]

send_all-cell :
    (cs : List Conn) (m : Message) (s : Store Message)
    → All (λ c. IsOpen s c.send) cs
    → Distinct cs
    → (s' : Store Message) × (send_all cs m s ≡ some s')
      × ((b : ℕ) → s'.cell b ≡ (if has_channel b cs then offered m (s.cell b) else s.cell b))
unfolding send_all
send_all-cell [] m s h d = (s, refl, λ b. refl)
send_all-cell (c ∷ cs) m s h d =
    let (s1, sent, cells1) = try_send-cell c.send m s h.0 in
    let (s2, rest, cells2) = send_all-cell cs m s1 (still cs s1 cells1 d.0 h.1) d.1 in
    (s2, rw (sent, send_all) rest, λ b. combined c.send m s s1 s2 cs d.0 b (cells1 b) (cells2 b))
  where
    still :
        (ds : List Conn) (s1 : Store Message)
        → ((b : ℕ) → s1.cell b ≡ (if c.send == b then offered m (s.cell c.send) else s.cell b))
        → has_channel c.send ds ≡ false
        → All (λ d. IsOpen s d.send) ds
        → All (λ d. IsOpen s1 d.send) ds
    still [] s1 cells new h = tt
    still (e ∷ ds) s1 cells new h =
        (ground (arith, cells e.send), still ds s1 cells (ground arith) h.1)

-- A message to a user reaches every connection of the user: where no listed connection has closed
-- and no two share a channel, the call returns, each of their channels has taken the message at
-- its end, or is as it was if it is full, and all other channels and the lists are as they were.
pub send_to_user-delivers :
    (user : String) (m : Message) (h : Hub)
    → All (λ c. IsOpen h.chans c.send) (of_user user h)
    → Distinct (of_user user h)
    → (h' : Hub) × (send_to_user user m h ≡ some h')
      × (h'.conns ≡ h.conns)
      × (h'.user_conns ≡ h.user_conns)
      × ((b : ℕ)
          → h'.chans.cell b ≡ (
              if has_channel b (of_user user h)
              then offered m (h.chans.cell b)
              else h.chans.cell b))
unfolding send_to_user
send_to_user-delivers user m h open_all distinct =
    let (s', sent, cells) = send_all-cell (of_user user h) m h.chans open_all distinct in
    (record h { chans = s' }, rw sent, refl, refl, cells)
