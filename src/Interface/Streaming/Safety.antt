-- ===== src/Interface/Streaming/Safety.antt =====
-- The hub never sends on a closed channel and never closes a channel twice.
use bzy_personal.Prelude.{
  ℕ, ◌<◌, ◌≡◌, inl, inr, refl, sym, ap, ◌∙◌, true, false, String, List, [], ◌∷◌, Option, none, some,
  str_eq, if◌then◌else◌, ◌==◌, arith, All, Bool-cases, ne_of_str_eq,
}
use bzy_personal.Prelude.Map.{Map, lookup, delete, values}
use bzy_personal.Prelude.Entries.{
  Entries, Entries-insert, Entries-delete, Entries-lookup, Entries-map, Entries-values,
}
use bzy_personal.Interface.Channels.{Store, make, receive, IsOpen, try_send-IsOpen, close-IsOpen}
use bzy_personal.Interface.Streaming.{
  Event, Client, Hub, new_hub, inner, subscribe, unsubscribe, remove_from, remove_client, send_all,
  publish,
}

-- The channel is made, is open, and belongs to the subscription that it is stored under.
abbrev Good : (ℕ → String × String) → Store Event → String → String → Client → Type 0
Good owner s topic id c =
    (owner c.channel ≡ (topic, id)) × (c.channel < s.next) × IsOpen s c.channel

abbrev GoodTopic : (ℕ → String × String) → Store Event → String → Map Client → Type 0
GoodTopic owner s topic m = Entries (Good owner s topic) m

record IsSafe (h : Hub) : Type 0 where
  owner : ℕ → String × String
  entries : Entries (GoodTopic owner h.chans) h.clients

inner-Good :
    (owner : ℕ → String × String) (s : Store Event) (topic : String) (m : Map (Map Client))
    → Entries (GoodTopic owner s) m
    → GoodTopic owner s topic (inner (lookup topic m))
inner-Good owner s topic m h = go (lookup topic m) refl
  where
    go : (o : Option (Map Client)) → lookup topic m ≡ o → GoodTopic owner s topic (inner o)
    go none e = tt
    go (some v) e = Entries-lookup (GoodTopic owner s) topic m v h e

-- What stays good when the store changes.
keep :
    (owner owner' : ℕ → String × String) (s s' : Store Event) (m : Map (Map Client))
    → ((topic id : String) (c : Client) → Good owner s topic id c → Good owner' s' topic id c)
    → Entries (GoodTopic owner s) m
    → Entries (GoodTopic owner' s') m
keep owner owner' s s' m f h =
    Entries-map (GoodTopic owner s) (GoodTopic owner' s') m
      (λ topic v. Entries-map (Good owner s topic) (Good owner' s' topic) v (f topic)) h

anyway :
    {V : Type 0} (P : String → V → Type 0) (k : String) (m : Map V)
    → Entries P m
    → Entries (λ j v. str_eq j k ≡ false → P j v) m
anyway P k m h = Entries-map P (λ j v. str_eq j k ≡ false → P j v) m (λ j v p _. p) h

subscribe-IsSafe : (id topic : String) (h : Hub) → IsSafe h → IsSafe (subscribe id topic h).0
unfolding subscribe make
subscribe-IsSafe id topic h safe =
    let a = h.chans.next in
    let s' = make 32 h.chans in
    let owner' : ℕ → String × String = λ b. if a == b then (topic, id) else safe.owner b in
    let old =
      keep safe.owner owner' h.chans s' h.clients
        (λ t i c g. (ground arith, omega arith, ground arith)) safe.entries in
    let mine : Good owner' s' topic id (record { id = id; topic = topic; channel = a }) =
      (ground arith, omega arith, ground arith) in
    record {
      owner = owner';
      entries =
          Entries-insert (GoodTopic owner' s') topic _ h.clients
            (Entries-insert (Good owner' s' topic) id _ (inner (lookup topic h.clients)) mine
              (anyway (Good owner' s' topic) id _ (inner-Good owner' s' topic h.clients old)))
            (anyway (GoodTopic owner' s') topic h.clients old);
    }

-- Another subscription keeps its channel open when a channel is closed.
other-IsOpen :
    (owner : ℕ → String × String) (s s' : Store Event) (topic id t i : String) (c d : Client)
    → Good owner s topic id c
    → Good owner s t i d
    → ((t ≡ topic) → (i ≡ id) → ⊥)
    → ((b : ℕ)
        → s'.cell b
          ≡ (if c.channel == b then record (s.cell c.channel) { closed = true } else s.cell b))
    → IsOpen s' d.channel
other-IsOpen owner s s' topic id t i c d g k ne cells = elim (Bool-cases (c.channel == d.channel)) [
  | inl e ↦
      let same : c.channel ≡ d.channel = ground arith in
      let pair : owner c.channel ≡ owner d.channel = ap owner same in
      let both : Path (String × String) (t, i) (topic, id) = sym k.0 ∙ sym pair ∙ g.0 in
      absurd (ne (ap (λ p. p.0) both) (ap (λ p. p.1) both))
  | inr e ↦ rw (cells d.channel) (rw e k.2)
]

IsFine : Option Hub → Type 0
IsFine none = ⊥
IsFine (some h) = IsSafe h

unsubscribe-IsSafe : (id topic : String) (h : Hub) → IsSafe h → IsFine (unsubscribe id topic h)
unfolding unsubscribe IsFine
unsubscribe-IsSafe id topic h safe = at_topic (lookup topic h.clients) refl
  where
    at_client :
        (clients : Map Client) (o : Option Client)
        → lookup topic h.clients ≡ some clients
        → lookup id clients ≡ o
        → IsFine (remove_client o id topic clients h)
    at_client clients none e f = safe
    at_client clients (some c) e f =
        let here =
          Entries-lookup (GoodTopic safe.owner h.chans) topic h.clients clients safe.entries e in
        let g = Entries-lookup (Good safe.owner h.chans topic) id clients c here f in
        let (s', closes, next, cells) = close-IsOpen c.channel h.chans g.2 in
        rw closes (record {
          owner = safe.owner;
          entries =
              Entries-insert (GoodTopic safe.owner s') topic _ h.clients
                (Entries-map (λ i d. Good safe.owner h.chans topic i d × (str_eq i id ≡ false))
                  (Good safe.owner s' topic) (delete id clients)
                  (λ i d k. (
                    k.0.0,
                    rw next k.0.1,
                    other-IsOpen safe.owner h.chans s' topic id topic i c d g k.0
                        (λ _ p. ne_of_str_eq i id k.1 p) cells,
                  ))
                  (Entries-delete (Good safe.owner h.chans topic) id clients here))
                (Entries-map (GoodTopic safe.owner h.chans)
                  (λ t v. str_eq t topic ≡ false → GoodTopic safe.owner s' t v) h.clients
                  (λ t v good ne.
                    Entries-map (Good safe.owner h.chans t) (Good safe.owner s' t) v
                      (λ i d k. (
                        k.0,
                        rw next k.1,
                        other-IsOpen safe.owner h.chans s' topic id t i c d g k
                            (λ p _. ne_of_str_eq t topic ne p) cells,
                      ))
                      good)
                  safe.entries);
        })

    at_topic :
        (o : Option (Map Client)) → lookup topic h.clients ≡ o → IsFine (remove_from o id topic h)
    at_topic none e = safe
    at_topic (some clients) e = at_client clients (lookup id clients) e refl

-- A store in which the same channels are made and open.
abbrev SameOpen : Store Event → Store Event → Type 0
SameOpen s s' = (s'.next ≡ s.next) × ((b : ℕ) → (s'.cell b).closed ≡ (s.cell b).closed)

send_all-SameOpen :
    (cs : List Client) (e : Event) (s : Store Event)
    → All (λ c. IsOpen s c.channel) cs
    → (s' : Store Event) × (send_all cs e s ≡ some s') × SameOpen s s'
unfolding send_all
send_all-SameOpen [] e s h = (s, refl, (refl, λ b. refl))
send_all-SameOpen (c ∷ cs) e s h =
    let (s1, sent, next1, cells1) = try_send-IsOpen c.channel e s h.0 in
    let (s2, rest, same2) = send_all-SameOpen cs e s1 (still cs s s1 cells1 h.1) in
    (s2, rw (sent, send_all) rest, (same2.0 ∙ next1, λ b. same2.1 b ∙ cells1 b))
  where
    still :
        (cs : List Client) (s s1 : Store Event)
        → ((b : ℕ) → (s1.cell b).closed ≡ (s.cell b).closed)
        → All (λ c. IsOpen s c.channel) cs
        → All (λ c. IsOpen s1 c.channel) cs
    still [] s s1 cells h = tt
    still (d ∷ ds) s s1 cells h = (cells d.channel ∙ h.0, still ds s s1 cells h.1)

SameOpen-IsSafe :
    (h : Hub) (s' : Store Event) → IsSafe h → SameOpen h.chans s' → IsSafe (record h { chans = s' })
SameOpen-IsSafe h s' safe same = record {
  owner = safe.owner;
  entries =
      keep safe.owner safe.owner h.chans s' h.clients
        (λ t i c g. (g.0, rw same.0 g.1, same.1 c.channel ∙ g.2)) safe.entries;
}

publish-IsSafe : (topic : String) (e : Event) (h : Hub) → IsSafe h → IsFine (publish topic e h)
unfolding publish IsFine
publish-IsSafe topic e h safe =
    let m = inner (lookup topic h.clients) in
    let open_all =
      Entries-values (Good safe.owner h.chans topic) (λ c. IsOpen h.chans c.channel) m
        (λ i c g. g.2) (inner-Good safe.owner h.chans topic h.clients safe.entries) in
    let (s', sent, same) = send_all-SameOpen (values m) e h.chans open_all in
    rw sent (SameOpen-IsSafe h s' safe same)

-- What happens at a hub: the calls of its clients, and a receive from a channel.
pub data Op : Type 0 where
  subscribe_op : String → String → Op
  unsubscribe_op : String → String → Op
  publish_op : String → Event → Op
  receive_op : ℕ → Op

abbrev pub apply : Hub → Op → Option Hub
apply h (subscribe_op id topic) = some (subscribe id topic h).0
apply h (unsubscribe_op id topic) = unsubscribe id topic h
apply h (publish_op topic e) = publish topic e h
apply h (receive_op a) = some (record h { chans = receive a h.chans })

pub run : Hub → List Op → Option Hub
run h [] = some h
run h (o ∷ os) = elim (apply h o) [ none ↦ none | some h' ↦ run h' os ]

receive-SameOpen : (a : ℕ) (s : Store Event) → SameOpen s (receive a s)
unfolding receive
receive-SameOpen a s = (refl, λ b. ground arith)

apply-IsSafe : (h : Hub) (o : Op) → IsSafe h → IsFine (apply h o)
unfolding IsFine
apply-IsSafe h (subscribe_op id topic) safe = subscribe-IsSafe id topic h safe
apply-IsSafe h (unsubscribe_op id topic) safe = unsubscribe-IsSafe id topic h safe
apply-IsSafe h (publish_op topic e) safe = publish-IsSafe topic e h safe
apply-IsSafe h (receive_op a) safe =
    SameOpen-IsSafe h (receive a h.chans) safe (receive-SameOpen a h.chans)

run-IsSafe : (os : List Op) (h : Hub) → IsSafe h → (h' : Hub) × (run h os ≡ some h')
unfolding run IsFine
run-IsSafe [] h safe = (h, refl)
run-IsSafe (o ∷ os) h safe = next (λ h1 f. run-IsSafe os h1 f) (apply h o) (apply-IsSafe h o safe)
  where
    next :
        ((h1 : Hub) → IsSafe h1 → (h' : Hub) × (run h1 os ≡ some h'))
        → (r : Option Hub) → IsFine r
        → (h' : Hub) × (elim r as (λ x. Option Hub) [ none ↦ none | some h1 ↦ run h1 os ] ≡ some h')
    next more none f = absurd f
    next more (some h1) f = more h1 f

-- No sequence of subscriptions, unsubscriptions, publications and receives panics: from a new hub
-- on, no event is sent on a closed channel, and no channel is closed twice.
pub run-new_hub : (os : List Op) → (h : Hub) × (run new_hub os ≡ some h)
run-new_hub os = run-IsSafe os new_hub (record { owner = λ a. ("", ""); entries = tt })
