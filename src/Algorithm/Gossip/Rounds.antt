-- ===== src/Algorithm/Gossip/Rounds.antt =====
-- What a gossip node does with messages and ticks, and what its state keeps through any history.
use uav.Base.{
  ℕ, ◌≤◌, ◌≡◌, refl, sym, ap, ◌∙◌, none_ne, Key, ◌==◌, min, Option, none, some, String, List, [],
  ◌∷◌, ◌++◌, map, inl, inr, Bool-cases, Option-cases, string_key, nat_key, pair_key, arith, length,
  append_assoc, append-nil,
}
use uav.Base.Map
use uav.Base.Map.{Map, get-put_self, get-put, get-retain}
use uav.Message.{Message, type_state, ttl_state, priority_state}
use uav.Algorithm.Replica.Convergence.{
  IsMap, newer, version_of, merge-newer, merge-IsMap, version-merge,
}
use uav.Algorithm.Sampling.{Permutes, Places, sample_n-Places}
use uav.Algorithm.Gossip.{
  Gossip, State, Packet, send, timer_gossip, get_entry, set_entry, evict_seen, learn, on_message,
  push_to, gossip_round, on_tick,
}

-- Documented of encoding/json: an object is parsed to a Go map.
abbrev pub ParsesMaps : (List ℕ → Option State) → Type 0
ParsesMaps unmarshal = (bytes : List ℕ) (m : State) → unmarshal bytes ≡ some m → IsMap m

-- What a node may do before its next tick: hear a message, at a time, or set a key.
pub data Action : Type 0 where
  hears : (now : ℕ) (m : Message) → Action
  sets : (key value : String) → Action

-- A new key leaves the entries of the others.
put-remembers :
    (k j : ℕ × ℕ) (v w : ℕ) (m : Map (ℕ × ℕ) ℕ)
    → Map.get k m ≡ none
    → Map.get j m ≡ some w
    → Map.get j (Map.put k v m) ≡ some w
put-remembers k j v w m new e = elim (Bool-cases (keyed.same k j)) [
  | inr other ↦ Map.get-put_other k j v m other ∙ e
  | inl same ↦
      absurd (none_ne w (sym new ∙ ap (λ i. Map.get i m) ((keyed.same_iff k j).0 same) ∙ e))
]
  where
    keyed : Key (ℕ × ℕ)
    keyed = pair_key

module _ (unmarshal : List ℕ → Option State) where
  learn-seen : (payload : List ℕ) (g : Gossip) → (learn unmarshal payload g).seen ≡ g.seen
  unfolding learn
  learn-seen payload g = elim (Option-cases (unmarshal payload)) [
    | inl e ↦ rw (learn, e) refl
    | inr (m, e) ↦ rw (learn, e) refl
  ]

  on_message-recorded :
      (now : ℕ) (m : Message) (g : Gossip)
      → m.mtype ≡ type_state
      → (at : ℕ) × (Map.get (m.from, m.seq) (on_message unmarshal now m g).seen ≡ some at)
  unfolding on_message
  on_message-recorded now m g t = elim (Option-cases (Map.get (m.from, m.seq) g.seen)) [
    | inl e ↦
        rw (t, e, learn-seen m.payload (record g { seen = Map.put (m.from, m.seq) now g.seen }))
          (now, get-put_self (m.from, m.seq) now g.seen)
    | inr (at, e) ↦ rw (t, e) (at, e)
  ]

  pub on_message-known :
      (now at : ℕ) (m : Message) (g : Gossip)
      → Map.get (m.from, m.seq) g.seen ≡ some at
      → on_message unmarshal now m g ≡ g
  unfolding on_message
  on_message-known now at m g e =
      rw e (elim (Bool-cases (m.mtype == type_state)) [ inl t ↦ rw t refl | inr t ↦ rw t refl ])

  unfoldable pub acting : List Action → Gossip → Gossip
  acting [] g = g
  acting (hears now m ∷ rest) g = acting rest (on_message unmarshal now m g)
  acting (sets key value ∷ rest) g = acting rest (set_entry key value g)

  -- OnMessage forgets no message.
  on_message-remembers :
      (now at : ℕ) (m : Message) (g : Gossip) (k : ℕ × ℕ)
      → Map.get k g.seen ≡ some at
      → Map.get k (on_message unmarshal now m g).seen ≡ some at
  unfolding on_message
  on_message-remembers now at m g k e = elim (Bool-cases (m.mtype == type_state)) [
    | inr other ↦ rw other e
    | inl state ↦ elim (Option-cases (Map.get (m.from, m.seq) g.seen)) [
      | inr (before, known) ↦ rw (state, known) e
      | inl new ↦
          rw
            (
              state,
              new,
              learn-seen m.payload (record g { seen = Map.put (m.from, m.seq) now g.seen }),
            )
            (put-remembers (m.from, m.seq) k now at g.seen new e)
    ]
  ]

  acting-remembers :
      (actions : List Action) (at : ℕ) (g : Gossip) (k : ℕ × ℕ)
      → Map.get k g.seen ≡ some at
      → Map.get k (acting actions g).seen ≡ some at
  unfolding acting set_entry
  acting-remembers [] at g k e = e
  acting-remembers (hears now m ∷ rest) at g k e =
      acting-remembers rest at (on_message unmarshal now m g) k
        (on_message-remembers now at m g k e)
  acting-remembers (sets key value ∷ rest) at g k e =
      acting-remembers rest at (set_entry key value g) k e

  -- Once a state message was handled, a message with its sender and number changes nothing, whatever
  -- else it holds, and whatever messages the node has heard and keys it has set since, as long as it has
  -- not ticked.
  pub on_message-once :
      (now later : ℕ) (m again : Message) (actions : List Action) (g : Gossip)
      → m.mtype ≡ type_state
      → again.from ≡ m.from
      → again.seq ≡ m.seq
      → let h = acting actions (on_message unmarshal now m g) in
        on_message unmarshal later again h ≡ h
  on_message-once now later m again actions g t f s =
      let (at, e) = on_message-recorded now m g t in
      on_message-known later at again _
        (rw (f, s) (acting-remembers actions at (on_message unmarshal now m g) (m.from, m.seq) e))

  -- A state message that is new and parses to a map leaves each key with the newer of the two entries,
  -- the local one on a tie.
  pub on_message-newer :
      (now : ℕ) (m : Message) (g : Gossip) (remote : State)
      → m.mtype ≡ type_state
      → Map.get (m.from, m.seq) g.seen ≡ none
      → unmarshal m.payload ≡ some remote
      → IsMap remote
      → (key : String)
      → get_entry key (on_message unmarshal now m g) ≡ newer (get_entry key g) (Map.get key remote)
  unfolding on_message learn get_entry
  on_message-newer now m g remote t fresh e u key =
      rw (t, fresh, learn, e) (merge-newer g.state remote u key)

  pub on_message-IsMap :
      ParsesMaps unmarshal
      → (now : ℕ) (m : Message) (g : Gossip) → IsMap g.state
      → IsMap (on_message unmarshal now m g).state
        × ((key : String)
            → version_of (get_entry key g)
              ≤ version_of (get_entry key (on_message unmarshal now m g)))
  unfolding on_message learn get_entry
  on_message-IsMap parses now m g u = elim (Bool-cases (m.mtype == type_state)) [
    | inr t ↦ rw t (u, λ key. omega arith)
    | inl t ↦ elim (Option-cases (Map.get (m.from, m.seq) g.seen)) [
      | inr (at, e) ↦ rw (t, e) (u, λ key. omega arith)
      | inl e ↦ elim (Option-cases (unmarshal m.payload)) [
        | inl bad ↦ rw (t, e, learn, bad) (u, λ key. omega arith)
        | inr (remote, good) ↦
            rw (t, e, learn, good)
              (
                merge-IsMap g.state remote u,
                λ key.
                    omega (arith, version-merge g.state remote (parses m.payload remote good) key),
              )
      ]
    ]
  ]

pub push_to-sends :
    (packet : Packet) (targets : List ℕ) (g : Gossip)
    → push_to packet targets g
      ≡ record g { trace = g.trace ++ map (λ peer. send peer packet) targets }
unfolding push_to
push_to-sends packet [] g = rw (append-nil g.trace) refl
push_to-sends packet (peer ∷ rest) g =
    rw (push_to-sends packet rest (record g { trace = g.trace ++ send peer packet ∷ [] }))
      (rw (append_assoc g.trace (send peer packet ∷ []) (map (λ p. send p packet) rest)) refl)

-- The packet of a round.
abbrev pub packet_of : ℕ → List ℕ → Packet
packet_of millis payload = record {
  mtype = type_state;
  ttl = ttl_state;
  priority = priority_state;
  timestamp = millis;
  payload = payload;
}

module _ (marshal : State → Option (List ℕ)) (perm : ℕ → List ℕ) (permutes : Permutes perm) where
  -- If rng.Perm yields permutations, a gossip tick with a state that can be marshalled returns. It
  -- sends that state, once each, to `fanout` of the peers, at different places of the list, or to all
  -- when there are fewer, and it leaves the state as it is.
  pub on_tick-pushes :
      (peers : List ℕ) (now millis : ℕ) (payload : List ℕ) (g : Gossip)
      → marshal g.state ≡ some payload
      → (targets : List ℕ) × (on_tick marshal perm peers now millis timer_gossip g
          ≡ some (record (evict_seen now g) {
            trace = g.trace ++ map (λ peer. send peer (packet_of millis payload)) targets;
          }))
        × (length targets ≡ min g.fanout (length peers))
        × (place : ℕ → ℕ) × Places peers targets place
  unfolding on_tick gossip_round evict_seen
  on_tick-pushes [] now millis payload g e = (
    [],
    rw (append-nil g.trace) refl,
    omega arith,
    (λ i. i),
    record { at = λ i h. refl; distinct = λ i j h k same. same },
  )
  on_tick-pushes (peer ∷ peers) now millis payload g e =
      let (targets, found, count, place, places) =
        sample_n-Places perm permutes (peer ∷ peers) g.fanout in
      (
        targets,
        rw (on_tick, gossip_round, e, found) (ap some (push_to-sends _ targets (evict_seen now g))),
        count,
        place,
        places,
      )
