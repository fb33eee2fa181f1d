-- ===== src/Algorithm/Gossip/History.antt =====
-- Histories of a gossip node: writes, messages and ticks in any order.
use uav.Base.{
  ℕ, ◌+◌, ◌<◌, ◌≤◌, ◌≡◌, refl, sym, ap, Option, some, String, List, [], ◌∷◌, inl, inr, Bool-cases,
  Option-cases, string_key, nat_key, pair_key, u64, arith, str_eq, eq_iff, ◌⊎◌,
}
use uav.Base.Map
use uav.Base.Map.{Map, get-put, get-put_self, get-retain}
use uav.Message.{Message}
use uav.Algorithm.Replica.Convergence.{IsMap, version_of, set-IsMap, version-set, get-set_ne}
use uav.Algorithm.Sampling.{Permutes, sample_n-Places}
use uav.Algorithm.Gossip.{
  Gossip, State, timer_gossip, set_entry, get_entry, evict_seen, on_message, push_to, gossip_round,
  on_tick,
}
use uav.Algorithm.Gossip.Rounds.{
  ParsesMaps, packet_of, push_to-sends, on_message-IsMap, on_message-known,
}

evict_seen-keeps :
    (now at : ℕ) (id : ℕ × ℕ) (g : Gossip)
    → Map.get id g.seen ≡ some at
    → now ≤ at + g.seen_ttl
    → Map.get id (evict_seen now g).seen ≡ some at
unfolding evict_seen
evict_seen-keeps now at id g e recent = get-retain _ id at g.seen e λ j same. ground arith

module _ (unmarshal : List ℕ → Option State) (marshal : State → Option (List ℕ)) (perm : ℕ → List ℕ)
    (permutes : Permutes perm) where
  gossip_round-total :
      (peers : List ℕ) (millis : ℕ) (g : Gossip)
      → (h : Gossip) × (gossip_round marshal perm peers millis g ≡ some h)
        × (h.state ≡ g.state)
        × (h.seen ≡ g.seen)
  unfolding gossip_round
  gossip_round-total [] millis g = (g, refl, refl, refl)
  gossip_round-total (peer ∷ peers) millis g = elim (Option-cases (marshal g.state)) [
    | inl e ↦ (g, rw (gossip_round, e) refl, refl, refl)
    | inr (payload, e) ↦
        let (targets, found, count, place, places) =
          sample_n-Places perm permutes (peer ∷ peers) g.fanout in
        let packet = packet_of millis payload in
        let sent = push_to-sends packet targets g in
        (
          push_to packet targets g,
          rw (gossip_round, e, found) refl,
          ap (λ x. x.state) sent,
          ap (λ x. x.seen) sent,
        )
  ]

  on_tick-total :
      (peers : List ℕ) (now millis : ℕ) (name : String) (g : Gossip)
      → (h : Gossip) × (on_tick marshal perm peers now millis name g ≡ some h)
        × (h.state ≡ g.state)
        × ((h.seen ≡ g.seen) ⊎ (h.seen ≡ (evict_seen now g).seen))
  unfolding on_tick evict_seen
  on_tick-total peers now millis name g = elim (Bool-cases (str_eq name timer_gossip)) [
    | inl t ↦
        let (h, e, s, seen) = gossip_round-total peers millis (evict_seen now g) in
        (h, rw t e, s, inr seen)
    | inr other ↦ (g, rw other refl, refl, inl refl)
  ]

  -- If rng.Perm yields permutations, a tick returns and does not forget a message that came at most
  -- `seen_ttl` before it: the message is still ignored afterwards.
  pub on_tick-remembers :
      (peers : List ℕ) (now later millis at : ℕ) (name : String) (m : Message) (g : Gossip)
      → Map.get (m.from, m.seq) g.seen ≡ some at
      → now ≤ at + g.seen_ttl
      → (h : Gossip) × (on_tick marshal perm peers now millis name g ≡ some h)
        × (on_message unmarshal later m h ≡ h)
  on_tick-remembers peers now later millis at name m g e recent =
      let (h, ticked, s, kept) = on_tick-total peers now millis name g in
      let still : Map.get (m.from, m.seq) h.seen ≡ some at = elim kept [
        | inl same ↦ rw same e
        | inr evicted ↦ rw evicted (evict_seen-keeps now at (m.from, m.seq) g e recent)
      ] in
      (h, ticked, on_message-known unmarshal later at m h still)

  -- One event of a node: Set on a version that does not wrap, a message, a tick.
  pub data Step : Gossip → Gossip → Type 0 where
    wrote :
        {g : Gossip} (key value : String)
        → version_of (get_entry key g) + 1 < u64
        → Step g (set_entry key value g)
    heard : {g : Gossip} (now : ℕ) (m : Message) → Step g (on_message unmarshal now m g)
    ticked :
        {g h : Gossip} (peers : List ℕ) (now millis : ℕ) (name : String)
        → on_tick marshal perm peers now millis name g ≡ some h
        → Step g h

  pub data Reach (g : Gossip) : Gossip → Type 0 where
    here : Reach g g
    next : {h i : Gossip} → Reach g h → Step h i → Reach g i

  -- No version falls.
  abbrev pub Grows : Gossip → Gossip → Type 0
  Grows g h = (key : String) → version_of (get_entry key g) ≤ version_of (get_entry key h)

  set_entry-Grows :
      (key value : String) (g : Gossip)
      → version_of (get_entry key g) + 1 < u64
      → Grows g (set_entry key value g)
  unfolding set_entry get_entry
  set_entry-Grows key value g h k = elim (Bool-cases (str_eq key k)) [
    | inr other ↦ rw (get-set_ne g.state key k value other) (omega arith)
    | inl same ↦ rw (sym ((eq_iff key k).0 same), version-set g.state key value h) (omega arith)
  ]

  module _ (parses : ParsesMaps unmarshal) where
    Step-Grows : {g h : Gossip} → IsMap g.state → Step g h → IsMap h.state × Grows g h
    unfolding get_entry set_entry
    Step-Grows {g} u (wrote key value small) =
        (set-IsMap key value g.state u, set_entry-Grows key value g small)
    Step-Grows {g} u (heard now m) = on_message-IsMap unmarshal parses now m g u
    Step-Grows {g} {h} u (ticked peers now millis name e) =
        let (i, e', s, seen) = on_tick-total peers now millis name g in
        let same : h.state ≡ g.state = cc in rw same (u, λ key. omega arith)

    -- From a state in which no key stands twice, whatever a node hears, does on its ticks and writes
    -- (as long as no version wraps), no key stands twice in its state and no version of a key falls,
    -- if encoding/json parses an object to a map and rng.Perm yields permutations.
    pub Reach-Grows : {g h : Gossip} → IsMap g.state → Reach g h → IsMap h.state × Grows g h
    Reach-Grows u here = (u, λ key. omega arith)
    Reach-Grows u (next r s) =
        let (v, before) = Reach-Grows u r in
        let (w, after) = Step-Grows v s in (w, λ key. omega (arith, before key, after key))
