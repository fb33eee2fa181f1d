-- ===== src/Algorithm/Gossip.antt =====
-- node/algorithm/gossip/gossip.go, Algorithm. The maps' lists stand for the order of a `range` loop,
-- and times and durations are nanoseconds. The key "from:seq" of `seen` is the pair of the numbers.
pub mod Rounds
pub mod History
mod Tests
use uav.Base.{
  ℕ, ◌*◌, ◌==◌, ◌+◌, leb, ltb, not, ◌&&◌, Bool, Option, none, some, String, List, [], ◌∷◌, ◌++◌,
  if◌then◌else◌, str_eq, string_key, nat_key, pair_key,
}
use uav.Base.Map
use uav.Base.Map.{Map}
use uav.Message.{Message, type_state, ttl_state, priority_state}
use uav.Algorithm.Replica.{Entry, set, merge}
use uav.Algorithm.Sampling.{sample_n}

abbrev pub timer_gossip : String
timer_gossip = "gossip"

-- State.
abbrev pub State : Type 0
State = Map String (Entry String)

-- The message that gossipRound hands to Send.
pub record Packet : Type 0 where
  pub mtype : ℕ
  pub ttl : ℕ
  pub priority : ℕ
  pub timestamp : ℕ
  pub payload : List ℕ

-- A call of NodeAPI.
pub data Effect : Type 0 where
  set_timer : String → ℕ → Effect
  cancel_timer : String → Effect
  send : ℕ → Packet → Effect

-- Algorithm. `perm` is what rng.Perm yields at the next round, and `trace` the calls made so far.
pub record Gossip : Type 0 where
  pub state : State
  pub seen : Map (ℕ × ℕ) ℕ
  pub seen_ttl : ℕ
  pub fanout : ℕ
  pub interval : ℕ
  pub trace : List Effect

-- New; a `fanout` or an `interval` below zero is taken as the 0 that it is treated like.
unfoldable pub new : ℕ → ℕ → Gossip
new fanout interval = record {
  state = [];
  seen = [];
  seen_ttl = 5 * 1_000_000_000;
  fanout = if fanout == 0 then 3 else fanout;
  interval = if interval == 0 then 200 * 1_000_000 else interval;
  trace = [];
}

-- Set.
unfoldable pub set_entry : String → String → Gossip → Gossip
set_entry key value g = record g { state = set key value g.state }

-- Get, with `none` for a key that is missing.
unfoldable pub get_entry : String → Gossip → Option (Entry String)
get_entry key g = Map.get key g.state

-- The loop of StateSnapshot.
unfoldable pub copy : State → State → State
copy out [] = out
copy out ((k, e) ∷ rest) = copy (Map.put k e out) rest

-- StateSnapshot.
unfoldable pub state_snapshot : Gossip → State
unfolding copy
state_snapshot g = copy [] g.state

-- Start.
unfoldable pub start : Gossip → Gossip
start g = record g { trace = g.trace ++ set_timer timer_gossip g.interval ∷ [] }

-- Stop.
unfoldable pub stop : Gossip → Gossip
stop g = record g { trace = g.trace ++ cancel_timer timer_gossip ∷ [] }

-- evictSeen.
unfoldable pub evict_seen : ℕ → Gossip → Gossip
evict_seen now g = record g { seen = Map.retain (λ key at. not (ltb (at + g.seen_ttl) now)) g.seen }

-- `unmarshal` is json.Unmarshal on gossipPayload; `none` is an error.
module _ (unmarshal : List ℕ → Option State) where
  -- The end of OnMessage: the payload is parsed and merged.
  unfoldable pub learn : List ℕ → Gossip → Gossip
  learn payload g = elim (unmarshal payload) [
    | none ↦ g
    | some remote ↦ record g { state = merge g.state remote }
  ]

  -- OnMessage at the time `now`.
  unfoldable pub on_message : ℕ → Message → Gossip → Gossip
  unfolding learn
  on_message now m g =
      if not (m.mtype == type_state) then g else elim (Map.get (m.from, m.seq) g.seen) [
        | some at ↦ g
        | none ↦ learn m.payload (record g { seen = Map.put (m.from, m.seq) now g.seen })
      ]

-- The loop of gossipRound: the packet for each target.
unfoldable pub push_to : Packet → List ℕ → Gossip → Gossip
push_to packet [] g = g
push_to packet (peer ∷ rest) g =
    push_to packet rest (record g { trace = g.trace ++ send peer packet ∷ [] })

-- `marshal` is json.Marshal on gossipPayload; `none` is an error.
module _ (marshal : State → Option (List ℕ)) where
  -- gossipRound, with the peers and the milliseconds that the node reports; `none` is a panic.
  unfoldable pub gossip_round : (ℕ → List ℕ) → List ℕ → ℕ → Gossip → Option Gossip
  unfolding push_to
  gossip_round perm [] millis g = some g
  gossip_round perm (peer ∷ peers) millis g = elim (marshal g.state) [
    | none ↦ some g
    | some payload ↦
        let packet : Packet = record {
          mtype = type_state;
          ttl = ttl_state;
          priority = priority_state;
          timestamp = millis;
          payload = payload;
        } in
        elim (sample_n perm (peer ∷ peers) g.fanout) [
          | none ↦ none
          | some targets ↦ some (push_to packet targets g)
        ]
  ]

  -- OnTick.
  unfoldable pub on_tick : (ℕ → List ℕ) → List ℕ → ℕ → ℕ → String → Gossip → Option Gossip
  unfolding gossip_round evict_seen
  on_tick perm peers now millis name g =
      if not (str_eq name timer_gossip)
      then some g
      else gossip_round perm peers millis (evict_seen now g)
