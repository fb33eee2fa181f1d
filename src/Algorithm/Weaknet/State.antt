-- ===== src/Algorithm/Weaknet/State.antt =====
-- node/algorithm/weaknet/weaknet.go, the data, and the calls of NodeAPI. Times and durations are
-- nanoseconds.
use uav.Base.{ℕ, ◌*◌, Bool, Option, String, List, [], ◌∷◌, ◌++◌, string_key, nat_key}
use uav.Base.Map
use uav.Base.Map.{Map}
use uav.Algorithm.Replica.{Entry, set}

abbrev pub timer_sync : String
timer_sync = "wn_sync"

abbrev pub timer_retx : String
timer_retx = "wn_retx"

abbrev pub timer_purge : String
timer_purge = "wn_purge"

abbrev pub kind_push_pull : ℕ
kind_push_pull = 1

abbrev pub kind_ack : ℕ
kind_ack = 2

-- State, a map of StateEntry.
abbrev pub State : Type 0
State = Map String (Entry (List ℕ))

-- pushPullPayload, without its kind.
pub record PushPull : Type 0 where
  pub is_reply : Bool
  pub peer_id : ℕ
  pub delta : State
  pub known_ver : ℕ

-- What a packet carries: the JSON of a pushPullPayload, or the bytes of SendCritical.
pub data Body : Type 0 where
  push_pull : PushPull → Body
  raw : List ℕ → Body

-- A message that is handed to Send.
pub record Packet : Type 0 where
  pub mtype : ℕ
  pub ttl : ℕ
  pub priority : ℕ
  pub timestamp : ℕ
  pub body : Body

-- A call of NodeAPI.
pub data Effect : Type 0 where
  set_timer : String → ℕ → Effect
  cancel_timer : String → Effect
  send : ℕ → Packet → Effect

-- pendingMsg.
pub record PendingMsg : Type 0 where
  pub packet : Packet
  pub peer_id : ℕ
  pub deadline : ℕ

-- peerStats; `last_seen` is `none` where the source has the zero time.
pub record PeerStats : Type 0 where
  pub known_ver : ℕ
  pub last_seen : Option ℕ
  pub active : Bool

pub record Config : Type 0 where
  pub sync_interval : ℕ
  pub fanout : ℕ
  pub retransmit_timeout : ℕ
  pub peer_stale_duration : ℕ

-- DefaultConfig.
abbrev pub default_config : Config
default_config = record {
  sync_interval = 150 * 1_000_000;
  fanout = 3;
  retransmit_timeout = 200 * 1_000_000;
  peer_stale_duration = 2 * 1_000_000_000;
}

-- Algorithm. `trace` holds the calls of the node made so far.
pub record Weaknet : Type 0 where
  pub cfg : Config
  pub state : State
  pub peers : Map ℕ PeerStats
  pub pending : Map ℕ PendingMsg
  pub trace : List Effect

-- New.
unfoldable pub new : Config → Weaknet
new cfg = record { cfg = cfg; state = []; peers = []; pending = []; trace = [] }

-- Set.
unfoldable pub set_entry : String → List ℕ → Weaknet → Weaknet
set_entry key value w = record w { state = set key value w.state }

-- Get, with `none` for a key that is missing.
unfoldable pub get_entry : String → Weaknet → Option (Entry (List ℕ))
get_entry key w = Map.get key w.state

abbrev pub emit : Effect → Weaknet → Weaknet
emit e w = record w { trace = w.trace ++ e ∷ [] }
