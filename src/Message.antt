-- ===== src/Message.antt =====
-- pkg/message/message.go: the message type, its constants and its two predicates.
use uav.Base.{
  ℕ, ◌+◌, ◌<◌, ◌==◌, Bool, false, List, [], String, if◌then◌else◌, above64, sub64, u8, u16, u32,
  u64, length,
}

-- MessageType and its constants.
abbrev pub type_heartbeat : ℕ
type_heartbeat = 0

abbrev pub type_state : ℕ
type_state = 1

abbrev pub type_control : ℕ
type_control = 2

abbrev pub type_consensus : ℕ
type_consensus = 3

abbrev pub type_custom : ℕ
type_custom = 4

-- MessageType.String.
unfoldable pub type_string : ℕ → String
type_string t =
    if t == type_heartbeat
    then "HEARTBEAT"
    else if t == type_state
    then "STATE"
    else if t == type_control
    then "CONTROL"
    else if t == type_consensus
    then "CONSENSUS"
    else if t == type_custom
    then "CUSTOM"
    else "UNKNOWN"

-- Priority: a lower number is more urgent.
abbrev pub priority_collision : ℕ
priority_collision = 0

abbrev pub priority_state : ℕ
priority_state = 1

abbrev pub priority_task : ℕ
priority_task = 2

abbrev pub priority_debug : ℕ
priority_debug = 3

-- Times to live, in milliseconds; 0 never expires.
abbrev pub ttl_collision : ℕ
ttl_collision = 100

abbrev pub ttl_state : ℕ
ttl_state = 500

abbrev pub ttl_default : ℕ
ttl_default = 1000

abbrev pub ttl_forever : ℕ
ttl_forever = 0

abbrev pub broadcast_id : ℕ
broadcast_id = 0

abbrev pub header_size : ℕ
header_size = 1 + 2 + 2 + 4 + 8 + 8 + 1 + 2 + 1 + 4

-- `timestamp` and `data_time` are `int64` patterns.
pub record Message : Type 0 where
  pub mtype : ℕ
  pub from : ℕ
  pub to : ℕ
  pub seq : ℕ
  pub timestamp : ℕ
  pub data_time : ℕ
  pub stream_id : ℕ
  pub ttl : ℕ
  pub priority : ℕ
  pub payload : List ℕ

-- Go's zero value.
abbrev pub zero_message : Message
zero_message = record {
  mtype = 0;
  from = 0;
  to = 0;
  seq = 0;
  timestamp = 0;
  data_time = 0;
  stream_id = 0;
  ttl = 0;
  priority = 0;
  payload = [];
}

-- The ranges of the field types, and a payload whose length fits its header field.
pub record IsValid (m : Message) : Type 0 where
  pub mtype : m.mtype < u8
  pub from : m.from < u16
  pub to : m.to < u16
  pub seq : m.seq < u32
  pub timestamp : m.timestamp < u64
  pub data_time : m.data_time < u64
  pub stream_id : m.stream_id < u8
  pub ttl : m.ttl < u16
  pub priority : m.priority < u8
  pub payload : length m.payload < u32

-- IsExpired; `now` is time.Now().UnixMilli().
unfoldable pub is_expired : Message → ℕ → Bool
is_expired m now = if m.ttl == 0 then false else above64 (sub64 now m.timestamp) m.ttl

-- IsBroadcast.
unfoldable pub is_broadcast : Message → Bool
is_broadcast m = m.to == broadcast_id
