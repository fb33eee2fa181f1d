-- ===== src/Algorithm/Raft/State.antt =====
-- The data of raft.go, and the calls of NodeAPI.
use uav.Base.{ℕ, ◌*◌, Bool, List, [], ◌∷◌, ◌++◌, String}
use uav.Base.Map.{Map}

abbrev pub timer_election : String
timer_election = "raft_election"

abbrev pub timer_heartbeat : String
timer_heartbeat = "raft_heartbeat"

abbrev pub kind_request_vote : ℕ
kind_request_vote = 1

abbrev pub kind_request_vote_reply : ℕ
kind_request_vote_reply = 2

abbrev pub kind_append_entries : ℕ
kind_append_entries = 3

abbrev pub kind_append_reply : ℕ
kind_append_reply = 4

-- nodeState.
pub data Role : Type 0 where
  follower candidate leader : Role

pub record LogEntry : Type 0 where
  pub term : ℕ
  pub command : List ℕ

-- The payloads. The field `Kind` is the constructor of `Body`.
pub record RequestVote : Type 0 where
  pub term : ℕ
  pub candidate_id : ℕ
  pub last_log_index : ℕ
  pub last_log_term : ℕ

pub record RequestVoteReply : Type 0 where
  pub term : ℕ
  pub vote_granted : Bool

pub record AppendEntries : Type 0 where
  pub term : ℕ
  pub leader_id : ℕ
  pub prev_log_index : ℕ
  pub prev_log_term : ℕ
  pub entries : List LogEntry
  pub leader_commit : ℕ

pub record AppendReply : Type 0 where
  pub term : ℕ
  pub success : Bool
  pub match_index : ℕ

pub data Body : Type 0 where
  request_vote : RequestVote → Body
  request_vote_reply : RequestVoteReply → Body
  append_entries : AppendEntries → Body
  append_reply : AppendReply → Body

-- A message that is handed to Send; its payload is the JSON of the body.
pub record Packet : Type 0 where
  pub mtype : ℕ
  pub ttl : ℕ
  pub priority : ℕ
  pub timestamp : ℕ
  pub body : Body

-- A call of NodeAPI or of applyCb.
pub data Effect : Type 0 where
  set_timer : String → ℕ → Effect
  cancel_timer : String → Effect
  send : ℕ → Packet → Effect
  apply : ℕ → List ℕ → Effect

pub record RaftConfig : Type 0 where
  pub election_timeout_min : ℕ
  pub election_timeout_max : ℕ
  pub heartbeat_interval : ℕ

abbrev pub millisecond : ℕ
millisecond = 1_000_000

-- DefaultConfig.
abbrev pub default_config : RaftConfig
default_config = record {
  election_timeout_min = 150 * millisecond;
  election_timeout_max = 300 * millisecond;
  heartbeat_interval = 50 * millisecond;
}

-- What the handlers read of the node: ID(), Peers() and Now().UnixMilli().
pub record View : Type 0 where
  pub id : ℕ
  pub peers : List ℕ
  pub now : ℕ

-- Algorithm. `draws` is what the random source yields from now on, `has_callback` is applyCb != nil.
pub record Raft : Type 0 where
  pub cfg : RaftConfig
  pub current_term : ℕ
  pub voted_for : ℕ
  pub log : List LogEntry
  pub role : Role
  pub commit_index : ℕ
  pub last_applied : ℕ
  pub leader_id : ℕ
  pub next_index : Map ℕ ℕ
  pub match_index : Map ℕ ℕ
  pub votes_received : ℕ
  pub draws : ℕ → ℕ
  pub has_callback : Bool
  pub trace : List Effect

-- New.
unfoldable pub new : RaftConfig → (ℕ → ℕ) → Bool → Raft
new cfg draws has_callback = record {
  cfg = cfg;
  current_term = 0;
  voted_for = 0;
  log = [];
  role = follower;
  commit_index = 0;
  last_applied = 0;
  leader_id = 0;
  next_index = [];
  match_index = [];
  votes_received = 0;
  draws = draws;
  has_callback = has_callback;
  trace = [];
}

pub data Run {ℓ} (A : Type ℓ) : Type ℓ where
  ok : A → Run A
  panic : Run A

infixl 5 ◌>>=◌
abbrev pub ◌>>=◌ {ℓ κ} : {A : Type ℓ} {B : Type κ} → Run A → (A → Run B) → Run B
ok a >>= f = f a
panic >>= f = panic

abbrev pub emit : Effect → Raft → Raft
emit e s = record s { trace = s.trace ++ e ∷ [] }

abbrev pub is_leader : Role → Bool
is_leader leader = Bool.true
is_leader _ = Bool.false

abbrev pub is_candidate : Role → Bool
is_candidate candidate = Bool.true
is_candidate _ = Bool.false
