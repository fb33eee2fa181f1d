-- ===== src/Config.antt =====
-- node/config/config.go: the settings of all layers and their defaults. Durations are nanoseconds. No
-- other package reads them; each layer has its own.
mod Tests
use uav.Base.{ℕ, ◌*◌, String, []}
use uav.Base.Map.{Map}

abbrev millisecond : ℕ
millisecond = 1_000_000

abbrev second : ℕ
second = 1000 * millisecond

pub record NodeConfig : Type 0 where
  pub node_id : ℕ
  pub transport : String
  pub listen_addr : String
  pub peers : Map ℕ String
  pub send_queue_size : ℕ
  pub recv_buf_size : ℕ
  pub dedup_window_size : ℕ

pub record TcpConfig : Type 0 where
  pub dial_timeout : ℕ
  pub reconnect_base_delay : ℕ
  pub reconnect_max_delay : ℕ
  pub max_connections : ℕ

pub record UdpConfig : Type 0 where
  pub read_buffer_size : ℕ

pub record GossipConfig : Type 0 where
  pub fanout : ℕ
  pub interval : ℕ
  pub seen_cache_ttl : ℕ

pub record RaftConfig : Type 0 where
  pub election_timeout_min : ℕ
  pub election_timeout_max : ℕ
  pub heartbeat_interval : ℕ

pub record WeakNetConfig : Type 0 where
  pub sync_interval : ℕ
  pub fanout : ℕ
  pub compress_threshold : ℕ
  pub retransmit_timeout : ℕ

abbrev pub default_node_config : ℕ → String → NodeConfig
default_node_config id listen_addr = record {
  node_id = id;
  transport = "udp";
  listen_addr = listen_addr;
  peers = [];
  send_queue_size = 512;
  recv_buf_size = 256;
  dedup_window_size = 256;
}

abbrev pub default_tcp_config : TcpConfig
default_tcp_config = record {
  dial_timeout = 3 * second;
  reconnect_base_delay = 100 * millisecond;
  reconnect_max_delay = 30 * second;
  max_connections = 64;
}

abbrev pub default_gossip_config : GossipConfig
default_gossip_config = record {
  fanout = 3;
  interval = 200 * millisecond;
  seen_cache_ttl = 5 * second;
}

abbrev pub default_raft_config : RaftConfig
default_raft_config = record {
  election_timeout_min = 150 * millisecond;
  election_timeout_max = 300 * millisecond;
  heartbeat_interval = 50 * millisecond;
}

abbrev pub default_weak_net_config : WeakNetConfig
default_weak_net_config = record {
  sync_interval = 150 * millisecond;
  fanout = 3;
  compress_threshold = 256;
  retransmit_timeout = 200 * millisecond;
}
