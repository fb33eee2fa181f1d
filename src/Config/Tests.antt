-- ===== src/Config/Tests.antt =====
-- The defaults agree with those of the layers themselves.
use uav.Base.{◌≡◌, refl}
use uav.Codec.{compress_threshold}
use uav.Runtime.Dedup.{dedup_window_size}
use uav.Algorithm.Raft.State.{RaftConfig, default_config}
use uav.Algorithm.Weaknet.State.{Config, default_config as default_weaknet}
use uav.Config.{default_node_config, default_raft_config, default_weak_net_config}

raft_defaults : ◌≡◌ {A = RaftConfig} default_config (record {
  election_timeout_min = default_raft_config.election_timeout_min;
  election_timeout_max = default_raft_config.election_timeout_max;
  heartbeat_interval = default_raft_config.heartbeat_interval;
})
raft_defaults = refl

weaknet_defaults : ◌≡◌ {A = Config} default_weaknet (record default_weaknet {
  sync_interval = default_weak_net_config.sync_interval;
  fanout = default_weak_net_config.fanout;
  retransmit_timeout = default_weak_net_config.retransmit_timeout;
})
weaknet_defaults = refl

threshold : default_weak_net_config.compress_threshold ≡ compress_threshold
threshold = refl

window : (default_node_config 1 ":9000").dedup_window_size ≡ dedup_window_size
window = refl
