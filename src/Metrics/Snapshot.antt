-- ===== src/Metrics/Snapshot.antt =====
-- node/metrics/snapshot.go: what a collector reports. Floating-point numbers and formatting are
-- parameters; an `int64` latency is its pattern.
pub mod Export
mod Tests
use uav.Base.{
  ℕ, zero, suc, ◌+◌, ◌-◌, ◌%◌, ◌^◌, ◌==◌, ltb, leb, Bool, Option, String, List, [], ◌∷◌,
  if◌then◌else◌, length, get_or, add64, u64, string_key,
}
use uav.Base.Map
use uav.Base.Map.{Map}
use uav.Metrics.Ring.{latency_ring_size, latencies}
use uav.Metrics.Collector.{Counters, Collector, uptime}

-- typeNames.
abbrev pub type_names : List String
type_names = "HEARTBEAT" ∷ "STATE" ∷ "CONTROL" ∷ "CONSENSUS" ∷ "CUSTOM" ∷ []

-- The comparison of `int64`.
abbrev pub less64 : ℕ → ℕ → Bool
less64 x y = ltb ((x + 2 ^ 63) % u64) ((y + 2 ^ 63) % u64)

unfoldable pub insert_sorted : ℕ → List ℕ → List ℕ
insert_sorted x [] = x ∷ []
insert_sorted x (y ∷ ys) =
    let rest = insert_sorted x ys in if less64 y x then y ∷ rest else x ∷ y ∷ ys

-- The copy that sort.Slice has sorted.
unfoldable pub sorted_copy : List ℕ → List ℕ
unfolding insert_sorted
sorted_copy [] = []
sorted_copy (x ∷ xs) = insert_sorted x (sorted_copy xs)

-- The loop that adds up.
unfoldable pub sum64 : ℕ → List ℕ → ℕ
sum64 sum [] = sum
sum64 sum (v ∷ rest) = sum64 (add64 sum v) rest

-- The loop that fills a map per message type from number i on.
unfoldable pub by_type : ℕ → List String → List ℕ → Map String ℕ → Map String ℕ
by_type i [] counts out = out
by_type i (name ∷ rest) counts out =
    by_type (suc i) rest counts (Map.put name (get_or counts i 0) out)

-- totalArrived of Snapshot.
abbrev pub total_arrived : Counters → ℕ
total_arrived n = add64 (add64 n.msg_recv n.dedup_dropped) n.ttl_expired_dropped

-- The operations on float64: its zero, the conversions from uint64 and int64, the quotient, the
-- comparison, 0.001, the seconds of a duration, and int(p * float64(k)), which is not negative for
-- the three values of p that are passed.
pub record Floats : Type 1 where
  pub Float : Type 0
  pub zero_float : Float
  pub of_uint : ℕ → Float
  pub of_int : ℕ → Float
  pub divide : Float → Float → Float
  pub less : Float → Float → Bool
  pub milli : Float
  pub seconds : ℕ → Float
  pub p50 : Float
  pub p95 : Float
  pub p99 : Float
  pub scaled : Float → ℕ → ℕ

module _ (f : Floats) where
  -- percentile.
  unfoldable pub percentile : List ℕ → f.Float → f.Float
  percentile sorted p =
      let idx = f.scaled p (length sorted - 1) in
      let last = length sorted - 1 in
      let bounded = if leb (length sorted) idx then last else idx in
      if length sorted == 0 then f.zero_float else f.of_int (get_or sorted bounded 0)

  pub record LatencyStats : Type 0 where
    pub avg : f.Float
    pub max : f.Float
    pub min : f.Float
    pub p50 : f.Float
    pub p95 : f.Float
    pub p99 : f.Float

  -- latencyStats.
  unfoldable pub latency_stats : List ℕ → LatencyStats
  unfolding percentile sorted_copy sum64
  latency_stats lats =
      let sorted = sorted_copy lats in
      let n = length sorted in
      let none_yet : LatencyStats = record {
        avg = f.zero_float;
        max = f.zero_float;
        min = f.zero_float;
        p50 = f.zero_float;
        p95 = f.zero_float;
        p99 = f.zero_float;
      } in
      let stats : LatencyStats = record {
        avg = f.divide (f.of_int (sum64 0 sorted)) (f.of_int n);
        max = f.of_int (get_or sorted (n - 1) 0);
        min = f.of_int (get_or sorted 0 0);
        p50 = percentile sorted f.p50;
        p95 = percentile sorted f.p95;
        p99 = percentile sorted f.p99;
      } in
      if length lats == 0 then none_yet else stats

  -- MetricsSnapshot.
  pub record MetricsSnapshot : Type 0 where
    pub node_id : ℕ
    pub timestamp : ℕ
    pub uptime : ℕ
    pub uptime_sec : f.Float
    pub messages_sent : ℕ
    pub messages_recv : ℕ
    pub bytes_sent : ℕ
    pub bytes_recv : ℕ
    pub msg_sent_per_sec : f.Float
    pub msg_recv_per_sec : f.Float
    pub bytes_sent_per_sec : f.Float
    pub bytes_recv_per_sec : f.Float
    pub msg_sent_by_type : Map String ℕ
    pub msg_recv_by_type : Map String ℕ
    pub dedup_dropped : ℕ
    pub ttl_expired_dropped : ℕ
    pub queue_overflow_dropped : ℕ
    pub send_errors : ℕ
    pub drop_rate : f.Float
    pub avg_latency_ms : f.Float
    pub max_latency_ms : f.Float
    pub min_latency_ms : f.Float
    pub p50_latency_ms : f.Float
    pub p95_latency_ms : f.Float
    pub p99_latency_ms : f.Float
    pub compressed_bytes : ℕ
    pub uncompressed_bytes : ℕ
    pub compression_ratio : f.Float

  -- The drop rate and the compression ratio: 0 if there is nothing to divide by.
  abbrev pub ratio : ℕ → ℕ → f.Float
  ratio x y = if ltb 0 y then f.divide (f.of_uint x) (f.of_uint y) else f.zero_float

  -- Snapshot.
  unfoldable pub snapshot : ℕ → Collector → MetricsSnapshot
  unfolding uptime by_type latency_stats latencies
  snapshot now c =
      let n = c.counters in
      let elapsed = f.seconds (uptime now c) in
      let sec = if f.less elapsed f.milli then f.milli else elapsed in
      let stats = latency_stats (latencies latency_ring_size c.ring) in
      record {
        node_id = c.node_id;
        timestamp = now;
        uptime = uptime now c;
        uptime_sec = sec;
        messages_sent = n.msg_sent;
        messages_recv = n.msg_recv;
        bytes_sent = n.bytes_sent;
        bytes_recv = n.bytes_recv;
        msg_sent_per_sec = f.divide (f.of_uint n.msg_sent) sec;
        msg_recv_per_sec = f.divide (f.of_uint n.msg_recv) sec;
        bytes_sent_per_sec = f.divide (f.of_uint n.bytes_sent) sec;
        bytes_recv_per_sec = f.divide (f.of_uint n.bytes_recv) sec;
        msg_sent_by_type = by_type 0 type_names n.msg_sent_by_type [];
        msg_recv_by_type = by_type 0 type_names n.msg_recv_by_type [];
        dedup_dropped = n.dedup_dropped;
        ttl_expired_dropped = n.ttl_expired_dropped;
        queue_overflow_dropped = n.queue_overflow_drop;
        send_errors = n.send_errors;
        drop_rate = ratio (add64 n.dedup_dropped n.ttl_expired_dropped) (total_arrived n);
        avg_latency_ms = stats.avg;
        max_latency_ms = stats.max;
        min_latency_ms = stats.min;
        p50_latency_ms = stats.p50;
        p95_latency_ms = stats.p95;
        p99_latency_ms = stats.p99;
        compressed_bytes = n.compressed_bytes;
        uncompressed_bytes = n.uncompressed_bytes;
        compression_ratio = ratio n.compressed_bytes n.uncompressed_bytes;
      }
