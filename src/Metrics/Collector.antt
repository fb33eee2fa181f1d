-- ===== src/Metrics/Collector.antt =====
-- node/metrics/collector.go, Collector: its counters and its record of latencies.
-- Times are milliseconds of the clock, read when the call is made; the atomic counters are `uint64`.
pub mod Totals
mod Tests
use uav.Base.{
  ℕ, zero, suc, ◌+◌, ◌-◌, ◌&&◌, ltb, Bool, List, [], ◌∷◌, if◌then◌else◌, length, set, get_or,
  replicate, add64, sub64, above64, nonneg64,
}
use uav.Message.{Message}
use uav.Metrics.Ring.{Ring, latency_ring_size, new_ring, record_latency, reset_ring}

-- The counters of Collector.
pub record Counters : Type 0 where
  pub msg_sent : ℕ
  pub msg_recv : ℕ
  pub bytes_sent : ℕ
  pub bytes_recv : ℕ
  pub msg_sent_by_type : List ℕ
  pub msg_recv_by_type : List ℕ
  pub dedup_dropped : ℕ
  pub ttl_expired_dropped : ℕ
  pub queue_overflow_drop : ℕ
  pub send_errors : ℕ
  pub compressed_bytes : ℕ
  pub uncompressed_bytes : ℕ

pub record Collector : Type 0 where
  pub node_id : ℕ
  pub start_time : ℕ
  pub counters : Counters
  pub ring : Ring

abbrev pub no_counts : Counters
no_counts = record {
  msg_sent = 0;
  msg_recv = 0;
  bytes_sent = 0;
  bytes_recv = 0;
  msg_sent_by_type = replicate 5 0;
  msg_recv_by_type = replicate 5 0;
  dedup_dropped = 0;
  ttl_expired_dropped = 0;
  queue_overflow_drop = 0;
  send_errors = 0;
  compressed_bytes = 0;
  uncompressed_bytes = 0;
}

-- NewCollector.
unfoldable pub new_collector : ℕ → ℕ → Collector
new_collector node_id now = record {
  node_id = node_id;
  start_time = now;
  counters = no_counts;
  ring = new_ring latency_ring_size;
}

-- The counter of a message type, one up; a type that has no counter is passed over.
unfoldable pub count_type : ℕ → List ℕ → List ℕ
count_type t counts =
    if ltb t (length counts) then set counts t (add64 (get_or counts t 0) 1) else counts

-- RecordSend.
unfoldable pub record_send : Message → ℕ → Collector → Collector
unfolding count_type
record_send m wire_bytes c =
    let n = c.counters in
    record c {
      counters = record n {
        msg_sent = add64 n.msg_sent 1;
        bytes_sent = add64 n.bytes_sent wire_bytes;
        msg_sent_by_type = count_type m.mtype n.msg_sent_by_type;
      };
    }

-- Whether RecordRecv takes the latency of a message.
abbrev pub is_timed : Message → ℕ → Bool
is_timed m now = above64 m.timestamp 0 && nonneg64 (sub64 now m.timestamp)

-- RecordRecv.
unfoldable pub record_recv : Message → ℕ → ℕ → Collector → Collector
unfolding count_type record_latency
record_recv m wire_bytes now c =
    let n = c.counters in
    record c {
      counters = record n {
        msg_recv = add64 n.msg_recv 1;
        bytes_recv = add64 n.bytes_recv wire_bytes;
        msg_recv_by_type = count_type m.mtype n.msg_recv_by_type;
      };
      ring =
          if is_timed m now
          then record_latency latency_ring_size (sub64 now m.timestamp) c.ring
          else c.ring;
    }

-- RecordDedupDrop.
unfoldable pub record_dedup_drop : Collector → Collector
record_dedup_drop c =
    let n = c.counters in
    record c { counters = record n { dedup_dropped = add64 n.dedup_dropped 1 } }

-- RecordTTLDrop.
unfoldable pub record_ttl_drop : Collector → Collector
record_ttl_drop c =
    let n = c.counters in
    record c { counters = record n { ttl_expired_dropped = add64 n.ttl_expired_dropped 1 } }

-- RecordQueueDrop.
unfoldable pub record_queue_drop : Collector → Collector
record_queue_drop c =
    let n = c.counters in
    record c { counters = record n { queue_overflow_drop = add64 n.queue_overflow_drop 1 } }

-- RecordSendError.
unfoldable pub record_send_error : Collector → Collector
record_send_error c =
    let n = c.counters in record c { counters = record n { send_errors = add64 n.send_errors 1 } }

-- RecordCompression.
unfoldable pub record_compression : ℕ → ℕ → Collector → Collector
record_compression uncompressed compressed c =
    let n = c.counters in
    record c {
      counters = record n {
        uncompressed_bytes = add64 n.uncompressed_bytes uncompressed;
        compressed_bytes = add64 n.compressed_bytes compressed;
      };
    }

-- Reset.
unfoldable pub reset : ℕ → Collector → Collector
unfolding reset_ring
reset now c = record c { start_time = now; counters = no_counts; ring = reset_ring c.ring }

-- Uptime.
unfoldable pub uptime : ℕ → Collector → ℕ
uptime now c = now - c.start_time
