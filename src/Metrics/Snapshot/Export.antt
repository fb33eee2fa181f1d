-- ===== src/Metrics/Snapshot/Export.antt =====
-- node/metrics/snapshot.go: a snapshot as a CSV row, as text and as JSON. fmt, time and the encoders of
-- encoding/csv and encoding/json are parameters.
use Prim.Native.String.{◌++◌ as ◌<>◌}
use uav.Base.{ℕ, ltb, Bool, Option, none, some, String, List, [], ◌∷◌, if◌then◌else◌}
use uav.Metrics.Snapshot.{Floats, MetricsSnapshot}

-- The pieces of a formatted text, in one.
unfoldable pub text : List String → String
text [] = ""
text (p ∷ ps) = p <> text ps

-- What the exports use of fmt, of time, of float64 and of the encoders: "%d", the integer at least k wide,
-- the number with k decimals, RFC 3339, the product, 100 and 1024, the line that the CSV writer writes for
-- a record, and the JSON of a snapshot, if it has one.
pub record Printing (f : Floats) : Type 0 where
  pub decimal : ℕ → String
  pub wide : ℕ → ℕ → String
  pub narrow : ℕ → ℕ → String
  pub fixed : ℕ → f.Float → String
  pub rfc3339 : ℕ → String
  pub times : f.Float → f.Float → f.Float
  pub hundred : f.Float
  pub kibi : f.Float
  pub csv_line : List String → List ℕ
  pub json : MetricsSnapshot f → Option (List ℕ)

-- csvHeader.
unfoldable pub csv_header : List String
csv_header =
    "timestamp" ∷ "node_id" ∷ "uptime_sec" ∷ "msg_sent" ∷ "msg_recv" ∷ "bytes_sent" ∷ "bytes_recv"
    ∷ "msg_sent_per_sec" ∷ "msg_recv_per_sec" ∷ "bytes_sent_per_sec" ∷ "bytes_recv_per_sec"
    ∷ "dedup_dropped" ∷ "ttl_expired_dropped" ∷ "queue_overflow_dropped" ∷ "send_errors"
    ∷ "drop_rate" ∷ "avg_latency_ms" ∷ "max_latency_ms" ∷ "min_latency_ms" ∷ "p50_latency_ms"
    ∷ "p95_latency_ms" ∷ "p99_latency_ms" ∷ "compressed_bytes" ∷ "uncompressed_bytes"
    ∷ "compression_ratio" ∷ []

module _ (f : Floats) (p : Printing f) where
  -- csvRow.
  unfoldable pub csv_row : MetricsSnapshot f → List String
  csv_row s =
      p.rfc3339 s.timestamp
      ∷ p.decimal s.node_id
      ∷ p.fixed 3 s.uptime_sec
      ∷ p.decimal s.messages_sent
      ∷ p.decimal s.messages_recv
      ∷ p.decimal s.bytes_sent
      ∷ p.decimal s.bytes_recv
      ∷ p.fixed 2 s.msg_sent_per_sec
      ∷ p.fixed 2 s.msg_recv_per_sec
      ∷ p.fixed 2 s.bytes_sent_per_sec
      ∷ p.fixed 2 s.bytes_recv_per_sec
      ∷ p.decimal s.dedup_dropped
      ∷ p.decimal s.ttl_expired_dropped
      ∷ p.decimal s.queue_overflow_dropped
      ∷ p.decimal s.send_errors
      ∷ p.fixed 6 s.drop_rate
      ∷ p.fixed 3 s.avg_latency_ms
      ∷ p.fixed 3 s.max_latency_ms
      ∷ p.fixed 3 s.min_latency_ms
      ∷ p.fixed 3 s.p50_latency_ms
      ∷ p.fixed 3 s.p95_latency_ms
      ∷ p.fixed 3 s.p99_latency_ms
      ∷ p.decimal s.compressed_bytes
      ∷ p.decimal s.uncompressed_bytes
      ∷ p.fixed 6 s.compression_ratio
      ∷ []

  -- A percentage with two decimals.
  abbrev pub percent : f.Float → String
  percent x = p.fixed 2 (p.times x p.hundred) <> "%"

  -- String.
  unfoldable pub summary : MetricsSnapshot f → String
  unfolding text
  summary s = text (
      "[node "
      ∷ p.decimal s.node_id
      ∷ "] uptime="
      ∷ p.fixed 1 s.uptime_sec
      ∷ "s "
      ∷ "sent="
      ∷ p.decimal s.messages_sent
      ∷ "("
      ∷ p.fixed 1 s.msg_sent_per_sec
      ∷ "/s,"
      ∷ p.fixed 1 (f.divide (f.of_uint s.bytes_sent) p.kibi)
      ∷ "KB) "
      ∷ "recv="
      ∷ p.decimal s.messages_recv
      ∷ "("
      ∷ p.fixed 1 s.msg_recv_per_sec
      ∷ "/s,"
      ∷ p.fixed 1 (f.divide (f.of_uint s.bytes_recv) p.kibi)
      ∷ "KB) "
      ∷ "drop(dedup="
      ∷ p.decimal s.dedup_dropped
      ∷ ",ttl="
      ∷ p.decimal s.ttl_expired_dropped
      ∷ ",queue="
      ∷ p.decimal s.queue_overflow_dropped
      ∷ ",err="
      ∷ p.decimal s.send_errors
      ∷ ",rate="
      ∷ percent s.drop_rate
      ∷ ") "
      ∷ "latency(avg="
      ∷ p.fixed 1 s.avg_latency_ms
      ∷ ",p50="
      ∷ p.fixed 1 s.p50_latency_ms
      ∷ ",p95="
      ∷ p.fixed 1 s.p95_latency_ms
      ∷ ",p99="
      ∷ p.fixed 1 s.p99_latency_ms
      ∷ ",max="
      ∷ p.fixed 1 s.max_latency_ms
      ∷ " ms)"
      ∷ (if ltb 0 s.uncompressed_bytes
          then " compress=" ∷ percent s.compression_ratio ∷ []
          else []))

  -- What ExportJSON returns, by whether os.WriteFile takes the bytes, and what the file has then.
  pub data Exported : Type 0 where
    not_marshalled : Exported
    not_written : Exported
    written : List ℕ → Exported

  unfoldable pub export_json : Bool → MetricsSnapshot f → Exported
  export_json takes s = elim (p.json s) [
    | none ↦ not_marshalled
    | some data_bytes ↦ if takes then written data_bytes else not_written
  ]
