-- ===== src/Metrics/Reporter/Summary.antt =====
-- node/metrics/reporter.go, PrintSummary.
use uav.Base.{ltb, String, List, [], ◌∷◌, ◌++◌, if◌then◌else◌}
use uav.Metrics.Snapshot.{Floats, MetricsSnapshot}
use uav.Metrics.Snapshot.Export.{Printing, text}

module _ (f : Floats) (p : Printing f) where
  -- The lines of PrintSummary about one snapshot.
  abbrev pub about_node : MetricsSnapshot f → List String
  about_node s =
      text (
          "║ Node "
          ∷ p.narrow 4 s.node_id
          ∷ " │ uptime="
          ∷ p.fixed 1 s.uptime_sec
          ∷ "s                                       ║"
          ∷ [])
        ∷ text (
            "║   Sent: "
            ∷ p.wide 8 s.messages_sent
            ∷ " msgs  "
            ∷ p.wide 10 s.bytes_sent
            ∷ " bytes  ("
            ∷ p.fixed 1 s.msg_sent_per_sec
            ∷ " msg/s)           ║"
            ∷ [])
        ∷ text (
            "║   Recv: "
            ∷ p.wide 8 s.messages_recv
            ∷ " msgs  "
            ∷ p.wide 10 s.bytes_recv
            ∷ " bytes  ("
            ∷ p.fixed 1 s.msg_recv_per_sec
            ∷ " msg/s)           ║"
            ∷ [])
        ∷ text (
            "║   Drop: dedup="
            ∷ p.decimal s.dedup_dropped
            ∷ " ttl="
            ∷ p.decimal s.ttl_expired_dropped
            ∷ " queue="
            ∷ p.decimal s.queue_overflow_dropped
            ∷ " err="
            ∷ p.decimal s.send_errors
            ∷ " rate="
            ∷ p.fixed 2 (p.times s.drop_rate p.hundred)
            ∷ "%          ║"
            ∷ [])
        ∷ text (
            "║   Latency: avg="
            ∷ p.fixed 1 s.avg_latency_ms
            ∷ " p50="
            ∷ p.fixed 1 s.p50_latency_ms
            ∷ " p95="
            ∷ p.fixed 1 s.p95_latency_ms
            ∷ " p99="
            ∷ p.fixed 1 s.p99_latency_ms
            ∷ " max="
            ∷ p.fixed 1 s.max_latency_ms
            ∷ " ms    ║"
            ∷ [])
        ∷ (if ltb 0 s.uncompressed_bytes
            then text (
                "║   Compression: "
                ∷ p.fixed 2 (p.times s.compression_ratio p.hundred)
                ∷ "% ("
                ∷ p.decimal s.uncompressed_bytes
                ∷ " → "
                ∷ p.decimal s.compressed_bytes
                ∷ " bytes)                       ║"
                ∷ [])
              ∷ []
            else [])
      ++ "╠══════════════════════════════════════════════════════════════════╣" ∷ []

  abbrev pub about_all : List (MetricsSnapshot f) → List String
  about_all [] = []
  about_all (s ∷ snaps) = about_node s ++ about_all snaps

  -- The lines of PrintSummary.
  unfoldable pub print_summary : List (MetricsSnapshot f) → List String
  unfolding text
  print_summary [] = []
  print_summary (s ∷ snaps) =
      "╔══════════════════════════════════════════════════════════════════╗"
        ∷ "║                    EXPERIMENT METRICS SUMMARY                   ║"
        ∷ "╠══════════════════════════════════════════════════════════════════╣"
        ∷ about_all (s ∷ snaps)
      ++ "╚══════════════════════════════════════════════════════════════════╝" ∷ []
