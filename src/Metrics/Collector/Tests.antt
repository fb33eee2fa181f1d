-- ===== src/Metrics/Collector/Tests.antt =====
-- Examples of the collector.
use uav.Base.{◌≡◌, refl, List, [], ◌∷◌}
use uav.Message.{Message, zero_message, type_state}
use uav.Metrics.Ring.{new_ring, latencies}
use uav.Metrics.Ring.Window.{newest, after, since_reset}
use uav.Metrics.Collector.Totals.{
  Call, send, recv, count_dedup, compression, reset_at, collected, totals, samples,
  collected-totals,
}

abbrev stamped : Message
stamped = record zero_message { mtype = type_state; timestamp = 100 }

-- The last call first: a send before the reset, then two messages of 40 and 50 milliseconds.
abbrev history : List Call
history =
    recv stamped 33 150
    ∷ recv stamped 43 140
    ∷ count_dedup
    ∷ compression 300 80
    ∷ reset_at 90
    ∷ send stamped 33
    ∷ []

received_bytes : (collected 7 0 history).counters.bytes_recv ≡ 76
unfolding collected
received_bytes = refl

received_by_type : (collected 7 0 history).counters.msg_recv_by_type ≡ 0 ∷ 2 ∷ 0 ∷ 0 ∷ 0 ∷ []
unfolding collected
received_by_type = refl

sampled : newest 2 (since_reset (samples history)) ≡ 40 ∷ 50 ∷ []
unfolding samples since_reset
sampled = refl

small_ring : latencies 1 (after 1 (samples history)) ≡ 50 ∷ []
unfolding samples after latencies uav.Metrics.Ring.record_latency uav.Metrics.Ring.reset_ring
    new_ring uav.Metrics.Ring.copy
small_ring = refl

collected-totals_example : (collected 7 0 history).counters ≡ totals history
collected-totals_example = collected-totals 7 0 history
