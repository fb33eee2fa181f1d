-- ===== src/Metrics/Collector/Totals.antt =====
-- What the collector has counted after a history of calls.
use uav.Base.{
  ℕ, zero, suc, ◌+◌, ◌%◌, ◌<◌, ◌≡◌, refl, ◌==◌, ltb, false, Option, none, some, List, [], ◌∷◌,
  if◌then◌else◌, arith, add64, sub64, u64,
}
use uav.Message.{Message}
use uav.Metrics.Collector.{
  Counters, Collector, new_collector, is_timed, count_type, record_send, record_recv,
  record_dedup_drop, record_ttl_drop, record_queue_drop, record_send_error, record_compression,
  reset,
}

-- The calls of the methods that change the collector, with the clock where they read it.
pub data Call : Type 0 where
  send : (m : Message) (wire_bytes : ℕ) → Call
  recv : (m : Message) (wire_bytes now : ℕ) → Call
  count_dedup count_ttl queue_drop send_error : Call
  compression : (uncompressed compressed : ℕ) → Call
  reset_at : (now : ℕ) → Call

unfoldable pub run_call : Call → Collector → Collector
unfolding record_send record_recv record_dedup_drop record_ttl_drop record_queue_drop
    record_send_error record_compression reset
run_call (send m w) = record_send m w
run_call (recv m w now) = record_recv m w now
run_call count_dedup = record_dedup_drop
run_call count_ttl = record_ttl_drop
run_call queue_drop = record_queue_drop
run_call send_error = record_send_error
run_call (compression u c) = record_compression u c
run_call (reset_at now) = reset now

-- A collector made for a node at a time, after these calls, the last one first.
unfoldable pub collected : ℕ → ℕ → List Call → Collector
unfolding run_call new_collector
collected node_id born [] = new_collector node_id born
collected node_id born (call ∷ earlier) = run_call call (collected node_id born earlier)

-- What the calls since the last Reset add up to.
unfoldable pub total : (Call → ℕ) → List Call → ℕ
total f [] = 0
total f (reset_at now ∷ earlier) = 0
total f (send m w ∷ earlier) = f (send m w) + total f earlier
total f (recv m w now ∷ earlier) = f (recv m w now) + total f earlier
total f (count_dedup ∷ earlier) = f count_dedup + total f earlier
total f (count_ttl ∷ earlier) = f count_ttl + total f earlier
total f (queue_drop ∷ earlier) = f queue_drop + total f earlier
total f (send_error ∷ earlier) = f send_error + total f earlier
total f (compression u c ∷ earlier) = f (compression u c) + total f earlier

-- What one call adds to each counter.
abbrev pub sent : Call → ℕ
sent (send m w) = 1
sent _ = 0

abbrev pub received : Call → ℕ
received (recv m w now) = 1
received _ = 0

abbrev pub sent_bytes : Call → ℕ
sent_bytes (send m w) = w
sent_bytes _ = 0

abbrev pub received_bytes : Call → ℕ
received_bytes (recv m w now) = w
received_bytes _ = 0

abbrev pub sent_of : ℕ → Call → ℕ
sent_of t (send m w) = if m.mtype == t then 1 else 0
sent_of t _ = 0

abbrev pub received_of : ℕ → Call → ℕ
received_of t (recv m w now) = if m.mtype == t then 1 else 0
received_of t _ = 0

abbrev pub duplicates : Call → ℕ
duplicates count_dedup = 1
duplicates _ = 0

abbrev pub expired : Call → ℕ
expired count_ttl = 1
expired _ = 0

abbrev pub evicted : Call → ℕ
evicted queue_drop = 1
evicted _ = 0

abbrev pub failed : Call → ℕ
failed send_error = 1
failed _ = 0

abbrev pub compressed_size : Call → ℕ
compressed_size (compression u c) = c
compressed_size _ = 0

abbrev pub uncompressed_size : Call → ℕ
uncompressed_size (compression u c) = u
uncompressed_size _ = 0

-- The sum on `uint64`.
abbrev total64 : (Call → ℕ) → List Call → ℕ
total64 f calls = total f calls % u64

abbrev per_type : (ℕ → Call → ℕ) → List Call → List ℕ
per_type f calls =
    total64 (f 0) calls
    ∷ total64 (f 1) calls
    ∷ total64 (f 2) calls
    ∷ total64 (f 3) calls
    ∷ total64 (f 4) calls
    ∷ []

-- The counters as sums over the history.
unfoldable pub totals : List Call → Counters
unfolding total
totals calls = record {
  msg_sent = total64 sent calls;
  msg_recv = total64 received calls;
  bytes_sent = total64 sent_bytes calls;
  bytes_recv = total64 received_bytes calls;
  msg_sent_by_type = per_type sent_of calls;
  msg_recv_by_type = per_type received_of calls;
  dedup_dropped = total64 duplicates calls;
  ttl_expired_dropped = total64 expired calls;
  queue_overflow_drop = total64 evicted calls;
  send_errors = total64 failed calls;
  compressed_bytes = total64 compressed_size calls;
  uncompressed_bytes = total64 uncompressed_size calls;
}

zero_plus : (n : ℕ) → 0 + n ≡ n
zero_plus n = omega arith

add64-total : (n w : ℕ) → add64 (n % u64) w ≡ (w + n) % u64
add64-total n w = omega arith

-- The counters per type after a message of type t.
counted : ℕ → ℕ → ℕ → ℕ
counted t k n = if t == k then 1 + n else n

other_type : (t k : ℕ) → k < 5 → (suc (suc (suc (suc (suc t)))) == k) ≡ false
other_type t k h = ground arith

count_type-counted :
    (t a b c d e : ℕ)
    → count_type t (a % u64 ∷ b % u64 ∷ c % u64 ∷ d % u64 ∷ e % u64 ∷ [])
      ≡ ((if t == 0 then 1 else 0) + a) % u64
        ∷ ((if t == 1 then 1 else 0) + b) % u64
        ∷ ((if t == 2 then 1 else 0) + c) % u64
        ∷ ((if t == 3 then 1 else 0) + d) % u64
        ∷ ((if t == 4 then 1 else 0) + e) % u64
        ∷ []
unfolding count_type
count_type-counted zero a b c d e = simp (zero_plus, add64-total) refl
count_type-counted (suc zero) a b c d e = simp (zero_plus, add64-total) refl
count_type-counted (suc (suc zero)) a b c d e = simp (zero_plus, add64-total) refl
count_type-counted (suc (suc (suc zero))) a b c d e = simp (zero_plus, add64-total) refl
count_type-counted (suc (suc (suc (suc zero)))) a b c d e = simp (zero_plus, add64-total) refl
count_type-counted (suc (suc (suc (suc (suc t))))) a b c d e =
    let untyped : ltb (suc (suc (suc (suc (suc t))))) 5 ≡ false = ground arith in
    simp
      (
        zero_plus,
        untyped,
        other_type t 0 (omega arith),
        other_type t 1 (omega arith),
        other_type t 2 (omega arith),
        other_type t 3 (omega arith),
        other_type t 4 (omega arith),
      )
      refl

collected-totals_at :
    (node_id born : ℕ) (calls : List Call) → (collected node_id born calls).counters ≡ totals calls
unfolding collected totals total run_call new_collector
collected-totals_at node_id born [] = refl
collected-totals_at node_id born (send m w ∷ earlier) =
    rw (collected-totals_at node_id born earlier)
      (simp (zero_plus, add64-total, count_type-counted) refl)
collected-totals_at node_id born (recv m w now ∷ earlier) =
    rw (collected-totals_at node_id born earlier)
      (simp (zero_plus, add64-total, count_type-counted) refl)
collected-totals_at node_id born (count_dedup ∷ earlier) =
    rw (collected-totals_at node_id born earlier) (simp (zero_plus, add64-total) refl)
collected-totals_at node_id born (count_ttl ∷ earlier) =
    rw (collected-totals_at node_id born earlier) (simp (zero_plus, add64-total) refl)
collected-totals_at node_id born (queue_drop ∷ earlier) =
    rw (collected-totals_at node_id born earlier) (simp (zero_plus, add64-total) refl)
collected-totals_at node_id born (send_error ∷ earlier) =
    rw (collected-totals_at node_id born earlier) (simp (zero_plus, add64-total) refl)
collected-totals_at node_id born (compression u c ∷ earlier) =
    rw (collected-totals_at node_id born earlier) (simp (zero_plus, add64-total) refl)
collected-totals_at node_id born (reset_at now ∷ earlier) = refl

-- The latency that a call records, and the Reset.
unfoldable pub samples : List Call → List (Option ℕ)
samples [] = []
samples (reset_at now ∷ earlier) = none ∷ samples earlier
samples (recv m w now ∷ earlier) =
    let rest = samples earlier in
    if is_timed m now then some (sub64 now m.timestamp) ∷ rest else rest
samples (send m w ∷ earlier) = samples earlier
samples (count_dedup ∷ earlier) = samples earlier
samples (count_ttl ∷ earlier) = samples earlier
samples (queue_drop ∷ earlier) = samples earlier
samples (send_error ∷ earlier) = samples earlier
samples (compression u c ∷ earlier) = samples earlier

-- After any history of calls each counter of the collector is the sum, on uint64, of what the calls
-- since the last Reset add to it, the counters per message type included.
pub collected-totals :
    (node_id born : ℕ) (calls : List Call) → (collected node_id born calls).counters ≡ totals calls
collected-totals = collected-totals_at
