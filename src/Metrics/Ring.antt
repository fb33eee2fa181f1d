-- ===== src/Metrics/Ring.antt =====
-- node/metrics/collector.go, the latency ring buffer of Collector.
pub mod Window
use uav.Base.{
  ℕ, ◌+◌, ◌==◌, leb, Bool, true, false, List, [], ◌++◌, if◌then◌else◌, length, set, take, drop,
  replicate, min,
}

abbrev pub latency_ring_size : ℕ
latency_ring_size = 4096

-- latBuf, latPos and latFull.
pub record Ring : Type 0 where
  pub buf : List ℕ
  pub pos : ℕ
  pub full : Bool

-- The builtin `copy`: what the destination holds afterwards.
unfoldable pub copy {ℓ} : {A : Type ℓ} → List A → List A → List A
copy dst src = take (length dst) src ++ drop (length src) dst

-- `size` stands for latencyRingSize.
module _ (size : ℕ) where
  unfoldable pub new_ring : Ring
  new_ring = record { buf = replicate size 0; pos = 0; full = false }

  -- recordLatency. The write is in bounds, since `pos` stays below `size`.
  unfoldable pub record_latency : ℕ → Ring → Ring
  record_latency ms r =
      let written = set r.buf r.pos ms in
      let pos = r.pos + 1 in
      if leb size pos
      then record { buf = written; pos = 0; full = true }
      else record { buf = written; pos = pos; full = r.full }

  -- latencies.
  unfoldable pub latencies : Ring → List ℕ
  latencies r =
      let n = if r.full then size else r.pos in
      let out = replicate n 0 in
      let tail = drop r.pos r.buf in
      let head = take r.pos r.buf in
      let k = min n (length tail) in
      let filled = copy out tail in
      if n == 0
      then []
      else if r.full
      then take k filled ++ copy (drop k filled) head
      else copy out head

-- What Reset does to the ring.
unfoldable pub reset_ring : Ring → Ring
reset_ring r = record r { pos = 0; full = false }
