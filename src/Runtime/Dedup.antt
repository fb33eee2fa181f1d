-- ===== src/Runtime/Dedup.antt =====
-- node/runtime/router.go, peerDedup: which sequence numbers of a sender were seen, per stream.
pub mod Window
mod Tests
use uav.Base.{
  ℕ, ◌+◌, ◌==◌, ltb, leb, Bool, true, false, not, ◌||◌, List, [], ◌∷◌, if◌then◌else◌, add32, sub32,
}

abbrev pub dedup_window_size : ℕ
dedup_window_size = 256

-- The entries of `highest`, `windows` and `inited` for one stream. The window is a set of numbers.
pub record Stream : Type 0 where
  pub highest : ℕ
  pub window : List ℕ
  pub inited : Bool

abbrev pub contains : ℕ → List ℕ → Bool
contains s [] = false
contains s (t ∷ ts) = (t == s) || contains s ts

-- The loop that deletes what lies below the cutoff.
unfoldable pub evict : ℕ → List ℕ → List ℕ
evict cutoff [] = []
evict cutoff (t ∷ ts) = let rest = evict cutoff ts in if ltb t cutoff then rest else t ∷ rest

abbrev pub new_stream : Stream
new_stream = record { highest = 0; window = []; inited = false }

-- The test and the write that end IsDuplicate.
unfoldable pub mark : Stream → ℕ → Bool × Stream
mark d seq =
    if contains seq d.window then (true, d) else (false, record d { window = seq ∷ d.window })

-- IsDuplicate on one stream.
unfoldable pub observe : Stream → ℕ → Bool × Stream
unfolding evict mark
observe d seq =
    let cutoff = add32 (sub32 seq dedup_window_size) 1 in
    let advanced = record d {
      highest = seq;
      window = if leb dedup_window_size seq then evict cutoff d.window else d.window;
    } in
    if not d.inited
    then (false, record { highest = seq; inited = true; window = seq ∷ d.window })
    else if ltb d.highest seq
    then mark advanced seq
    else if leb dedup_window_size (sub32 d.highest seq)
    then (true, d)
    else mark d seq

-- peerDedup: the streams of one peer, by `uint8` stream id.
abbrev pub PeerDedup : Type 0
PeerDedup = ℕ → Stream

unfoldable pub new_peer_dedup : PeerDedup
new_peer_dedup stream_id = new_stream

-- IsDuplicate.
unfoldable pub is_duplicate : PeerDedup → ℕ → ℕ → Bool × PeerDedup
is_duplicate d stream_id seq =
    let (duplicate, stream) = observe (d stream_id) seq in
    (duplicate, λ i. if stream_id == i then stream else d i)
