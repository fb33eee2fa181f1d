-- ===== src/Runtime/Router.antt =====
-- node/runtime/router.go, Router: which inbound messages reach the algorithm.
-- The metrics calls are the outcome of a dispatch; the handler is the caller's.
pub mod Delivery
mod Tests
use uav.Base.{nat_key, ℕ, Bool, true, Option, none, some, [], if◌then◌else◌}
use uav.Base.Map
use uav.Base.Map.{Map}
use uav.Message.{Message, is_expired}
use uav.Runtime.Dedup.{PeerDedup, new_peer_dedup, is_duplicate}

pub record Router : Type 0 where
  pub node_id : ℕ
  pub dups : Map ℕ PeerDedup

-- NewRouter.
unfoldable pub new_router : ℕ → Router
new_router node_id = record { node_id = node_id; dups = [] }

-- What Dispatch does with a message: RecordTTLDrop, RecordDedupDrop, or the handler.
pub data Outcome : Type 0 where
  ttl_drop dedup_drop : Outcome
  deliver : Message → Outcome

-- The entry of `dups` that isDuplicate uses, made if it is missing.
unfoldable pub peer_dedup : Router → ℕ → PeerDedup
unfolding new_peer_dedup
peer_dedup r from = elim (Map.get from r.dups) [ none ↦ new_peer_dedup | some d ↦ d ]

unfoldable pub router_is_duplicate : Router → ℕ → ℕ → ℕ → Bool × Router
unfolding is_duplicate peer_dedup
router_is_duplicate r from stream_id seq =
    let (duplicate, d) = is_duplicate (peer_dedup r from) stream_id seq in
    (duplicate, record r { dups = Map.put from d r.dups })

unfoldable pub dispatch : Router → Message → ℕ → Outcome × Router
unfolding router_is_duplicate
dispatch r m now =
    let (duplicate, r') = router_is_duplicate r m.from m.stream_id m.seq in
    if is_expired m now
    then (ttl_drop, r)
    else if duplicate
    then (dedup_drop, r')
    else (deliver m, r')
