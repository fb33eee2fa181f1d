-- ===== src/Runtime/Node/Balance/Arrivals.antt =====
-- node/runtime/node.go, recvLoop and AddPeer: they keep the books of the node balanced.
use uav.Base.{
  ℕ, ◌≡◌, if◌then◌else◌, inl, inr, ◌⊎◌, refl, ap, ◌==◌, Bool-cases, String, List, [], ◌∷◌, arith,
  nat_key,
}
use uav.Base.Map
use uav.Message.{Message, is_expired}
use uav.Metrics.Collector.Totals.{total}
use uav.Runtime.Heap.{MsgHeap}
use uav.Runtime.Heap.Order.{at}
use uav.Runtime.Heap.Tally.{tally}
use uav.Runtime.Peers.{PeerManager, Peer, add, get_peer}
use uav.Base.Map.{is_some, listed, listed-keys}
use uav.Runtime.Router.{
  Outcome, Router, ttl_drop, dedup_drop, deliver, dispatch, router_is_duplicate,
}
use uav.Runtime.Sending.{add_peer}
use uav.Runtime.SendQueue.Contents.{tally-none, none-tally}
use uav.Runtime.Node.{Node, node_add_peer, settle, receive}
use uav.Runtime.Node.Balance.{unaddressed, times, Balance}

delivered_same :
    (m m' : Message)
    → (deliver m' ≡ ttl_drop) ⊎ ((deliver m' ≡ dedup_drop) ⊎ (deliver m' ≡ deliver m))
    → m' ≡ m
delivered_same m m' exact = elim exact [
  | inl e ↦ absurd (cc)
  | inr rest ↦ elim rest [ inl e ↦ absurd (cc) | inr e ↦ cc ]
]

-- Dispatch passes on the message itself, if any.
dispatch-exact :
    (r : Router) (m : Message) (now : ℕ)
    → ((dispatch r m now).0 ≡ ttl_drop)
      ⊎ (((dispatch r m now).0 ≡ dedup_drop) ⊎ ((dispatch r m now).0 ≡ deliver m))
unfolding dispatch
dispatch-exact r m now = elim (Bool-cases (is_expired m now)) [
  | inl late ↦ rw late (inl refl)
  | inr fresh ↦ elim (Bool-cases (router_is_duplicate r m.from m.stream_id m.seq).0) [
    | inl again ↦ rw (fresh, again) (inr (inl refl))
    | inr new ↦ rw (fresh, new) (inr (inr refl))
  ]
]

module _ (arrived : List Message) where
  settle-Balance :
      (m : Message) (now : ℕ) (outcome : Outcome) (rt : Router) (n : Node)
      → (outcome ≡ ttl_drop) ⊎ ((outcome ≡ dedup_drop) ⊎ (outcome ≡ deliver m))
      → Balance arrived [] n
      → Balance (m ∷ arrived) [] (settle m now outcome rt n)
  unfolding settle total times
  settle-Balance m now ttl_drop rt n exact b = record {
    queue = b.queue;
    known = b.known;
    outbound = omega (arith, b.outbound);
    unaltered = b.unaltered;
    forwarded = omega (arith, b.forwarded);
    refused = omega (arith, b.refused);
    inbound = omega (arith, b.inbound);
    counted = omega (arith, b.counted);
    genuine = λ p. omega (arith, b.genuine p);
  }
  settle-Balance m now dedup_drop rt n exact b = record {
    queue = b.queue;
    known = b.known;
    outbound = omega (arith, b.outbound);
    unaltered = b.unaltered;
    forwarded = omega (arith, b.forwarded);
    refused = omega (arith, b.refused);
    inbound = omega (arith, b.inbound);
    counted = omega (arith, b.counted);
    genuine = λ p. omega (arith, b.genuine p);
  }
  settle-Balance m now (deliver m') rt n exact b = record {
    queue = b.queue;
    known = b.known;
    outbound = omega (arith, b.outbound);
    unaltered = b.unaltered;
    forwarded = omega (arith, b.forwarded);
    refused = omega (arith, b.refused);
    inbound = omega (arith, b.inbound);
    counted = omega (arith, b.counted);
    genuine = λ p.
        omega
          (arith, b.genuine p, ap {B = ℕ} (λ x. if p x then 1 else 0) (delivered_same m m' exact));
  }

  pub receive-Balance :
      (m : Message) (now : ℕ) (n : Node)
      → Balance arrived [] n
      → Balance (m ∷ arrived) [] (receive m now n)
  unfolding receive
  receive-Balance m now n b =
      let (outcome, rt) = dispatch n.rt m now in
      settle-Balance m now outcome rt n (dispatch-exact n.rt m now) b

  -- A peer that is known stays known.
  added_known :
      (id : ℕ) (addr : String) (pm : PeerManager) (h : MsgHeap)
      → tally (unaddressed pm) h ≡ 0
      → let peer : Peer = record { id = id; addr = addr } in
        tally (unaddressed (record { peers = Map.put id peer pm.peers })) h ≡ 0
  unfolding get_peer
  added_known id addr pm h known =
      let peer : Peer = record { id = id; addr = addr } in
      let pm' : PeerManager = record { peers = Map.put id peer pm.peers } in
      tally-none (unaddressed pm') h (λ i b. ground (
        arith,
        none-tally (unaddressed pm) h i known b,
        Map.get-put id (at h i).msg.to peer pm.peers,
      ))

  pub node_add_peer-Balance :
      (id : ℕ) (addr : String) (n : Node)
      → Balance arrived [] n
      → Balance arrived [] (node_add_peer id addr n).1
  unfolding node_add_peer add_peer add
  node_add_peer-Balance id addr n b = elim (Bool-cases (id == 0)) [
    | inl reserved ↦ rw reserved b
    | inr fits ↦ rw fits (record {
      queue = b.queue;
      known = added_known id addr n.out.pm n.sq.h b.known;
      outbound = b.outbound;
      unaltered = b.unaltered;
      forwarded = b.forwarded;
      refused = b.refused;
      inbound = b.inbound;
      counted = b.counted;
      genuine = b.genuine;
    })
  ]
