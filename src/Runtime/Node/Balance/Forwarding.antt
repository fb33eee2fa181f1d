-- ===== src/Runtime/Node/Balance/Forwarding.antt =====
-- node/runtime/node.go, sendLoop: it keeps the books of the node balanced.
use uav.Base.{
  ℕ, ◌≡◌, inl, inr, refl, ◌==◌, Bool, true, false, some, Option-cases, Bool-cases, String, List, [],
  ◌∷◌, arith, length, nat_key,
}
use uav.Message.{Message}
use uav.Metrics.Collector.Totals.{total}
use uav.Runtime.Peers.{get_peer}
use uav.Base.Map.{is_some}
use uav.Runtime.SendQueue.Drain.{pop-IsQueue, pop-empty}
use uav.Runtime.Node.{Node, transmit, send_next}
use uav.Runtime.Node.Balance.{unaddressed, times, handed_over, accepted, Balance}

module _ (arrived : List Message) where
  module _ (tr_send : ℕ → String → Message → Bool) where
    transmit-Balance :
        (m : Message) (n : Node)
        → Balance arrived (m ∷ []) n
        → is_some (get_peer m.to n.out.pm) ≡ true
        → Balance arrived [] (transmit tr_send m n)
    unfolding transmit total times handed_over accepted
    transmit-Balance m n b known = elim (Option-cases (get_peer m.to n.out.pm)) [
      | inl missing ↦ absurd (ground (arith, known, missing))
      | inr (p, found) ↦ elim (Bool-cases (tr_send (length n.transmitted) p.addr m)) [
        | inl ok ↦
            rw (transmit, found, ok)
              (record {
                queue = b.queue;
                known = b.known;
                outbound = omega (arith, b.outbound);
                unaltered = λ pass. omega (arith, b.unaltered pass);
                forwarded = omega (arith, b.forwarded);
                refused = omega (arith, b.refused);
                inbound = omega (arith, b.inbound);
                counted = omega (arith, b.counted);
                genuine = b.genuine;
              })
        | inr error ↦
            rw (transmit, found, error)
              (record {
                queue = b.queue;
                known = b.known;
                outbound = omega (arith, b.outbound);
                unaltered = λ pass. omega (arith, b.unaltered pass);
                forwarded = omega (arith, b.forwarded);
                refused = omega (arith, b.refused);
                inbound = omega (arith, b.inbound);
                counted = omega (arith, b.counted);
                genuine = b.genuine;
              })
      ]
    ]

    pub send_next-Balance :
        (n : Node)
        → Balance arrived [] n
        → (more : Bool) × (n' : Node) × (send_next tr_send n ≡ some (more, n'))
          × Balance arrived [] n'
    unfolding send_next times
    send_next-Balance n b = elim (Bool-cases (length n.sq.h == 0)) [
      | inl empty ↦ (false, n, rw (pop-empty n.sq (ground (arith, empty))) refl, b)
      | inr full ↦
          let (x, q, p) = pop-IsQueue n.sq b.queue (ground (arith, full)) in
          let taken = p.takes.same (unaddressed n.out.pm) in
          let balance : Balance arrived (x.msg ∷ []) (record n { sq = q }) = record {
            queue = p.valid;
            known = omega (arith, b.known, taken);
            outbound = omega (arith, b.outbound, p.takes.size);
            unaltered = λ pass. omega (arith, b.unaltered pass, p.takes.same (λ y seq. pass y));
            forwarded = b.forwarded;
            refused = b.refused;
            inbound = b.inbound;
            counted = b.counted;
            genuine = b.genuine;
          } in
          let addressed : is_some (get_peer x.msg.to n.out.pm) ≡ true =
            ground (arith, b.known, taken) in
          (
            true,
            _,
            rw p.popped refl,
            transmit-Balance x.msg (record n { sq = q }) balance addressed,
          )
    ]
