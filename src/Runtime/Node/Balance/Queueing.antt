-- ===== src/Runtime/Node/Balance/Queueing.antt =====
-- node/runtime/node.go, Send and Broadcast over the queue: they keep the books of the node balanced.
use uav.Base.{
  ℕ, ◌+◌, ◌≡◌, inl, inr, refl, sym, ap, ◌∙◌, ◌==◌, Bool, true, false, some, Option-cases, List, [],
  ◌∷◌, arith, length, nat_key,
}
use uav.Message.{Message}
use uav.Metrics.Collector.Totals.{Call, total, evicted}
use uav.Runtime.Heap.{MsgHeap}
use uav.Runtime.Heap.Tally.{tally}
use uav.Runtime.Peers.{PeerManager, get_peer, list_ids}
use uav.Base.Map.{is_some, listed, listed-keys}
use uav.Runtime.Sending.{Outbound, push_to_peer, next_seq, timestamp_or}
use uav.Runtime.SendQueue.{SendQueue}
use uav.Runtime.SendQueue.Push.{Pushes, push-IsQueue}
use uav.Runtime.Node.{Node, enqueue, submit, node_send, submit_all}
use uav.Runtime.Node.Balance.{unaddressed, times, Balance}

-- What Push leaves in the queue is for peers of the node.
pushed-known :
    (pm : PeerManager) (m : Message) (q : SendQueue) (evicted : Bool) (h : MsgHeap) (r : SendQueue)
    → tally (unaddressed pm) h ≡ 0
    → is_some (get_peer m.to pm) ≡ true
    → Pushes m q h r
    → tally (unaddressed pm) r.h ≡ 0
pushed-known pm m q evicted h r none_left known p =
    ground (arith, p.same (unaddressed pm), none_left, known)

pub list_ids-known :
    (id : ℕ) (pm : PeerManager) → listed id (list_ids pm) ≡ true → is_some (get_peer id pm) ≡ true
unfolding list_ids get_peer
list_ids-known id pm l = sym (listed-keys id pm.peers) ∙ l

module _ (arrived : List Message) where
  enqueue-Balance :
      (m : Message) (n : Node)
      → Balance arrived (m ∷ []) n
      → is_some (get_peer m.to n.out.pm) ≡ true
      → (n' : Node) × (enqueue m n ≡ some n') × Balance arrived [] n' × (n'.out ≡ n.out)
  unfolding enqueue total times
  enqueue-Balance m n b known =
      let (evicted, h, q, e, p, left) = push-IsQueue m n.sq b.queue in
      elim left [
        | inl (rested, below, same) ↦ (
          record n { sq = q },
          rw (e, rested) refl,
          record {
            queue = p.valid;
            known = pushed-known n.out.pm m n.sq evicted h q (rw same b.known) known p;
            outbound = omega (arith, b.outbound, p.size, ap length same);
            unaltered = λ pass. omega (
              arith,
              b.unaltered pass,
              p.same (λ x seq. pass x),
              ap (tally (λ x seq. pass x)) same,
            );
            forwarded = b.forwarded;
            refused = b.refused;
            inbound = b.inbound;
            counted = b.counted;
            genuine = b.genuine;
          },
          refl,
        )
        | inr (dropped, full, x, t) ↦ (
          record n { sq = q; calls = Call.queue_drop ∷ n.calls },
          rw (e, dropped) refl,
          record {
            queue = p.valid;
            known =
                pushed-known n.out.pm m n.sq evicted h q
                  (omega (arith, b.known, t.takes.same (unaddressed n.out.pm))) known p;
            outbound = omega (arith, b.outbound, p.size, t.takes.size);
            unaltered = λ pass.
                omega (
                  arith,
                  b.unaltered pass,
                  p.same (λ x seq. pass x),
                  t.takes.same (λ x seq. pass x),
                );
            forwarded = omega (arith, b.forwarded);
            refused = omega (arith, b.refused);
            inbound = omega (arith, b.inbound);
            counted = omega (arith, b.counted);
            genuine = b.genuine;
          },
          refl,
        )
      ]

  push_to_peer-pushed :
      (peer : ℕ) (m : Message) (o : Outbound)
      → (length (push_to_peer peer m o).pushed ≡ length o.pushed + 1)
        × ((push_to_peer peer m o).pm ≡ o.pm)
  unfolding push_to_peer next_seq
  push_to_peer-pushed peer m o = (omega arith, refl)

  push_to_peer-times :
      (peer : ℕ) (m : Message) (o : Outbound) (p : Message → Bool)
      → times p (record m { to = peer; seq = (next_seq m.stream_id o).0 } ∷ []) + times p o.pushed
        ≡ times p (push_to_peer peer m o).pushed
  unfolding push_to_peer next_seq times
  push_to_peer-times peer m o p = omega arith

  submit-Balance :
      (peer : ℕ) (m : Message) (n : Node)
      → Balance arrived [] n
      → is_some (get_peer peer n.out.pm) ≡ true
      → (n' : Node) × (submit peer m n ≡ some n') × Balance arrived [] n' × (n'.out.pm ≡ n.out.pm)
  unfolding submit times
  submit-Balance peer m n b known =
      let owing : Node = record n { out = push_to_peer peer m n.out } in
      let (longer, same) = push_to_peer-pushed peer m n.out in
      let numbered : Message = record m { to = peer; seq = (next_seq m.stream_id n.out).0 } in
      let balance : Balance arrived (numbered ∷ []) owing = record {
        queue = b.queue;
        known = rw same b.known;
        outbound = omega (arith, b.outbound, longer);
        unaltered = λ pass. omega (arith, b.unaltered pass, push_to_peer-times peer m n.out pass);
        forwarded = b.forwarded;
        refused = b.refused;
        inbound = b.inbound;
        counted = b.counted;
        genuine = b.genuine;
      } in
      let (n', e, after, out) = enqueue-Balance numbered owing balance (rw same known) in
      (n', e, after, ap (λ o. o.pm) out ∙ same)

  pub submit_all-Balance :
      (peers : List ℕ) (m : Message) (n : Node)
      → Balance arrived [] n
      → ((id : ℕ) → listed id peers ≡ true → is_some (get_peer id n.out.pm) ≡ true)
      → (n' : Node) × (submit_all peers m n ≡ some n') × Balance arrived [] n'
  unfolding submit_all
  submit_all-Balance [] m n b known = (n, refl, b)
  submit_all-Balance (peer ∷ rest) m n b known =
      let here : (peer == peer) ≡ true = ground arith in
      let (n', e, b', same) = submit-Balance peer m n b (known peer (rw here refl)) in
      let (r, f, b'') =
        submit_all-Balance rest m n' b' (λ id l. rw same (known id (ground (arith, l)))) in
      (r, rw e f, b'')

  pub node_send-Balance :
      (millis peer : ℕ) (m : Message) (n : Node)
      → Balance arrived [] n
      → (ok : Bool) × (n' : Node) × (node_send millis peer m n ≡ some (ok, n'))
        × Balance arrived [] n'
  unfolding node_send
  node_send-Balance millis peer m n b = elim (Option-cases (get_peer peer n.out.pm)) [
    | inl missing ↦ (false, n, rw (node_send, missing) refl, b)
    | inr (p, found) ↦
        let filled : Message = record m { from = n.out.id; timestamp = timestamp_or millis m } in
        let (n', e, b', same) = submit-Balance peer filled n b (rw found refl) in
        (true, n', rw (node_send, found, e) refl, b')
  ]
