-- ===== src/Runtime/Node/Rounds.antt =====
-- What a round of sendLoop forwards.
use uav.Base.{
  ℕ, zero, suc, ◌<◌, ◌≡◌, inl, inr, refl, sym, ap, subst, ◌∙◌, ◌==◌, Bool, true, false, none, some,
  Option-cases, Bool-cases, String, List, [], ◌∷◌, map, arith, length,
}
use uav.Message.{Message}
use uav.Runtime.Heap.{QueueItem}
use uav.Runtime.Peers.{PeerManager, get_peer}
use uav.Runtime.SendQueue.{SendQueue}
use uav.Runtime.SendQueue.Contents.{IsQueue}
use uav.Runtime.SendQueue.Drain.{Drains, Pops, pop-empty, pop-IsQueue, empty-Drains, next-Drains}
use uav.Runtime.Node.{Node, Transmission, transmit, send_next, send_round}

-- The address and the message of each call.
abbrev pub addressed : List Transmission → List (String × Message)
addressed = map (λ t. (t.addr, t.msg))

-- The calls for these messages, the last one first, after those of `earlier`: a message to an unknown
-- peer is discarded.
unfoldable pub forwards :
    PeerManager → List Message → List (String × Message) → List (String × Message)
forwards pm [] earlier = earlier
forwards pm (m ∷ rest) earlier =
    forwards pm rest (elim (get_peer m.to pm) [ none ↦ earlier | some p ↦ (p.addr, m) ∷ earlier ])

module _ (tr_send : ℕ → String → Message → Bool) where
  unfoldable transmit_all : List Message → Node → Node
  transmit_all [] n = n
  transmit_all (m ∷ rest) n = transmit_all rest (transmit tr_send m n)

  transmit-sq :
      (m : Message) (n : Node) (q : SendQueue)
      → record (transmit tr_send m n) { sq = q } ≡ transmit tr_send m (record n { sq = q })
  unfolding transmit
  transmit-sq m n q = elim (Option-cases (get_peer m.to n.out.pm)) [
    | inl e ↦ rw (transmit, e) refl
    | inr (p, e) ↦ rw (transmit, e) refl
  ]

  transmit-queue : (m : Message) (n : Node) → (transmit tr_send m n).sq ≡ n.sq
  transmit-queue m n = sym (ap (λ n'. n'.sq) (transmit-sq m n n.sq))

  transmit-pm : (m : Message) (n : Node) → (transmit tr_send m n).out ≡ n.out
  unfolding transmit
  transmit-pm m n = elim (Option-cases (get_peer m.to n.out.pm)) [
    | inl e ↦ rw (transmit, e) refl
    | inr (p, e) ↦ rw (transmit, e) refl
  ]

  transmit-addressed :
      (m : Message) (n : Node)
      → addressed (transmit tr_send m n).transmitted ≡ elim (get_peer m.to n.out.pm) [
        | none ↦ addressed n.transmitted
        | some p ↦ (p.addr, m) ∷ addressed n.transmitted
      ]
  unfolding transmit
  transmit-addressed m n = elim (Option-cases (get_peer m.to n.out.pm)) [
    | inl e ↦ rw (transmit, e) refl
    | inr (p, e) ↦ rw (transmit, e) refl
  ]

  transmit_all-forwards :
      (ms : List Message) (n : Node)
      → addressed (transmit_all ms n).transmitted ≡ forwards n.out.pm ms (addressed n.transmitted)
  unfolding transmit_all forwards
  transmit_all-forwards [] n = refl
  transmit_all-forwards (m ∷ rest) n =
      transmit_all-forwards rest (transmit tr_send m n)
      ∙ rw (transmit-pm m n, transmit-addressed m n) refl

  transmit_all-sq : (ms : List Message) (n : Node) → (transmit_all ms n).sq ≡ n.sq
  unfolding transmit_all
  transmit_all-sq [] n = refl
  transmit_all-sq (m ∷ rest) n = transmit_all-sq rest (transmit tr_send m n) ∙ transmit-queue m n

  send_next-Pops :
      (n : Node) (x : QueueItem) (q : SendQueue)
      → Pops n.sq x q
      → send_next tr_send n ≡ some (true, transmit tr_send x.msg (record n { sq = q }))
  unfolding send_next
  send_next-Pops n x q p = rw p.popped refl

  send_next-empty :
      (n : Node) → length n.sq.h ≡ 0 → send_next tr_send n ≡ some (false, record n { sq = n.sq })
  unfolding send_next
  send_next-empty n e = rw (pop-empty n.sq e) refl

  send_round-Drains :
      (k : ℕ) (n : Node)
      → IsQueue n.sq
      → length n.sq.h < k
      → (items : List QueueItem) × (r : SendQueue) × (send_round tr_send k n
          ≡ some (transmit_all (map (λ x. x.msg) items) (record n { sq = r })))
        × Drains n.sq items r
  unfolding send_round transmit_all
  send_round-Drains zero n v enough = absurd (omega arith)
  send_round-Drains (suc k) n v enough = elim (Bool-cases (length n.sq.h == 0)) [
    | inl empty ↦
        let none_left : length n.sq.h ≡ 0 = ground (arith, empty) in
        ([], n.sq, rw (send_next-empty n none_left) refl, empty-Drains n.sq v none_left)
    | inr more ↦
        let (x, q, p) = pop-IsQueue n.sq v (ground (arith, more)) in
        let next = transmit tr_send x.msg (record n { sq = q }) in
        let same : next.sq ≡ q = transmit-queue x.msg (record n { sq = q }) in
        let (items, r, e, d) =
          send_round-Drains k next (subst IsQueue (sym same) p.valid)
            (rw same (omega (arith, enough, p.takes.size))) in
        (
          x ∷ items,
          r,
          rw (send_next-Pops n x q p, e)
              (ap some (
                ap (transmit_all (map (λ y. y.msg) items))
                  (transmit-sq x.msg (record n { sq = q }) r))),
          next-Drains x n.sq q items r p (subst (λ s. Drains s items r) same d),
        )
  ]

  -- A round of sendLoop on a well-formed queue, with fuel above the length of the queue, ends. It
  -- leaves a well-formed empty queue, and has called the transport for the messages of exactly the
  -- items of the queue, no item after one that it should go before, each with the address of its
  -- peer and those to unknown peers left out.
  pub send_round-forwards :
      (k : ℕ) (n : Node)
      → IsQueue n.sq
      → length n.sq.h < k
      → (items : List QueueItem) × (n' : Node) × (send_round tr_send k n ≡ some n')
        × Drains n.sq items n'.sq
        × (addressed n'.transmitted
            ≡ forwards n.out.pm (map (λ x. x.msg) items) (addressed n.transmitted))
  send_round-forwards k n v enough =
      let (items, r, e, d) = send_round-Drains k n v enough in
      let ms = map (λ x. x.msg) items in
      let n' = transmit_all ms (record n { sq = r }) in
      (
        items,
        n',
        e,
        subst (λ s. Drains n.sq items s) (sym (transmit_all-sq ms (record n { sq = r }))) d,
        transmit_all-forwards ms (record n { sq = r }),
      )
