-- ===== src/Algorithm/Raft/Faults.antt =====
-- Where the algorithm departs from Raft: elections by half, panics on unknown peers, match indices
-- that nothing has verified.
use uav.Base.{
  nat_key, ℕ, ◌+◌, ◌*◌, ◌%◌, ◌<◌, ◌≡◌, ◌⊎◌, refl, true, List, [], ◌∷◌, ◌++◌, inl, inr, arith,
  length, u32, length-append,
}
use uav.Algorithm.Raft.State.{
  Raft, View, Run, ok, panic, LogEntry, candidate, leader, is_leader, RequestVoteReply,
}
use uav.Algorithm.Raft.Core.{entries_from, index_of, send_append_entries, broadcast_to}
use uav.Algorithm.Raft.Handlers.{led, propose, become_leader, handle_request_vote_reply}
use uav.Algorithm.Raft.Calls.{init_indices-Indexed, broadcast_to-Sends}
use uav.Algorithm.Raft.Safety.Entries.{Among}
use uav.Algorithm.Raft.Safety.{IsValid, Ends, Ends-by}

counted-IsValid :
    {peers : List ℕ} (s : Raft)
    → IsValid peers s
    → IsValid peers (record s { votes_received = s.votes_received + 1 })
counted-IsValid s valid = record {
  timeouts = valid.timeouts;
  applied = valid.applied;
  committed = valid.committed;
  room = valid.room;
  indexed = valid.indexed;
}

-- With an odd number of peers, so in a cluster of an even number of nodes, a candidate that a vote
-- brings to exactly half of the nodes becomes leader.
pub elected_by_half :
    (v : View) (s : Raft) (rvr : RequestVoteReply)
    → IsValid v.peers s
    → s.role ≡ candidate
    → rvr.term ≡ s.current_term
    → rvr.vote_granted ≡ true
    → length v.peers + 1 ≡ 2 * (s.votes_received + 1)
    → Ends
        (λ t. (t.role ≡ leader) × (t.current_term ≡ s.current_term))
        (handle_request_vote_reply v rvr s)
unfolding handle_request_vote_reply become_leader
elected_by_half v s rvr valid r e g half =
    let counted : Raft = record s { votes_received = s.votes_received + 1 } in
    let (es, sent) = broadcast_to-Sends v v.peers (led v counted) (
      init_indices-Indexed ((length s.log + 1) % u32) v.peers s.next_index
        (omega (arith, valid.room)) (omega arith)) in
    Ends-by (record (led v counted) { trace = (led v counted).trace ++ es }) (ground (arith, sent))
      (refl, refl)

-- A peer without a next index: sendAppendEntries slices the log from 0 - 1.
send_append_entries_panics :
    (v : View) (p : ℕ) (s : Raft)
    → index_of p s.next_index ≡ 0
    → length s.log + 1 < u32
    → send_append_entries v p s ≡ panic
unfolding send_append_entries entries_from
send_append_entries_panics v p s h k = ground arith

Run-cases {ℓ} : {A : Type ℓ} (r : Run A) → (r ≡ panic) ⊎ ((a : A) × (r ≡ ok a))
Run-cases (ok a) = inr (a, refl)
Run-cases panic = inl refl

broadcast_to_panics :
    (v : View) (p : ℕ) (ps : List ℕ) (s : Raft)
    → Among p ps
    → index_of p s.next_index ≡ 0
    → length s.log + 1 < u32
    → broadcast_to v ps s ≡ panic
unfolding broadcast_to send_append_entries
broadcast_to_panics v p [] s a h k = absurd a
broadcast_to_panics v p (q ∷ ps) s (inl e) h k =
    let fails = send_append_entries_panics v p s h k in rw (← e) (rw fails)
broadcast_to_panics v p (q ∷ ps) s (inr a) h k =
    elim (Run-cases (entries_from (index_of q s.next_index) s.log)) [
      | inl fails ↦ rw fails
      | inr (es, e) ↦ rw e (broadcast_to_panics v p ps _ a h k)
    ]

-- A leader with a peer that it has no next index for, such as one that was added after its
-- election, panics on its next proposal.
pub propose_panics :
    (v : View) (cmd : List ℕ) (s : Raft) (p : ℕ)
    → is_leader s.role ≡ true
    → Among p v.peers
    → index_of p s.next_index ≡ 0
    → length s.log + 2 < u32
    → propose v cmd s ≡ panic
unfolding propose
propose_panics v cmd s p lead among h k =
    let entry : LogEntry = record { term = s.current_term; command = cmd } in
    let grown : Raft = record s { log = s.log ++ entry ∷ [] } in
    rw (
      lead,
      broadcast_to_panics v p v.peers grown among h
          (omega (arith, length-append s.log (entry ∷ []))),
    )
