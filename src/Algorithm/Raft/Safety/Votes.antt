-- ===== src/Algorithm/Raft/Safety/Votes.antt =====
-- Elections and proposals keep a node valid.
use uav.Base.{
  nat_key, ℕ, ◌+◌, ◌/◌, ◌%◌, ◌<◌, ◌==◌, ◌||◌, ltb, leb, not, List, [], ◌∷◌, ◌++◌, arith,
  if◌then◌else◌, length, u32, length-append,
}
use uav.Algorithm.Raft.State.{
  Raft, View, ok, LogEntry, is_leader, is_candidate, RequestVote, RequestVoteReply, request_vote,
}
use uav.Algorithm.Raft.Core.{reset_election_timer, step_down}
use uav.Algorithm.Raft.Handlers.{
  stood, candidacy, led, grants, propose, start_election, become_leader, handle_request_vote,
  handle_request_vote_reply,
}
use uav.Algorithm.Raft.Calls.{
  timer_reset, stepped_down, reset_election_timer-ok, step_down-ok, init_indices-Indexed,
  broadcast_to-Sends, send_to_all-Sends,
}
use uav.Algorithm.Raft.Safety.{
  IsValid, Keeps, Ends, ended, Ends-bind, Ends-by, Ends-if, Ends-ok, Keeps-refl, Keeps-trans,
  Keeps-emit,
}

module _ (v : View) (s : Raft) (valid : IsValid v.peers s) where
  pub step_down-Keeps :
      (term : ℕ) → s.current_term < term → Ends (Keeps v.peers s) (step_down term s)
  step_down-Keeps term h =
      Ends-by (stepped_down term s) (step_down-ok term s valid.timeouts)
        (ground arith, ground arith)

  -- With room for two more entries Propose returns.
  pub propose-Keeps :
      (cmd : List ℕ) → length s.log + 2 < u32 → Ends (λ r. Keeps v.peers s r.1) (propose v cmd s)
  unfolding propose
  propose-Keeps cmd h =
      Ends-if (is_leader s.role)
        (λ lead.
          let entry : LogEntry = record { term = s.current_term; command = cmd } in
          let grown : Raft = record s { log = s.log ++ entry ∷ [] } in
          let (es, e) = broadcast_to-Sends v v.peers grown (valid.indexed lead) in
          Ends-bind
            (Ends-by {P = Keeps v.peers s} (record grown { trace = s.trace ++ es }) e
              (
                record {
                  timeouts = valid.timeouts;
                  applied = valid.applied;
                  committed = omega (arith, length-append s.log (entry ∷ []), valid.committed);
                  room = omega (arith, length-append s.log (entry ∷ []));
                  indexed = valid.indexed;
                },
                ground arith,
              ))
            λ t k. Ends-ok k)
        (λ other. Ends-ok (Keeps-refl s valid))

  pub start_election-Keeps :
      (wall : ℕ) → s.current_term + 1 < u32 → Ends (Keeps v.peers s) (start_election v wall s)
  unfolding start_election
  start_election-Keeps wall h =
      let t : Raft = timer_reset (stood v s) in
      let (es, e) = send_to_all-Sends wall (request_vote (candidacy v t)) v.peers t in
      rw (reset_election_timer-ok (stood v s) valid.timeouts, e)
        (ended (
          record {
            timeouts = valid.timeouts;
            applied = valid.applied;
            committed = valid.committed;
            room = valid.room;
            indexed = λ other. cc;
          },
          ground arith,
        ))

  grant-Keeps :
      (rv : RequestVote)
      → Ends (Keeps v.peers s) (
          if grants rv s
          then reset_election_timer (record s { voted_for = rv.candidate_id })
          else ok s)
  unfolding grants
  grant-Keeps rv =
      Ends-if (grants rv s)
        (λ yes_vote.
          Ends-by (timer_reset (record s { voted_for = rv.candidate_id }))
            (reset_election_timer-ok (record s { voted_for = rv.candidate_id }) valid.timeouts)
            (
              record {
                timeouts = valid.timeouts;
                applied = valid.applied;
                committed = valid.committed;
                room = valid.room;
                indexed = valid.indexed;
              },
              ground arith,
            ))
        (λ refused. Ends-ok (Keeps-refl s valid))

module _ (v : View) (s : Raft) (valid : IsValid v.peers s) where
  pub handle_request_vote-Keeps :
      (from : ℕ) (rv : RequestVote) → Ends (Keeps v.peers s) (handle_request_vote v from rv s)
  unfolding handle_request_vote
  handle_request_vote-Keeps from rv =
      Ends-bind
        (Ends-if (ltb s.current_term rv.term)
          (λ newer. step_down-Keeps v s valid rv.term (ground arith))
          (λ old. Ends-ok (Keeps-refl s valid)))
        λ t (tv, e).
          Ends-bind (Keeps-trans e (grant-Keeps v t tv rv)) λ u k. Ends-ok (Keeps-emit _ k)

  become_leader-Keeps : Ends (Keeps v.peers s) (become_leader v s)
  unfolding become_leader
  become_leader-Keeps =
      let t : Raft = led v s in
      let (es, e) = broadcast_to-Sends v v.peers t (
        init_indices-Indexed ((length s.log + 1) % u32) v.peers s.next_index
          (omega (arith, valid.room)) (omega arith)) in
      Ends-by (record t { trace = t.trace ++ es }) e
        (
          record {
            timeouts = valid.timeouts;
            applied = valid.applied;
            committed = valid.committed;
            room = valid.room;
            indexed = λ lead.
                init_indices-Indexed ((length s.log + 1) % u32) v.peers s.next_index
                  (omega (arith, valid.room)) (omega arith);
          },
          ground arith,
        )

module _ (v : View) (s : Raft) (valid : IsValid v.peers s) where
  pub handle_request_vote_reply-Keeps :
      (rvr : RequestVoteReply) → Ends (Keeps v.peers s) (handle_request_vote_reply v rvr s)
  unfolding handle_request_vote_reply
  handle_request_vote_reply-Keeps rvr =
      let counted : Raft = record s { votes_received = s.votes_received + 1 } in
      let same : Keeps v.peers s counted = (
        record {
          timeouts = valid.timeouts;
          applied = valid.applied;
          committed = valid.committed;
          room = valid.room;
          indexed = valid.indexed;
        },
        ground arith,
      ) in
      Ends-if (ltb s.current_term rvr.term)
        (λ newer. step_down-Keeps v s valid rvr.term (ground arith))
        λ _.
          Ends-if (not (is_candidate s.role) || not (rvr.term == s.current_term))
            (λ _. Ends-ok (Keeps-refl s valid))
            λ _.
              Ends-if (not rvr.vote_granted) (λ _. Ends-ok (Keeps-refl s valid))
                λ _.
                  Ends-if (leb (length v.peers / 2 + 1) counted.votes_received)
                    (λ _. Keeps-trans same.1 (become_leader-Keeps v counted same.0))
                    (λ _. Ends-ok same)
