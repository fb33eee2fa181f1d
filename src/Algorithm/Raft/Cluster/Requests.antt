-- ===== src/Algorithm/Raft/Cluster/Requests.antt =====
-- The handlers that give votes and count them.
use uav.Base.{
  nat_key, ℕ, ◌+◌, ◌/◌, ◌≤◌, ◌≡◌, ◌⊎◌, refl, sym, ap, ◌∙◌, ◌==◌, ltb, leb, not, Bool, true, ◌||◌,
  List, [], ◌∷◌, ◌++◌, inl, inr, Bool-cases, arith, length,
}
use uav.Algorithm.Raft.State.{
  Raft, View, is_leader, is_candidate, cancel_timer, send, Body, request_vote, request_vote_reply,
  append_entries, append_reply, RequestVote, RequestVoteReply, emit, timer_election,
}
use uav.Algorithm.Raft.Core.{packet, broadcast_to, send_append_entries, entries_from, index_of}
use uav.Algorithm.Raft.Handlers.{
  led, become_leader, grants, handle_request_vote, handle_request_vote_reply,
}
use uav.Algorithm.Raft.Cluster.{handle_body}
use uav.Algorithm.Raft.Cluster.After.{After, returned, After-if, After-bind, After-map, After-any}
use uav.Algorithm.Raft.Cluster.Turns.{
  ballots, ballots-append, ballots-mute, stands, Quietly, Quietly-same, Quietly-refl, Quietly-trans,
  step_down-Quiet,
}
use uav.Algorithm.Raft.Cluster.Appends.{handle_append_entries-Quiet, handle_append_reply-Quiet}
use uav.Algorithm.Raft.Cluster.Candidates.{Alike, reset_election_timer-Alike}

-- From s to t the node votes for the candidate, and tells the sender.
pub record Voted (from : ℕ) (rv : RequestVote) (s t : Raft) : Type 0 where
  pub term : s.current_term ≤ t.current_term
  pub current : t.current_term ≡ rv.term
  pub vote : t.voted_for ≡ rv.candidate_id
  pub free : t.current_term ≡ s.current_term → (s.voted_for ≡ 0) ⊎ (s.voted_for ≡ rv.candidate_id)
  pub standing :
      stands t.role ≡ true
      → (t.current_term ≡ s.current_term)
        × (stands s.role ≡ true)
        × (t.votes_received ≡ s.votes_received)
        × (is_leader t.role ≡ true → is_leader s.role ≡ true)
  pub told :
      (rvr : RequestVoteReply) × (rvr.term ≡ rv.term)
      × (rvr.vote_granted ≡ true)
      × (ballots t.trace ≡ ballots s.trace ++ (from, request_vote_reply rvr) ∷ [])

-- From s to t the node, a candidate, counts a vote of its term.
pub record Counted (v : View) (rvr : RequestVoteReply) (s t : Raft) : Type 0 where
  pub granted : rvr.vote_granted ≡ true
  pub current : rvr.term ≡ s.current_term
  pub stood : stands s.role ≡ true
  pub term : t.current_term ≡ s.current_term
  pub vote : t.voted_for ≡ s.voted_for
  pub votes : t.votes_received ≡ s.votes_received + 1
  pub won : is_leader t.role ≡ true → length v.peers / 2 + 1 ≤ t.votes_received
  pub silent : ballots t.trace ≡ ballots s.trace

-- The reply that handleRequestVote sends.
abbrev vote_reply : Raft → Bool → RequestVoteReply
vote_reply s granted = record { term = s.current_term; vote_granted = granted }

granted-Voted :
    (v : View) (from : ℕ) (rv : RequestVote) (s s' t : Raft)
    → Quietly s s'
    → grants rv s' ≡ true
    → Alike (record s' { voted_for = rv.candidate_id }) t
    → Voted from rv s (emit (send from (packet v.now (request_vote_reply (vote_reply s' true)))) t)
unfolding grants ballots
granted-Voted v from rv s s' t q g (silent, term, vote, role, votes) = record {
  term = omega (arith, q.term, term);
  current = ground (arith, g, term);
  vote = vote;
  free = λ same. ground (arith, g, term, q.vote, same);
  standing = λ st.
      let (e, st', votes', lead) = q.standing (ap stands (sym role) ∙ st) in
      (term ∙ e, st', votes ∙ votes', λ l. lead (ap is_leader (sym role) ∙ l));
  told = (
    vote_reply s' true,
    ground (arith, g),
    refl,
    ballots-append t.trace _
        ∙ ap (λ b. b ++ (from, request_vote_reply (vote_reply s' true)) ∷ []) (silent ∙ q.silent),
  );
}

handle_request_vote-turn :
    (v : View) (from : ℕ) (rv : RequestVote) (s : Raft)
    → After (λ t. Quietly s t ⊎ Voted from rv s t) (handle_request_vote v from rv s)
unfolding handle_request_vote ballots
handle_request_vote-turn v from rv s =
    After-bind {P = Quietly s}
      (After-if (ltb s.current_term rv.term) (λ newer. step_down-Quiet rv.term s (ground arith))
        (λ _. returned (Quietly-refl s)))
      λ s' q. elim (Bool-cases (grants rv s')) [
        | inr refused ↦ rw refused (
            returned (
              inl (
                Quietly-trans q
                  (Quietly-same s' _ refl refl refl refl (ballots-mute s'.trace _ refl)))))
        | inl granted ↦ rw granted (
            After-bind (reset_election_timer-Alike (record s' { voted_for = rv.candidate_id }))
              λ t alike. returned (inr (granted-Voted v from rv s s' t q granted alike)))
      ]

broadcast_to-Alike : (v : View) (ps : List ℕ) (s : Raft) → After (Alike s) (broadcast_to v ps s)
unfolding broadcast_to send_append_entries ballots
broadcast_to-Alike v [] s = returned (refl, refl, refl, refl, refl)
broadcast_to-Alike v (p ∷ ps) s =
    After-bind {P = Alike s}
      (After-bind (After-any (entries_from (index_of p s.next_index) s.log))
        λ entries _. returned (ballots-mute s.trace _ refl, refl, refl, refl, refl))
      λ t (b, term, vote, role, votes).
        After-map (broadcast_to-Alike v ps t) λ u (b', term', vote', role', votes').
          (b' ∙ b, term' ∙ term, vote' ∙ vote, role' ∙ role, votes' ∙ votes)

led-ballots : (v : View) (s : Raft) → ballots (led v s).trace ≡ ballots s.trace
unfolding ballots
led-ballots v s =
    ballots-mute (s.trace ++ cancel_timer timer_election ∷ []) _ refl ∙ ballots-mute s.trace _ refl

handle_request_vote_reply-turn :
    (v : View) (rvr : RequestVoteReply) (s : Raft)
    → After (λ t. Quietly s t ⊎ Counted v rvr s t) (handle_request_vote_reply v rvr s)
unfolding handle_request_vote_reply become_leader
handle_request_vote_reply-turn v rvr s =
    let counted : Raft = record s { votes_received = s.votes_received + 1 } in
    After-if (ltb s.current_term rvr.term)
      (λ newer. After-map (step_down-Quiet rvr.term s (ground arith)) λ t q. inl q)
      λ _.
        After-if (not (is_candidate s.role) || not (rvr.term == s.current_term))
          (λ _. returned (inl (Quietly-refl s)))
          λ fits.
            After-if (not rvr.vote_granted) (λ _. returned (inl (Quietly-refl s)))
              λ granted.
                After-if (leb (length v.peers / 2 + 1) counted.votes_received)
                  (λ enough.
                    After-map (broadcast_to-Alike v v.peers (led v counted))
                      λ t (b, term, vote, role, votes). inr (record {
                        granted = ground (arith, granted);
                        current = ground (arith, fits);
                        stood = ground (arith, fits);
                        term = term;
                        vote = vote;
                        votes = votes;
                        won = λ _. ground (arith, enough, votes);
                        silent = b ∙ led-ballots v counted;
                      }))
                  (λ short. returned (
                    inr (record {
                      granted = ground (arith, granted);
                      current = ground (arith, fits);
                      stood = ground (arith, fits);
                      term = refl;
                      vote = refl;
                      votes = refl;
                      won = λ lead. ground (arith, fits, lead);
                      silent = refl;
                    })))

-- What a handler does to the votes, by the message or the tick that it handles.
pub data Turn (v : View) (from : ℕ) : Body → Raft → Raft → Type 0 where
  quiet : (body : Body) (s t : Raft) → Quietly s t → Turn v from body s t
  votes : (rv : RequestVote) (s t : Raft) → Voted from rv s t → Turn v from (request_vote rv) s t
  counts :
      (rvr : RequestVoteReply) (s t : Raft)
      → Counted v rvr s t
      → Turn v from (request_vote_reply rvr) s t

pub handle_body-Turn :
    (v : View) (from : ℕ) (body : Body) (s : Raft)
    → After (Turn v from body s) (handle_body v from body s)
unfolding handle_body
handle_body-Turn v from (request_vote rv) s =
    After-map (handle_request_vote-turn v from rv s)
      λ t turn. elim turn [ inl q ↦ quiet (request_vote rv) s t q | inr given ↦ votes rv s t given ]
handle_body-Turn v from (request_vote_reply rvr) s =
    After-map (handle_request_vote_reply-turn v rvr s) λ t turn. elim turn [
      | inl q ↦ quiet (request_vote_reply rvr) s t q
      | inr counted ↦ counts rvr s t counted
    ]
handle_body-Turn v from (append_entries ae) s =
    After-map (handle_append_entries-Quiet v from ae s) λ t q. quiet (append_entries ae) s t q
handle_body-Turn v from (append_reply ar) s =
    After-map (handle_append_reply-Quiet v from ar s) λ t q. quiet (append_reply ar) s t q
