-- ===== src/Algorithm/Raft/Cluster/Candidates.antt =====
-- The handlers that stand for election.
use uav.Base.{
  nat_key, ℕ, ◌≡◌, ◌⊎◌, refl, sym, ap, ◌∙◌, leb, true, ◌&&◌, List, [], ◌∷◌, ◌++◌, append-nil,
  append_assoc, inl, inr, add32, String, map,
}
use text.Mathlib.Text.{◌==◌ as str_eq}
use uav.Algorithm.Raft.State.{
  Raft, View, candidate, is_leader, send, Body, request_vote, RequestVote, emit, timer_election,
  timer_heartbeat,
}
use uav.Algorithm.Raft.Core.{reset_election_timer, packet, send_to_all}
use uav.Algorithm.Raft.Handlers.{stood, candidacy, start_election, on_tick}
use uav.Algorithm.Raft.Cluster.After.{After, returned, panicked, After-if, After-bind, After-map}
use uav.Algorithm.Raft.Cluster.Turns.{
  is_ballot, ballots, ballots-append, ballots-mute, Quietly, Quietly-refl, broadcast_to-Quiet,
}

-- From s to t the node with this id stands for election, and asks its peers for their votes.
pub record Stood (v : View) (s t : Raft) : Type 0 where
  pub term : t.current_term ≡ add32 s.current_term 1
  pub vote : t.voted_for ≡ v.id
  pub role : t.role ≡ candidate
  pub votes : t.votes_received ≡ 1
  pub asked :
      (rv : RequestVote) × (rv.term ≡ t.current_term)
      × (rv.candidate_id ≡ v.id)
      × (ballots t.trace ≡ ballots s.trace ++ map (λ p. (p, request_vote rv)) v.peers)

send_to_all-ballots :
    (wall : ℕ) (body : Body) (ps : List ℕ) (s : Raft)
    → is_ballot body ≡ true
    → let t = send_to_all wall body ps s in
      (ballots t.trace ≡ ballots s.trace ++ map (λ p. (p, body)) ps)
      × (t.current_term ≡ s.current_term)
      × (t.voted_for ≡ s.voted_for)
      × (t.role ≡ s.role)
      × (t.votes_received ≡ s.votes_received)
unfolding send_to_all ballots
send_to_all-ballots wall body [] s b = (sym (append-nil (ballots s.trace)), refl, refl, refl, refl)
send_to_all-ballots wall body (p ∷ ps) s b =
    let e = send p (packet wall body) in
    let (rest, term, vote, role, votes) = send_to_all-ballots wall body ps (emit e s) b in
    (
      rest
          ∙ ap (λ b'. b' ++ map (λ q. (q, body)) ps) (ballots-append s.trace (e ∷ []) ∙ rw b refl)
          ∙ append_assoc (ballots s.trace) ((p, body) ∷ []) (map (λ q. (q, body)) ps),
      term,
      vote,
      role,
      votes,
    )

-- What resetElectionTimer leaves alone.
abbrev pub Alike : Raft → Raft → Type 0
Alike s t =
    (ballots t.trace ≡ ballots s.trace)
    × (t.current_term ≡ s.current_term)
    × (t.voted_for ≡ s.voted_for)
    × (t.role ≡ s.role)
    × (t.votes_received ≡ s.votes_received)

pub reset_election_timer-Alike : (s : Raft) → After (Alike s) (reset_election_timer s)
unfolding reset_election_timer ballots
reset_election_timer-Alike s =
    After-if (leb s.cfg.election_timeout_max s.cfg.election_timeout_min) (λ _. panicked)
      λ _. returned (ballots-mute s.trace _ refl, refl, refl, refl, refl)

start_election-Stood :
    (v : View) (wall : ℕ) (s : Raft) → After (Stood v s) (start_election v wall s)
unfolding start_election
start_election-Stood v wall s =
    After-bind (reset_election_timer-Alike (stood v s)) λ t (silent, term, vote, role, votes).
      let rv = candidacy v t in
      let (asked, term', vote', role', votes') =
        send_to_all-ballots wall (request_vote rv) v.peers t refl in
      returned (record {
        term = term' ∙ term;
        vote = vote' ∙ vote;
        role = role' ∙ role;
        votes = votes' ∙ votes;
        asked = (
          rv,
          sym term',
          refl,
          asked ∙ ap (λ b. b ++ map (λ p. (p, request_vote rv)) v.peers) silent,
        );
      })

pub on_tick-turn :
    (v : View) (wall : ℕ) (name : String) (s : Raft)
    → After (λ t. Quietly s t ⊎ Stood v s t) (on_tick v wall name s)
unfolding on_tick
on_tick-turn v wall name s =
    After-if (str_eq name timer_election)
      (λ _. After-map (start_election-Stood v wall s) λ t stood. inr stood)
      λ _.
        After-if (str_eq name timer_heartbeat && is_leader s.role)
          (λ _. After-map (broadcast_to-Quiet v v.peers s) λ t q. inl q)
          (λ _. returned (inl (Quietly-refl s)))
