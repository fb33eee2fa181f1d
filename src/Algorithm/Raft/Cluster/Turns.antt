-- ===== src/Algorithm/Raft/Cluster/Turns.antt =====
-- The handlers that leave the votes alone.
use uav.Base.{
  nat_key, ℕ, ◌<◌, ◌≤◌, ◌≡◌, refl, sym, ap, ◌∙◌, leb, Bool, true, false, ◌||◌, List, [], ◌∷◌, ◌++◌,
  append-nil, arith, if◌then◌else◌,
}
use uav.Algorithm.Raft.State.{
  Raft, View, Run, Role, follower, is_leader, is_candidate, Effect, set_timer, cancel_timer, send,
  apply, Body, request_vote, request_vote_reply, append_entries, append_reply, emit, timer_election,
  timer_heartbeat,
}
use uav.Algorithm.Raft.Core.{
  reset_election_timer, step_down, entries_from, index_of, send_append_entries, broadcast_to,
}
use uav.Algorithm.Raft.Handlers.{start, stop}
use uav.Algorithm.Raft.Cluster.After.{
  After, returned, panicked, After-if, After-bind, After-map, After-any,
}

-- A request for a vote, or a vote.
abbrev pub is_ballot : Body → Bool
is_ballot (request_vote rv) = true
is_ballot (request_vote_reply rvr) = rvr.vote_granted
is_ballot (append_entries ae) = false
is_ballot (append_reply ar) = false

-- The requests for votes and the votes among the calls of a trace, with their receivers.
unfoldable pub ballots : List Effect → List (ℕ × Body)
ballots [] = []
ballots (send to p ∷ es) =
    let rest = ballots es in if is_ballot p.body then (to, p.body) ∷ rest else rest
ballots (set_timer name d ∷ es) = ballots es
ballots (cancel_timer name ∷ es) = ballots es
ballots (apply idx cmd ∷ es) = ballots es

pub ballots-append : (es fs : List Effect) → ballots (es ++ fs) ≡ ballots es ++ ballots fs
unfolding ballots
ballots-append [] fs = refl
ballots-append (send to p ∷ es) fs = ground (arith, ballots-append es fs)
ballots-append (set_timer name d ∷ es) fs = ballots-append es fs
ballots-append (cancel_timer name ∷ es) fs = ballots-append es fs
ballots-append (apply idx cmd ∷ es) fs = ballots-append es fs

pub ballots-mute :
    (es : List Effect) (e : Effect) → ballots (e ∷ []) ≡ [] → ballots (es ++ e ∷ []) ≡ ballots es
ballots-mute es e mute =
    ballots-append es (e ∷ []) ∙ ap (λ b. ballots es ++ b) mute ∙ append-nil (ballots es)

-- A candidate or a leader.
abbrev pub stands : Role → Bool
stands r = is_candidate r || is_leader r

-- From s to t no vote is asked for, given or counted.
pub record Quietly (s t : Raft) : Type 0 where
  pub term : s.current_term ≤ t.current_term
  pub vote : t.current_term ≡ s.current_term → t.voted_for ≡ s.voted_for
  pub renewed : s.current_term < t.current_term → t.voted_for ≡ 0
  pub standing :
      stands t.role ≡ true
      → (t.current_term ≡ s.current_term)
        × (stands s.role ≡ true)
        × (t.votes_received ≡ s.votes_received)
        × (is_leader t.role ≡ true → is_leader s.role ≡ true)
  pub silent : ballots t.trace ≡ ballots s.trace

abbrev pub Quiet : Raft → Run Raft → Type 0
Quiet s r = After (Quietly s) r

-- A change of fields that elections do not use.
pub Quietly-same :
    (s t : Raft)
    → t.current_term ≡ s.current_term
    → t.voted_for ≡ s.voted_for
    → t.votes_received ≡ s.votes_received
    → t.role ≡ s.role
    → ballots t.trace ≡ ballots s.trace
    → Quietly s t
Quietly-same s t term vote votes role silent = record {
  term = omega (arith, term);
  vote = λ e. vote;
  renewed = λ h. absurd (omega (arith, term));
  standing = λ h. (term, ap stands (sym role) ∙ h, votes, λ l. ap is_leader (sym role) ∙ l);
  silent = silent;
}

pub Quietly-refl : (s : Raft) → Quietly s s
Quietly-refl s = Quietly-same s s refl refl refl refl refl

pub Quietly-trans : {s t u : Raft} → Quietly s t → Quietly t u → Quietly s u
Quietly-trans {s} {t} {u} a b = record {
  term = omega (arith, a.term, b.term);
  vote = λ e. ground (arith, a.term, b.term, a.vote, b.vote);
  renewed = λ h. ground (arith, a.term, b.term, a.vote, b.vote, a.renewed, b.renewed);
  standing = λ h.
      let (e, st, votes, lead) = b.standing h in
      let (e', st', votes', lead') = a.standing st in
      (e ∙ e', st', votes ∙ votes', λ l. lead' (lead l));
  silent = b.silent ∙ a.silent;
}

pub Quiet-then : {s t : Raft} {r : Run Raft} → Quietly s t → Quiet t r → Quiet s r
Quiet-then q rest = After-map rest λ u q'. Quietly-trans q q'

pub reset_election_timer-Quiet : (s : Raft) → Quiet s (reset_election_timer s)
unfolding reset_election_timer ballots
reset_election_timer-Quiet s =
    After-if (leb s.cfg.election_timeout_max s.cfg.election_timeout_min) (λ _. panicked)
      λ _. returned (Quietly-same s _ refl refl refl refl (ballots-mute s.trace _ refl))

pub step_down-Quiet : (term : ℕ) (s : Raft) → s.current_term < term → Quiet s (step_down term s)
unfolding step_down ballots
step_down-Quiet term s newer =
    let base : Raft =
      emit (cancel_timer timer_heartbeat)
        (record s { current_term = term; role = follower; voted_for = 0 }) in
    let q : Quietly s base = record {
      term = omega arith;
      vote = λ e. absurd (omega arith);
      renewed = λ h. refl;
      standing = λ h. cc;
      silent = ballots-mute s.trace _ refl;
    } in
    Quiet-then q (reset_election_timer-Quiet base)

pub send_append_entries-Quiet : (v : View) (p : ℕ) (s : Raft) → Quiet s (send_append_entries v p s)
unfolding send_append_entries ballots
send_append_entries-Quiet v p s =
    After-bind (After-any (entries_from (index_of p s.next_index) s.log))
      λ entries _. returned (Quietly-same s _ refl refl refl refl (ballots-mute s.trace _ refl))

pub broadcast_to-Quiet : (v : View) (ps : List ℕ) (s : Raft) → Quiet s (broadcast_to v ps s)
unfolding broadcast_to
broadcast_to-Quiet v [] s = returned (Quietly-refl s)
broadcast_to-Quiet v (p ∷ ps) s =
    After-bind (send_append_entries-Quiet v p s) λ t q. Quiet-then q (broadcast_to-Quiet v ps t)

pub start-Quiet : (s : Raft) → Quiet s (start s)
unfolding start
start-Quiet s = reset_election_timer-Quiet s

pub stop-Quietly : (s : Raft) → Quietly s (stop s)
unfolding stop ballots
stop-Quietly s = Quietly-same s _ refl refl refl refl (
    ballots-mute (s.trace ++ cancel_timer timer_election ∷ []) _ refl ∙ ballots-mute s.trace _ refl)
