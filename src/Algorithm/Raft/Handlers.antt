-- ===== src/Algorithm/Raft/Handlers.antt =====
-- The handlers of raft.go and its entry points.
use text.Mathlib.Text.{◌==◌ as str_eq}
use uav.Base.{
  nat_key, ℕ, ◌+◌, ◌-◌, ◌/◌, ◌%◌, ◌==◌, ltb, leb, not, Bool, true, false, ◌&&◌, ◌||◌, List, [], ◌∷◌,
  ◌++◌, Option, none, some, String, if◌then◌else◌, length, u32, add32,
}
use uav.Base.Map
use uav.Base.Map.{Map}
use uav.Message.{Message, type_consensus}
use uav.Algorithm.Raft.State.{
  Raft, View, Run, ok, ◌>>=◌, LogEntry, RequestVote, RequestVoteReply, AppendEntries, AppendReply,
  request_vote, request_vote_reply, append_reply, set_timer, cancel_timer, send, emit,
  timer_election, timer_heartbeat, follower, candidate, leader, is_leader, is_candidate,
  kind_request_vote, kind_request_vote_reply, kind_append_entries, kind_append_reply,
}
use uav.Algorithm.Raft.Log.{len32, last_log_info, append_new, is_consistent}
use uav.Algorithm.Raft.Core.{
  reset_election_timer, step_down, packet, bare_packet, index_of, send_append_entries,
  broadcast_append_entries, send_to_all, apply_committed, maybe_commit,
}

-- Start and Stop.
unfoldable pub start : Raft → Run Raft
start s = reset_election_timer s

unfoldable pub stop : Raft → Raft
stop s = emit (cancel_timer timer_heartbeat) (emit (cancel_timer timer_election) s)

-- Propose.
unfoldable pub propose : View → List ℕ → Raft → Run (Bool × Raft)
propose v cmd s =
    let grown = record s { log = s.log ++ record { term = s.current_term; command = cmd } ∷ [] } in
    let sent : Run (Bool × Raft) = broadcast_append_entries v grown >>= λ s'. ok (true, s') in
    if is_leader s.role then sent else ok (false, s)

-- The candidate that startElection makes of a node.
abbrev pub stood : View → Raft → Raft
stood v s = record s {
  role = candidate;
  current_term = add32 s.current_term 1;
  voted_for = v.id;
  votes_received = 1;
}

-- startElection; `wall` is time.Now().UnixMilli().
abbrev pub candidacy : View → Raft → RequestVote
candidacy v s =
    let (last_idx, last_term) = last_log_info s.log in
    record {
      term = s.current_term;
      candidate_id = v.id;
      last_log_index = last_idx;
      last_log_term = last_term;
    }

unfoldable pub start_election : View → ℕ → Raft → Run Raft
start_election v wall s = reset_election_timer (stood v s) >>= λ s'.
    ok (send_to_all wall (request_vote (candidacy v s')) v.peers s')

-- The loop of becomeLeader that sets the indices of every peer.
unfoldable pub init_indices : ℕ → List ℕ → Map ℕ ℕ → Map ℕ ℕ
init_indices i [] m = m
init_indices i (p ∷ ps) m = init_indices i ps (Map.put p i m)

-- becomeLeader: the state before its broadcast, and the whole.
abbrev pub led : View → Raft → Raft
led v s =
    let named = emit (cancel_timer timer_election) (record s { role = leader; leader_id = v.id }) in
    emit (set_timer timer_heartbeat s.cfg.heartbeat_interval) (record named {
      next_index = init_indices ((length s.log + 1) % u32) v.peers s.next_index;
      match_index = init_indices 0 v.peers s.match_index;
    })

unfoldable pub become_leader : View → Raft → Run Raft
become_leader v s = broadcast_append_entries v (led v s)

abbrev pub step_down_if : Bool → ℕ → Raft → Run Raft
step_down_if newer term s = if newer then step_down term s else ok s

-- handleRequestVote's test of the candidate's log.
unfoldable pub log_ok : RequestVote → List LogEntry → Bool
log_ok rv log =
    let (last_idx, last_term) = last_log_info log in
    ltb last_term rv.last_log_term
    || (rv.last_log_term == last_term && leb last_idx rv.last_log_index)

unfoldable pub grants : RequestVote → Raft → Bool
unfolding log_ok
grants rv s =
    (rv.term == s.current_term && log_ok rv s.log)
    && (s.voted_for == 0 || s.voted_for == rv.candidate_id)

-- handleRequestVote.
unfoldable pub handle_request_vote : View → ℕ → RequestVote → Raft → Run Raft
handle_request_vote v from rv s = step_down_if (ltb s.current_term rv.term) rv.term s >>= λ s'.
    let voted = record s' { voted_for = rv.candidate_id } in
    (if grants rv s' then reset_election_timer voted else ok s') >>= λ s''. ok (
      emit
        (send from (
          packet v.now
            (request_vote_reply (record { term = s'.current_term; vote_granted = grants rv s' }))))
        s'')

-- handleRequestVoteReply.
unfoldable pub handle_request_vote_reply : View → RequestVoteReply → Raft → Run Raft
handle_request_vote_reply v rvr s =
    let counted = record s { votes_received = s.votes_received + 1 } in
    let won = leb (length v.peers / 2 + 1) counted.votes_received in
    if ltb s.current_term rvr.term
    then step_down rvr.term s
    else if not (is_candidate s.role) || not (rvr.term == s.current_term)
    then ok s
    else if not rvr.vote_granted
    then ok s
    else if won
    then become_leader v counted
    else ok counted

-- The replies of handleAppendEntries carry the term that the handler started with.
abbrev pub reply_to : View → ℕ → ℕ → Bool → ℕ → Raft → Raft
reply_to v from term success match_index s =
    emit
      (send from (
        bare_packet v.now
          (append_reply (record { term = term; success = success; match_index = match_index }))))
      s

-- handleAppendEntries: the follower's state after a valid contact, before the log is looked at.
unfoldable pub follow : AppendEntries → Raft → Run Raft
follow ae s =
    (if ltb s.current_term ae.term
      then step_down ae.term s
      else reset_election_timer (record s { role = follower }))
    >>= λ s'. ok (record s' { leader_id = ae.leader_id })

-- Its update of the commit index.
unfoldable pub follow_commit : ℕ → Raft → Run Raft
follow_commit leader_commit s =
    let len = len32 s.log in
    let i = if ltb leader_commit len then leader_commit else len in
    let advanced = apply_committed (record s { commit_index = i }) in
    if ltb s.commit_index leader_commit then advanced else ok s

unfoldable pub handle_append_entries : View → ℕ → AppendEntries → Raft → Run Raft
handle_append_entries v from ae s =
    let accepted : Run Raft = follow ae s >>= λ s'.
    let appended = record s' { log = append_new s'.log ae.prev_log_index ae.entries } in
    let replicated : Run Raft = follow_commit ae.leader_commit appended >>= λ s''.
    ok (reply_to v from s.current_term true (len32 s''.log) s'') in
    if is_consistent s'.log ae.prev_log_index ae.prev_log_term
    then replicated
    else ok (reply_to v from s.current_term false 0 s') in
    if ltb ae.term s.current_term then ok (reply_to v from s.current_term false 0 s) else accepted

-- handleAppendReply: the indices after a success and after a failure, and the whole.
abbrev pub matched : ℕ → AppendReply → Raft → Raft
matched from ar s = record s {
  match_index = Map.put from ar.match_index s.match_index;
  next_index = Map.put from (add32 ar.match_index 1) s.next_index;
}

unfoldable pub backed : ℕ → Raft → Raft
backed from s =
    let next = index_of from s.next_index in
    if ltb 1 next then record s { next_index = Map.put from (next - 1) s.next_index } else s

unfoldable pub handle_append_reply : View → ℕ → AppendReply → Raft → Run Raft
handle_append_reply v from ar s =
    if ltb s.current_term ar.term
    then step_down ar.term s
    else if not (is_leader s.role)
    then ok s
    else if ar.success
    then maybe_commit v (matched from ar s)
    else send_append_entries v from (backed from s)

-- OnTick.
unfoldable pub on_tick : View → ℕ → String → Raft → Run Raft
on_tick v wall name s =
    if str_eq name timer_election
    then start_election v wall s
    else if str_eq name timer_heartbeat && is_leader s.role
    then broadcast_append_entries v s
    else ok s

-- What encoding/json reads from a payload: the kind, and the payload as each of the four structs.
pub record Json : Type 0 where
  pub kind : List ℕ → Option ℕ
  pub as_request_vote : List ℕ → Option RequestVote
  pub as_request_vote_reply : List ℕ → Option RequestVoteReply
  pub as_append_entries : List ℕ → Option AppendEntries
  pub as_append_reply : List ℕ → Option AppendReply

-- An unmarshalling error returns at once.
abbrev pub parsed {ℓ} : {A : Type ℓ} → Option A → (A → Raft → Run Raft) → Raft → Run Raft
parsed none handle s = ok s
parsed (some a) handle s = handle a s

unfoldable pub dispatch : Json → View → Message → ℕ → Raft → Run Raft
dispatch json v m kind s =
    if kind == kind_request_vote
    then parsed (json.as_request_vote m.payload) (handle_request_vote v m.from) s
    else if kind == kind_request_vote_reply
    then parsed (json.as_request_vote_reply m.payload) (handle_request_vote_reply v) s
    else if kind == kind_append_entries
    then parsed (json.as_append_entries m.payload) (handle_append_entries v m.from) s
    else if kind == kind_append_reply
    then parsed (json.as_append_reply m.payload) (handle_append_reply v m.from) s
    else ok s

-- OnMessage.
unfoldable pub on_message : Json → View → Message → Raft → Run Raft
unfolding dispatch
on_message json v m s =
    if not (m.mtype == type_consensus) || length m.payload == 0
    then ok s
    else parsed (json.kind m.payload) (dispatch json v m) s

-- RaftStatus and StatusSnapshot.
pub record Status : Type 0 where
  pub role : String
  pub term : ℕ
  pub leader_id : ℕ
  pub log_len : ℕ
  pub commit_index : ℕ
  pub last_applied : ℕ

unfoldable pub status_snapshot : Raft → Status
status_snapshot s = record {
  role = elim s.role [ follower ↦ "follower" | candidate ↦ "candidate" | leader ↦ "leader" ];
  term = s.current_term;
  leader_id = s.leader_id;
  log_len = length s.log;
  commit_index = s.commit_index;
  last_applied = s.last_applied;
}
