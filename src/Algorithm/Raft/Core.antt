-- ===== src/Algorithm/Raft/Core.antt =====
-- The helpers of raft.go that the handlers share: timers, replication messages, commitment.
use uav.Base.{
  nat_key, ℕ, zero, suc, ◌+◌, ◌-◌, ◌/◌, ◌%◌, ◌==◌, ltb, leb, not, ◌&&◌, List, [], ◌∷◌, none, some,
  if◌then◌else◌, length, sub32,
}
use uav.Base.Map
use uav.Message.{type_consensus, ttl_default, priority_state}
use uav.Algorithm.Raft.State.{
  Raft, View, Run, ok, panic, ◌>>=◌, LogEntry, Packet, Body, AppendEntries, append_entries,
  set_timer, cancel_timer, send, apply, emit, timer_election, timer_heartbeat, follower,
}
use uav.Algorithm.Raft.Log.{len32, load, term_at, slice_from}

-- resetElectionTimer. Int63n panics unless its argument is positive.
unfoldable pub reset_election_timer : Raft → Run Raft
reset_election_timer s =
    let lo = s.cfg.election_timeout_min in
    let hi = s.cfg.election_timeout_max in
    if leb hi lo
    then panic
    else ok (
        emit (set_timer timer_election (lo + s.draws 0 % (hi - lo)))
          (record s { draws = λ i. s.draws (suc i) }))

-- stepDown.
unfoldable pub step_down : ℕ → Raft → Run Raft
unfolding reset_election_timer
step_down term s = reset_election_timer (
    emit (cancel_timer timer_heartbeat)
      (record s { current_term = term; role = follower; voted_for = 0 }))

-- The messages of Raft; the replies to AppendEntries leave TTL and Priority at 0.
abbrev pub packet : ℕ → Body → Packet
packet now body = record {
  mtype = type_consensus;
  ttl = ttl_default;
  priority = priority_state;
  timestamp = now;
  body = body;
}

abbrev pub bare_packet : ℕ → Body → Packet
bare_packet now body = record {
  mtype = type_consensus;
  ttl = 0;
  priority = 0;
  timestamp = now;
  body = body;
}

-- An entry of a map from ids to indices; a missing one reads as 0.
unfoldable pub index_of : ℕ → Map.Map ℕ ℕ → ℕ
index_of id m = elim (Map.get id m) [ none ↦ 0 | some i ↦ i ]

-- The entries that sendAppendEntries ships, from the follower's next index on.
unfoldable pub entries_from : ℕ → List LogEntry → Run (List LogEntry)
unfolding slice_from
entries_from next log = if ltb next (length log + 1) then slice_from (sub32 next 1) log else ok []

-- sendAppendEntries: its message, and the call.
unfoldable pub append_message : View → ℕ → List LogEntry → Raft → AppendEntries
append_message v peer entries s =
    let next = index_of peer s.next_index in
    let prev = if ltb 1 next then next - 1 else 0 in
    record {
      term = s.current_term;
      leader_id = v.id;
      prev_log_index = prev;
      prev_log_term = if ltb 1 next && leb prev (length s.log) then term_at s.log (prev - 1) else 0;
      entries = entries;
      leader_commit = s.commit_index;
    }

unfoldable pub send_append_entries : View → ℕ → Raft → Run Raft
send_append_entries v peer s = entries_from (index_of peer s.next_index) s.log >>= λ entries.
    ok (emit (send peer (packet v.now (append_entries (append_message v peer entries s)))) s)

-- broadcastAppendEntries, over the peers that are left.
unfoldable pub broadcast_to : View → List ℕ → Raft → Run Raft
broadcast_to v [] s = ok s
broadcast_to v (p ∷ ps) s = send_append_entries v p s >>= broadcast_to v ps

abbrev pub broadcast_append_entries : View → Raft → Run Raft
broadcast_append_entries v s = broadcast_to v v.peers s

-- sendToAll with the arguments that its one caller gives; `wall` is time.Now().UnixMilli().
unfoldable pub send_to_all : ℕ → Body → List ℕ → Raft → Raft
send_to_all wall body [] s = s
send_to_all wall body (p ∷ ps) s = send_to_all wall body ps (emit (send p (packet wall body)) s)

-- applyCommitted: its loop makes as many rounds as entries are committed and not applied.
unfoldable pub apply_rounds : ℕ → Raft → Run Raft
apply_rounds zero s = ok s
apply_rounds (suc k) s =
    let s' = record s { last_applied = s.last_applied + 1 } in
    (if s.has_callback
      then (load s.log s.last_applied >>= λ e. ok (emit (apply s'.last_applied e.command) s'))
      else ok s')
    >>= apply_rounds k

unfoldable pub apply_committed : Raft → Run Raft
apply_committed s = apply_rounds (s.commit_index - s.last_applied) s

-- How many entries of matchIndex are at least n.
unfoldable pub count_matches : ℕ → Map.Map ℕ ℕ → ℕ
count_matches n [] = 0
count_matches n ((p, i) ∷ m) = (if leb n i then 1 else 0) + count_matches n m

-- The loop of maybeCommit, from n downwards.
unfoldable pub commit_from : View → ℕ → Raft → Run Raft
commit_from v zero s = ok s
commit_from v (suc k) s =
    let next = commit_from v k s in
    if leb (suc k) s.commit_index
    then ok s
    else if not (term_at s.log k == s.current_term)
    then ok s
    else if ltb ((length v.peers + 1) / 2) (1 + count_matches (suc k) s.match_index)
    then apply_committed (record s { commit_index = suc k })
    else next

-- maybeCommit.
unfoldable pub maybe_commit : View → Raft → Run Raft
maybe_commit v s = commit_from v (len32 s.log) s
