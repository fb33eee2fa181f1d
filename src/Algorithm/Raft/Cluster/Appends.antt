-- ===== src/Algorithm/Raft/Cluster/Appends.antt =====
-- The handlers of log entries leave the votes alone.
use uav.Base.{
  nat_key, ℕ, zero, suc, ◌+◌, ◌-◌, ◌/◌, ◌≤◌, refl, ◌==◌, ltb, leb, not, Bool, true, false, List, [],
  ◌∷◌, ◌++◌, inl, inr, Bool-cases, arith, if◌then◌else◌, length,
}
use uav.Algorithm.Raft.State.{Raft, View, follower, is_leader, AppendEntries, AppendReply}
use uav.Algorithm.Raft.Log.{len32, append_new, is_consistent, term_at, load}
use uav.Algorithm.Raft.Core.{
  index_of, apply_rounds, apply_committed, count_matches, commit_from, maybe_commit,
}
use uav.Algorithm.Raft.Handlers.{
  follow, follow_commit, handle_append_entries, reply_to, matched, backed, handle_append_reply,
  propose,
}
use uav.Algorithm.Raft.Cluster.After.{After, returned, After-if, After-bind, After-any}
use uav.Algorithm.Raft.Cluster.Turns.{
  ballots, ballots-mute, Quietly, Quiet, Quietly-same, Quietly-refl, Quietly-trans, Quiet-then,
  reset_election_timer-Quiet, step_down-Quiet, send_append_entries-Quiet, broadcast_to-Quiet,
}

apply_rounds-Quiet : (k : ℕ) (s : Raft) → Quiet s (apply_rounds k s)
unfolding apply_rounds ballots
apply_rounds-Quiet zero s = returned (Quietly-refl s)
apply_rounds-Quiet (suc k) s =
    let s' : Raft = record s { last_applied = s.last_applied + 1 } in
    let same : Quietly s s' = Quietly-same s s' refl refl refl refl refl in
    After-bind {P = Quietly s}
      (After-if s.has_callback
        (λ _.
          After-bind (After-any (load s.log s.last_applied))
            λ e _. returned (Quietly-same s _ refl refl refl refl (ballots-mute s.trace _ refl)))
        (λ _. returned same))
      λ t q. Quiet-then q (apply_rounds-Quiet k t)

apply_committed-Quiet : (s : Raft) → Quiet s (apply_committed s)
unfolding apply_committed
apply_committed-Quiet s = apply_rounds-Quiet (s.commit_index - s.last_applied) s

commit_from-Quiet : (v : View) (k : ℕ) (s : Raft) → Quiet s (commit_from v k s)
unfolding commit_from
commit_from-Quiet v zero s = returned (Quietly-refl s)
commit_from-Quiet v (suc k) s =
    After-if (leb (suc k) s.commit_index) (λ _. returned (Quietly-refl s))
      λ _.
        After-if (not (term_at s.log k == s.current_term)) (λ _. returned (Quietly-refl s))
          λ _.
            After-if (ltb ((length v.peers + 1) / 2) (1 + count_matches (suc k) s.match_index))
              (λ _.
                Quiet-then
                  (Quietly-same s (record s { commit_index = suc k }) refl refl refl refl refl)
                  (apply_committed-Quiet (record s { commit_index = suc k })))
              (λ _. commit_from-Quiet v k s)

follow-Quiet : (ae : AppendEntries) (s : Raft) → s.current_term ≤ ae.term → Quiet s (follow ae s)
unfolding follow
follow-Quiet ae s current =
    After-bind {P = Quietly s}
      (After-if (ltb s.current_term ae.term) (λ newer. step_down-Quiet ae.term s (ground arith))
        (λ same.
          let q : Quietly s (record s { role = follower }) = record {
            term = omega arith;
            vote = λ e. refl;
            renewed = λ h. absurd (omega arith);
            standing = λ h. cc;
            silent = refl;
          } in
          Quiet-then q (reset_election_timer-Quiet (record s { role = follower }))))
      λ t q. returned (Quietly-trans q (Quietly-same t _ refl refl refl refl refl))

follow_commit-Quiet : (leader_commit : ℕ) (s : Raft) → Quiet s (follow_commit leader_commit s)
unfolding follow_commit
follow_commit-Quiet leader_commit s =
    After-if (ltb s.commit_index leader_commit)
      (λ _.
        Quiet-then
          (Quietly-same s
            (record s {
              commit_index = if ltb leader_commit (len32 s.log) then leader_commit else len32 s.log;
            })
            refl refl refl refl refl)
          (apply_committed-Quiet _))
      (λ _. returned (Quietly-refl s))

reply_to-Quietly :
    (v : View) (from term : ℕ) (success : Bool) (i : ℕ) (s : Raft)
    → Quietly s (reply_to v from term success i s)
unfolding ballots
reply_to-Quietly v from term success i s =
    Quietly-same s _ refl refl refl refl (ballots-mute s.trace _ refl)

pub handle_append_entries-Quiet :
    (v : View) (from : ℕ) (ae : AppendEntries) (s : Raft)
    → Quiet s (handle_append_entries v from ae s)
unfolding handle_append_entries
handle_append_entries-Quiet v from ae s =
    After-if (ltb ae.term s.current_term)
      (λ _. returned (reply_to-Quietly v from s.current_term false 0 s))
      λ current. After-bind (follow-Quiet ae s (ground arith)) λ s' q.
        After-if (is_consistent s'.log ae.prev_log_index ae.prev_log_term)
          (λ _.
            let appended : Raft = record s' {
              log = append_new s'.log ae.prev_log_index ae.entries;
            } in
            let q' : Quietly s appended =
              Quietly-trans q (Quietly-same s' appended refl refl refl refl refl) in
            After-bind (Quiet-then q' (follow_commit-Quiet ae.leader_commit appended)) λ t q''.
              returned
                (Quietly-trans q'' (reply_to-Quietly v from s.current_term true (len32 t.log) t)))
          (λ _. returned (Quietly-trans q (reply_to-Quietly v from s.current_term false 0 s')))

backed-Quietly : (from : ℕ) (s : Raft) → Quietly s (backed from s)
unfolding backed
backed-Quietly from s = elim (Bool-cases (ltb 1 (index_of from s.next_index))) [
  | inl e ↦ rw e (Quietly-same s _ refl refl refl refl refl)
  | inr e ↦ rw e (Quietly-refl s)
]

pub handle_append_reply-Quiet :
    (v : View) (from : ℕ) (ar : AppendReply) (s : Raft) → Quiet s (handle_append_reply v from ar s)
unfolding handle_append_reply maybe_commit
handle_append_reply-Quiet v from ar s =
    After-if (ltb s.current_term ar.term) (λ newer. step_down-Quiet ar.term s (ground arith))
      λ _.
        After-if (not (is_leader s.role)) (λ _. returned (Quietly-refl s))
          λ _.
            After-if ar.success
              (λ _.
                Quiet-then (Quietly-same s (matched from ar s) refl refl refl refl refl)
                  (commit_from-Quiet v (len32 s.log) (matched from ar s)))
              (λ _.
                Quiet-then (backed-Quietly from s)
                  (send_append_entries-Quiet v from (backed from s)))

pub propose-Quiet :
    (v : View) (cmd : List ℕ) (s : Raft) → After (λ r. Quietly s r.1) (propose v cmd s)
unfolding propose
propose-Quiet v cmd s =
    let grown : Raft = record s {
      log = s.log ++ record { term = s.current_term; command = cmd } ∷ [];
    } in
    After-if (is_leader s.role)
      (λ _.
        After-bind
          (Quiet-then (Quietly-same s grown refl refl refl refl refl)
            (broadcast_to-Quiet v v.peers grown))
          λ t q. returned q)
      (λ _. returned (Quietly-refl s))
