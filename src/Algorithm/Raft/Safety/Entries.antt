-- ===== src/Algorithm/Raft/Safety/Entries.antt =====
-- Replication and commitment keep a node valid.
use uav.Base.{
  nat_key, ℕ, zero, suc, ◌+◌, ◌-◌, ◌/◌, ◌<◌, ◌≤◌, ◌≡◌, ◌⊎◌, refl, ◌==◌, ltb, leb, not, Bool, true,
  false, List, [], ◌∷◌, ◌++◌, inl, inr, arith, if◌then◌else◌, length, take, drop, u32, add32,
}
use native.Mathlib.Nat.{mod-eq_of_lt}
use uav.Base.Map
use uav.Algorithm.Raft.Replication.{
  Matches, conflicts, committed-le-append_new, length-append_new-le,
}
use uav.Algorithm.Raft.State.{Raft, View, LogEntry, follower, is_leader, AppendEntries, AppendReply}
use uav.Algorithm.Raft.Log.{len32, append_new, is_consistent, term_at}
use uav.Algorithm.Raft.Core.{index_of, apply_committed, count_matches, commit_from, maybe_commit}
use uav.Algorithm.Raft.Handlers.{
  follow, follow_commit, handle_append_entries, matched, backed, handle_append_reply,
}
use uav.Algorithm.Raft.Calls.{
  timer_reset, stepped_down, reset_election_timer-ok, step_down-ok, HasIndex, Indexed, Indexed-put,
  index_of-put, send_append_entries-Sends, applied, apply_committed-ok,
}
use uav.Algorithm.Raft.Safety.{
  IsValid, Keeps, Ends, Ends-bind, Ends-by, Ends-if, Ends-ok, IsValid-trace, Keeps-refl,
  Keeps-trans, Keeps-emit, Evolves-trans,
}

-- An AppendEntries that a correct leader may send to this node: its indices fit a word, log matching
-- holds, and no entry conflicts with a committed one.
pub record Compatible (ae : AppendEntries) (log : List LogEntry) (commit : ℕ) : Type 0 where
  pub fits : ae.prev_log_index + length ae.entries + 1 < u32
  pub matching : Matches (drop ae.prev_log_index log) ae.entries
  pub safe :
      conflicts (take (commit - ae.prev_log_index) (drop ae.prev_log_index log)) ae.entries ≡ false

pub is_consistent-le :
    (log : List LogEntry) (prev term : ℕ)
    → length log < u32
    → is_consistent log prev term ≡ true
    → prev ≤ length log
unfolding is_consistent
is_consistent-le log prev term h e = ground (arith, mod-eq_of_lt h)

-- What a follower's preparation for an AppendEntries leaves alone.
abbrev Prepared : List ℕ → Raft → Raft → Type 0
Prepared peers s t = Keeps peers s t × (t.log ≡ s.log) × (t.commit_index ≡ s.commit_index)

module _ (v : View) (s : Raft) (valid : IsValid v.peers s) where
  follow-Prepared :
      (ae : AppendEntries) → s.current_term ≤ ae.term → Ends (Prepared v.peers s) (follow ae s)
  unfolding follow
  follow-Prepared ae h =
      Ends-bind {P = Prepared v.peers s}
        (Ends-if (ltb s.current_term ae.term)
          (λ newer.
            Ends-by (stepped_down ae.term s) (step_down-ok ae.term s valid.timeouts)
              ((ground arith, ground arith), refl, refl))
          (λ same.
            Ends-by (timer_reset (record s { role = follower }))
              (reset_election_timer-ok (record s { role = follower }) valid.timeouts)
              ((ground arith, ground arith), refl, refl)))
        λ t p. Ends-ok (
          (
            record {
              timeouts = p.0.0.timeouts;
              applied = p.0.0.applied;
              committed = p.0.0.committed;
              room = p.0.0.room;
              indexed = p.0.0.indexed;
            },
            ground arith,
          ),
          p.1,
          p.2,
        )

  apply_at-Keeps :
      (i : ℕ)
      → s.commit_index ≤ i
      → i ≤ length s.log
      → Ends (Keeps v.peers s) (apply_committed (record s { commit_index = i }))
  apply_at-Keeps i h k =
      let t : Raft = record s { commit_index = i } in
      Ends-by (applied (i - s.last_applied) t)
        (apply_committed-ok t (omega (arith, valid.applied)) k)
        (
          record {
            timeouts = valid.timeouts;
            applied = omega (arith, valid.applied);
            committed = k;
            room = valid.room;
            indexed = valid.indexed;
          },
          record {
            term = omega arith;
            vote = λ _ _. refl;
            commit_index = h;
            last_applied = omega arith;
          },
        )

  follow_commit-Keeps : (leader_commit : ℕ) → Ends (Keeps v.peers s) (follow_commit leader_commit s)
  unfolding follow_commit
  follow_commit-Keeps leader_commit =
      Ends-if (ltb s.commit_index leader_commit)
        (λ more. apply_at-Keeps _ (ground (arith, small, valid.committed)) (ground (arith, small)))
        (λ _. Ends-ok (Keeps-refl s valid))
    where
      small : len32 s.log ≡ length s.log
      small = omega (arith, valid.room)

  -- The log after the loop over the new entries.
  append-Keeps :
      (ae : AppendEntries)
      → Compatible ae s.log s.commit_index
      → is_consistent s.log ae.prev_log_index ae.prev_log_term ≡ true
      → Keeps v.peers s (record s { log = append_new s.log ae.prev_log_index ae.entries })
  append-Keeps ae c e =
      let small : length s.log < u32 = omega (arith, valid.room) in
      let new = ae.entries in
      let inside = is_consistent-le s.log ae.prev_log_index ae.prev_log_term small e in
      let fits : ae.prev_log_index + length new < u32 = omega (arith, c.fits) in
      (
        record {
          timeouts = valid.timeouts;
          applied = valid.applied;
          committed =
              committed-le-append_new s.log new ae.prev_log_index inside small fits c.matching
                s.commit_index valid.committed c.safe;
          room = omega (
            arith,
            valid.room,
            c.fits,
            length-append_new-le s.log new ae.prev_log_index inside small fits c.matching,
          );
          indexed = valid.indexed;
        },
        record {
          term = omega arith;
          vote = λ _ _. refl;
          commit_index = omega arith;
          last_applied = omega arith;
        },
      )

module _ (v : View) (s : Raft) (valid : IsValid v.peers s) where
  pub handle_append_entries-Keeps :
      (from : ℕ) (ae : AppendEntries)
      → Compatible ae s.log s.commit_index
      → Ends (Keeps v.peers s) (handle_append_entries v from ae s)
  unfolding handle_append_entries
  handle_append_entries-Keeps from ae c =
      Ends-if (ltb ae.term s.current_term) (λ stale. Ends-ok (Keeps-emit _ (Keeps-refl s valid)))
        λ fresh. Ends-bind (follow-Prepared v s valid ae (ground arith)) λ t (k, l, i).
          Ends-if (is_consistent t.log ae.prev_log_index ae.prev_log_term)
            (λ e.
              let a = append-Keeps v t k.0 ae (rw (l, i) c) e in
              Ends-bind
                (Keeps-trans (Evolves-trans k.1 a.1) (follow_commit-Keeps v _ a.0 ae.leader_commit))
                λ u m. Ends-ok (Keeps-emit _ m))
            (λ _. Ends-ok (Keeps-emit _ k))

-- One of the peers.
abbrev pub Among : ℕ → List ℕ → Type 0
Among p [] = ⊥
Among p (q ∷ ps) = (p ≡ q) ⊎ Among p ps

Among-HasIndex : (p : ℕ) (ps : List ℕ) (m : Map.Map ℕ ℕ) → Among p ps → Indexed ps m → HasIndex p m
Among-HasIndex p [] m a x = absurd a
Among-HasIndex p (q ∷ ps) m (inl e) x = rw e x.0
Among-HasIndex p (q ∷ ps) m (inr a) x = Among-HasIndex p ps m a x.1

module _ (v : View) (s : Raft) (valid : IsValid v.peers s) where
  commit_from-Keeps : (n : ℕ) → n ≤ length s.log → Ends (Keeps v.peers s) (commit_from v n s)
  unfolding commit_from
  commit_from-Keeps zero h = Ends-ok (Keeps-refl s valid)
  commit_from-Keeps (suc k) h =
      let below = commit_from-Keeps k (omega arith) in
      Ends-if (leb (suc k) s.commit_index) (λ _. Ends-ok (Keeps-refl s valid))
        λ above.
          Ends-if (not (term_at s.log k == s.current_term)) (λ _. Ends-ok (Keeps-refl s valid))
            λ _.
              Ends-if (ltb ((length v.peers + 1) / 2) (1 + count_matches (suc k) s.match_index))
                (λ _. apply_at-Keeps v s valid (suc k) (ground arith) h) (λ _. below)

if-elim {ℓ κ} :
    {A : Type ℓ} (P : A → Type κ) (b : Bool) {x y : A}
    → (b ≡ true → P x)
    → (b ≡ false → P y)
    → P (if b then x else y)
if-elim P true p q = p refl
if-elim P false p q = q refl

module _ (v : View) (s : Raft) (valid : IsValid v.peers s) where
  matched-Keeps :
      (from : ℕ) (ar : AppendReply) → ar.match_index + 1 < u32 → Keeps v.peers s (matched from ar s)
  matched-Keeps from ar h = (
    record {
      timeouts = valid.timeouts;
      applied = valid.applied;
      committed = valid.committed;
      room = valid.room;
      indexed = λ lead.
          Indexed-put v.peers from (add32 ar.match_index 1) s.next_index (omega arith) (omega arith)
            (valid.indexed lead);
    },
    ground arith,
  )

  backed-Keeps :
      (from : ℕ)
      → HasIndex from s.next_index
      → Keeps v.peers s (backed from s) × HasIndex from (backed from s).next_index
  unfolding backed
  backed-Keeps from x =
      let next = index_of from s.next_index in
      if-elim (λ t. Keeps v.peers s t × HasIndex from t.next_index) (ltb 1 next)
        (λ above. (
          (
            record {
              timeouts = valid.timeouts;
              applied = valid.applied;
              committed = valid.committed;
              room = valid.room;
              indexed = λ lead.
                  Indexed-put v.peers from (next - 1) s.next_index (ground arith)
                    (omega (arith, x.1)) (valid.indexed lead);
            },
            ground arith,
          ),
          ground (arith, index_of-put from from (next - 1) s.next_index),
        ))
        (λ _. (Keeps-refl s valid, x))

module _ (v : View) (s : Raft) (valid : IsValid v.peers s) where
  pub handle_append_reply-Keeps :
      (from : ℕ) (ar : AppendReply)
      → Among from v.peers
      → ar.match_index + 1 < u32
      → Ends (Keeps v.peers s) (handle_append_reply v from ar s)
  unfolding handle_append_reply maybe_commit
  handle_append_reply-Keeps from ar a h =
      let (mv, me) = matched-Keeps v s valid from ar h in
      Ends-if (ltb s.current_term ar.term)
        (λ newer.
          Ends-by (stepped_down ar.term s) (step_down-ok ar.term s valid.timeouts)
            (ground arith, ground arith))
        λ _.
          Ends-if (not (is_leader s.role)) (λ _. Ends-ok (Keeps-refl s valid))
            λ lead.
              Ends-if ar.success
                (λ _. Keeps-trans me (
                  commit_from-Keeps v (matched from ar s) mv (len32 s.log)
                    (omega (arith, valid.room))))
                (λ _.
                  let known =
                    Among-HasIndex from v.peers s.next_index a (valid.indexed (ground arith)) in
                  let ((bv, be), x) = backed-Keeps v s valid from known in
                  let (es, e) = send_append_entries-Sends v from (backed from s) x in
                  Ends-by (record (backed from s) { trace = (backed from s).trace ++ es }) e
                    (IsValid-trace (backed from s) _ bv, ground arith))
