-- ===== src/Algorithm/Raft/Safety.antt =====
-- The invariant of one Raft node, and what every handler keeps of its state.
pub mod Votes
pub mod Entries
pub mod Node
use uav.Base.{
  nat_key, ℕ, zero, suc, ◌+◌, ◌-◌, ◌*◌, ◌/◌, ◌%◌, ◌<◌, ◌≤◌, ◌≡◌, ◌≢◌, refl, sym, ap, ◌∙◌, ◌==◌, ltb,
  leb, not, Bool, true, false, List, [], ◌∷◌, ◌++◌, none, some, inl, inr, Bool-cases, arith,
  if◌then◌else◌, length, get_elem?, take, drop, u32, add32, length-append, subst,
}
use uav.Base.Map
use uav.Algorithm.Raft.State.{
  Raft, View, Run, ok, panic, ◌>>=◌, LogEntry, Role, follower, candidate, leader, is_leader,
  is_candidate, RaftConfig, Effect, RequestVote, RequestVoteReply, AppendEntries, AppendReply, emit,
}
use uav.Algorithm.Raft.Log.{len32, append_new}
use uav.Algorithm.Raft.Core.{
  reset_election_timer, step_down, index_of, send_append_entries, broadcast_to, apply_committed,
  commit_from, maybe_commit,
}
use uav.Algorithm.Raft.Handlers.{
  grants, propose, start_election, become_leader, handle_request_vote, handle_request_vote_reply,
  follow, follow_commit, handle_append_entries, handle_append_reply, on_tick,
}
use uav.Algorithm.Raft.Calls.{
  timer_reset, stepped_down, HasTimeouts, reset_election_timer-ok, step_down-ok, HasIndex, Indexed,
  Indexed-put, init_indices-Indexed, send_append_entries-Sends, broadcast_to-Sends,
  send_to_all-Sends, applied, apply_committed-ok,
}

-- The invariant, for a node with these peers: the timeouts make a range, nothing is applied that is
-- not committed or committed that is not in the log, and a leader has an index for each peer.
pub record IsValid (peers : List ℕ) (s : Raft) : Type 0 where
  pub timeouts : HasTimeouts s
  pub applied : s.last_applied ≤ s.commit_index
  pub committed : s.commit_index ≤ length s.log
  pub room : length s.log + 1 < u32
  pub indexed : is_leader s.role ≡ true → Indexed peers s.next_index

-- What no handler undoes: the term and the indices do not fall, and a vote stands for its term.
pub record Evolves (s t : Raft) : Type 0 where
  pub term : s.current_term ≤ t.current_term
  pub vote : s.current_term ≡ t.current_term → s.voted_for ≢ 0 → t.voted_for ≡ s.voted_for
  pub commit_index : s.commit_index ≤ t.commit_index
  pub last_applied : s.last_applied ≤ t.last_applied

-- The handler returns, and its result satisfies `P`.
pub data Ends {ℓ} {A : Type 0} (P : A → Type ℓ) : Run A → Type ℓ where
  ended : {a : A} → P a → Ends P (ok a)

abbrev pub Keeps : List ℕ → Raft → Raft → Type 0
Keeps peers s t = IsValid peers t × Evolves s t

pub Ends-by {ℓ} : {A : Type 0} {P : A → Type ℓ} {r : Run A} (a : A) → r ≡ ok a → P a → Ends P r
Ends-by {P} a e p = subst (Ends P) (sym e) (ended p)

pub Evolves-trans : {s t u : Raft} → Evolves s t → Evolves t u → Evolves s u
Evolves-trans e f = ground arith

-- A branch is only entered on its condition, so each has to hold up under that condition alone.
pub Ends-if :
    {A : Type 0} {P : A → Type 0} {yes otherwise : Run A} (c : Bool)
    → (c ≡ true → Ends P yes)
    → (c ≡ false → Ends P otherwise)
    → Ends P (if c then yes else otherwise)
Ends-if c entered skipped = elim (Bool-cases c) [
  | inl e ↦ rw e (entered e)
  | inr e ↦ rw e (skipped e)
]

pub Ends-bind :
    {A B : Type 0} {P : A → Type 0} {Q : B → Type 0} {first : Run A} {next : A → Run B}
    → Ends P first
    → ((a : A) → P a → Ends Q (next a))
    → Ends Q (first >>= next)
Ends-bind (ended {a} held) rest = rest a held

pub Ends-ok {ℓ} : {A : Type 0} {P : A → Type ℓ} {a : A} → P a → Ends P (ok a)
Ends-ok p = ended p

-- A state that differs in the trace alone is as valid.
pub IsValid-trace :
    {peers : List ℕ} (s : Raft) (es : List Effect)
    → IsValid peers s
    → IsValid peers (record s { trace = es })
IsValid-trace s es v = record {
  timeouts = v.timeouts;
  applied = v.applied;
  committed = v.committed;
  room = v.room;
  indexed = v.indexed;
}

pub Keeps-refl : {peers : List ℕ} (s : Raft) → IsValid peers s → Keeps peers s s
Keeps-refl s v = (v, ground arith)

pub Keeps-trans :
    {peers : List ℕ} {s t : Raft} {r : Run Raft}
    → Evolves s t
    → Ends (Keeps peers t) r
    → Ends (Keeps peers s) r
Keeps-trans e (ended (v, f)) = ended (v, Evolves-trans e f)

pub Keeps-emit :
    {peers : List ℕ} {s t : Raft} (e : Effect) → Keeps peers s t → Keeps peers s (emit e t)
Keeps-emit {t} e (v, f) = (IsValid-trace t _ v, ground arith)
