-- ===== src/Algorithm/Raft/Tests.antt =====
-- Runs of Raft nodes, and the theorems at concrete inputs.
use uav.Base.{
  ℕ, ◌<◌, ◌≤◌, ◌≡◌, refl, true, List, [], ◌∷◌, ◌++◌, none, some, arith, inl, ◌⊎◌, take, drop, subst,
  string_key, nat_key,
}
use mathlib.Core.Option.{some-injective}
use uav.Base.Map
use uav.Algorithm.Raft.Safety.Entries.{Compatible}
use uav.Message.{Message, zero_message, type_consensus}
use uav.Algorithm.Raft.State.{
  Raft, View, Run, ok, panic, LogEntry, follower, candidate, leader, default_config, RequestVote,
  RequestVoteReply, AppendEntries,
}
use uav.Algorithm.Raft.Log.{append_new, place, last_log_info}
use uav.Algorithm.Raft.Core.{maybe_commit, index_of, step_down, reset_election_timer}
use uav.Algorithm.Raft.Handlers.{
  Json, propose, grants, log_ok, handle_request_vote, handle_request_vote_reply, on_message,
}
use uav.Algorithm.Raft.Replication.{merged, conflicts, append_new-merged}
use uav.Algorithm.Raft.Safety.{IsValid, Keeps, Ends}
use uav.Algorithm.Raft.Safety.Node.{on_message-Keeps, command, step, here, next, Reach-Keeps}
use uav.Algorithm.Raft.Elections.{votes_for-log}
use uav.Algorithm.Raft.Commitment.{Commits, maybe_commit-Commits}
use uav.Algorithm.Raft.Faults.{elected_by_half, propose_panics}

abbrev three : View
three = record { id = 1; peers = 2 ∷ 3 ∷ []; now = 1000 }

abbrev four : View
four = record { id = 1; peers = 2 ∷ 3 ∷ 4 ∷ []; now = 1000 }

abbrev entry : ℕ → ℕ → LogEntry
entry term byte = record { term = term; command = byte ∷ [] }

abbrev fresh : Raft
fresh = record {
  cfg = default_config;
  current_term = 1;
  voted_for = 0;
  log = entry 1 10 ∷ entry 1 11 ∷ [];
  role = follower;
  commit_index = 0;
  last_applied = 0;
  leader_id = 0;
  next_index = [];
  match_index = [];
  votes_received = 0;
  draws = λ i. 7;
  has_callback = true;
  trace = [];
}

fresh-IsValid : (peers : List ℕ) → IsValid peers fresh
fresh-IsValid peers = record {
  timeouts = omega arith;
  applied = omega arith;
  committed = omega arith;
  room = omega arith;
  indexed = λ e. cc;
}

abbrev standing : Raft
standing = record fresh { role = candidate; voted_for = 1; votes_received = 1 }

standing-IsValid : (peers : List ℕ) → IsValid peers standing
standing-IsValid peers = record {
  timeouts = omega arith;
  applied = omega arith;
  committed = omega arith;
  room = omega arith;
  indexed = λ e. cc;
}

abbrev ballot : RequestVote
ballot = record { term = 2; candidate_id = 3; last_log_index = 2; last_log_term = 1 }

abbrev granted : RequestVoteReply
granted = record { term = 1; vote_granted = true }

abbrev heartbeat : AppendEntries
heartbeat = record {
  term = 1;
  leader_id = 2;
  prev_log_index = 0;
  prev_log_term = 0;
  entries = [];
  leader_commit = 0;
}

-- A decoder that reads nothing.
abbrev blind : Json
blind = record {
  kind = λ p. none;
  as_request_vote = λ p. none;
  as_request_vote_reply = λ p. none;
  as_append_entries = λ p. none;
  as_append_reply = λ p. none;
}

-- A decoder that reads every payload as a heartbeat.
abbrev beating : Json
beating = record blind { kind = λ p. some 3; as_append_entries = λ p. some heartbeat }

abbrev envelope : Message
envelope = record zero_message { mtype = type_consensus; from = 2; payload = 1 ∷ [] }

heartbeat-Compatible : Compatible heartbeat fresh.log 0
unfolding conflicts
heartbeat-Compatible = record { fits = omega arith; matching = tt; safe = refl }

on_message-Keeps_example : Ends (Keeps (2 ∷ 3 ∷ []) fresh) (on_message beating three envelope fresh)
on_message-Keeps_example =
    on_message-Keeps beating three envelope fresh (fresh-IsValid (2 ∷ 3 ∷ [])) (record {
      entries = λ ae e.
          subst (λ a. Compatible a fresh.log 0) (some-injective heartbeat ae e)
            heartbeat-Compatible;
      reply = λ ar e. cc;
    })

refused : step blind three (command (5 ∷ [])) fresh ≡ ok fresh
unfolding step propose
refused = refl

Reach-Keeps_example : Keeps (2 ∷ 3 ∷ []) fresh fresh
Reach-Keeps_example =
    Reach-Keeps blind three (fresh-IsValid (2 ∷ 3 ∷ []))
      (next (command (5 ∷ [])) here (omega arith) refused)

append_new-merged_example :
    append_new fresh.log 1 (entry 2 12 ∷ [])
    ≡ take 1 fresh.log ++ merged (drop 1 fresh.log) (entry 2 12 ∷ [])
append_new-merged_example =
    append_new-merged fresh.log (entry 2 12 ∷ []) 1 (omega arith) (omega arith) (omega arith)
      ((λ e. cc), tt)

append_new_run :
    append_new fresh.log 0 (entry 1 10 ∷ entry 2 12 ∷ []) ≡ entry 1 10 ∷ entry 2 12 ∷ []
unfolding append_new place
append_new_run = refl

elected_by_half_example :
    Ends
      (λ t. (t.role ≡ leader) × (t.current_term ≡ 1))
      (handle_request_vote_reply four granted standing)
elected_by_half_example =
    elected_by_half four standing granted (standing-IsValid (2 ∷ 3 ∷ 4 ∷ [])) refl refl refl refl

propose_panics_example : propose three (5 ∷ []) (record fresh { role = leader }) ≡ panic
unfolding index_of Map.get
propose_panics_example =
    propose_panics three (5 ∷ []) (record fresh { role = leader }) 2 refl (inl refl) refl
      (omega arith)

maybe_commit-Commits_example : Commits three fresh 2 (maybe_commit three fresh)
maybe_commit-Commits_example = maybe_commit-Commits three fresh (omega arith)

abbrev result : Run Raft → Raft
result (ok s) = s
result panic = fresh

abbrev after_vote : Raft
after_vote = result (handle_request_vote three 3 ballot fresh)

votes_for-log_example : (1 < ballot.last_log_term) ⊎ ((◌≡◌ {A = ℕ} 1 1) × (◌≤◌ 2 2))
unfolding handle_request_vote grants log_ok last_log_info step_down reset_election_timer
votes_for-log_example =
    votes_for-log three fresh after_vote 3 ballot (entry 1 10 ∷ []) (entry 1 11)
      (fresh-IsValid (2 ∷ 3 ∷ [])) refl refl refl

abbrev second_ballot : RequestVote
second_ballot = record ballot { last_log_index = 4 }
