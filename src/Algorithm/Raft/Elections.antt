-- ===== src/Algorithm/Raft/Elections.antt =====
-- algorithm/raft/raft.go, handleRequestVote: who gets a vote.
use native.Mathlib.Nat.{mod-eq_of_lt}
use uav.Algorithm.Raft.Cluster.After.{After, returned, After-bind, After-any, After-at}
use uav.Base.{
  nat_key, ℕ, ◌<◌, ◌≤◌, ◌≡◌, ◌⊎◌, ltb, ◌==◌, ◌&&◌, Bool, true, false, List, [], ◌∷◌, ◌++◌, refl, ap,
  ◌∙◌, inl, inr, Bool-cases, if◌then◌else◌, length-append, ◌-◌, arith, length, u32,
}
use uav.Algorithm.Raft.State.{
  Raft, View, ok, panic, RequestVote, LogEntry, Effect, send, set_timer, cancel_timer, apply, Body,
  request_vote, request_vote_reply, append_entries, append_reply,
}
use uav.Algorithm.Raft.Core.{reset_election_timer, packet}
use uav.Algorithm.Raft.Log.{last_log_info, term_at}
use uav.Algorithm.Raft.Handlers.{log_ok, grants, handle_request_vote}
use uav.Algorithm.Raft.Calls.{step_down-ok}
use uav.Algorithm.Raft.Handlers.{step_down_if}
use uav.Algorithm.Raft.Safety.{IsValid}

-- handleRequestVote grants the vote: its test, on the state that a newer term leaves.
unfoldable pub votes_for : Raft → RequestVote → Bool
votes_for s rv = elim (step_down_if (ltb s.current_term rv.term) rv.term s) [
  | ok t ↦ grants rv t
  | panic ↦ false
]

abbrev is_granted : Body → Bool
is_granted (request_vote rv) = false
is_granted (request_vote_reply rvr) = rvr.vote_granted
is_granted (append_entries ae) = false
is_granted (append_reply ar) = false

-- A call that sends a granted vote to this node.
abbrev pub is_grant : ℕ → Effect → Bool
is_grant to (send peer p) = peer == to && is_granted p.body
is_grant to (set_timer name d) = false
is_grant to (cancel_timer name) = false
is_grant to (apply idx cmd) = false

-- The last of the calls is one.
abbrev pub ends_with_grant : ℕ → List Effect → Bool
ends_with_grant to [] = false
ends_with_grant to (e ∷ []) = is_grant to e
ends_with_grant to (e ∷ f ∷ es) = ends_with_grant to (f ∷ es)

ends_with_grant-append :
    (to : ℕ) (es : List Effect) (e : Effect) → ends_with_grant to (es ++ e ∷ []) ≡ is_grant to e
ends_with_grant-append to [] e = refl
ends_with_grant-append to (f ∷ []) e = refl
ends_with_grant-append to (f ∷ g ∷ es) e = ends_with_grant-append to (g ∷ es) e

-- What handleRequestVote grants has passed its test.
granted-votes_for :
    (v : View) (from : ℕ) (rv : RequestVote) (s : Raft)
    → After
        (λ t. ends_with_grant from t.trace ≡ true → votes_for s rv ≡ true)
        (handle_request_vote v from rv s)
unfolding handle_request_vote votes_for
granted-votes_for v from rv s =
    After-bind (After-any (step_down_if (ltb s.current_term rv.term) rv.term s)) λ s' e.
      elim (Bool-cases (grants rv s')) [
        | inl granted ↦
            After-bind
              (After-any (
                if grants rv s'
                then reset_election_timer (record s' { voted_for = rv.candidate_id })
                else ok s'))
              λ s'' _. returned (λ _. rw (votes_for, e) granted)
        | inr refused ↦
            After-bind
              (After-any (
                if grants rv s'
                then reset_election_timer (record s' { voted_for = rv.candidate_id })
                else ok s'))
              λ s'' _. returned (λ last. absurd (
                ground (
                  arith,
                  last,
                  refused,
                  ends_with_grant-append from s''.trace (
                      send from (
                        packet v.now (
                          request_vote_reply
                            (record { term = s'.current_term; vote_granted = grants rv s' })))),
                )))
      ]

term_at-last :
    (front : List LogEntry) (e : LogEntry) → term_at (front ++ e ∷ []) (length front) ≡ e.term
unfolding term_at
term_at-last [] e = refl
term_at-last (x ∷ front) e = term_at-last front e

last_log_info-last :
    (front : List LogEntry) (e : LogEntry)
    → length (front ++ e ∷ []) < u32
    → last_log_info (front ++ e ∷ []) ≡ (length (front ++ e ∷ []), e.term)
unfolding last_log_info
last_log_info-last front e small =
    let longer = length-append front (e ∷ []) in
    let full : (length (front ++ e ∷ []) == 0) ≡ false = ground (arith, longer) in
    let there : length (front ++ e ∷ []) - 1 ≡ length front = omega (arith, longer) in
    rw (full, mod-eq_of_lt small, there, term_at-last front e) refl

-- A node whose log ends with an entry sends a granted vote, in answer to a request, only to a candidate
-- whose log is at least as up to date: its last term is above that of the entry, or equal to it with a
-- log at least as long.
pub votes_for-log :
    (v : View) (s t : Raft) (from : ℕ) (rv : RequestVote) (front : List LogEntry) (e : LogEntry)
    → IsValid v.peers s
    → s.log ≡ front ++ e ∷ []
    → handle_request_vote v from rv s ≡ ok t
    → ends_with_grant from t.trace ≡ true
    → (e.term < rv.last_log_term)
      ⊎ ((rv.last_log_term ≡ e.term) × (length (front ++ e ∷ []) ≤ rv.last_log_index))
unfolding votes_for grants log_ok
votes_for-log v s t from rv front e valid ends handled granted =
    let g = After-at (granted-votes_for v from rv s) handled granted in
    let small : length (front ++ e ∷ []) < u32 = omega (arith, valid.room, ap length ends) in
    let info : last_log_info s.log ≡ (length (front ++ e ∷ []), e.term) =
      ap last_log_info ends ∙ last_log_info-last front e small in
    ground (arith, g, step_down-ok rv.term s valid.timeouts, ap (λ i. i.0) info, ap (λ i. i.1) info)
