-- ===== src/Algorithm/Raft/Safety/Node.antt =====
-- Every message and every tick keeps a node valid.
use uav.Base.{
  nat_key, ℕ, ◌+◌, ◌<◌, ◌≡◌, refl, ◌==◌, ◌&&◌, ◌||◌, Option, String, not, Bool, List, ◌++◌, none,
  some, inl, inr, Bool-cases, arith, length, u32, subst,
}
use uav.Algorithm.Raft.State.{
  Raft, View, Run, ok, ◌>>=◌, is_leader, RaftConfig, AppendEntries, AppendReply,
}
use uav.Algorithm.Raft.Handlers.{
  propose, handle_request_vote, handle_request_vote_reply, handle_append_entries,
  handle_append_reply, on_tick,
}
use uav.Algorithm.Raft.Calls.{broadcast_to-Sends}
use text.Mathlib.Text.{◌==◌ as str_eq}
use uav.Message.{Message, type_consensus}
use uav.Algorithm.Raft.State.{
  new, timer_election, timer_heartbeat, kind_request_vote, kind_request_vote_reply,
  kind_append_entries, kind_append_reply,
}
use uav.Algorithm.Raft.Handlers.{Json, parsed, dispatch, on_message}
use uav.Algorithm.Raft.Safety.Votes.{
  handle_request_vote-Keeps, handle_request_vote_reply-Keeps, start_election-Keeps, propose-Keeps,
}
use uav.Algorithm.Raft.Safety.Entries.{
  Compatible, Among, handle_append_entries-Keeps, handle_append_reply-Keeps,
}
use uav.Algorithm.Raft.Safety.{
  IsValid, Keeps, Ends, ended, Ends-bind, Ends-by, Ends-if, Ends-ok, IsValid-trace, Keeps-refl,
  Evolves-trans,
}

-- What a message must satisfy where the algorithm trusts its sender: an AppendEntries is compatible
-- with the log, and an AppendReply comes from a peer, with an index whose successor fits a word.
pub record Acceptable (json : Json) (v : View) (m : Message) (s : Raft) : Type 0 where
  pub entries :
      (ae : AppendEntries)
      → json.as_append_entries m.payload ≡ some ae
      → Compatible ae s.log s.commit_index
  pub reply :
      (ar : AppendReply)
      → json.as_append_reply m.payload ≡ some ar
      → Among m.from v.peers × (ar.match_index + 1 < u32)

parsed-Keeps :
    {peers : List ℕ} {A : Type 0} (o : Option A) (handle : A → Raft → Run Raft) (s : Raft)
    → IsValid peers s
    → ((a : A) → o ≡ some a → Ends (Keeps peers s) (handle a s))
    → Ends (Keeps peers s) (parsed o handle s)
parsed-Keeps none handle s valid h = Ends-ok (Keeps-refl s valid)
parsed-Keeps (some a) handle s valid h = h a refl

module _ (json : Json) (v : View) (m : Message) (s : Raft) (valid : IsValid v.peers s)
    (acceptable : Acceptable json v m s) where
  dispatch-Keeps : (kind : ℕ) → Ends (Keeps v.peers s) (dispatch json v m kind s)
  unfolding dispatch
  dispatch-Keeps kind =
      Ends-if (kind == kind_request_vote)
        (λ _.
          parsed-Keeps (json.as_request_vote m.payload) (handle_request_vote v m.from) s valid
            λ rv _. handle_request_vote-Keeps v s valid m.from rv)
        λ _.
          Ends-if (kind == kind_request_vote_reply)
            (λ _.
              parsed-Keeps (json.as_request_vote_reply m.payload) (handle_request_vote_reply v) s
                valid λ rvr _. handle_request_vote_reply-Keeps v s valid rvr)
            λ _.
              Ends-if (kind == kind_append_entries)
                (λ _.
                  parsed-Keeps (json.as_append_entries m.payload) (handle_append_entries v m.from) s
                    valid
                    λ ae e.
                      handle_append_entries-Keeps v s valid m.from ae (acceptable.entries ae e))
                λ _.
                  Ends-if (kind == kind_append_reply)
                    (λ _.
                      parsed-Keeps (json.as_append_reply m.payload) (handle_append_reply v m.from) s
                        valid
                        λ ar e.
                          let (among, fits) = acceptable.reply ar e in
                          handle_append_reply-Keeps v s valid m.from ar among fits)
                    (λ _. Ends-ok (Keeps-refl s valid))

  -- OnMessage returns on every acceptable message, the malformed ones included; it keeps a valid
  -- node valid, and its term, vote and indices do not go back.
  pub on_message-Keeps : Ends (Keeps v.peers s) (on_message json v m s)
  unfolding on_message
  on_message-Keeps =
      Ends-if (not (m.mtype == type_consensus) || length m.payload == 0)
        (λ _. Ends-ok (Keeps-refl s valid))
        (λ _.
          parsed-Keeps (json.kind m.payload) (dispatch json v m) s valid
            λ kind _. dispatch-Keeps kind)

-- OnTick returns for every timer name while the term fits a word, and keeps the node likewise.
pub on_tick-Keeps :
    (v : View) (s : Raft) (wall : ℕ) (name : String)
    → IsValid v.peers s
    → s.current_term + 1 < u32
    → Ends (Keeps v.peers s) (on_tick v wall name s)
unfolding on_tick
on_tick-Keeps v s wall name valid h =
    Ends-if (str_eq name timer_election) (λ _. start_election-Keeps v s valid wall h)
      λ _. elim (Bool-cases (str_eq name timer_heartbeat && is_leader s.role)) [
        | inl lead ↦
            let (es, e) = broadcast_to-Sends v v.peers s (valid.indexed (ground arith)) in
            rw lead (
              Ends-by (record s { trace = s.trace ++ es }) e
                (IsValid-trace s _ valid, ground arith))
        | inr idle ↦ rw idle (Ends-ok (Keeps-refl s valid))
      ]

pub Ends-at : {P : Raft → Type 0} {r : Run Raft} {t : Raft} → Ends P r → r ≡ ok t → P t
Ends-at {P} (ended p) e = subst P (cc) p

-- The inputs of a node.
pub data Event : Type 0 where
  message : Message → Event
  tick : ℕ → String → Event
  command : List ℕ → Event

module _ (json : Json) (v : View) where
  -- A step of the node on one event.
  unfoldable pub step : Event → Raft → Run Raft
  step (message m) s = on_message json v m s
  step (tick wall name) s = on_tick v wall name s
  step (command cmd) s = propose v cmd s >>= λ (_, t). ok t

  -- The event keeps within the ranges, and within what the algorithm trusts its peers for.
  abbrev pub Admissible : Event → Raft → Type 0
  Admissible (message m) s = Acceptable json v m s
  Admissible (tick wall name) s = s.current_term + 1 < u32
  Admissible (command cmd) s = length s.log + 2 < u32

  pub data Reach (s : Raft) : Raft → Type 0 where
    here : Reach s s
    next : {t u : Raft} (e : Event) → Reach s t → Admissible e t → step e t ≡ ok u → Reach s u

  pub step-Keeps :
      (e : Event) (s : Raft)
      → IsValid v.peers s
      → Admissible e s
      → Ends (Keeps v.peers s) (step e s)
  unfolding step
  step-Keeps (message m) s valid a = on_message-Keeps json v m s valid a
  step-Keeps (tick wall name) s valid a = on_tick-Keeps v s wall name valid a
  step-Keeps (command cmd) s valid a =
      Ends-bind (propose-Keeps v s valid cmd a) λ (_, t) k. Ends-ok k

  -- Over any admissible history a valid node stays valid, its term, commit index and applied index
  -- do not fall, and a vote that it has given stands as long as the term does.
  pub Reach-Keeps : {s t : Raft} → IsValid v.peers s → Reach s t → Keeps v.peers s t
  Reach-Keeps valid here = Keeps-refl _ valid
  Reach-Keeps valid (next {t} e r a x) =
      let (tv, before) = Reach-Keeps valid r in
      let (uv, after) = Ends-at (step-Keeps e t tv a) x in (uv, Evolves-trans before after)

-- A fresh node with a range of timeouts is valid.
pub new-IsValid :
    (peers : List ℕ) (cfg : RaftConfig) (draws : ℕ → ℕ) (has_callback : Bool)
    → cfg.election_timeout_min < cfg.election_timeout_max
    → IsValid peers (new cfg draws has_callback)
unfolding new
new-IsValid peers cfg draws has_callback h = record {
  timeouts = h;
  applied = omega arith;
  committed = omega arith;
  room = omega arith;
  indexed = λ lead. cc;
}
