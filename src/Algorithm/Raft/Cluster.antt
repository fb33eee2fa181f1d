-- ===== src/Algorithm/Raft/Cluster.antt =====
-- A cluster of Raft nodes, and the messages between them. The network loses and reorders messages and
-- delivers none twice, as the router's duplicate filter has it.
pub mod After
pub mod Turns
pub mod Appends
pub mod Candidates
pub mod Requests
pub mod Ledger
pub mod Ledgers
pub mod Moves
pub mod Votes
pub mod Standing
pub mod Balance
pub mod Election
pub mod Majority
pub mod Inbox
mod Tests
use uav.Base.{
  nat_key, ℕ, ◌+◌, ◌<◌, ◌≡◌, ◌==◌, ◌&&◌, not, Bool, true, false, String, List, [], ◌∷◌, ◌++◌,
  if◌then◌else◌, u32, ltb,
}
use uav.Base.Map.{listed}
use uav.Algorithm.Raft.State.{
  Raft, View, Run, ok, Effect, set_timer, cancel_timer, send, apply, Body, request_vote,
  request_vote_reply, append_entries, append_reply,
}
use uav.Algorithm.Raft.Handlers.{
  handle_request_vote, handle_request_vote_reply, handle_append_entries, handle_append_reply,
  on_tick, start, stop, propose,
}

-- A message on its way.
pub record Sent : Type 0 where
  pub from : ℕ
  pub to : ℕ
  pub body : Body

-- The messages that node i has handed to Send.
abbrev pub sends_of : ℕ → List Effect → List Sent
sends_of i [] = []
sends_of i (send to p ∷ es) = record { from = i; to = to; body = p.body } ∷ sends_of i es
sends_of i (set_timer name d ∷ es) = sends_of i es
sends_of i (cancel_timer name ∷ es) = sends_of i es
sends_of i (apply idx cmd ∷ es) = sends_of i es

-- What OnMessage does with a payload that json reads as this body.
unfoldable pub handle_body : View → ℕ → Body → Raft → Run Raft
handle_body v from (request_vote rv) = handle_request_vote v from rv
handle_body v from (request_vote_reply rvr) = handle_request_vote_reply v rvr
handle_body v from (append_entries ae) = handle_append_entries v from ae
handle_body v from (append_reply ar) = handle_append_reply v from ar

pub record Cluster : Type 0 where
  pub node : ℕ → Raft
  pub net : List Sent

abbrev pub others : ℕ → List ℕ → List ℕ
others i [] = []
others i (j ∷ js) = let rest = others i js in if i == j then rest else j ∷ rest

-- What node i reads of its NodeAPI.
abbrev pub view : List ℕ → ℕ → ℕ → View
view ids i now = record { id = i; peers = others i ids; now = now }

-- The state with an empty trace, so that the trace of a handler's result holds its own calls.
abbrev pub fresh : Raft → Raft
fresh s = record s { trace = [] }

-- Node i goes on with state t, and what it has sent joins the messages that were left.
abbrev pub advance : ℕ → Raft → List Sent → Cluster → Cluster
advance i t left c = record {
  node = λ j. if i == j then t else c.node j;
  net = left ++ sends_of i t.trace;
}

-- No id occurs twice.
abbrev pub distinct : List ℕ → Bool
distinct [] = true
distinct (j ∷ js) = not (listed j js) && distinct js

-- One message taken out of the network.
pub data Picks (m : Sent) : List Sent → List Sent → Type 0 where
  first : {rest : List Sent} → Picks m (m ∷ rest) rest
  later :
      {other : Sent} {net rest : List Sent}
      → Picks m net rest
      → Picks m (other ∷ net) (other ∷ rest)

-- A call of Start, Stop or Propose, a tick of a timer, while the term has room, a delivery and a loss.
-- A handler that panics takes no step.
pub data Step (ids : List ℕ) : Cluster → Cluster → Type 0 where
  started :
      (i : ℕ) (c : Cluster) (t : Raft)
      → listed i ids ≡ true
      → start (fresh (c.node i)) ≡ ok t
      → Step ids c (advance i t c.net c)
  stopped :
      (i : ℕ) (c : Cluster)
      → listed i ids ≡ true
      → Step ids c (advance i (stop (fresh (c.node i))) c.net c)
  ticked :
      (i wall now : ℕ) (name : String) (c : Cluster) (t : Raft)
      → listed i ids ≡ true
      → (c.node i).current_term + 1 < u32
      → on_tick (view ids i now) wall name (fresh (c.node i)) ≡ ok t
      → Step ids c (advance i t c.net c)
  proposed :
      (i now : ℕ) (cmd : List ℕ) (c : Cluster) (accepted : Bool) (t : Raft)
      → listed i ids ≡ true
      → propose (view ids i now) cmd (fresh (c.node i)) ≡ ok (accepted, t)
      → Step ids c (advance i t c.net c)
  delivered :
      (m : Sent) (now : ℕ) (left : List Sent) (c : Cluster) (t : Raft)
      → Picks m c.net left
      → listed m.to ids ≡ true
      → handle_body (view ids m.to now) m.from m.body (fresh (c.node m.to)) ≡ ok t
      → Step ids c (advance m.to t left c)
  lost :
      (m : Sent) (left : List Sent) (c : Cluster)
      → Picks m c.net left
      → Step ids c (record c { net = left })

pub data Steps (ids : List ℕ) (c : Cluster) : Cluster → Type 0 where
  here : Steps ids c c
  next : {d e : Cluster} → Steps ids c d → Step ids d e → Steps ids c e
