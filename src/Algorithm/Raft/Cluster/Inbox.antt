-- ===== src/Algorithm/Raft/Cluster/Inbox.antt =====
-- What OnMessage makes of a message of the network.
use uav.Base.{
  ℕ, ◌≡◌, ◌⊎◌, refl, sym, ap, ◌∙◌, ==_iff, inl, inr, ◌==◌, not, ◌||◌, false, Bool-cases, Option,
  none, some, List, length,
}
use uav.Message.{Message, type_consensus}
use uav.Algorithm.Raft.State.{
  Raft, View, Run, ok, RequestVote, RequestVoteReply, AppendEntries, AppendReply, Body,
  request_vote, request_vote_reply, append_entries, append_reply, kind_request_vote,
  kind_request_vote_reply, kind_append_entries, kind_append_reply,
}
use uav.Algorithm.Raft.Handlers.{
  Json, dispatch, on_message, parsed, handle_request_vote, handle_request_vote_reply,
  handle_append_entries, handle_append_reply,
}
use uav.Algorithm.Raft.Cluster.{handle_body}

-- json reads this body from the payload.
pub Reads : Json → List ℕ → Body → Type 0
Reads json p (request_vote rv) =
    (json.kind p ≡ some kind_request_vote) × (json.as_request_vote p ≡ some rv)
Reads json p (request_vote_reply rvr) =
    (json.kind p ≡ some kind_request_vote_reply) × (json.as_request_vote_reply p ≡ some rvr)
Reads json p (append_entries ae) =
    (json.kind p ≡ some kind_append_entries) × (json.as_append_entries p ≡ some ae)
Reads json p (append_reply ar) =
    (json.kind p ≡ some kind_append_reply) × (json.as_append_reply p ≡ some ar)

module _ (json : Json) (v : View) (m : Message) (s : Raft) where
  abbrev Dispatched : ℕ → Type 0
  Dispatched kind =
      (dispatch json v m kind s ≡ ok s)
      ⊎ ((body : Body) × (Reads json m.payload body)
          × (dispatch json v m kind s ≡ handle_body v m.from body s))

  -- The branch of one kind: the payload is read, or it is not.
  one_kind :
      (A : Type 0) (kind : ℕ) (read : Option A) (handle : A → Raft → Run Raft) (body : A → Body)
      → dispatch json v m kind s ≡ parsed read handle s
      → ((a : A) → read ≡ some a → Reads json m.payload (body a))
      → ((a : A) → handle_body v m.from (body a) s ≡ handle a s)
      → Dispatched kind
  one_kind A kind none handle body e reads same = inl e
  one_kind A kind (some a) handle body e reads same = inr (body a, reads a refl, e ∙ sym (same a))

  dispatched : (kind : ℕ) → json.kind m.payload ≡ some kind → Dispatched kind
  unfolding dispatch handle_body Reads
  dispatched kind e = elim (Bool-cases (kind == kind_request_vote)) [
    | inl asks ↦
        one_kind RequestVote kind (json.as_request_vote m.payload) (handle_request_vote v m.from)
          request_vote (rw asks refl) (λ a r. (e ∙ ap some ((==_iff _ _).0 asks), r)) λ a. refl
    | inr not_asks ↦ elim (Bool-cases (kind == kind_request_vote_reply)) [
      | inl votes ↦
          one_kind RequestVoteReply kind (json.as_request_vote_reply m.payload)
            (handle_request_vote_reply v) request_vote_reply (rw (not_asks, votes) refl)
            (λ a r. (e ∙ ap some ((==_iff _ _).0 votes), r)) λ a. refl
      | inr not_votes ↦ elim (Bool-cases (kind == kind_append_entries)) [
        | inl appends ↦
            one_kind AppendEntries kind (json.as_append_entries m.payload)
              (handle_append_entries v m.from) append_entries
              (rw (not_asks, not_votes, appends) refl)
              (λ a r. (e ∙ ap some ((==_iff _ _).0 appends), r)) λ a. refl
        | inr not_appends ↦ elim (Bool-cases (kind == kind_append_reply)) [
          | inl replies ↦
              one_kind AppendReply kind (json.as_append_reply m.payload)
                (handle_append_reply v m.from) append_reply
                (rw (not_asks, not_votes, not_appends, replies) refl)
                (λ a r. (e ∙ ap some ((==_iff _ _).0 replies), r)) λ a. refl
          | inr other ↦ inl (rw (not_asks, not_votes, not_appends, other) refl)
        ]
      ]
    ]
  ]

  abbrev Handled : Run Raft → Type 0
  Handled r =
      (r ≡ ok s) ⊎ ((body : Body) × (Reads json m.payload body) × (r ≡ handle_body v m.from body s))

  by_kind :
      (kind : Option ℕ) → json.kind m.payload ≡ kind → Handled (parsed kind (dispatch json v m) s)
  by_kind none e = inl refl
  by_kind (some kind) e = dispatched kind e

  -- OnMessage handles the body that json reads from the payload, if it reads one, and leaves the state
  -- alone otherwise.
  pub on_message-handle_body : Handled (on_message json v m s)
  unfolding on_message
  on_message-handle_body =
      elim (Bool-cases (not (m.mtype == type_consensus) || length m.payload == 0)) [
        | inl passed ↦ inl (rw passed refl)
        | inr taken ↦ rw taken (by_kind (json.kind m.payload) refl)
      ]

-- OnMessage hands the body that json reads from a consensus message to its handler.
pub on_message-Reads :
    (json : Json) (v : View) (m : Message) (s : Raft) (body : Body)
    → m.mtype ≡ type_consensus
    → (length m.payload == 0) ≡ false
    → Reads json m.payload body
    → on_message json v m s ≡ handle_body v m.from body s
unfolding on_message dispatch handle_body Reads
on_message-Reads json v m s (request_vote rv) consensus filled (k, r) =
    rw (consensus, filled, k, r) refl
on_message-Reads json v m s (request_vote_reply rv) consensus filled (k, r) =
    rw (consensus, filled, k, r) refl
on_message-Reads json v m s (append_entries rv) consensus filled (k, r) =
    rw (consensus, filled, k, r) refl
on_message-Reads json v m s (append_reply rv) consensus filled (k, r) =
    rw (consensus, filled, k, r) refl
