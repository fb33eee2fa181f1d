-- ===== src/Algorithm/Raft/Cluster/Ledger.antt =====
-- The votes of a cluster: who has voted for whom, and where each request and each vote is.
use uav.Base.{
  nat_key, ℕ, ◌+◌, ◌/◌, ◌<◌, ◌≤◌, ◌≡◌, refl, ◌==◌, not, Bool, true, false, ◌&&◌, List, [], ◌∷◌,
  ◌++◌, map, inl, inr, Bool-cases, arith, if◌then◌else◌, length,
}
use uav.Base.Map.{listed}
use uav.Algorithm.Raft.State.{
  is_leader, Effect, set_timer, cancel_timer, send, apply, Body, request_vote, request_vote_reply,
  append_entries, append_reply,
}
use uav.Algorithm.Raft.Cluster.{Sent, Cluster, sends_of, others, Picks, first, later}
use uav.Algorithm.Raft.Cluster.Turns.{is_ballot, ballots, stands}

abbrev pub hit : Bool → ℕ
hit b = if b then 1 else 0

-- How many messages pass a test.
unfoldable pub count : (Sent → Bool) → List Sent → ℕ
count q [] = 0
count q (m ∷ net) = hit (q m) + count q net

pub count-append :
    (q : Sent → Bool) (xs ys : List Sent) → count q (xs ++ ys) ≡ count q xs + count q ys
unfolding count
count-append q [] ys = omega arith
count-append q (m ∷ xs) ys = omega (arith, count-append q xs ys)

pub Picks-count :
    (q : Sent → Bool) {m : Sent} {net left : List Sent}
    → Picks m net left
    → count q net ≡ hit (q m) + count q left
unfolding count
Picks-count q first = refl
Picks-count q (later p) = omega (arith, Picks-count q p)

-- c asks j for its vote in a term.
abbrev pub asks_in : ℕ → ℕ → Body → Bool
asks_in term c (request_vote rv) = rv.term == term && rv.candidate_id == c
asks_in term c (request_vote_reply rvr) = false
asks_in term c (append_entries ae) = false
asks_in term c (append_reply ar) = false

abbrev pub is_request : ℕ → ℕ → ℕ → Sent → Bool
is_request term c j m = m.to == j && asks_in term c m.body

-- j grants c its vote in a term.
abbrev pub votes_in : ℕ → Body → Bool
votes_in term (request_vote rv) = false
votes_in term (request_vote_reply rvr) = rvr.vote_granted && rvr.term == term
votes_in term (append_entries ae) = false
votes_in term (append_reply ar) = false

abbrev pub is_vote : ℕ → ℕ → ℕ → Sent → Bool
is_vote term c j m = m.from == j && (m.to == c && votes_in term m.body)

-- A request in the name of another node.
abbrev pub names_other : ℕ → Body → Bool
names_other from (request_vote rv) = not (rv.candidate_id == from)
names_other from (request_vote_reply rvr) = false
names_other from (append_entries ae) = false
names_other from (append_reply ar) = false

abbrev pub lies : Sent → Bool
lies m = names_other m.from m.body

abbrev pub foreign : List ℕ → Sent → Bool
foreign ids m = not (listed m.from ids)

-- `cast j term` is whom j has voted for in the term, 0 for nobody; `credit j term c` says how often c
-- has counted the vote of j in the term.
pub record Ledger : Type 0 where
  pub cast : ℕ → ℕ → ℕ
  pub credit : ℕ → ℕ → ℕ → ℕ

unfoldable pub sum_over : List ℕ → (ℕ → ℕ) → ℕ
sum_over [] f = 0
sum_over (j ∷ js) f = f j + sum_over js f

-- What is on record about the vote of j for c in a term.
abbrev pub on_record : List Sent → Ledger → ℕ → ℕ → ℕ → ℕ
on_record net l term c j =
    count (is_request term c j) net + count (is_vote term c j) net + l.credit j term c

pub record IsBalanced (ids : List ℕ) (l : Ledger) (cl : Cluster) : Type 0 where
  pub now : (i : ℕ) → l.cast i (cl.node i).current_term ≡ (cl.node i).voted_for
  pub ahead : (i term : ℕ) → (cl.node i).current_term < term → l.cast i term ≡ 0
  pub unasked : (term c j : ℕ) → (cl.node c).current_term < term → on_record cl.net l term c j ≡ 0
  pub once : (term c j : ℕ) → on_record cl.net l term c j ≤ 1
  pub own : (term c : ℕ) → on_record cl.net l term c c ≡ 0
  pub given :
      (term c j : ℕ)
      → 0 < count (is_vote term c j) cl.net + l.credit j term c
      → (l.cast j term ≡ c) × (0 < c)
  pub honest : count lies cl.net ≡ 0
  pub domestic : count (foreign ids) cl.net ≡ 0
  pub voted : (i : ℕ) → stands (cl.node i).role ≡ true → (cl.node i).voted_for ≡ i
  pub counted :
      (i : ℕ)
      → stands (cl.node i).role ≡ true
      → (cl.node i).votes_received ≤ 1 + sum_over ids (λ j. l.credit j (cl.node i).current_term i)
  pub won :
      (i : ℕ)
      → is_leader (cl.node i).role ≡ true
      → length (others i ids) / 2 + 1 ≤ (cl.node i).votes_received

pub sum_over-le :
    (js : List ℕ) (f g : ℕ → ℕ) → ((j : ℕ) → f j ≤ g j) → sum_over js f ≤ sum_over js g
unfolding sum_over
sum_over-le [] f g h = omega arith
sum_over-le (j ∷ js) f g h = omega (arith, h j, sum_over-le js f g h)

-- One more at a place of the list.
pub sum_over-bump :
    (js : List ℕ) (f g : ℕ → ℕ) (k : ℕ)
    → ((j : ℕ) → f j ≤ g j)
    → f k < g k
    → listed k js ≡ true
    → sum_over js f < sum_over js g
unfolding sum_over
sum_over-bump [] f g k h b l = cc
sum_over-bump (j ∷ js) f g k h b l = elim (Bool-cases (j == k)) [
  | inl here ↦ ground (arith, here, h j, b, sum_over-le js f g h)
  | inr further ↦ ground (arith, l, further, h j, sum_over-bump js f g k h b)
]

-- The messages of a trace that have to do with votes, from node i.
abbrev pub posted : ℕ → List (ℕ × Body) → List Sent
posted i bs = map (λ b. record { from = i; to = b.0; body = b.1 }) bs

pub count-sends_of :
    (q : Sent → Bool) (i : ℕ) (es : List Effect)
    → ((m : Sent) → is_ballot m.body ≡ false → q m ≡ false)
    → count q (sends_of i es) ≡ count q (posted i (ballots es))
unfolding count ballots
count-sends_of q i [] h = refl
count-sends_of q i (send to p ∷ es) h = elim (Bool-cases (is_ballot p.body)) [
  | inl ballot ↦ rw ballot (omega (arith, count-sends_of q i es h))
  | inr other ↦
      rw (other, h (record { from = i; to = to; body = p.body }) other)
        (omega (arith, count-sends_of q i es h))
]
count-sends_of q i (set_timer name d ∷ es) h = count-sends_of q i es h
count-sends_of q i (cancel_timer name ∷ es) h = count-sends_of q i es h
count-sends_of q i (apply idx cmd ∷ es) h = count-sends_of q i es h

pub count-foreign :
    (ids : List ℕ) (i : ℕ) (es : List Effect)
    → listed i ids ≡ true
    → count (foreign ids) (sends_of i es) ≡ 0
unfolding count
count-foreign ids i [] h = refl
count-foreign ids i (send to p ∷ es) h = rw h (omega (arith, count-foreign ids i es h))
count-foreign ids i (set_timer name d ∷ es) h = count-foreign ids i es h
count-foreign ids i (cancel_timer name ∷ es) h = count-foreign ids i es h
count-foreign ids i (apply idx cmd ∷ es) h = count-foreign ids i es h

-- Only what has to do with votes counts.
pub is_request-ballot :
    (term c j : ℕ) (m : Sent) → is_ballot m.body ≡ false → is_request term c j m ≡ false
is_request-ballot term c j m h = go m.body h
  where
    go : (b : Body) → is_ballot b ≡ false → (m.to == j && asks_in term c b) ≡ false
    go (request_vote rv) e = absurd (cc)
    go (request_vote_reply rvr) e = ground arith
    go (append_entries ae) e = ground arith
    go (append_reply ar) e = ground arith

pub is_vote-ballot :
    (term c j : ℕ) (m : Sent) → is_ballot m.body ≡ false → is_vote term c j m ≡ false
is_vote-ballot term c j m h = go m.body h
  where
    go : (b : Body) → is_ballot b ≡ false → (m.from == j && (m.to == c && votes_in term b)) ≡ false
    go (request_vote rv) e = absurd (cc)
    go (request_vote_reply rvr) e = ground arith
    go (append_entries ae) e = ground arith
    go (append_reply ar) e = ground arith

pub lies-ballot : (m : Sent) → is_ballot m.body ≡ false → lies m ≡ false
lies-ballot m h = go m.body h
  where
    go : (b : Body) → is_ballot b ≡ false → names_other m.from b ≡ false
    go (request_vote rv) e = absurd (cc)
    go (request_vote_reply rvr) e = refl
    go (append_entries ae) e = refl
    go (append_reply ar) e = refl
