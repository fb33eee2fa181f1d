-- ===== src/Algorithm/Raft/Cluster/Ledgers.antt =====
-- A step of one node leaves the votes of the cluster on record.
use uav.Base.{
  nat_key, ℕ, ◌+◌, ◌/◌, ◌<◌, ◌≤◌, ◌≡◌, refl, sym, ap, subst, ◌∙◌, ◌==◌, ==_iff, true, false, ◌&&◌,
  List, inl, inr, Bool-cases, arith, if◌then◌else◌, length,
}
use uav.Algorithm.Raft.State.{Raft, is_leader}
use uav.Algorithm.Raft.Cluster.{Sent, Cluster, others, advance}
use uav.Algorithm.Raft.Cluster.Turns.{stands}
use uav.Algorithm.Raft.Cluster.Ledger.{
  count, is_vote, lies, foreign, Ledger, on_record, IsBalanced, sum_over, sum_over-le,
}

module _ (ids : List ℕ) (l : Ledger) (cl : Cluster) (i : ℕ) (t : Raft) (left : List Sent) where
  -- The ledger with the vote of i after the step, and with these counts.
  abbrev pub entered : (ℕ → ℕ → ℕ → ℕ) → Ledger
  entered credit = record {
    cast = λ j term. if (i == j) && (t.current_term == term) then t.voted_for else l.cast j term;
    credit = credit;
  }

  -- What is to be shown of the step for the cluster to stay in balance.
  pub record Sound (credit : ℕ → ℕ → ℕ → ℕ) : Type 0 where
    pub term : (cl.node i).current_term ≤ t.current_term
    pub vote :
        t.current_term ≡ (cl.node i).current_term
        → 0 < (cl.node i).voted_for
        → t.voted_for ≡ (cl.node i).voted_for
    pub grows : (j term c : ℕ) → l.credit j term c ≤ credit j term c
    pub unasked :
        (term c j : ℕ)
        → ((advance i t left cl).node c).current_term < term
        → on_record (advance i t left cl).net (entered credit) term c j ≡ 0
    pub once : (term c j : ℕ) → on_record (advance i t left cl).net (entered credit) term c j ≤ 1
    pub own : (term c : ℕ) → on_record (advance i t left cl).net (entered credit) term c c ≡ 0
    pub given :
        (term c j : ℕ)
        → 0 < count (is_vote term c j) (advance i t left cl).net + credit j term c
        → ((entered credit).cast j term ≡ c) × (0 < c)
    pub honest : count lies (advance i t left cl).net ≡ 0
    pub domestic : count (foreign ids) (advance i t left cl).net ≡ 0
    pub voted : stands t.role ≡ true → t.voted_for ≡ i
    pub counted :
        stands t.role ≡ true → t.votes_received ≤ 1 + sum_over ids (λ j. credit j t.current_term i)
    pub won : is_leader t.role ≡ true → length (others i ids) / 2 + 1 ≤ t.votes_received

  module _ (v : IsBalanced ids l cl) (rises : (cl.node i).current_term ≤ t.current_term)
      (holds : t.current_term ≡ (cl.node i).current_term
        → 0 < (cl.node i).voted_for
        → t.voted_for ≡ (cl.node i).voted_for)
      (credit : ℕ → ℕ → ℕ → ℕ) where
    vote_kept : (term : ℕ) → t.current_term ≡ term → 0 < l.cast i term → t.voted_for ≡ l.cast i term
    vote_kept term at_t was = elim (Bool-cases (t.current_term == (cl.node i).current_term)) [
      | inl same ↦
          let e : t.current_term ≡ (cl.node i).current_term = (==_iff _ _).0 same in
          let was_now : l.cast i term ≡ (cl.node i).voted_for =
            ap (λ k. l.cast i k) (sym at_t ∙ e) ∙ v.now i in
          holds e (subst (λ (k : ℕ). 0 < k) was_now was) ∙ sym was_now
      | inr newer ↦ absurd (ground (arith, newer, rises, v.ahead i term, was, at_t))
    ]

    -- A vote once cast stands.
    pub cast-kept : (j term : ℕ) → 0 < l.cast j term → (entered credit).cast j term ≡ l.cast j term
    cast-kept j term some_one = elim (Bool-cases ((i == j) && (t.current_term == term))) [
      | inr other ↦ rw other refl
      | inl this ↦
          let me : i ≡ j = (==_iff i j).0 (ground (arith, this)) in
          let at_t : t.current_term ≡ term =
            (==_iff t.current_term term).0 (ground (arith, this)) in
          let was : 0 < l.cast i term = subst (λ k. 0 < l.cast k term) (sym me) some_one in
          rw this (vote_kept term at_t was ∙ ap (λ k. l.cast k term) me)
    ]

    -- The votes of before still belong to their candidates.
    pub given-kept :
        (term c j : ℕ)
        → 0 < count (is_vote term c j) cl.net + l.credit j term c
        → ((entered credit).cast j term ≡ c) × (0 < c)
    given-kept term c j some_one =
        let (whom, real) = v.given term c j some_one in
        (cast-kept j term (subst (λ (k : ℕ). 0 < k) (sym whom) real) ∙ whom, real)

    pub term-kept :
        (c term : ℕ)
        → ((advance i t left cl).node c).current_term < term
        → (cl.node c).current_term < term
    term-kept c term later = elim (Bool-cases (i == c)) [
      | inl here ↦
          let now : (advance i t left cl).node c ≡ t = rw here refl in
          let t_later : t.current_term < term =
            subst (λ (r : Raft). r.current_term < term) now later in
          subst (λ k. (cl.node k).current_term < term) ((==_iff i c).0 here)
            (omega (arith, rises, t_later))
      | inr there ↦
          let now : (advance i t left cl).node c ≡ cl.node c = rw there refl in
          subst (λ (r : Raft). r.current_term < term) now later
    ]

  module _ (v : IsBalanced ids l cl) (credit : ℕ → ℕ → ℕ → ℕ) (h : Sound credit) where
    entered-now :
        (j : ℕ)
        → (entered credit).cast j ((advance i t left cl).node j).current_term
          ≡ ((advance i t left cl).node j).voted_for
    entered-now j = elim (Bool-cases (i == j)) [
      | inl here ↦
          let same : (t.current_term == t.current_term) ≡ true = ground arith in
          rw (here, same) refl
      | inr there ↦ rw there (v.now j)
    ]

    entered-ahead :
        (j term : ℕ)
        → ((advance i t left cl).node j).current_term < term
        → (entered credit).cast j term ≡ 0
    entered-ahead j term later = elim (Bool-cases (i == j)) [
      | inl here ↦
          let now : (advance i t left cl).node j ≡ t = rw here refl in
          let t_later : t.current_term < term =
            subst (λ (r : Raft). r.current_term < term) now later in
          let other : (t.current_term == term) ≡ false = ground (arith, t_later) in
          let me : i ≡ j = (==_iff i j).0 here in
          rw (here, other)
            (ap (λ k. l.cast k term) (sym me) ∙ v.ahead i term (omega (arith, h.term, t_later)))
      | inr there ↦
          let now : (advance i t left cl).node j ≡ cl.node j = rw there refl in
          rw there (v.ahead j term (subst (λ (r : Raft). r.current_term < term) now later))
    ]

    -- A fact of the node that took the step, and of each other one.
    by_node :
        (P : ℕ → Raft → Type 0)
        → P i t
        → ((j : ℕ) → P j (cl.node j))
        → (j : ℕ) → P j ((advance i t left cl).node j)
    by_node P mine theirs j = elim (Bool-cases (i == j)) [
      | inl here ↦ rw here (subst (λ k. P k t) ((==_iff i j).0 here) mine)
      | inr there ↦ rw there (theirs j)
    ]

    pub entered-IsBalanced : IsBalanced ids (entered credit) (advance i t left cl)
    entered-IsBalanced = record {
      now = entered-now;
      ahead = entered-ahead;
      unasked = h.unasked;
      once = h.once;
      own = h.own;
      given = h.given;
      honest = h.honest;
      domestic = h.domestic;
      voted = by_node (λ j r. stands r.role ≡ true → r.voted_for ≡ j) h.voted v.voted;
      counted =
          by_node
            (λ j r.
              stands r.role ≡ true
              → r.votes_received ≤ 1 + sum_over ids (λ k. credit k r.current_term j))
            h.counted
            λ j st. omega (
              arith,
              v.counted j st,
              sum_over-le ids (λ k. l.credit k (cl.node j).current_term j)
                  (λ k. credit k (cl.node j).current_term j)
                  (λ k. h.grows k (cl.node j).current_term j),
            );
      won =
          by_node
            (λ j r. is_leader r.role ≡ true → length (others j ids) / 2 + 1 ≤ r.votes_received)
            h.won v.won;
    }
