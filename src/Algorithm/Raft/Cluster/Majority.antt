-- ===== src/Algorithm/Raft/Cluster/Majority.antt =====
-- algorithm/raft/raft.go, handleRequestVoteReply: whose votes a leader has.
use uav.Base.{
  nat_key, ℕ, ◌+◌, ◌*◌, ◌%◌, ◌<◌, ◌≤◌, ◌≡◌, ltb, ◌==◌, ==_iff, Bool, true, false, ◌&&◌, ◌||◌, List,
  inl, inr, sym, ap, subst, Bool-cases, arith, length,
}
use uav.Base.Map.{listed}
use uav.Algorithm.Raft.State.{Raft, RaftConfig, is_leader}
use uav.Algorithm.Raft.Cluster.{Cluster, distinct, Steps}
use uav.Algorithm.Raft.Cluster.Ledger.{hit, Ledger, IsBalanced, sum_over, sum_over-le}
use uav.Algorithm.Raft.Cluster.Votes.{listed-positive}
use uav.Algorithm.Raft.Cluster.Balance.{Steps-Balanced, booted, nobody, booted-IsBalanced}
use uav.Algorithm.Raft.Cluster.Election.{sum_over-add, sum_over-hit, length-others, leader-books}

-- The node has voted for a in the term, or has left the term behind.
abbrev pub backs : ℕ → ℕ → Raft → Bool
backs term a s = ltb term s.current_term || (s.current_term == term && s.voted_for == a)

-- A vote that is cast shows at the voter.
cast-backs :
    (ids : List ℕ) (l : Ledger) (cl : Cluster) (term a j : ℕ)
    → IsBalanced ids l cl
    → 0 < a
    → l.cast j term ≡ a
    → backs term a (cl.node j) ≡ true
cast-backs ids l cl term a j v real cast = elim (Bool-cases (ltb (cl.node j).current_term term)) [
  | inl early ↦ absurd (omega (arith, v.ahead j term (ground (arith, early)), cast, real))
  | inr reached ↦ elim (Bool-cases ((cl.node j).current_term == term)) [
    | inl at_t ↦
        let same : l.cast j (cl.node j).current_term ≡ l.cast j term =
          ap (λ k. l.cast j k) ((==_iff _ _).0 at_t) in
        ground (arith, at_t, v.now j, same, cast)
    | inr past ↦ ground (arith, reached, past)
  ]
]

-- So does the candidate's own, and each of them counts once.
counted-backs :
    (ids : List ℕ) (l : Ledger) (cl : Cluster) (term a j : ℕ)
    → IsBalanced ids l cl
    → 0 < a
    → l.cast a term ≡ a
    → l.credit j term a + hit (j == a) ≤ hit (backs term a (cl.node j))
counted-backs ids l cl term a j v real mine = elim (Bool-cases (j == a)) [
  | inl itself ↦
      let me : a ≡ j = sym ((==_iff j a).0 itself) in
      let none_own : l.credit j term a ≡ 0 =
        subst (λ k. l.credit k term a ≡ 0) me (omega (arith, v.own term a)) in
      rw
        (
          itself,
          none_own,
          cast-backs ids l cl term a j v real (subst (λ k. l.cast k term ≡ a) me mine),
        )
        (omega arith)
  | inr other ↦ elim (Bool-cases (ltb 0 (l.credit j term a))) [
    | inl some_one ↦
        let cast = (v.given term a j (ground (arith, some_one))).0 in
        rw (other, cast-backs ids l cl term a j v real cast) (omega (arith, v.once term a j))
    | inr none_one ↦ ground (arith, other, none_one)
  ]
]

-- In a cluster of an odd number of nodes, with distinct ids other than 0, that New has made and that
-- have sent nothing yet, a node that leads has the support of more than half of the nodes: each of them
-- has this node as the one that it voted for in the term of the leader, or its own term is above that.
-- Before, the nodes have handled calls of Start, Stop and Propose, ticks, as long as a term of 32 bits
-- followed theirs, and messages in any order, and the network has lost and reordered messages, but
-- delivered none twice and forged none.
pub elected_majority :
    (ids : List ℕ) (cfgs : ℕ → RaftConfig) (draws : ℕ → ℕ → ℕ) (callbacks : ℕ → Bool) (c : Cluster)
    (a : ℕ)
    → distinct ids ≡ true
    → listed 0 ids ≡ false
    → length ids % 2 ≡ 1
    → listed a ids ≡ true
    → Steps ids (booted cfgs draws callbacks) c
    → is_leader (c.node a).role ≡ true
    → length ids < 2 * sum_over ids (λ j. hit (backs (c.node a).current_term a (c.node j)))
elected_majority ids cfgs draws callbacks c a different nonzero odd member to_c lead =
    let (l, v, _) =
      Steps-Balanced ids (booted cfgs draws callbacks) c nobody different nonzero
        (booted-IsBalanced ids cfgs draws callbacks) to_c in
    let (mine, most) = leader-books ids l c a v lead in
    let term : ℕ = (c.node a).current_term in
    let real = listed-positive ids a nonzero member in
    let credited : ℕ → ℕ = λ j. l.credit j term a in
    let itself : ℕ → ℕ = λ j. hit (j == a) in
    let backing : ℕ → ℕ = λ j. hit (backs term a (c.node j)) in
    omega (
      arith,
      odd,
      most,
      length-others a ids different member,
      sum_over-add ids credited itself,
      sum_over-hit ids a member,
      sum_over-le ids (λ j. credited j + itself j) backing
          (λ j. counted-backs ids l c term a j v real mine),
    )
