-- ===== src/Algorithm/Raft/Cluster/Election.antt =====
-- Majorities of one term meet.
use uav.Base.{
  nat_key, ℕ, ◌+◌, ◌/◌, ◌%◌, ◌<◌, ◌≤◌, ◌≡◌, ltb, refl, sym, ap, subst, ◌∙◌, ◌==◌, ==_iff, Bool,
  true, false, List, [], ◌∷◌, inl, inr, Bool-cases, arith, length,
}
use uav.Base.Map.{listed}
use uav.Algorithm.Raft.State.{RaftConfig, is_leader}
use uav.Algorithm.Raft.Cluster.{Cluster, others, distinct, Steps}
use uav.Algorithm.Raft.Cluster.Ledger.{hit, Ledger, IsBalanced, sum_over, sum_over-le}
use uav.Algorithm.Raft.Cluster.Turns.{stands}
use uav.Algorithm.Raft.Cluster.Votes.{listed-positive}
use uav.Algorithm.Raft.Cluster.Balance.{Steps-Balanced, booted, nobody, booted-IsBalanced}

pub sum_over-add :
    (js : List ℕ) (f g : ℕ → ℕ) → sum_over js (λ j. f j + g j) ≡ sum_over js f + sum_over js g
unfolding sum_over
sum_over-add [] f g = refl
sum_over-add (j ∷ js) f g = omega (arith, sum_over-add js f g)

sum_over-most : (js : List ℕ) (f : ℕ → ℕ) → ((j : ℕ) → f j ≤ 1) → sum_over js f ≤ length js
unfolding sum_over
sum_over-most [] f h = omega arith
sum_over-most (j ∷ js) f h = omega (arith, h j, sum_over-most js f h)

pub sum_over-hit : (js : List ℕ) (a : ℕ) → listed a js ≡ true → 1 ≤ sum_over js (λ j. hit (j == a))
unfolding sum_over
sum_over-hit [] a l = cc
sum_over-hit (j ∷ js) a l = ground (arith, l, sum_over-hit js a)

length-others-absent :
    (a : ℕ) (ids : List ℕ) → listed a ids ≡ false → length (others a ids) ≡ length ids
length-others-absent a [] l = refl
length-others-absent a (j ∷ ids) l = ground (arith, l, length-others-absent a ids)

pub length-others :
    (a : ℕ) (ids : List ℕ)
    → distinct ids ≡ true
    → listed a ids ≡ true
    → length (others a ids) + 1 ≡ length ids
length-others a [] d l = cc
length-others a (j ∷ ids) d l = elim (Bool-cases (a == j)) [
  | inl this ↦
      let same : a ≡ j = (==_iff a j).0 this in
      let absent : listed a ids ≡ false = ap (λ k. listed k ids) same ∙ ground (arith, d) in
      rw this (omega (arith, length-others-absent a ids absent))
  | inr other ↦
      rw other (omega (arith, length-others a ids (ground (arith, d)) (ground (arith, l, other))))
]

-- Two candidates that have won a term, in the books of one cluster.
module _ (ids : List ℕ) (l : Ledger) (cl : Cluster) (v : IsBalanced ids l cl) (term a b : ℕ)
    (apart : (a == b) ≡ false) (own_a : l.cast a term ≡ a) (own_b : l.cast b term ≡ b) where
  abbrev backing : ℕ → ℕ
  backing j = (l.credit j term a + hit (j == a)) + (l.credit j term b + hit (j == b))

  only_one : (c j : ℕ) → l.credit j term c ≤ 1
  only_one c j = omega (arith, v.once term c j)

  credited-cast : (c j : ℕ) → 0 < l.credit j term c → l.cast j term ≡ c
  credited-cast c j some_one = (v.given term c j (omega (arith, some_one))).0

  not_own : (c : ℕ) → l.credit c term c ≡ 0
  not_own c = omega (arith, v.own term c)

  -- A node that has voted for c has given no vote to another one.
  no_second : (j c c' : ℕ) → l.cast j term ≡ c → (c == c') ≡ false → l.credit j term c' ≡ 0
  no_second j c c' cast other = elim (Bool-cases (ltb 0 (l.credit j term c'))) [
    | inl some_one ↦
        absurd (ground (arith, cast, other, credited-cast c' j (ground (arith, some_one))))
    | inr none_one ↦ ground (arith, none_one)
  ]

  backs_at_a : backing a ≤ 1
  backs_at_a = ground (arith, apart, not_own a, no_second a a b own_a apart)

  backs_at_b : backing b ≤ 1
  backs_at_b = ground (arith, apart, not_own b, no_second b b a own_b (ground (arith, apart)))

  backs_one : (j : ℕ) → backing j ≤ 1
  backs_one j = elim (Bool-cases (j == a)) [
    | inl at_a ↦ subst (λ k. backing k ≤ 1) (sym ((==_iff j a).0 at_a)) backs_at_a
    | inr not_a ↦ elim (Bool-cases (j == b)) [
      | inl at_b ↦ subst (λ k. backing k ≤ 1) (sym ((==_iff j b).0 at_b)) backs_at_b
      | inr not_b ↦ elim (Bool-cases (ltb 0 (l.credit j term a))) [
        | inl for_a ↦
            let cast = credited-cast a j (ground (arith, for_a)) in
            ground (arith, not_a, not_b, only_one a j, no_second j a b cast apart)
        | inr none_a ↦ ground (arith, not_a, not_b, none_a, only_one b j)
      ]
    ]
  ]

  pub majorities_meet :
      distinct ids ≡ true
      → length ids % 2 ≡ 1
      → listed a ids ≡ true
      → listed b ids ≡ true
      → length (others a ids) / 2 ≤ sum_over ids (λ j. l.credit j term a)
      → length (others b ids) / 2 ≤ sum_over ids (λ j. l.credit j term b)
      → ⊥
  majorities_meet different odd member_a member_b won_a won_b =
      let f : ℕ → ℕ = λ j. l.credit j term a in
      let g : ℕ → ℕ = λ j. l.credit j term b in
      let at_a : ℕ → ℕ = λ j. hit (j == a) in
      let at_b : ℕ → ℕ = λ j. hit (j == b) in
      omega (
        arith,
        odd,
        won_a,
        won_b,
        length-others a ids different member_a,
        length-others b ids different member_b,
        sum_over-add ids (λ j. f j + at_a j) (λ j. g j + at_b j),
        sum_over-add ids f at_a,
        sum_over-add ids g at_b,
        sum_over-hit ids a member_a,
        sum_over-hit ids b member_b,
        sum_over-most ids backing backs_one,
      )

-- What the books say of a leader.
pub leader-books :
    (ids : List ℕ) (l : Ledger) (cl : Cluster) (a : ℕ)
    → IsBalanced ids l cl
    → is_leader (cl.node a).role ≡ true
    → (l.cast a (cl.node a).current_term ≡ a)
      × (length (others a ids) / 2 ≤ sum_over ids (λ j. l.credit j (cl.node a).current_term a))
leader-books ids l cl a v lead =
    let st : stands (cl.node a).role ≡ true = ground (arith, lead) in
    (v.now a ∙ v.voted a st, omega (arith, v.counted a st, v.won a lead))

-- In a cluster of an odd number of nodes, with distinct ids other than 0, that New has made and that
-- have sent nothing yet, two nodes that lead in the same term, at the same time or one after the
-- other, are the same node. In between the nodes handle calls of Start, Stop and Propose, ticks, as long
-- as a term of 32 bits follows theirs, and messages in any order, and the network loses and reorders
-- messages, but delivers none twice and forges none.
pub one_leader_per_term :
    (ids : List ℕ) (cfgs : ℕ → RaftConfig) (draws : ℕ → ℕ → ℕ) (callbacks : ℕ → Bool)
    (c d : Cluster) (a b : ℕ)
    → distinct ids ≡ true
    → listed 0 ids ≡ false
    → length ids % 2 ≡ 1
    → listed a ids ≡ true
    → listed b ids ≡ true
    → Steps ids (booted cfgs draws callbacks) c
    → Steps ids c d
    → is_leader (c.node a).role ≡ true
    → is_leader (d.node b).role ≡ true
    → (c.node a).current_term ≡ (d.node b).current_term
    → a ≡ b
one_leader_per_term ids cfgs draws callbacks c d a b different nonzero odd member_a member_b to_c
      to_d lead_a lead_b same =
    let (l, v, _) =
      Steps-Balanced ids (booted cfgs draws callbacks) c nobody different nonzero
        (booted-IsBalanced ids cfgs draws callbacks) to_c in
    let (l', v', more) = Steps-Balanced ids c d l different nonzero v to_d in
    let (mine, most) = leader-books ids l c a v lead_a in
    let (theirs, most') = leader-books ids l' d b v' lead_b in
    let T : ℕ = (c.node a).current_term in
    let kept : l'.cast a T ≡ a =
      more.stands a T (subst (λ (k : ℕ). 0 < k) (sym mine) (listed-positive ids a nonzero member_a))
      ∙ mine in
    let grown : length (others a ids) / 2 ≤ sum_over ids (λ j. l'.credit j T a) = omega (
      arith,
      most,
      sum_over-le ids (λ j. l.credit j T a) (λ j. l'.credit j T a) (λ j. more.grows j T a),
    ) in
    elim (Bool-cases (a == b)) [
      | inl one ↦ (==_iff a b).0 one
      | inr apart ↦ absurd (
          majorities_meet ids l' d v' T a b apart kept (ap (λ k. l'.cast b k) same ∙ theirs)
            different odd member_a member_b grown
            (subst (λ k. length (others b ids) / 2 ≤ sum_over ids (λ j. l'.credit j k b)) (sym same)
              most'))
    ]
