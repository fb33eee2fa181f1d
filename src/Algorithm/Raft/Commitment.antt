-- ===== src/Algorithm/Raft/Commitment.antt =====
-- Which entries a leader commits.
use native.Mathlib.Nat.{mod-eq_of_lt}
use native.Mathlib.Decide.{dec_lt}
use uav.Base.{
  nat_key, ℕ, zero, suc, ◌+◌, ◌-◌, ◌*◌, ◌/◌, ◌<◌, ◌≤◌, ◌≡◌, refl, ◌==◌, ltb, leb, not, Bool, true,
  false, arith, if◌then◌else◌, length, u32, [], ◌∷◌,
}
use uav.Base.Map
use uav.Base.Map.{Map}
use uav.Algorithm.Raft.State.{Raft, View, Run, ok}
use uav.Algorithm.Raft.Log.{term_at}
use uav.Algorithm.Raft.Core.{count_matches, apply_committed, commit_from, maybe_commit}

-- The entries of matchIndex at n or above.
abbrev pub reported : ℕ → Map ℕ ℕ → Map ℕ ℕ
reported n m = Map.retain (λ (peer : ℕ) (index : ℕ). leb n index) m

-- By what the leader has in matchIndex, more than half of the cluster have the log up to index n,
-- counting the leader.
abbrev pub IsReplicated : View → Raft → ℕ → Type 0
IsReplicated v s n = length v.peers + 1 < 2 * (1 + length (reported n s.match_index))

count_matches-reported : (n : ℕ) (m : Map ℕ ℕ) → count_matches n m ≡ length (reported n m)
unfolding count_matches Map.retain
count_matches-reported n [] = refl
count_matches-reported n ((p, i) ∷ m) = ground (arith, count_matches-reported n m)

-- All entries from index n up to index k are of the current term.
abbrev pub IsRecent : Raft → ℕ → ℕ → Type 0
IsRecent s n k = (i : ℕ) → n ≤ i → i < k → term_at s.log i ≡ s.current_term

-- What a commitment from index k downwards comes to.
pub data Commits (v : View) (s : Raft) (k : ℕ) : Run Raft → Type 0 where
  commit :
      (n : ℕ)
      → s.commit_index < n
      → n ≤ k
      → IsRecent s (n - 1) k
      → IsReplicated v s n
      → ((m : ℕ) → n < m → m ≤ k → ¬ IsReplicated v s m)
      → Commits v s k (apply_committed (record s { commit_index = n }))
  wait :
      ((n : ℕ) → s.commit_index < n → n ≤ k → IsRecent s (n - 1) k → ¬ IsReplicated v s n)
      → Commits v s k (ok s)

Commits-if :
    {v : View} {s : Raft} {k : ℕ} {x y : Run Raft} (b : Bool)
    → (b ≡ true → Commits v s k x)
    → (b ≡ false → Commits v s k y)
    → Commits v s k (if b then x else y)
Commits-if true p q = p refl
Commits-if false p q = q refl

-- An entry of the current term that is not on a majority is passed over.
Commits-below :
    {v : View} {s : Raft} {k : ℕ} {r : Run Raft}
    → term_at s.log k ≡ s.current_term
    → ¬ IsReplicated v s (suc k)
    → Commits v s k r
    → Commits v s (suc k) r
Commits-below {k} e no_majority (commit n h b recent rep top) =
    commit n h (omega arith)
      (λ i p q. elim (dec_lt i k) [
        | yes below ↦ recent i p below
        | no at_k ↦ let same : i ≡ k = omega arith in rw same e
      ])
      rep
      (λ m p q. elim (dec_lt k m) [
        | yes last ↦ let same : m ≡ suc k = omega arith in rw same no_majority
        | no inner ↦ top m p (omega arith)
      ])
Commits-below {k} e no_majority (wait none_below) = wait (λ n p q recent. elim (dec_lt k n) [
  | yes last ↦ let same : n ≡ suc k = omega arith in rw same no_majority
  | no inner ↦ none_below n p (omega arith) (λ i a b. recent i a (omega arith))
])

commit_from-Commits : (v : View) (k : ℕ) (s : Raft) → Commits v s k (commit_from v k s)
unfolding commit_from
commit_from-Commits v zero s = wait (λ n h k r. absurd (omega arith))
commit_from-Commits v (suc k) s =
    let below = commit_from-Commits v k s in
    Commits-if (leb (suc k) s.commit_index) (λ old. wait (λ n p q r. absurd (ground arith)))
      λ new.
        Commits-if (not (term_at s.log k == s.current_term))
          (λ other. wait (λ n p q r. absurd (ground (arith, r k (omega arith) (omega arith)))))
          λ recent.
            let same = count_matches-reported (suc k) s.match_index in
            Commits-if (ltb ((length v.peers + 1) / 2) (1 + count_matches (suc k) s.match_index))
              (λ majority.
                commit (suc k) (ground arith) (omega arith)
                  (λ i p q. let same : i ≡ k = omega arith in rw same (ground arith))
                  (ground (arith, same)) (λ m p q. absurd (omega arith)))
              (λ few. Commits-below (ground arith) (ground (arith, same)) below)

-- A leader commits exactly up to the highest index above its commit index from which on all its
-- entries are of its term and which, by the entries of its matchIndex, more than half of the cluster
-- have, itself among them; it then applies them. If there is no such index its state stays as it was.
pub maybe_commit-Commits :
    (v : View) (s : Raft) → length s.log < u32 → Commits v s (length s.log) (maybe_commit v s)
unfolding maybe_commit
maybe_commit-Commits v s h = rw (mod-eq_of_lt h) (commit_from-Commits v (length s.log) s)
