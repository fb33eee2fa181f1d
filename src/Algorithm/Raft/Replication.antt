-- ===== src/Algorithm/Raft/Replication.antt =====
-- What the loop that appends new entries makes of the log.
use native.Mathlib.Nat.{mod-eq_of_lt}
use uav.Base.{
  ℕ, zero, suc, ◌+◌, ◌-◌, ◌<◌, ◌≤◌, ◌≡◌, refl, sym, ap, ◌∙◌, ◌==◌, ==_iff, not, Bool, true, false,
  ◌||◌, List, [], ◌∷◌, ◌++◌, some, inl, inr, Bool-cases, arith, if◌then◌else◌, length, get_elem?,
  take, drop, u32, add32, append-nil, append_assoc, length-append, take-append_length,
  take-append-drop, length-take, length-drop, max,
}
use uav.Algorithm.Raft.State.{LogEntry}
use uav.Algorithm.Raft.Log.{len32, term_at, place, append_new}

-- Some new entry meets an old one of another term at its index.
unfoldable pub conflicts : List LogEntry → List LogEntry → Bool
conflicts [] new = false
conflicts (y ∷ ys) [] = false
conflicts (y ∷ ys) (e ∷ es) = not (y.term == e.term) || conflicts ys es

-- What ought to follow the entries up to PrevLogIndex: the new entries, and behind them the old
-- ones only if no new one conflicts.
unfoldable pub merged : List LogEntry → List LogEntry → List LogEntry
merged old new = if conflicts old new then new else new ++ drop (length new) old

-- Log matching: entries of one index and one term are the same.
abbrev pub Matches : List LogEntry → List LogEntry → Type 0
Matches [] new = Unit {0}
Matches (y ∷ ys) [] = Unit {0}
Matches (y ∷ ys) (e ∷ es) = (y.term ≡ e.term → y ≡ e) × Matches ys es

get_elem?-append_length {ℓ} :
    {A : Type ℓ} (xs : List A) (y : A) (ys : List A) → get_elem? (xs ++ y ∷ ys) (length xs) ≡ some y
get_elem?-append_length [] y ys = refl
get_elem?-append_length (x ∷ xs) y ys = get_elem?-append_length xs y ys

term_at-append_length :
    (pre : List LogEntry) (y : LogEntry) (ys : List LogEntry)
    → term_at (pre ++ y ∷ ys) (length pre) ≡ y.term
unfolding term_at
term_at-append_length pre y ys = rw (get_elem?-append_length pre y ys, term_at)

module _ (pre : List LogEntry) (e : LogEntry) where
  place_end : length pre < u32 → place pre (length pre) e ≡ pre ++ e ∷ []
  unfolding place
  place_end h = ground (arith, mod-eq_of_lt h)

  len32-append :
      (y : LogEntry) (ys : List LogEntry)
      → length pre + suc (length ys) < u32
      → len32 (pre ++ y ∷ ys) ≡ length pre + suc (length ys)
  len32-append y ys h = omega (arith, length-append pre (y ∷ ys))

  place_inside :
      (y : LogEntry) (ys : List LogEntry)
      → length pre + suc (length ys) < u32
      → place (pre ++ y ∷ ys) (length pre) e
        ≡ (if y.term == e.term then pre ++ y ∷ ys else pre ++ e ∷ [])
  unfolding place
  place_inside y ys h = ground (
    arith,
    len32-append y ys h,
    get_elem?-append_length pre y ys,
    take-append_length pre (y ∷ ys),
  )

next :
    (pre : List LogEntry) (e : LogEntry) (es : List LogEntry)
    → length pre + suc (length es) < u32
    → add32 (length pre) 1 ≡ length (pre ++ e ∷ [])
next pre e es h = omega (arith, length-append pre (e ∷ []))

==_refl : (n : ℕ) → n == n ≡ true
==_refl n = (==_iff n n).1 refl

drop-nil {ℓ} : {A : Type ℓ} (n : ℕ) → drop {A = A} n [] ≡ []
drop-nil zero = refl
drop-nil (suc n) = refl

merged-nil : (es : List LogEntry) → merged [] es ≡ es
unfolding merged conflicts
merged-nil es = rw (drop-nil, append-nil)

-- The loop past the end of the log appends.
append_new_end :
    (pre new : List LogEntry)
    → length pre + length new < u32
    → append_new pre (length pre) new ≡ pre ++ new
unfolding append_new
append_new_end pre [] k = sym (append-nil pre)
append_new_end pre (e ∷ es) k =
    rw (place_end pre e (omega arith), next pre e es k)
      (append_new_end (pre ++ e ∷ []) es (omega (arith, length-append pre (e ∷ [])))
        ∙ append_assoc pre (e ∷ []) es)

merged-same :
    (y e : LogEntry) (ys es : List LogEntry)
    → y.term == e.term ≡ true
    → merged (y ∷ ys) (e ∷ es) ≡ e ∷ merged ys es
unfolding merged conflicts
merged-same y e ys es h = ground arith

merged-differ :
    (y e : LogEntry) (ys es : List LogEntry)
    → y.term == e.term ≡ false
    → merged (y ∷ ys) (e ∷ es) ≡ e ∷ es
unfolding merged conflicts
merged-differ y e ys es h = ground arith

-- The loop over the new entries, with the old ones split at its index.
pub append_new-split :
    (pre old new : List LogEntry)
    → length pre + length old < u32
    → length pre + length new < u32
    → Matches old new
    → append_new (pre ++ old) (length pre) new ≡ pre ++ merged old new
unfolding append_new
append_new-split pre [] [] h k m = rw merged-nil
append_new-split pre (y ∷ ys) [] h k m = unfold merged conflicts in refl
append_new-split pre [] (e ∷ es) h k m = rw (append-nil, merged-nil) (append_new_end pre (e ∷ es) k)
append_new-split pre (y ∷ ys) (e ∷ es) h k m = elim (Bool-cases (y.term == e.term)) [
  | inl same ↦
      let y-eq-e = m.0 ((==_iff y.term e.term).0 same) in
      let grown = length-append pre (e ∷ []) in
      let step =
        append_new-split (pre ++ e ∷ []) ys es (omega (arith, grown)) (omega (arith, grown)) m.1 in
      rw
        (
          place_inside pre e y ys h,
          same,
          y-eq-e,
          next pre e es k,
          merged-same e e ys es (==_refl e.term),
          ← append_assoc pre (e ∷ []) ys,
        )
        (step ∙ append_assoc pre (e ∷ []) (merged ys es))
  | inr differ ↦
      rw (place_inside pre e y ys h, differ, merged-differ y e ys es differ, next pre e es k)
        (append_new_end (pre ++ e ∷ []) es (omega (arith, length-append pre (e ∷ [])))
          ∙ append_assoc pre (e ∷ []) es)
]

module _ (log new : List LogEntry) (i : ℕ) (inside : i ≤ length log) where
  length-front : length (take i log) ≡ i
  length-front = omega (arith, length-take i log)

  length-parts : length (take i log) + length (drop i log) ≡ length log
  length-parts =
      omega (arith, length-append (take i log) (drop i log), ap length (take-append-drop i log))

  -- With indices in the range of a word and log matching, the loop leaves the entries up to
  -- PrevLogIndex, then all new entries, and then what stood behind those if none conflicted.
  pub append_new-merged :
      length log < u32
      → i + length new < u32
      → Matches (drop i log) new
      → append_new log i new ≡ take i log ++ merged (drop i log) new
  append_new-merged h k m =
      rw (take-append-drop i log, length-front) at
        (append_new-split (take i log) (drop i log) new (omega (arith, length-parts))
          (omega (arith, length-front)) m)

-- Entries that do not conflict are kept: the result reaches at least as far.
merged_keeps :
    (k : ℕ) (old new : List LogEntry)
    → k ≤ length old
    → conflicts (take k old) new ≡ false
    → k ≤ length (merged old new)
unfolding merged conflicts
merged_keeps zero old new h e = omega arith
merged_keeps (suc k) [] new h e = absurd (omega arith)
merged_keeps (suc k) (y ∷ ys) [] h e = h
merged_keeps (suc k) (y ∷ ys) (n ∷ new) h e =
    ground (arith, merged_keeps k ys new, length-append new (drop (length new) ys))

length-merged :
    (old new : List LogEntry)
    → (length new ≤ length (merged old new))
      × (length (merged old new) ≤ max (length old) (length new))
unfolding merged
length-merged old new =
    ground (arith, length-append new (drop (length new) old), length-drop (length new) old)

module _ (log new : List LogEntry) (i : ℕ) (inside : i ≤ length log) (h : length log < u32)
    (k : i + length new < u32) (m : Matches (drop i log) new) where
  pub length-append_new-le : length (append_new log i new) ≤ max (length log) (i + length new)
  length-append_new-le = rw (append_new-merged log new i inside h k m) (
      omega (
        arith,
        length-append (take i log) (merged (drop i log) new),
        length-front log new i inside,
        length-parts log new i inside,
        length-merged (drop i log) new,
      ))

  -- What was committed stays in the log, if no new entry conflicts with it.
  pub committed-le-append_new :
      (commit : ℕ)
      → commit ≤ length log
      → conflicts (take (commit - i) (drop i log)) new ≡ false
      → commit ≤ length (append_new log i new)
  committed-le-append_new commit c e = rw (append_new-merged log new i inside h k m) (
      omega (
        arith,
        length-append (take i log) (merged (drop i log) new),
        length-front log new i inside,
        merged_keeps (commit - i) (drop i log) new
            (omega (arith, length-parts log new i inside, length-front log new i inside)) e,
      ))
