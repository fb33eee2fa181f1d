-- ===== src/Cmd/Bench/Agreement.antt =====
-- The number of entries tells whether a state has all keys.
use uav.Base.{
  Key, ◌+◌, ◌<◌, ◌≤◌, ◌≡◌, refl, sym, ap, ◌∙◌, ltb, not, ◌&&◌, Bool, true, false, String, List, [],
  ◌∷◌, if◌then◌else◌, length, string_key, arith, inl, inr, Bool-cases,
}
use uav.Base.Map
use uav.Base.Map.{keys, listed, listed-keys, is_some}
use uav.Algorithm.Gossip.{State}
use uav.Cmd.Bench.{all_converged, missing, all_match}

module _ {K : Type 0} ⦃key : Key K⦄ where
  -- No key occurs twice.
  abbrev pub are_distinct : List K → Bool
  are_distinct [] = true
  are_distinct (k ∷ ks) = not (listed k ks) && are_distinct ks

  abbrev pub Within : List K → List K → Type 0
  Within xs ys = (k : K) → listed k xs ≡ true → listed k ys ≡ true

  unfoldable without : K → List K → List K
  without k [] = []
  without k (j ∷ js) = let rest = without k js in if key.same j k then rest else j ∷ rest

  length-without : (k : K) (ys : List K) → length (without k ys) ≤ length ys
  unfolding without
  length-without k [] = omega arith
  length-without k (j ∷ ys) = ground (arith, length-without k ys)

  length-without-listed :
      (k : K) (ys : List K) → listed k ys ≡ true → length (without k ys) < length ys
  unfolding without
  length-without-listed k [] l = cc
  length-without-listed k (j ∷ ys) l = elim (Bool-cases (key.same j k)) [
    | inl this ↦ rw this (ground (arith, length-without k ys))
    | inr other ↦ rw other (ground (arith, l, other, length-without-listed k ys))
  ]

  listed-without :
      (j k : K) (ys : List K) → key.same k j ≡ false → listed j (without k ys) ≡ listed j ys
  unfolding without
  listed-without j k [] other = refl
  listed-without j k (i ∷ ys) other = ground (
    arith,
    other,
    key.same_iff k j,
    key.same_iff i k,
    key.same_iff i j,
    listed-without j k ys other,
  )

  Within-without :
      (k : K) (xs ys : List K) → listed k xs ≡ false → Within xs ys → Within xs (without k ys)
  Within-without k xs ys absent h j l = elim (Bool-cases (key.same k j)) [
    | inl same ↦
        absurd (ground (arith, absent, ap (λ i. listed i xs) ((key.same_iff k j).0 same), l))
    | inr other ↦ listed-without j k ys other ∙ h j l
  ]

  pub length-Within :
      (xs ys : List K) → are_distinct xs ≡ true → Within xs ys → length xs ≤ length ys
  length-Within [] ys d h = omega arith
  length-Within (x ∷ xs) ys d h =
      let here = h x (ground (arith, Map.same_refl x)) in
      let fewer = length-without-listed x ys here in
      let rest =
        length-Within xs (without x ys) (ground (arith, d))
          (Within-without x xs ys (ground (arith, d)) λ k l. h k (ground (arith, l))) in
      omega (arith, fewer, rest)

  -- As many distinct ones as there are, are all of them.
  pub length-Within_all :
      (xs ys : List K)
      → are_distinct xs ≡ true
      → Within xs ys
      → length ys ≤ length xs
      → Within ys xs
  length-Within_all xs ys d h enough k l = elim (Bool-cases (listed k xs)) [
    | inl there ↦ there
    | inr absent ↦ absurd (
        omega (
          arith,
          length-Within xs (without k ys) d (Within-without k xs ys absent h),
          length-without-listed k ys l,
          enough,
        ))
  ]

length-keys : (m : State) → length (keys m) ≡ length m
length-keys [] = refl
length-keys (e ∷ m) = omega (arith, length-keys m)

missing-Within : (ks : List String) (m : State) → Within ks (keys m) → missing ks m ≡ 0
unfolding missing
missing-Within [] m h = refl
missing-Within (k ∷ ks) m h =
    let here : is_some (Map.get k m) ≡ true =
      sym (listed-keys k m) ∙ h k (ground (arith, Map.same_refl k)) in
    rw here (missing-Within ks m λ j l. h j (ground (arith, l)))

Within-missing : (ks : List String) (m : State) → missing ks m ≡ 0 → Within ks (keys m)
unfolding missing
Within-missing [] m e j l = cc
Within-missing (k ∷ ks) m e j l = elim (Bool-cases (is_some (Map.get k m))) [
  | inl there ↦
      let rest : missing (k ∷ ks) m ≡ missing ks m = rw there refl in
      elim (Bool-cases (string_key.same k j)) [
        | inl same ↦
            ap (λ i. listed i (keys m)) (sym ((string_key.same_iff k j).0 same))
            ∙ listed-keys k m
            ∙ there
        | inr other ↦ Within-missing ks m (sym rest ∙ e) j (ground (arith, l, other))
      ]
  | inr absent ↦
      let rest : missing (k ∷ ks) m ≡ missing ks m + 1 = rw absent refl in
      absurd (omega (arith, rest, e))
]

-- States with no other keys than these.
abbrev pub HaveOnly : List String → List State → Type 0
HaveOnly ks [] = Unit
HaveOnly ks (snap ∷ snaps) =
    (are_distinct (keys snap) ≡ true) × Within (keys snap) ks × HaveOnly ks snaps

few-missing :
    (ks : List String) (m : State)
    → are_distinct ks ≡ true
    → are_distinct (keys m) ≡ true
    → Within (keys m) ks
    → ltb (length m) (length ks) ≡ ltb 0 (missing ks m)
few-missing ks m different distinct only = elim (Bool-cases (ltb 0 (missing ks m))) [
  | inr all_there ↦
      let back = Within-missing ks m (ground (arith, all_there)) in
      let enough = length-Within ks (keys m) different back in
      ground (arith, all_there, enough, length-keys m)
  | inl some_missing ↦ elim (Bool-cases (ltb (length m) (length ks))) [
    | inl few ↦ few ∙ sym some_missing
    | inr many ↦ absurd (
        ground (
          arith,
          some_missing,
          missing-Within ks m
              (length-Within_all (keys m) ks distinct only (ground (arith, many, length-keys m))),
        ))
  ]
]

-- If the states have no keys but those that the nodes set, each at most once, then the test of the number
-- of entries, by which the loop decides that the nodes have converged, tells the same as the check of
-- every key of every node after it.
pub all_converged-all_match :
    (ks : List String) (snaps : List State)
    → are_distinct ks ≡ true
    → HaveOnly ks snaps
    → all_converged (length ks) snaps ≡ all_match ks snaps
unfolding all_converged all_match
all_converged-all_match ks [] different only = refl
all_converged-all_match ks (snap ∷ snaps) different (distinct, within, rest) =
    let same = few-missing ks snap different distinct within in
    let others = all_converged-all_match ks snaps different rest in rw (same, others) refl
