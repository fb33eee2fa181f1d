-- ===== src/Algorithm/Replica/Convergence.antt =====
-- Replicas that merge each other's states: which entry of a key they keep.
use uav.Base.{
  ℕ, ◌+◌, ◌<◌, ◌≡◌, refl, sym, ltb, Bool, true, false, max, Option, none, some, String, List, [],
  ◌∷◌, inl, inr, Bool-cases, Option-cases, if◌then◌else◌, string_key, u64, arith, str_eq, eq_iff,
  subst,
}
use uav.Base.Map
use uav.Base.Map.{Map, get-put, get-put_self}
use uav.Algorithm.Replica.{Entry, set, next_version, wins, absorb, merge}

-- No key stands twice, as in any Go map.
abbrev pub IsMap {ℓ} : {V : Type ℓ} → Map String V → Type ℓ
IsMap [] = Unit
IsMap ((k, e) ∷ m) = (Map.get k m ≡ none) × IsMap m

module _ {V : Type 0} where
  -- The entry with the higher version, and the first one on a tie.
  abbrev pub newer : Option (Entry V) → Option (Entry V) → Option (Entry V)
  newer none o = o
  newer (some e) none = some e
  newer (some e) (some f) = if ltb e.version f.version then some f else some e

  newer-none : (o : Option (Entry V)) → newer o none ≡ o
  newer-none none = refl
  newer-none (some e) = refl

  pub get-absorb :
      (k key : String) (e : Entry V) (m : Map String (Entry V))
      → Map.get key (absorb k e m)
        ≡ (if str_eq k key then newer (Map.get key m) (some e) else Map.get key m)
  unfolding absorb wins
  get-absorb k key e m = ground (arith, get-put k key e m, eq_iff k key)

  pub merge-newer :
      (m remote : Map String (Entry V))
      → IsMap remote
      → (key : String) → Map.get key (merge m remote) ≡ newer (Map.get key m) (Map.get key remote)
  unfolding merge Map.get
  merge-newer m [] u key = sym (newer-none (Map.get key m))
  merge-newer m ((k, e) ∷ rest) (fresh, u) key =
      ground (arith, merge-newer (absorb k e m) rest u key, get-absorb k key e m, eq_iff k key)

put-IsMap : {V : Type 0} (k : String) (v : V) (m : Map String V) → IsMap m → IsMap (Map.put k v m)
unfolding Map.put Map.get
put-IsMap k v [] u = (refl, u)
put-IsMap k v ((j, w) ∷ m) (fresh, u) =
    let later = put-IsMap k v m u in
    elim (Bool-cases (str_eq j k)) [
      | inl same ↦
          let j-eq-k = (eq_iff j k).0 same in
          rw same (subst (λ x. Map.get x m ≡ none) j-eq-k fresh, u)
      | inr other ↦ rw other ((ground (arith, get-put k j v m, eq_iff j k, eq_iff k j)), later)
    ]

module _ {V : Type 0} where
  pub merge-IsMap : (m remote : Map String (Entry V)) → IsMap m → IsMap (merge m remote)
  unfolding merge absorb
  merge-IsMap m [] u = u
  merge-IsMap m ((k, e) ∷ rest) u = elim (Bool-cases (wins e (Map.get k m))) [
    | inl better ↦ rw better (merge-IsMap (Map.put k e m) rest (put-IsMap k e m u))
    | inr worse ↦ rw worse (merge-IsMap m rest u)
  ]

  pub set-IsMap : (k : String) (v : V) (m : Map String (Entry V)) → IsMap m → IsMap (set k v m)
  unfolding set
  set-IsMap k v m u = put-IsMap k _ m u

  -- Equal versions of a key come with equal values.
  unfoldable pub Coherent : Map String (Entry V) → Map String (Entry V) → Type 0
  Coherent m remote =
      (key : String) (e f : Entry V)
      → Map.get key m ≡ some e
      → Map.get key remote ≡ some f
      → e.version ≡ f.version
      → e ≡ f

  newer_comm :
      (o p : Option (Entry V))
      → ((e f : Entry V) → o ≡ some e → p ≡ some f → e.version ≡ f.version → e ≡ f)
      → newer o p ≡ newer p o
  newer_comm none p c = sym (newer-none p)
  newer_comm (some e) none c = refl
  newer_comm (some e) (some f) c = ground (arith, c e f refl refl)

  -- Two replicas, with no key twice, that merge each other's state hold the same entry of every key,
  -- when equal versions of a key come with equal values.
  pub exchange-agrees :
      (m remote : Map String (Entry V))
      → IsMap m
      → IsMap remote
      → Coherent m remote
      → (key : String) → Map.get key (merge m remote) ≡ Map.get key (merge remote m)
  unfolding Coherent
  exchange-agrees m remote u v c key =
      rw (merge-newer m remote v key, merge-newer remote m u key)
        (newer_comm (Map.get key m) (Map.get key remote) (c key))

  newer_again : (o p : Option (Entry V)) → newer (newer o p) p ≡ newer o p
  newer_again none none = refl
  newer_again none (some f) = ground arith
  newer_again (some e) none = refl
  newer_again (some e) (some f) = ground arith

  -- Merging the same state twice changes no entry more than merging it once.
  pub merge-again :
      (m remote : Map String (Entry V))
      → IsMap remote
      → (key : String) → Map.get key (merge (merge m remote) remote) ≡ Map.get key (merge m remote)
  merge-again m remote u key =
      rw
        (
          merge-newer (merge m remote) remote u key,
          merge-newer m remote u key,
          newer_again (Map.get key m) (Map.get key remote),
        )
        refl

  -- The version of a key, 0 where it is missing.
  abbrev pub version_of : Option (Entry V) → ℕ
  version_of none = 0
  version_of (some e) = e.version

  version_of-newer :
      (o p : Option (Entry V)) → version_of (newer o p) ≡ max (version_of o) (version_of p)
  version_of-newer none p = omega arith
  version_of-newer (some e) none = omega arith
  version_of-newer (some e) (some f) = ground arith

  pub version-merge :
      (m remote : Map String (Entry V))
      → IsMap remote
      → (key : String)
      → version_of (Map.get key (merge m remote))
        ≡ max (version_of (Map.get key m)) (version_of (Map.get key remote))
  version-merge m remote u key =
      rw (merge-newer m remote u key) (version_of-newer (Map.get key m) (Map.get key remote))

  pub version-set :
      (m : Map String (Entry V)) (k : String) (v : V)
      → version_of (Map.get k m) + 1 < u64
      → Map.get k (set k v m) ≡ some (record { value = v; version = version_of (Map.get k m) + 1 })
  unfolding set next_version
  version-set m k v h = rw (get-put_self k _ m) (ground (arith, Option-cases (Map.get k m)))

  -- Set changes no other key.
  pub get-set_ne :
      (m : Map String (Entry V)) (k key : String) (v : V)
      → str_eq k key ≡ false
      → Map.get key (set k v m) ≡ Map.get key m
  unfolding set
  get-set_ne m k key v h =
      let e : Entry V = record { value = v; version = next_version (Map.get k m) } in
      rw (get-put k key e m, h) refl

  -- Two replicas that take turns at merging the other's state: `true` is the first one's turn.
  unfoldable pub turns :
      List Bool
      → Map String (Entry V) × Map String (Entry V)
      → Map String (Entry V) × Map String (Entry V)
  turns [] p = p
  turns (true ∷ bs) (m, n) = turns bs (merge m n, n)
  turns (false ∷ bs) (m, n) = turns bs (m, merge n m)

  -- Two replicas, with no key twice, that hold entries of a key at the same version keep them, however
  -- often each merges the other's state.
  pub turns-tie :
      (turn : List Bool) (m n : Map String (Entry V)) (key : String) (e f : Entry V)
      → IsMap m
      → IsMap n
      → Map.get key m ≡ some e
      → Map.get key n ≡ some f
      → e.version ≡ f.version
      → (Map.get key (turns turn (m, n)).0 ≡ some e) × (Map.get key (turns turn (m, n)).1 ≡ some f)
  unfolding turns
  turns-tie [] m n key e f u v x y t = (x, y)
  turns-tie (true ∷ bs) m n key e f u v x y t =
      turns-tie bs (merge m n) n key e f (merge-IsMap m n u) v
        (rw (merge-newer m n v key, x, y) (ground arith)) y t
  turns-tie (false ∷ bs) m n key e f u v x y t =
      turns-tie bs m (merge n m) key e f u (merge-IsMap n m v) x
        (rw (merge-newer n m u key, x, y) (ground arith)) t
