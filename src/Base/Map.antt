-- ===== src/Base/Map.antt =====
-- Go maps as association lists. The list's order stands for the order of one `range` loop.
-- Meant to be used qualified: `Map.get`.
use uav.Base.Tests.{Key, if◌then◌else◌, Bool-cases, none_ne, some_eq}
use mathlib.Core.Path.{◌≡◌, refl, sym, subst, ◌∙◌}
use mathlib.Core.Bool.{Bool, true, false, ◌||◌}
use mathlib.Core.Logic.{inl, inr}
use mathlib.Core.Option.{Option, none, some}
use mathlib.Core.List.{List, [], ◌∷◌, map}
use native.Mathlib.Omega.{arith}

abbrev pub Map {ℓ κ} : Type ℓ → Type κ → Type (ℓ ⊔ κ)
Map K V = List (K × V)

module _ {ℓ κ} {K : Type ℓ} {V : Type κ} where
  abbrev pub keys : Map K V → List K
  keys m = map (λ e. e.0) m

  abbrev pub values : Map K V → List V
  values m = map (λ e. e.1) m

  -- Keeps the entries that pass a test: a `range` loop that deletes the others.
  unfoldable pub retain : (K → V → Bool) → Map K V → Map K V
  retain p [] = []
  retain p ((k, v) ∷ m) = let rest = retain p m in if p k v then (k, v) ∷ rest else rest

pub same_refl {ℓ} : {K : Type ℓ} ⦃key : Key K⦄ (k : K) → key.same k k ≡ true
same_refl ⦃key⦄ k = (key.same_iff k k).1 refl

module _ {ℓ κ} {K : Type ℓ} {V : Type κ} ⦃key : Key K⦄ where
  unfoldable pub get : K → Map K V → Option V
  get k [] = none
  get k ((j, v) ∷ m) = if key.same j k then some v else get k m

  unfoldable pub put : K → V → Map K V → Map K V
  put k v [] = (k, v) ∷ []
  put k v ((j, w) ∷ m) = if key.same j k then (k, v) ∷ m else (j, w) ∷ put k v m

  unfoldable pub delete : K → Map K V → Map K V
  delete k [] = []
  delete k ((j, w) ∷ m) = let rest = delete k m in if key.same j k then rest else (j, w) ∷ rest

  pub get-put :
      (k j : K) (v : V) (m : Map K V)
      → get j (put k v m) ≡ (if key.same k j then some v else get j m)
  unfolding get put
  get-put k j v [] = refl
  get-put k j v ((i, w) ∷ m) =
      ground (arith, key.same_iff k j, key.same_iff i k, key.same_iff i j, get-put k j v m)

  pub get-put_self : (k : K) (v : V) (m : Map K V) → get k (put k v m) ≡ some v
  get-put_self k v m = rw (get-put k k v m, same_refl k)

  pub get-delete :
      (k j : K) (m : Map K V) → get j (delete k m) ≡ (if key.same k j then none else get j m)
  unfolding get delete
  get-delete k j [] = ground arith
  get-delete k j ((i, w) ∷ m) =
      ground (arith, key.same_iff k j, key.same_iff i k, key.same_iff i j, get-delete k j m)

  pub get-put_same :
      (k j : K) (v : V) (m : Map K V) → key.same k j ≡ true → get j (put k v m) ≡ some v
  get-put_same k j v m e = get-put k j v m ∙ rw e refl

  pub get-put_other :
      (k j : K) (v : V) (m : Map K V) → key.same k j ≡ false → get j (put k v m) ≡ get j m
  get-put_other k j v m e = get-put k j v m ∙ rw e refl

  pub get-delete_same : (k j : K) (m : Map K V) → key.same k j ≡ true → get j (delete k m) ≡ none
  get-delete_same k j m e = get-delete k j m ∙ rw e refl

  pub get-delete_other :
      (k j : K) (m : Map K V) → key.same k j ≡ false → get j (delete k m) ≡ get j m
  get-delete_other k j m e = get-delete k j m ∙ rw e refl

  -- What a `range` loop that deletes does not touch.
  pub get-retain :
      (p : K → V → Bool) (k : K) (v : V) (m : Map K V)
      → get k m ≡ some v
      → ((j : K) → key.same j k ≡ true → p j v ≡ true)
      → get k (retain p m) ≡ some v
  unfolding get retain
  get-retain p k v [] e h = e
  get-retain p k v ((j, w) ∷ m) e h = ground (arith, get-retain p k v m, h j)

abbrev pub is_some {ℓ} : {A : Type ℓ} → Option A → Bool
is_some none = false
is_some (some a) = true

module _ {ℓ} {K : Type ℓ} ⦃key : Key K⦄ where
  -- The key is in the list.
  abbrev pub listed : K → List K → Bool
  listed k [] = false
  listed k (j ∷ js) = key.same j k || listed k js

module _ {ℓ κ} {K : Type ℓ} {V : Type κ} ⦃key : Key K⦄ where
  pub listed-keys : (k : K) (m : Map K V) → listed k (keys m) ≡ is_some (get k m)
  unfolding get
  listed-keys k [] = refl
  listed-keys k ((j, v) ∷ m) = ground (arith, listed-keys k m)

-- A property of all the values.
abbrev pub Holds {ℓ κ η} : {K : Type ℓ} {V : Type κ} → (V → Type η) → Map K V → Type η
Holds P [] = Unit
Holds P ((k, v) ∷ m) = P v × Holds P m

module _ {ℓ κ η} {K : Type ℓ} {V : Type κ} (P : V → Type η) where
  pub Holds-retain : (p : K → V → Bool) (m : Map K V) → Holds P m → Holds P (retain p m)
  unfolding retain
  Holds-retain p [] h = h
  Holds-retain p ((j, w) ∷ m) (x, h) =
      let rest = Holds-retain p m h in
      elim (Bool-cases (p j w)) [ inl e ↦ rw e (x, rest) | inr e ↦ rw e rest ]

  pub Holds-put :
      ⦃key : Key K⦄ → (k : K) (v : V) (m : Map K V) → P v → Holds P m → Holds P (put k v m)
  unfolding put
  Holds-put ⦃key⦄ k v [] y h = (y, h)
  Holds-put ⦃key⦄ k v ((j, w) ∷ m) y (x, h) =
      let rest = Holds-put k v m y h in
      elim (Bool-cases (key.same j k)) [ inl e ↦ rw e (y, h) | inr e ↦ rw e (x, rest) ]

  pub Holds-delete : ⦃key : Key K⦄ → (k : K) (m : Map K V) → Holds P m → Holds P (delete k m)
  unfolding delete
  Holds-delete k [] h = h
  Holds-delete ⦃key⦄ k ((j, w) ∷ m) (x, h) =
      let rest = Holds-delete k m h in
      elim (Bool-cases (key.same j k)) [ inl e ↦ rw e rest | inr e ↦ rw e (x, rest) ]

  pub Holds-get : ⦃key : Key K⦄ → (k : K) (v : V) (m : Map K V) → Holds P m → get k m ≡ some v → P v
  unfolding get
  Holds-get k v [] h e = absurd (none_ne v e)
  Holds-get ⦃key⦄ k v ((j, w) ∷ m) (x, h) e = elim (Bool-cases (key.same j k)) [
    | inl same ↦ subst P (some_eq w v (sym (rw same refl) ∙ e)) x
    | inr other ↦ Holds-get k v m h (sym (rw other refl) ∙ e)
  ]
