-- ===== src/Algorithm/Raft/Cluster/After.antt =====
-- What holds of the result of a handler, if it returns.
use uav.Base.{◌≡◌, refl, Bool, true, false, inl, inr, Bool-cases, if◌then◌else◌, subst}
use uav.Algorithm.Raft.State.{Run, ok, panic, ◌>>=◌}

pub data After {ℓ} {A : Type 0} (P : A → Type ℓ) : Run A → Type ℓ where
  returned : {a : A} → P a → After P (ok a)
  panicked : After P panic

pub After-at {ℓ} : {A : Type 0} {P : A → Type ℓ} {r : Run A} {a : A} → After P r → r ≡ ok a → P a
After-at {P} (returned p) e = subst P (cc) p
After-at panicked e = absurd (cc)

pub After-if {ℓ} :
    {A : Type 0} {P : A → Type ℓ} {yes otherwise : Run A} (c : Bool)
    → (c ≡ true → After P yes)
    → (c ≡ false → After P otherwise)
    → After P (if c then yes else otherwise)
After-if c entered skipped = elim (Bool-cases c) [
  | inl e ↦ rw e (entered e)
  | inr e ↦ rw e (skipped e)
]

pub After-bind {ℓ κ} :
    {A B : Type 0} {P : A → Type ℓ} {Q : B → Type κ} {first : Run A} {next : A → Run B}
    → After P first
    → ((a : A) → P a → After Q (next a))
    → After Q (first >>= next)
After-bind (returned {a} held) rest = rest a held
After-bind panicked rest = panicked

pub After-map {ℓ κ} :
    {A : Type 0} {P : A → Type ℓ} {Q : A → Type κ} {r : Run A}
    → After P r
    → ((a : A) → P a → Q a)
    → After Q r
After-map (returned {a} held) f = returned (f a held)
After-map panicked f = panicked

pub After-any : {A : Type 0} (r : Run A) → After (λ a. r ≡ ok a) r
After-any (ok a) = returned refl
After-any panic = panicked
