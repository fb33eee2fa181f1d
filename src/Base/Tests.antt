-- ===== src/Base/Tests.antt =====
-- Boolean tests on numbers and on texts, the conditional, and case lemmas.
use Prim.Native.Nat.{ℕ, ◌≤◌, ◌<◌, compare, Ordering}
use Prim.Native.String.{String}
use mathlib.Core.Path.{◌≡◌, refl, ap, ap₂}
use mathlib.Core.Logic.{◌↔◌, ◌⊎◌, inl, inr}
use mathlib.Core.Bool.{Bool, true, false, ◌&&◌}
use mathlib.Core.Option.{Option, none, some}
use native.Mathlib.Omega.{arith}
pub use text.Mathlib.Text.{◌==◌ as str_eq}
pub use text.Mathlib.TextEquality.{eq_iff}

abbrev pub ltb : ℕ → ℕ → Bool
ltb a b = elim (compare a b) [ Ordering.lt ↦ true | _ ↦ false ]

abbrev pub leb : ℕ → ℕ → Bool
leb a b = elim (compare a b) [ Ordering.gt ↦ false | _ ↦ true ]

infix 50 ◌==◌
abbrev pub ◌==◌ : ℕ → ℕ → Bool
a == b = elim (compare a b) [ Ordering.eq ↦ true | _ ↦ false ]

infix 1 if◌then◌else◌
abbrev pub if◌then◌else◌ {ℓ} : {A : Type ℓ} → Bool → A → A → A
if true then x else y = x
if false then x else y = y

pub ltb→lt : (a b : ℕ) → ltb a b ≡ true → a < b
ltb→lt a b h = ground arith

pub lt→ltb : (a b : ℕ) → a < b → ltb a b ≡ true
lt→ltb a b h = ground arith

pub leb→le : (a b : ℕ) → leb a b ≡ true → a ≤ b
leb→le a b h = ground arith

pub ==_iff : (a b : ℕ) → ((a == b) ≡ true) ↔ (a ≡ b)
==_iff a b = ground arith

-- To split on a computed value and keep the equation.
pub Bool-cases : (b : Bool) → (b ≡ true) ⊎ (b ≡ false)
Bool-cases true = inl refl
Bool-cases false = inr refl

pub Option-cases {ℓ} : {A : Type ℓ} (o : Option A) → (o ≡ none) ⊎ ((a : A) × (o ≡ some a))
Option-cases none = inl refl
Option-cases (some a) = inr (a, refl)

-- A step that may panic, which is `none`.
infixl 5 ◌>>=◌
abbrev pub ◌>>=◌ {ℓ κ} : {A : Type ℓ} {B : Type κ} → Option A → (A → Option B) → Option B
none >>= f = none
some a >>= f = f a

pub none_ne {ℓ} : {A : Type ℓ} (a : A) → none ≡ some a → ⊥
none_ne a e = ground (arith, e)

pub some_eq {ℓ} : {A : Type ℓ} (a b : A) → some a ≡ some b → a ≡ b
some_eq a b e = cc

pub true_ne : true ≡ false → ⊥
true_ne e = ground arith

-- Types whose values are keys of a Go map.
pub record Key {ℓ} (K : Type ℓ) : Type ℓ where
  pub same : K → K → Bool
  pub same_iff : (a b : K) → (same a b ≡ true) ↔ (a ≡ b)

instance abbrev pub nat_key : Key ℕ
nat_key = record { same = ◌==◌; same_iff = ==_iff }

instance abbrev pub string_key : Key String
string_key = record { same = str_eq; same_iff = eq_iff }

pub pair_same_iff {ℓ κ} :
    {K : Type ℓ} {L : Type κ} ⦃left : Key K⦄ ⦃right : Key L⦄ (p q : K × L)
    → ((left.same p.0 q.0 && right.same p.1 q.1) ≡ true) ↔ (p ≡ q)
pair_same_iff ⦃left⦄ ⦃right⦄ (a, b) (c, d) = (
  λ h. ap₂ (λ x y. (x, y)) ((left.same_iff a c).0 (both h).0) ((right.same_iff b d).0 (both h).1),
  λ e. joined ((left.same_iff a c).1 (ap (λ p. p.0) e)) ((right.same_iff b d).1 (ap (λ p. p.1) e)),
)
  where
    both :
        (left.same a c && right.same b d) ≡ true → (left.same a c ≡ true) × (right.same b d ≡ true)
    both h = ground arith

    joined : left.same a c ≡ true → right.same b d ≡ true → (left.same a c && right.same b d) ≡ true
    joined x y = ground arith

instance abbrev pub pair_key {ℓ κ} :
    {K : Type ℓ} {L : Type κ} ⦃left : Key K⦄ ⦃right : Key L⦄ → Key (K × L)
pair_key ⦃left⦄ ⦃right⦄ = record {
  same = λ p q. left.same p.0 q.0 && right.same p.1 q.1;
  same_iff = pair_same_iff;
}
