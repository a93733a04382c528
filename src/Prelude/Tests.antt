-- ===== src/Prelude/Tests.antt =====
-- Boolean tests, the conditional, and keys that can be compared.
use Prim.Native.Nat.{ℕ, compare, Ordering}
use mathlib.Core.Path.{◌≡◌, refl, ap₂}
use mathlib.Core.Logic.{◌⊎◌, inl, inr}
use mathlib.Core.Bool.{Bool, true, false}
use mathlib.Core.List.{List, [], ◌∷◌}
use mathlib.Core.Option.{Option, none, some}
use native.Mathlib.Omega.{arith}
use native.Mathlib.Decide.{ℕ_discrete}

abbrev pub ltb : ℕ → ℕ → Bool
ltb a b = elim (compare a b) [ Ordering.lt ↦ true | _ ↦ false ]

abbrev pub leb : ℕ → ℕ → Bool
leb a b = elim (compare a b) [ Ordering.gt ↦ false | _ ↦ true ]

infix 1 if◌then◌else◌
abbrev pub if◌then◌else◌ {ℓ} : {A : Type ℓ} → Bool → A → A → A
if true then x else y = x
if false then x else y = y

-- What `Eq` and `Hash` of the source give a key: a decision.
pub record Key {ℓ} (K : Type ℓ) : Type ℓ where
  pub decide : Discrete K

instance abbrev pub nat_key : Key ℕ
nat_key = record { decide = ℕ_discrete }

module _ {ℓ} {A : Type ℓ} where
  pub nil≢cons : (y : A) (ys : List A) → ¬ ([] ≡ y ∷ ys)
  nil≢cons y ys e = cc

  pub cons≢nil : (x : A) (xs : List A) → ¬ (x ∷ xs ≡ [])
  cons≢nil x xs e = cc

  pub head-≢ : (x y : A) (xs ys : List A) → ¬ (x ≡ y) → ¬ (x ∷ xs ≡ y ∷ ys)
  head-≢ x y xs ys n e = n (cc)

  pub tail-≢ : (x y : A) (xs ys : List A) → ¬ (xs ≡ ys) → ¬ (x ∷ xs ≡ y ∷ ys)
  tail-≢ x y xs ys n e = n (cc)

  unfoldable pub list_discrete : Discrete A → Discrete (List A)
  list_discrete d [] [] = yes refl
  list_discrete d [] (y ∷ ys) = no (nil≢cons y ys)
  list_discrete d (x ∷ xs) [] = no (cons≢nil x xs)
  list_discrete d (x ∷ xs) (y ∷ ys) = elim (d x y) [
    | no n ↦ no (head-≢ x y xs ys n)
    | yes p ↦ elim (list_discrete d xs ys) [
      | no n ↦ no (tail-≢ x y xs ys n)
      | yes q ↦ yes (ap₂ ◌∷◌ p q)
    ]
  ]

instance abbrev pub list_key {ℓ} : {A : Type ℓ} ⦃e : Key A⦄ → Key (List A)
list_key ⦃e⦄ = record { decide = list_discrete e.decide }

infix 50 ◌==◌
abbrev pub ◌==◌ {ℓ} : {K : Type ℓ} ⦃e : Key K⦄ → K → K → Bool
◌==◌ ⦃e⦄ a b = elim (e.decide a b) [ yes _ ↦ true | no _ ↦ false ]

pub ==-refl {ℓ} : {K : Type ℓ} ⦃e : Key K⦄ (a : K) → (a == a) ≡ true
==-refl a = ground arith

pub ==→≡ {ℓ} : {K : Type ℓ} ⦃e : Key K⦄ (a b : K) → (a == b) ≡ true → a ≡ b
==→≡ a b h = ground arith

-- To split on a computed value and keep the equation.
pub Bool-cases : (b : Bool) → (b ≡ true) ⊎ (b ≡ false)
Bool-cases true = inl refl
Bool-cases false = inr refl

pub Option-cases {ℓ} : {A : Type ℓ} (o : Option A) → (o ≡ none) ⊎ ((a : A) × (o ≡ some a))
Option-cases none = inl refl
Option-cases (some a) = inr (a, refl)

abbrev pub is_some {ℓ} : {A : Type ℓ} → Option A → Bool
is_some none = false
is_some (some a) = true
