-- ===== src/Base/Tests.antt =====
-- Boolean tests on the native numbers, and the conditional.
use Prim.Native.Nat.{ℕ, ◌≤◌, ◌<◌, compare, Ordering}
use mathlib.Core.Path.{◌≡◌, refl, ap}
use mathlib.Core.Logic.{◌≢◌, ◌↔◌, ◌⊎◌, inl, inr}
use mathlib.Core.Bool.{Bool, true, false, ◌&&◌, ◌||◌}
use native.Mathlib.Omega.{arith}

abbrev pub ltb : ℕ → ℕ → Bool
ltb a b = elim (compare a b) [ Ordering.lt ↦ true | _ ↦ false ]

abbrev pub leb : ℕ → ℕ → Bool
leb a b = elim (compare a b) [ Ordering.gt ↦ false | _ ↦ true ]

infix 50 ◌==◌ ◌!=◌
abbrev pub ◌==◌ : ℕ → ℕ → Bool
a == b = elim (compare a b) [ Ordering.eq ↦ true | _ ↦ false ]

abbrev pub ◌!=◌ : ℕ → ℕ → Bool
a != b = elim (compare a b) [ Ordering.eq ↦ false | _ ↦ true ]

infix 1 if◌then◌else◌
abbrev pub if◌then◌else◌ {ℓ} : {A : Type ℓ} → Bool → A → A → A
if true then x else y = x
if false then x else y = y

pub ==_iff : (a b : ℕ) → ((a == b) ≡ true) ↔ (a ≡ b)
==_iff a b = ground arith

pub ==-ne : (a b : ℕ) → (a == b) ≡ false → a ≢ b
==-ne a b h = ground arith

pub !=-eq : (a b : ℕ) → (a != b) ≡ false → a ≡ b
!=-eq a b h = ground arith

pub !=-ne : (a b : ℕ) → (a != b) ≡ true → a ≢ b
!=-ne a b h = ground arith

pub ltb→lt : (a b : ℕ) → ltb a b ≡ true → a < b
ltb→lt a b h = ground arith

pub ltb→le : (a b : ℕ) → ltb a b ≡ false → b ≤ a
ltb→le a b h = ground arith

pub leb→le : (a b : ℕ) → leb a b ≡ true → a ≤ b
leb→le a b h = ground arith

pub leb→lt : (a b : ℕ) → leb a b ≡ false → b < a
leb→lt a b h = ground arith

-- To split on a computed value and keep the equation.
pub Bool-cases : (b : Bool) → (b ≡ true) ⊎ (b ≡ false)
Bool-cases true = inl refl
Bool-cases false = inr refl

pub true-not_false : {a : Bool} → a ≡ true → a ≢ false
true-not_false h k = ground arith

pub both : (a b : Bool) → (a && b) ≡ true → (a ≡ true) × (b ≡ true)
both true b h = (refl, h)
both false b h = absurd (true-not_false h refl)

pub either : (a b : Bool) → (a || b) ≡ true → (a ≡ true) ⊎ (b ≡ true)
either true b h = inl refl
either false b h = inr h

-- A conditional on a computed test, where its branches hold the test too.
pub if_true {ℓ} : {A : Type ℓ} {b : Bool} (x y : A) → b ≡ true → (if b then x else y) ≡ x
if_true x y h = ap (λ (c : Bool). if c then x else y) h

pub if_false {ℓ} : {A : Type ℓ} {b : Bool} (x y : A) → b ≡ false → (if b then x else y) ≡ y
if_false x y h = ap (λ (c : Bool). if c then x else y) h

-- Two tests compared by evaluation.
abbrev pub agree : Bool → Bool → Bool
agree true b = b
agree false true = false
agree false false = true

pub agree-eq : (a b : Bool) → agree a b ≡ true → a ≡ b
agree-eq true true h = refl
agree-eq true false h = absurd (true-not_false h refl)
agree-eq false false h = refl
agree-eq false true h = absurd (true-not_false h refl)

-- Both branches have the property.
pub if_both {ℓ ℓ'} :
    {A : Type ℓ} (P : A → Type ℓ') {x y : A} (t : Bool) → P x → P y → P (if t then x else y)
if_both P true px py = px
if_both P false px py = py

-- Each branch has the property where its test holds.
pub if_split {ℓ ℓ'} :
    {A : Type ℓ} (P : A → Type ℓ') {x y : A} (t : Bool)
    → (t ≡ true → P x)
    → (t ≡ false → P y)
    → P (if t then x else y)
if_split P true px py = px refl
if_split P false px py = py refl
