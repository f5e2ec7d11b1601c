-- ===== src/Base/Tests.antt =====
-- Boolean tests on identifiers and on values that may be null, and case splits that keep the equation.
use Prim.Native.Nat.{ℕ, compare, Ordering}
use Prim.Native.String.{String}
use text.Mathlib.Text
use text.Mathlib.TextEquality
use text.Mathlib.TextPositions
use mathlib.Core.Path.{◌≡◌, refl}
use mathlib.Core.Logic.{◌↔◌, ◌⊎◌, inl, inr}
use mathlib.Core.Bool.{Bool, true, false, not}
use mathlib.Core.Option.{Option, none, some}
use native.Mathlib.Omega.{arith}

abbrev pub ltb : ℕ → ℕ → Bool
ltb a b = elim (compare a b) [ Ordering.lt ↦ true | _ ↦ false ]

abbrev pub leb : ℕ → ℕ → Bool
leb a b = elim (compare a b) [ Ordering.gt ↦ false | _ ↦ true ]

infix 50 ◌==◌
abbrev pub ◌==◌ : ℕ → ℕ → Bool
a == b = elim (compare a b) [ Ordering.eq ↦ true | _ ↦ false ]

infix 1 if◌then◌else◌
abbrev pub if◌then◌else◌ {ℓ} : {A : Type ℓ} → Bool → A → A → A
if true then x else y = x
if false then x else y = y

pub ==_refl : (a : ℕ) → (a == a) ≡ true
==_refl a = ground arith

pub ==_iff : (a b : ℕ) → ((a == b) ≡ true) ↔ (a ≡ b)
==_iff a b = ground arith

pub Bool-cases : (b : Bool) → (b ≡ true) ⊎ (b ≡ false)
Bool-cases true = inl refl
Bool-cases false = inr refl

module _ {ℓ} {A : Type ℓ} where
  pub Option-cases : (o : Option A) → (o ≡ none) ⊎ ((a : A) × (o ≡ some a))
  Option-cases none = inl refl
  Option-cases (some a) = inr (a, refl)

  abbrev pub is_some : Option A → Bool
  is_some none = false
  is_some (some _) = true

-- `column === id`, for a column that may be null and an identifier that is not.
infix 50 ◌is◌
abbrev pub ◌is◌ : Option ℕ → ℕ → Bool
none is k = false
some j is k = j == k

pub not-eq-false : (b : Bool) → not b ≡ false → b ≡ true
not-eq-false true h = refl
not-eq-false false h = cc

-- `===` on texts.
abbrev pub same_text : String → String → Bool
same_text a b = Text.◌==◌ a b

pub same_text_iff : (a b : String) → (same_text a b ≡ true) ↔ (a ≡ b)
same_text_iff a b = TextEquality.eq_iff a b

pub same_text_refl : (a : String) → same_text a a ≡ true
same_text_refl a = TextPositions.eq_refl a

-- A guard that is passed.
pub if-not {ℓ} :
    {A : Type ℓ} (c : Bool) (thrown rest : A) → c ≡ true → (if not c then thrown else rest) ≡ rest
if-not true thrown rest h = refl
if-not false thrown rest h = cc

-- `text.includes(part)`
abbrev pub contains : String → String → Bool
contains s part = is_some (Text.find? s part)
