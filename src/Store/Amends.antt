-- ===== src/Store/Amends.antt =====
-- Updates of many rows, one after the other.
use egypt_supply_chain_visib.Base.{
  ◌≡◌, refl, inl, inr, Bool, false, ◌||◌, Bool-cases, Option, none, some, arith,
}
use egypt_supply_chain_visib.Store.{amend}

-- Two changes one after the other are one change, if the first does not touch what the second asks.
pub amend_twice :
    {R : Type 0} (p q : R → Bool) (f : R → R) (row : Option R)
    → ((x : R) → q (f x) ≡ q x)
    → ((x : R) → f (f x) ≡ f x)
    → amend q f (amend p f row) ≡ amend (λ x. p x || q x) f row
amend_twice p q f none blind once = refl
amend_twice p q f (some x) blind once = elim (Bool-cases (p x)) [
  | inl hit ↦ elim (Bool-cases (q x)) [
    | inl again ↦ ground (arith, blind x, once x)
    | inr done ↦ ground (arith, blind x)
  ]
  | inr miss ↦ ground arith
]

pub amend_same :
    {R : Type 0} (p q : R → Bool) (f : R → R) (row : Option R)
    → ((x : R) → p x ≡ q x)
    → amend p f row ≡ amend q f row
amend_same p q f none same = refl
amend_same p q f (some x) same = ground (arith, same x)

pub amend_nothing : {R : Type 0} (f : R → R) (row : Option R) → row ≡ amend (λ x. false) f row
amend_nothing f none = refl
amend_nothing f (some x) = refl
