-- ===== src/Store/Slots.antt =====
-- Rows under the numbers below a bound.
pub mod Search
use mathlib.Core.List.{Memᴰ}
use egypt_supply_chain_visib.Base.{
  List, [], ◌∷◌, refl, ◌≤◌, ℕ, zero, suc, ◌+◌, ◌<◌, ◌≡◌, ap, sym, ◌∙◌, Bool, true, false, Option,
  none, some, arith, ◌==◌, ltb, if◌then◌else◌, inl, inr, Bool-cases, Option-cases,
}
use egypt_supply_chain_visib.Store.{Table, amend, discard}

abbrev pub Slots : Type 0 → Type 0
Slots R = ℕ × (ℕ → Option R)

module _ {R : Type 0} where
  abbrev pub find_slot : Slots R → ℕ → Option R
  find_slot (bound, at) k = if ltb k bound then at k else none

  abbrev pub save_slot : Slots R → ℕ → R → Slots R
  save_slot (bound, at) k r =
      (suc (bound + k), λ j. if k == j then some r else find_slot (bound, at) j)

  abbrev pub delete_slot : Slots R → ℕ → Slots R
  delete_slot (bound, at) k = (bound, λ j. if k == j then none else at j)

  abbrev pub matches : Option R → (R → Bool) → ℕ
  matches none p = 0
  matches (some r) p = if p r then 1 else 0

  abbrev pub count_below : ℕ → (ℕ → Option R) → (R → Bool) → ℕ
  count_below zero at p = 0
  count_below (suc n) at p = matches (at n) p + count_below n at p

  abbrev pub count_slots : Slots R → (R → Bool) → ℕ
  count_slots (bound, at) p = count_below bound at p

  pub find-save_slot :
      (t : Slots R) (k j : ℕ) (r : R)
      → find_slot (save_slot t k r) j ≡ (if k == j then some r else find_slot t j)
  find-save_slot (bound, at) k j r = ground arith

  pub find-delete_slot :
      (t : Slots R) (k j : ℕ)
      → find_slot (delete_slot t k) j ≡ (if k == j then none else find_slot t j)
  find-delete_slot (bound, at) k j = ground arith

  count_below_pos :
      (n : ℕ) (at : ℕ → Option R) (p : R → Bool) (k : ℕ) (r : R)
      → k < n
      → at k ≡ some r
      → p r ≡ true
      → 0 < count_below n at p
  count_below_pos zero at p k r h e s = elim h [ ]
  count_below_pos (suc n) at p k r h e s = elim (Bool-cases (k == n)) [
    | inl same ↦ ground (arith, ap at (same_key same))
    | inr other ↦ ground (arith, count_below_pos n at p k r (ground arith) e s)
  ]
    where
      same_key : (k == n) ≡ true → k ≡ n
      same_key same = ground arith

  count_below_find :
      (n : ℕ) (at : ℕ → Option R) (p : R → Bool)
      → 0 < count_below n at p
      → (k : ℕ) × (r : R) × (k < n) × (at k ≡ some r) × (p r ≡ true)
  count_below_find zero at p h = elim h [ ]
  count_below_find (suc n) at p h = elim (Option-cases (at n)) [
    | inl missing ↦ later (count_below_find n at p (ground arith))
    | inr (r, here) ↦ elim (Bool-cases (p r)) [
      | inl hit ↦ (n, r, omega arith, here, hit)
      | inr miss ↦ later (count_below_find n at p (ground arith))
    ]
  ]
    where
      later :
          (k : ℕ) × (r : R) × (k < n) × (at k ≡ some r) × (p r ≡ true)
          → (k : ℕ) × (r : R) × (k < suc n) × (at k ≡ some r) × (p r ≡ true)
      later (k, r, below, e, s) = (k, r, omega arith, e, s)

  pub count_slots_pos :
      (t : Slots R) (p : R → Bool) (k : ℕ) (r : R)
      → find_slot t k ≡ some r
      → p r ≡ true
      → 0 < count_slots t p
  count_slots_pos (bound, at) p k r e s =
      count_below_pos bound at p k r (ground arith) (ground arith) s

  pub count_slots_find :
      (t : Slots R) (p : R → Bool)
      → 0 < count_slots t p
      → (k : ℕ) × (r : R) × (find_slot t k ≡ some r) × (p r ≡ true)
  count_slots_find (bound, at) p h =
      let (k, r, below, e, s) = count_below_find bound at p h in (k, r, ground arith, s)

module _ {R : Type 0} where
  -- A row above those that are counted does not count.
  count_below_above :
      (n : ℕ) (at : ℕ → Option R) (p : R → Bool) (k : ℕ)
      → n ≤ k
      → count_below n (λ j. if k == j then none else at j) p ≡ count_below n at p
  count_below_above zero at p k h = refl
  count_below_above (suc n) at p k h =
      let other : (k == n) ≡ false = ground arith in
      rw (other, count_below_above n at p k (omega arith)) refl

  count_below_delete :
      (n : ℕ) (at : ℕ → Option R) (p : R → Bool) (k : ℕ)
      → k < n
      → count_below n at p ≡ count_below n (λ j. if k == j then none else at j) p + matches (at k) p
  count_below_delete zero at p k h = elim h [ ]
  count_below_delete (suc n) at p k h = elim (Bool-cases (k == n)) [
    | inl same ↦
        let here : k ≡ n = ground arith in
        rw (same, count_below_above n at p k (ground arith), here) (omega arith)
    | inr other ↦ rw other (omega (arith, count_below_delete n at p k (ground arith)))
  ]

  pub count_slots-delete :
      (t : Slots R) (p : R → Bool) (k : ℕ) (r : R)
      → find_slot t k ≡ some r
      → count_slots t p ≡ count_slots (delete_slot t k) p + (if p r then 1 else 0)
  count_slots-delete (bound, at) p k r h =
      let below : k < bound = ground arith in
      let there : at k ≡ some r = ground arith in
      count_below_delete bound at p k below ∙ rw there refl
