-- ===== src/Store/Slots/Search.antt =====
-- The first row and the rows that a test selects.
use mathlib.Core.List.{Memᴰ}
use egypt_supply_chain_visib.Base.{
  List, [], ◌∷◌, ℕ, zero, suc, ◌<◌, ◌≡◌, ap, sym, ◌∙◌, Bool, true, false, Option, none, some, arith,
  ◌==◌, if◌then◌else◌, inl, inr, Bool-cases, Option-cases,
}
use egypt_supply_chain_visib.Store.{amend, discard}
use egypt_supply_chain_visib.Store.Slots.{Slots, find_slot}

module _ {R : Type 0} where
  abbrev pub keep_if : Bool → ℕ → R → Option (ℕ × R) → Option (ℕ × R)
  keep_if true k r rest = some (k, r)
  keep_if false k r rest = rest

  abbrev pub first_at : Option R → ℕ → (R → Bool) → Option (ℕ × R) → Option (ℕ × R)
  first_at none k p rest = rest
  first_at (some r) k p rest = keep_if (p r) k r rest

  abbrev pub first_below : ℕ → (ℕ → Option R) → (R → Bool) → Option (ℕ × R)
  first_below zero at p = none
  first_below (suc n) at p = first_at (at n) n p (first_below n at p)

  first_below-eq-some :
      (n : ℕ) (at : ℕ → Option R) (p : R → Bool) (k : ℕ) (r : R)
      → first_below n at p ≡ some (k, r)
      → (k < n) × (at k ≡ some r) × (p r ≡ true)
  first_below-eq-some zero at p k r h = cc
  first_below-eq-some (suc n) at p k r h = elim (Option-cases (at n)) [
    | inl missing ↦
        let (below, there, hit) = first_below-eq-some n at p k r (rw missing at h) in
        (omega arith, there, hit)
    | inr (row, here) ↦ elim (Bool-cases (p row)) [
      | inl hit ↦ found row here hit (rw (here, hit) at h)
      | inr miss ↦
          let (below, there, hit) = first_below-eq-some n at p k r (rw (here, miss) at h) in
          (omega arith, there, hit)
    ]
  ]
    where
      found :
          (row : R)
          → at n ≡ some row
          → p row ≡ true
          → ◌≡◌ {A = Option (ℕ × R)} (some (n, row)) (some (k, r))
          → (k < suc n) × (at k ≡ some r) × (p r ≡ true)
      found row here hit e =
          let at_k : n ≡ k = cc in
          let same : row ≡ r = cc in
          (omega arith, ap at (sym at_k) ∙ here ∙ ap some same, ap p (sym same) ∙ hit)

  first_below-eq-none :
      (n : ℕ) (at : ℕ → Option R) (p : R → Bool) (k : ℕ) (r : R)
      → first_below n at p ≡ none
      → k < n
      → at k ≡ some r
      → p r ≡ false
  first_below-eq-none zero at p k r h below there = elim below [ ]
  first_below-eq-none (suc n) at p k r h below there = elim (Bool-cases (k == n)) [
    | inl same ↦ ground (arith, ap at (same_key same))
    | inr other ↦ ground (arith, first_below-eq-none n at p k r)
  ]
    where
      same_key : (k == n) ≡ true → k ≡ n
      same_key same = ground arith

  abbrev pub first_slot : Slots R → (R → Bool) → Option (ℕ × R)
  first_slot (bound, at) p = first_below bound at p

  pub first_slot-eq-some :
      (t : Slots R) (p : R → Bool) (k : ℕ) (r : R)
      → first_slot t p ≡ some (k, r)
      → (find_slot t k ≡ some r) × (p r ≡ true)
  first_slot-eq-some (bound, at) p k r h =
      let (below, there, hit) = first_below-eq-some bound at p k r h in (ground arith, hit)

  pub first_slot-eq-none :
      (t : Slots R) (p : R → Bool) (k : ℕ) (r : R)
      → first_slot t p ≡ none
      → find_slot t k ≡ some r
      → p r ≡ false
  first_slot-eq-none (bound, at) p k r h there =
      first_below-eq-none bound at p k r h (ground arith) (ground arith)

  pub find_slot-amend :
      (t : Slots R) (p : R → Bool) (f : R → R) (k : ℕ)
      → find_slot (t.0, λ j. amend p f (t.1 j)) k ≡ amend p f (find_slot t k)
  find_slot-amend t p f k = ground arith

  pub find_slot-discard :
      (t : Slots R) (p : R → Bool) (k : ℕ)
      → find_slot (t.0, λ j. discard p (t.1 j)) k ≡ discard p (find_slot t k)
  find_slot-discard t p k = ground arith

module _ {R : Type 0} where
  abbrev pub list_at : Option R → ℕ → (R → Bool) → List (ℕ × R) → List (ℕ × R)
  list_at none k p rest = rest
  list_at (some r) k p rest = if p r then (k, r) ∷ rest else rest

  abbrev pub list_below : ℕ → (ℕ → Option R) → (R → Bool) → List (ℕ × R)
  list_below zero at p = []
  list_below (suc n) at p = list_at (at n) n p (list_below n at p)

  list_at-Mem :
      (row : Option R) (n : ℕ) (p : R → Bool) (rest : List (ℕ × R)) (k : ℕ) (r : R)
      → Memᴰ (k, r) rest
      → Memᴰ (k, r) (list_at row n p rest)
  list_at-Mem none n p rest k r inside = inside
  list_at-Mem (some x) n p rest k r inside = elim (Bool-cases (p x)) [
    | inl hit ↦ rw hit (Memᴰ.tail inside)
    | inr miss ↦ rw miss inside
  ]

  list_below-Mem :
      (n : ℕ) (at : ℕ → Option R) (p : R → Bool) (k : ℕ) (r : R)
      → k < n
      → at k ≡ some r
      → p r ≡ true
      → Memᴰ (k, r) (list_below n at p)
  list_below-Mem zero at p k r below there hit = elim below [ ]
  list_below-Mem (suc n) at p k r below there hit = elim (Bool-cases (k == n)) [
    | inl same ↦
        let at_n : n ≡ k = ground arith in
        let row : at n ≡ some r = ap at at_n ∙ there in
        rw (row, hit) (Memᴰ.head (ap (λ i. (i, r)) (sym at_n)))
    | inr other ↦
        list_at-Mem (at n) n p (list_below n at p) k r
          (list_below-Mem n at p k r (ground arith) there hit)
  ]

  abbrev pub list_slot : Slots R → (R → Bool) → List (ℕ × R)
  list_slot (bound, at) p = list_below bound at p

  pub list_slot-Mem :
      (t : Slots R) (p : R → Bool) (k : ℕ) (r : R)
      → find_slot t k ≡ some r
      → p r ≡ true
      → Memᴰ (k, r) (list_slot t p)
  list_slot-Mem (bound, at) p k r there hit =
      list_below-Mem bound at p k r (ground arith) (ground arith) hit
