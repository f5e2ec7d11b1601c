-- ===== src/Store/Saves.antt =====
-- What a row that is found says of the write before it.
use egypt_supply_chain_visib.Base.{
  ℕ, ◌≡◌, ◌≢◌, ◌⊎◌, inl, inr, ==_refl, Bool, true, false, some, arith, Option-cases, Bool-cases,
}
use egypt_supply_chain_visib.Store.{Table}

module _ {R : Type 0} (t : Table R) (rows : t.Rows) where
  pub save-cases :
      (k i : ℕ) (a found : R)
      → t.find (t.save rows k a) i ≡ some found
      → ((k ≡ i) × (a ≡ found)) ⊎ ((k ≢ i) × (t.find rows i ≡ some found))
  save-cases k i a found h = ground (arith, t.find-save rows k i a, ==_refl k)

  pub save_here : (k : ℕ) (a : R) → t.find (t.save rows k a) k ≡ some a
  save_here k a = ground (arith, t.find-save rows k k a, ==_refl k)

  pub save_elsewhere : (k i : ℕ) (a : R) → k ≢ i → t.find (t.save rows k a) i ≡ t.find rows i
  save_elsewhere k i a other = ground (arith, t.find-save rows k i a)

  pub delete-eq-some :
      (k i : ℕ) (found : R)
      → t.find (t.delete rows k) i ≡ some found
      → (k ≢ i) × (t.find rows i ≡ some found)
  delete-eq-some k i found h = ground (arith, t.find-delete rows k i, ==_refl k)

  pub delete_elsewhere : (k i : ℕ) → k ≢ i → t.find (t.delete rows k) i ≡ t.find rows i
  delete_elsewhere k i other = ground (arith, t.find-delete rows k i)

  -- A row after `updateMany` is one from before, changed if it was selected.
  pub update_where-eq-some :
      (p : R → Bool) (f : R → R) (i : ℕ) (found : R)
      → t.find (t.update_where rows p f) i ≡ some found
      → (row : R) × (t.find rows i ≡ some row)
        × (((p row ≡ true) × (f row ≡ found)) ⊎ ((p row ≡ false) × (row ≡ found)))
  update_where-eq-some p f i found h = elim (Option-cases (t.find rows i)) [
    | inl gone ↦ absurd (ground (arith, t.find-update_where rows p f i))
    | inr (row, there) ↦ elim (Bool-cases (p row)) [
      | inl hit ↦ (row, there, inl (hit, ground (arith, t.find-update_where rows p f i)))
      | inr miss ↦ (row, there, inr (miss, ground (arith, t.find-update_where rows p f i)))
    ]
  ]

  pub delete_where-eq-some :
      (p : R → Bool) (i : ℕ) (found : R)
      → t.find (t.delete_where rows p) i ≡ some found
      → (t.find rows i ≡ some found) × (p found ≡ false)
  delete_where-eq-some p i found h = elim (Option-cases (t.find rows i)) [
    | inl gone ↦ absurd (ground (arith, t.find-delete_where rows p i))
    | inr (row, there) ↦ ground (arith, t.find-delete_where rows p i)
  ]
