-- ===== src/Store/Unique.antt =====
-- A column, or several together, that a table holds once: what `@unique` and the services' own
-- tests before a write promise.
use egypt_supply_chain_visib.Base.{ℕ, ◌≡◌, ◌≢◌, sym, ap, ◌∙◌, some, inl, inr}
use egypt_supply_chain_visib.Store.{Table}
use egypt_supply_chain_visib.Store.Saves.{save-cases, delete-eq-some}

module _ {R K : Type 0} (t : Table R) (key : R → K) where
  abbrev pub IsUnique : t.Rows → Type 0
  IsUnique rows =
      (i j : ℕ) (a b : R) → t.find rows i ≡ some a → t.find rows j ≡ some b → key a ≡ key b → i ≡ j

  module _ (rows : t.Rows) (unique : IsUnique rows) where
    -- A row whose key no other row has.
    pub save-IsUnique :
        (k : ℕ) (row : R)
        → ((j : ℕ) (b : R) → k ≢ j → t.find rows j ≡ some b → key row ≢ key b)
        → IsUnique (t.save rows k row)
    save-IsUnique k row apart i j a b here there same = elim (save-cases t rows k i row a here) [
      | inl (at, e) ↦ elim (save-cases t rows k j row b there) [
        | inl (at', e') ↦ sym at ∙ at'
        | inr (off, old) ↦ absurd (apart j b off old (ap key e ∙ same))
      ]
      | inr (off, old) ↦ elim (save-cases t rows k j row b there) [
        | inl (at, e) ↦ absurd (apart i a off old (ap key e ∙ sym same))
        | inr (off', old') ↦ unique i j a b old old' same
      ]
    ]

    -- A row that keeps its key.
    pub resave-IsUnique :
        (k : ℕ) (old row : R)
        → t.find rows k ≡ some old
        → key row ≡ key old
        → IsUnique (t.save rows k row)
    resave-IsUnique k old row found kept =
        save-IsUnique k row
          (λ j b off there same. off (unique k j old b found there (sym kept ∙ same)))

    pub delete-IsUnique : (k : ℕ) → IsUnique (t.delete rows k)
    delete-IsUnique k i j a b here there same =
        unique i j a b (delete-eq-some t rows k i a here).1 (delete-eq-some t rows k j b there).1
          same
