-- ===== src/Store.antt =====
-- The database as the services see it through Prisma. Prisma and PostgreSQL are not code of the
-- repository: a table is any implementation of the calls below with their documented behaviour.
pub mod Slots
pub mod Indexed
pub mod Saves
pub mod Unique
pub mod Amends
pub mod Cache
pub mod Messages
pub mod Database
use mathlib.Core.List.{Memᴰ}
use egypt_supply_chain_visib.Base.{
  List, ◌+◌, ℕ, ◌≡◌, Bool, true, false, Option, none, some, ◌<◌, ◌==◌, if◌then◌else◌,
}

-- What `updateMany` and `deleteMany` make of a row.
abbrev pub amend : {R : Type 0} → (R → Bool) → (R → R) → Option R → Option R
amend p f none = none
amend p f (some r) = if p r then some (f r) else some r

abbrev pub discard : {R : Type 0} → (R → Bool) → Option R → Option R
discard p none = none
discard p (some r) = if p r then none else some r

pub record Table (R : Type 0) : Type 1 where
  pub Rows : Type 0
  -- `findUnique` by primary key; `create` and `update` of a row; `delete`.
  pub find : Rows → ℕ → Option R
  pub save : Rows → ℕ → R → Rows
  pub delete : Rows → ℕ → Rows
  -- `count` of the rows that a `where` clause selects.
  pub count : Rows → (R → Bool) → ℕ
  -- `findMany`, with the keys.
  pub list : Rows → (R → Bool) → List (ℕ × R)
  -- `findFirst`, and `findUnique` by another column; `updateMany`; `deleteMany`.
  pub first : Rows → (R → Bool) → Option (ℕ × R)
  pub update_where : Rows → (R → Bool) → (R → R) → Rows
  pub delete_where : Rows → (R → Bool) → Rows
  pub find-save :
      (t : Rows) (k j : ℕ) (r : R) → find (save t k r) j ≡ (if k == j then some r else find t j)
  pub find-delete : (t : Rows) (k j : ℕ) → find (delete t k) j ≡ (if k == j then none else find t j)
  pub count_pos :
      (t : Rows) (p : R → Bool) (k : ℕ) (r : R) → find t k ≡ some r → p r ≡ true → 0 < count t p
  pub count_find :
      (t : Rows) (p : R → Bool)
      → 0 < count t p
      → (k : ℕ) × (r : R) × (find t k ≡ some r) × (p r ≡ true)
  pub count-delete :
      (t : Rows) (p : R → Bool) (k : ℕ) (r : R)
      → find t k ≡ some r
      → count t p ≡ count (delete t k) p + (if p r then 1 else 0)
  pub list-Mem :
      (t : Rows) (p : R → Bool) (k : ℕ) (r : R)
      → find t k ≡ some r
      → p r ≡ true
      → Memᴰ (k, r) (list t p)
  pub first-eq-some :
      (t : Rows) (p : R → Bool) (k : ℕ) (r : R)
      → first t p ≡ some (k, r)
      → (find t k ≡ some r) × (p r ≡ true)
  pub first-eq-none :
      (t : Rows) (p : R → Bool) (k : ℕ) (r : R) → first t p ≡ none → find t k ≡ some r → p r ≡ false
  pub find-update_where :
      (t : Rows) (p : R → Bool) (f : R → R) (k : ℕ)
      → find (update_where t p f) k ≡ amend p f (find t k)
  pub find-delete_where :
      (t : Rows) (p : R → Bool) (k : ℕ) → find (delete_where t p) k ≡ discard p (find t k)
