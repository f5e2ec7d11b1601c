-- ===== src/Pagination.antt =====
-- common/pagination/pagination.helper.ts, and the `skip` and `take` with which lists are read.
use egypt_supply_chain_visib.Base.{
  ℕ, zero, suc, ◌+◌, ◌-◌, ◌*◌, ◌/◌, ◌<◌, ◌≤◌, ◌≡◌, ◌↔◌, refl, ltb, Bool, true, List, [], ◌∷◌,
  length, take, drop, arith, ap, sym, ◌∙◌, ◌++◌,
}

pub record PaginationMeta : Type 0 where
  pub page : ℕ
  pub limit : ℕ
  pub total_items : ℕ
  pub total_pages : ℕ
  pub has_next_page : Bool
  pub has_previous_page : Bool

-- `Math.ceil(total / limit)`, for a limit that is not 0.
abbrev pub ceil_div : ℕ → ℕ → ℕ
ceil_div total limit = (total + limit - 1) / limit

-- `buildPaginationMeta`
unfoldable pub build_pagination_meta : ℕ → ℕ → ℕ → PaginationMeta
build_pagination_meta page limit total_items = record {
  page = page;
  limit = limit;
  total_items = total_items;
  total_pages = ceil_div total_items limit;
  has_next_page = ltb page (ceil_div total_items limit);
  has_previous_page = ltb 1 page;
}

-- The rows of a page: `skip: (page - 1) * limit, take: limit`.
abbrev pub page_rows {ℓ} : {A : Type ℓ} → ℕ → ℕ → List A → List A
page_rows page limit rows = take limit (drop ((page - 1) * limit) rows)

-- The first pages of a list, one after the other.
abbrev pub first_pages {ℓ} : {A : Type ℓ} → ℕ → ℕ → List A → List A
first_pages zero limit rows = []
first_pages (suc n) limit rows = first_pages n limit rows ++ page_rows (suc n) limit rows

ceil_div_lt :
    (page limit total : ℕ) → 0 < limit → (page < ceil_div total limit) ↔ (page * limit < total)
ceil_div_lt page limit total h = grind arith

total-le-ceil_div : (limit total : ℕ) → 0 < limit → total ≤ ceil_div total limit * limit
total-le-ceil_div limit total h = grind (arith, ceil_div_lt (ceil_div total limit) limit total h)

module _ {ℓ} {A : Type ℓ} where
  take-nil : (n : ℕ) → take {A = A} n [] ≡ []
  take-nil zero = refl
  take-nil (suc n) = refl

  take_none : (n : ℕ) (xs : List A) → n ≡ 0 → take n xs ≡ []
  take_none zero xs h = refl
  take_none (suc n) xs h = absurd (omega arith)

  take-add : (m n : ℕ) (xs : List A) → take (m + n) xs ≡ take m xs ++ take n (drop m xs)
  take-add zero n xs = ap (λ k. take k xs) {x = 0 + n} {y = n} (omega arith)
  take-add (suc m) n [] = take-nil (suc m + n) ∙ sym (take-nil n)
  take-add (suc m) n (x ∷ xs) =
      let e : suc m + n ≡ suc (m + n) = omega arith in rw (e, take-add m n xs)

  take_all : (n : ℕ) (xs : List A) → length xs ≤ n → take n xs ≡ xs
  take_all zero [] h = refl
  take_all zero (x ∷ xs) h = absurd (omega arith)
  take_all (suc n) [] h = refl
  take_all (suc n) (x ∷ xs) h = ap (λ ys. x ∷ ys) (take_all n xs (omega arith))

  length-drop : (n : ℕ) (xs : List A) → length (drop n xs) ≡ length xs - n
  length-drop zero xs = omega arith
  length-drop (suc n) [] = omega arith
  length-drop (suc n) (x ∷ xs) = omega (arith, length-drop n xs)

  take-pos : (n : ℕ) (xs : List A) → 0 < n → (0 < length (take n xs)) ↔ (0 < length xs)
  take-pos zero xs h = absurd (omega arith)
  take-pos (suc n) [] h = ((λ p. p), λ p. p)
  take-pos (suc n) (x ∷ xs) h = ((λ _. omega arith), λ _. omega arith)

  first_pages-take :
      (n limit : ℕ) (rows : List A) → first_pages n limit rows ≡ take (n * limit) rows
  first_pages-take zero limit rows = sym (take_none (0 * limit) rows (omega arith))
  first_pages-take (suc n) limit rows =
      let e : suc n * limit ≡ n * limit + limit = omega arith in
      let before : suc n - 1 ≡ n = omega arith in
      rw (e, take-add (n * limit) limit rows, first_pages-take n limit rows, before)

  -- With a limit that is not 0, the pages that `totalPages` counts give every row once and in
  -- order, and the meta block announces a next page exactly when the next page has a row.
  pub build_pagination_meta_complete :
      (page limit : ℕ) (rows : List A)
      → 0 < limit
      → (first_pages (build_pagination_meta page limit (length rows)).total_pages limit rows ≡ rows)
        × (((build_pagination_meta page limit (length rows)).has_next_page ≡ true)
            ↔ (0 < length (page_rows (suc page) limit rows)))
  unfolding build_pagination_meta
  build_pagination_meta_complete page limit rows positive = (
    first_pages-take (ceil_div (length rows) limit) limit rows
        ∙ take_all (ceil_div (length rows) limit * limit) rows
            (total-le-ceil_div limit (length rows) positive),
    grind (
      arith,
      ceil_div_lt page limit (length rows) positive,
      take-pos limit (drop (page * limit) rows) positive,
      length-drop (page * limit) rows,
    ),
  )
