-- ===== src/Store/Cache/Timed.antt =====
-- Keys and sets in memory: they show that the behaviour asked of Redis can be met, and they run
-- the examples.
use egypt_supply_chain_visib.Base.{
  ℕ, ◌+◌, ◌≤◌, ◌≡◌, refl, ◌==◌, ==_refl, ltb, Bool-cases, inl, inr, true, false, ◌&&◌, Option, none,
  some, List, [], ◌∷◌, any, arith, if◌then◌else◌,
}
use egypt_supply_chain_visib.Store.Cache.{KeyValue, Sets}

-- A value with the time at which it expires.
abbrev pub TimedKeys : Type 0 → Type 0
TimedKeys V = ℕ → Option (V × ℕ)

abbrev pub alive {ℓ} : {V : Type ℓ} → Option (V × ℕ) → ℕ → Option V
alive none now = none
alive (some (v, expiry)) now = if ltb now expiry then some v else none

module _ {V : Type 0} where
  pub get_timed-earlier :
      (t : TimedKeys V) (now later k : ℕ) (v : V)
      → now ≤ later
      → alive (t k) later ≡ some v
      → alive (t k) now ≡ some v
  get_timed-earlier t now later k v before h = ground arith

pub get_timed-set_timed :
    {V : Type 0} (t : TimedKeys V) (expiry k later j : ℕ) (v : V)
    → alive (if k == j then some (v, expiry) else t j) later
      ≡ (if k == j then (if ltb later expiry then some v else none) else alive (t j) later)
get_timed-set_timed t expiry k later j v = ground arith

pub get_timed-del_timed :
    {V : Type 0} (t : TimedKeys V) (k later j : ℕ)
    → alive (if k == j then none else t j) later ≡ (if k == j then none else alive (t j) later)
get_timed-del_timed t k later j = ground arith

abbrev pub timed : (V : Type 0) → KeyValue V
timed V = record {
  Keys = TimedKeys V;
  get_key = λ t now k. alive (t k) now;
  set_ex = λ t now k v ttl j. if k == j then some (v, now + ttl) else t j;
  del_key = λ t k j. if k == j then none else t j;
  get_key-set_ex = λ t now k ttl later j v. get_timed-set_timed t (now + ttl) k later j v;
  get_key-del_key = get_timed-del_timed;
  get_key-earlier = get_timed-earlier;
}

abbrev pub remove_from : List ℕ → ℕ → List ℕ
remove_from [] m = []
remove_from (x ∷ xs) m = if x == m then remove_from xs m else x ∷ remove_from xs m

any-remove_from :
    (xs : List ℕ) (m n : ℕ)
    → any (λ x. x == n) (remove_from xs m) ≡ (if m == n then false else any (λ x. x == n) xs)
any-remove_from [] m n = ground arith
any-remove_from (x ∷ xs) m n = ground (arith, any-remove_from xs m n, ==_refl m)

pub add_one-is_member :
    (g : ℕ → List ℕ) (k m j n : ℕ)
    → any (λ x. x == n) (if k == j then m ∷ g j else g j)
      ≡ (if k == j && m == n then true else any (λ x. x == n) (g j))
add_one-is_member g k m j n = ground arith

pub remove_one-is_member :
    (g : ℕ → List ℕ) (k m j n : ℕ)
    → any (λ x. x == n) (if k == j then remove_from (g j) m else g j)
      ≡ (if k == j && m == n then false else any (λ x. x == n) (g j))
remove_one-is_member g k m j n = elim (Bool-cases (k == j)) [
  | inl same ↦ ground (arith, any-remove_from (g j) m n)
  | inr other ↦ ground arith
]

abbrev pub grouped : Sets
grouped = record {
  Groups = ℕ → List ℕ;
  is_member = λ g k m. any (λ x. x == m) (g k);
  members = λ g k. g k;
  add_member = λ g k m j. if k == j then m ∷ g j else g j;
  remove_member = λ g k m j. if k == j then remove_from (g j) m else g j;
  is_member-members = λ g k m. refl;
  is_member-add_member = add_one-is_member;
  is_member-remove_member = remove_one-is_member;
}
