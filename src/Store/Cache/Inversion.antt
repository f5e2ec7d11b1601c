-- ===== src/Store/Cache/Inversion.antt =====
-- What a value that is read says of the writes before it.
use egypt_supply_chain_visib.Base.{
  ℕ, ◌+◌, ◌<◌, ◌≤◌, ◌≡◌, ◌≢◌, ◌⊎◌, inl, inr, ==_refl, Option-cases, refl, none, some, arith,
}
use egypt_supply_chain_visib.Store.Cache.{KeyValue}

module _ {V : Type 0} (kv : KeyValue V) (t : kv.Keys) where
  pub set_ex-eq-some :
      (now k ttl later j : ℕ) (v w : V)
      → kv.get_key (kv.set_ex t now k v ttl) later j ≡ some w
      → ((k ≡ j) × (later < now + ttl) × (v ≡ w)) ⊎ ((k ≢ j) × (kv.get_key t later j ≡ some w))
  set_ex-eq-some now k ttl later j v w h =
      ground (arith, kv.get_key-set_ex t now k ttl later j v, ==_refl k)

  pub set_ex_here :
      (now k ttl later : ℕ) (v : V)
      → later < now + ttl
      → kv.get_key (kv.set_ex t now k v ttl) later k ≡ some v
  set_ex_here now k ttl later v h =
      ground (arith, kv.get_key-set_ex t now k ttl later k v, ==_refl k)

  pub set_ex_elsewhere :
      (now k ttl later j : ℕ) (v : V)
      → k ≢ j
      → kv.get_key (kv.set_ex t now k v ttl) later j ≡ kv.get_key t later j
  set_ex_elsewhere now k ttl later j v h = ground (arith, kv.get_key-set_ex t now k ttl later j v)

  pub del_key_here : (k later : ℕ) → kv.get_key (kv.del_key t k) later k ≡ none
  del_key_here k later = ground (arith, kv.get_key-del_key t k later k, ==_refl k)

  pub del_key_elsewhere :
      (k later j : ℕ) → k ≢ j → kv.get_key (kv.del_key t k) later j ≡ kv.get_key t later j
  del_key_elsewhere k later j h = ground (arith, kv.get_key-del_key t k later j)

  pub del_key-eq-some :
      (k later j : ℕ) (w : V)
      → kv.get_key (kv.del_key t k) later j ≡ some w
      → (k ≢ j) × (kv.get_key t later j ≡ some w)
  del_key-eq-some k later j w h = ground (arith, kv.get_key-del_key t k later j, ==_refl k)

  pub del_key-eq-none :
      (k later j : ℕ) → kv.get_key t later j ≡ none → kv.get_key (kv.del_key t k) later j ≡ none
  del_key-eq-none k later j h = ground (arith, kv.get_key-del_key t k later j)

  -- A key that is free now is not one that is read later.
  pub free_elsewhere :
      (now later k j : ℕ) (w : V)
      → now ≤ later
      → kv.get_key t now k ≡ none
      → kv.get_key t later j ≡ some w
      → k ≢ j
  free_elsewhere now later k j w before free h same =
      let kept : kv.get_key t now j ≡ some w = kv.get_key-earlier t now later j w before h in
      ground (arith, kept)

  pub stays_free :
      (now later k : ℕ) → now ≤ later → kv.get_key t now k ≡ none → kv.get_key t later k ≡ none
  stays_free now later k before free = elim (Option-cases (kv.get_key t later k)) [
    | inl gone ↦ gone
    | inr (w, h) ↦ absurd (free_elsewhere now later k k w before free h refl)
  ]
