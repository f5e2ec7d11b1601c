-- ===== src/Store/Cache.antt =====
-- Redis as the services use it (server/src/redis/redis.service.ts passes each call on): keys with
-- an expiry, and sets. Redis is not code of the repository: any implementation of these calls with
-- their documented behaviour will do. Keys of different prefixes are in stores of their own.
pub mod Timed
pub mod Inversion
use egypt_supply_chain_visib.Base.{
  ℕ, ◌+◌, ◌<◌, ◌≤◌, ◌≡◌, ◌==◌, ltb, Bool, true, false, ◌&&◌, ◌||◌, Option, none, some, List, any,
  if◌then◌else◌,
}

pub record KeyValue (V : Type 0) : Type 1 where
  pub Keys : Type 0
  -- `GET` at a time; `SET ... EX ttl` at a time; `DEL`.
  pub get_key : Keys → ℕ → ℕ → Option V
  pub set_ex : Keys → ℕ → ℕ → V → ℕ → Keys
  pub del_key : Keys → ℕ → Keys
  pub get_key-set_ex :
      (t : Keys) (now k ttl later j : ℕ) (v : V)
      → get_key (set_ex t now k v ttl) later j
        ≡ (if k == j then (if ltb later (now + ttl) then some v else none) else get_key t later j)
  pub get_key-del_key :
      (t : Keys) (k later j : ℕ)
      → get_key (del_key t k) later j ≡ (if k == j then none else get_key t later j)
  -- A key that expires does not come back.
  pub get_key-earlier :
      (t : Keys) (now later k : ℕ) (v : V)
      → now ≤ later
      → get_key t later k ≡ some v
      → get_key t now k ≡ some v

pub record Sets : Type 1 where
  pub Groups : Type 0
  -- `SISMEMBER`, `SMEMBERS`, `SADD` and `SREM`.
  pub is_member : Groups → ℕ → ℕ → Bool
  pub members : Groups → ℕ → List ℕ
  pub add_member : Groups → ℕ → ℕ → Groups
  pub remove_member : Groups → ℕ → ℕ → Groups
  pub is_member-members : (g : Groups) (k m : ℕ) → is_member g k m ≡ any (λ x. x == m) (members g k)
  pub is_member-add_member :
      (g : Groups) (k m j n : ℕ)
      → is_member (add_member g k m) j n ≡ (if k == j && m == n then true else is_member g j n)
  pub is_member-remove_member :
      (g : Groups) (k m j n : ℕ)
      → is_member (remove_member g k m) j n ≡ (if k == j && m == n then false else is_member g j n)
