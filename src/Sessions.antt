-- ===== src/Sessions.antt =====
-- The sessions of auth.service.ts: what they keep in Redis and in the table of users, and what a
-- request hands back. A cookie `family:token` is seen as the first two parts of its split at `:`.
pub mod Tokens
pub mod Revocation
pub mod Passwords
pub mod Cookies
pub mod Roles
pub mod Devices
pub mod Guard
pub mod Links
pub mod Closed
pub mod History
use egypt_supply_chain_visib.Base.{ℕ, ◌+◌, String, Option, none, some, List, Result}
use egypt_supply_chain_visib.Domain.{User, Role}
use egypt_supply_chain_visib.Store.{Table}
use egypt_supply_chain_visib.Store.Indexed.{indexed}
use egypt_supply_chain_visib.Store.Cache.{KeyValue, Sets}
use egypt_supply_chain_visib.Store.Cache.Timed.{timed, grouped}

-- The value of `rt:<token>`.
pub record TokenData : Type 0 where
  pub user_id : ℕ
  pub family_id : ℕ

-- `SessionFamilyData`, the value of `rt_family:<family>`.
pub record SessionFamilyData : Type 0 where
  pub user_id : ℕ
  pub latest_token : ℕ
  pub created_at : Option ℕ

-- The claims of an access token; in one from elsewhere the last two may be of another type.
pub record AccessPayload : Type 0 where
  pub sub : ℕ
  pub email : String
  pub role : Role
  pub organization_id : ℕ
  pub token_version : Option ℕ
  pub session_id : Option ℕ

-- A part that is missing or empty is `none`.
pub record Cookie : Type 0 where
  pub family_part : Option ℕ
  pub token_part : Option ℕ

pub record TokenPair : Type 0 where
  pub access_token : AccessPayload
  pub refresh_token : Cookie

pub record Backend : Type 1 where
  pub users_table : Table User
  -- `rt:`, `rt_consumed:`, `rt_family:` and `user_sessions:`
  pub tokens_store : KeyValue TokenData
  pub consumed_store : KeyValue ℕ
  pub families_store : KeyValue SessionFamilyData
  pub sessions_store : Sets

-- `revoked` holds the messages `auth.session_revoked`, a user and a session, the newest first.
pub record SessionState (b : Backend) : Type 0 where
  pub users : b.users_table.Rows
  pub tokens : b.tokens_store.Keys
  pub consumed : b.consumed_store.Keys
  pub families : b.families_store.Keys
  pub sessions : b.sessions_store.Groups
  pub revoked : List (ℕ × ℕ)

-- The clock in seconds, and what `randomUUID` gives.
pub record Draw : Type 0 where
  pub now : ℕ
  pub new_family : ℕ
  pub new_token : ℕ

-- A handler may throw after it has written: the state comes with the result.
abbrev pub Outcome : Backend → Type 0 → Type 0
Outcome b A = SessionState b × Result A

-- `7 * 24 * 60 * 60`
abbrev pub ttl_seconds : ℕ
ttl_seconds = 604800

-- Everything in memory.
abbrev pub backend_in_memory : Backend
backend_in_memory = record {
  users_table = indexed User;
  tokens_store = timed TokenData;
  consumed_store = timed ℕ;
  families_store = timed SessionFamilyData;
  sessions_store = grouped;
}
