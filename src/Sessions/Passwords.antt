-- ===== src/Sessions/Passwords.antt =====
-- login, updatePassword, forgotPassword, getResetTokenTtlSeconds and resetPassword of
-- auth.service.ts. bcrypt, SHA-256 and the random bytes come from libraries; the column of the last
-- login, which nothing reads, is left out.
pub mod Changed
pub mod Reset
use egypt_supply_chain_visib.Base.{
  ℕ, ◌+◌, ◌*◌, ◌/◌, leb, same_text, Bool, true, not, ◌&&◌, Option, none, some, String, List, ◌∷◌,
  ◌≡◌, if◌then◌else◌, Result, ok, err, unauthorized, forbidden, not_found, bad_request,
  record_missing,
}
use egypt_supply_chain_visib.Domain.{User, ℤ, pos, negsuc}
use egypt_supply_chain_visib.Store.Cache.{KeyValue}
use egypt_supply_chain_visib.Sessions.{Backend, SessionState, Draw, TokenPair}
use egypt_supply_chain_visib.Sessions.Tokens.{create_token_pair}
use egypt_supply_chain_visib.Sessions.Revocation.{revoke_all_sessions}

-- bcrypt: a hash is made with a salt, and the password that it was made of compares.
pub record Bcrypt : Type 0 where
  pub hash : ℕ → String → String
  pub compare : String → String → Bool
  pub compare-hash : (salt : ℕ) (password : String) → compare password (hash salt password) ≡ true

-- A mail asked for with `password.reset_requested`: the address, the token of the link, and the
-- minutes for which it is said to hold.
pub record ResetMail : Type 0 where
  pub email : String
  pub link_token : String
  pub expires_in_minutes : ℕ

-- `resets` is the keys `pr:<hash>`; `mailed` has the newest first.
pub record Vault (b : Backend) (kv : KeyValue ℕ) : Type 0 where
  pub session : SessionState b
  pub resets : kv.Keys
  pub mailed : List ResetMail

-- `parseInt` gave a number, or NaN. Whatever is configured, the link holds for a minute at least
-- and a day at most.
unfoldable pub get_reset_token_ttl_seconds : Option ℤ → ℕ
get_reset_token_ttl_seconds none = 15 * 60
get_reset_token_ttl_seconds (some (negsuc n)) = 15 * 60
get_reset_token_ttl_seconds (some (pos minutes)) =
    if leb 1 minutes && leb minutes (24 * 60) then minutes * 60 else 15 * 60

module _ (b : Backend) (crypt : Bcrypt) where
  -- `findByEmail`
  unfoldable pub find_by_email : SessionState b → String → Option (ℕ × User)
  find_by_email s email = b.users_table.first s.users (λ user. same_text user.user_email email)

  unfoldable pub login : SessionState b → Draw → String → String → SessionState b × Result TokenPair
  unfolding find_by_email
  login s env email password = elim (find_by_email s email) [
    | none ↦ (s, err unauthorized)
    | some (id, user) ↦
        if not user.user_is_active
        then (s, err forbidden)
        else if not (crypt.compare password user.user_password_hash)
        then (s, err unauthorized)
        else create_token_pair b s env user.user_id
  ]

  -- `user_password_hash: newHash`
  unfoldable pub save_password : SessionState b → ℕ → User → String → SessionState b
  save_password s user_id user new_hash = record s {
    users = b.users_table.save s.users user_id (record user { user_password_hash = new_hash });
  }

  abbrev pub done : SessionState b × Result ℕ → SessionState b × Result (Unit {0})
  done (s, err e) = (s, err e)
  done (s, ok count) = (s, ok tt)

  unfoldable pub update_password :
      SessionState b
      → Draw
      → ℕ
      → ℕ
      → Option ℕ
      → String
      → String
      → SessionState b × Result (Unit {0})
  unfolding save_password
  update_password s env salt user_id current old_password new_password =
      elim (b.users_table.find s.users user_id) [
        | none ↦ (s, err not_found)
        | some user ↦
            if not (crypt.compare old_password user.user_password_hash)
            then (s, err bad_request)
            else done (
                revoke_all_sessions b (save_password s user_id user (crypt.hash salt new_password))
                  env user_id current)
      ]

  module _ (kv : KeyValue ℕ) (sha : String → ℕ) where
    abbrev pub Answer : Type 0 → Type 0
    Answer A = Vault b kv × Result A

    -- `token` is the random bytes in hexadecimal.
    unfoldable pub forgot_password : Vault b kv → ℕ → Option ℤ → String → String → Vault b kv
    unfolding find_by_email get_reset_token_ttl_seconds
    forgot_password v now configured token email = elim (find_by_email v.session email) [
      | none ↦ v
      | some (id, user) ↦
          if user.user_is_active
          then record v {
            resets =
                kv.set_ex v.resets now (sha token) user.user_id
                  (get_reset_token_ttl_seconds configured);
            mailed =
                record {
                  email = email;
                  link_token = token;
                  expires_in_minutes = get_reset_token_ttl_seconds configured / 60;
                }
                ∷ v.mailed;
          }
          else v
    ]

    -- The key is consumed before the account is touched.
    unfoldable pub consume_reset : Vault b kv → String → Vault b kv
    consume_reset v token = record v { resets = kv.del_key v.resets (sha token) }

    abbrev pub with_session : Vault b kv → SessionState b × Result (Unit {0}) → Answer (Unit {0})
    with_session v (s, answer) = (record v { session = s }, answer)

    unfoldable pub reset_password : Vault b kv → Draw → ℕ → String → String → Answer (Unit {0})
    unfolding consume_reset save_password
    reset_password v env salt token new_password = elim (kv.get_key v.resets env.now (sha token)) [
      | none ↦ (v, err bad_request)
      | some user_id ↦ elim (b.users_table.find v.session.users user_id) [
        | none ↦ (consume_reset v token, err bad_request)
        | some user ↦
            if not user.user_is_active
            then (consume_reset v token, err bad_request)
            else with_session (consume_reset v token) (
                done (
                  revoke_all_sessions b
                    (save_password v.session user.user_id user (crypt.hash salt new_password)) env
                    user.user_id none))
      ]
    ]
