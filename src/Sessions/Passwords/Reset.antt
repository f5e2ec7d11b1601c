-- ===== src/Sessions/Passwords/Reset.antt =====
-- What a reset and a change of password leave behind.
use egypt_supply_chain_visib.Base.{
  if-not, ℕ, ◌*◌, ◌+◌, ◌<◌, ◌≤◌, ◌≡◌, refl, sym, subst, ◌∙◌, ap, Bool-cases, inl, inr, ◌⊎◌, true,
  false, Option, none, some, String, ok, err, bad_request, arith, Result, ◌/◌,
}
use egypt_supply_chain_visib.Domain.{User, ℤ, pos, negsuc}
use egypt_supply_chain_visib.Store.Cache.{KeyValue}
use egypt_supply_chain_visib.Store.Cache.Inversion.{set_ex_here, del_key_here}
use egypt_supply_chain_visib.Sessions.{Backend, SessionState, Draw}
use egypt_supply_chain_visib.Sessions.Closed.{IsKeyed}
use egypt_supply_chain_visib.Sessions.Links.{IsLinked}
use egypt_supply_chain_visib.Sessions.Passwords.{
  forgot_password, find_by_email, Bcrypt, Vault, get_reset_token_ttl_seconds, update_password,
  consume_reset, with_session, reset_password,
}
use egypt_supply_chain_visib.Sessions.Passwords.Changed.{IsChanged, changed, changed-IsChanged}

-- However the life of a link is configured, it is a whole number of minutes, as the mail says, from
-- one minute to a day, and the configured number wherever that is in range.
pub get_reset_token_ttl_seconds-bounds :
    (configured : Option ℤ)
    → (60 ≤ get_reset_token_ttl_seconds configured)
      × (get_reset_token_ttl_seconds configured ≤ 86400)
      × (get_reset_token_ttl_seconds configured / 60 * 60 ≡ get_reset_token_ttl_seconds configured)
      × ((minutes : ℕ)
          → configured ≡ some (pos minutes)
          → 1 ≤ minutes
          → minutes ≤ 1440
          → get_reset_token_ttl_seconds configured ≡ minutes * 60)
unfolding get_reset_token_ttl_seconds
get_reset_token_ttl_seconds-bounds none = (omega arith, omega arith, refl, λ m e lo hi. cc)
get_reset_token_ttl_seconds-bounds (some (negsuc n)) =
    (omega arith, omega arith, refl, λ m e lo hi. cc)
get_reset_token_ttl_seconds-bounds (some (pos minutes)) =
    (ground arith, ground arith, ground arith, λ m e lo hi. ground arith)

module _ (b : Backend) (crypt : Bcrypt) (user_id : ℕ) where
  -- Where the keys of the sessions are linked and every account's row holds its own identifier, a
  -- change of password with the wrong old one is refused and changes nothing; with the right one it
  -- succeeds. Then the new password compares; the sessions of the user's set but the current one have
  -- ended, their access tokens and refresh tokens included; and the current one has not: its access
  -- tokens are admitted as before, and so are its refresh tokens that no other session has as its
  -- latest.
  pub update_password-IsChanged :
      (s : SessionState b) (env : Draw) (salt : ℕ) (user : User) (current : Option ℕ)
      (old_password new_password : String)
      → IsLinked b env.now s
      → IsKeyed b s
      → b.users_table.find s.users user_id ≡ some user
      → ((crypt.compare old_password user.user_password_hash ≡ false)
          × (update_password b crypt s env salt user_id current old_password new_password
              ≡ (s, err bad_request)))
        ⊎ ((crypt.compare old_password user.user_password_hash ≡ true)
            × ((update_password b crypt s env salt user_id current old_password new_password).1
                ≡ ok tt)
            × IsChanged b crypt user_id s
                (update_password b crypt s env salt user_id current old_password new_password).0
                env
                current
                new_password)
  unfolding update_password
  update_password-IsChanged s env salt user current old_password new_password linked keyed known =
      elim (Bool-cases (crypt.compare old_password user.user_password_hash)) [
        | inl right ↦
            let (fine, after) =
              changed-IsChanged b crypt user_id s env salt user current new_password linked keyed
                known in
            inr (
              right,
              rw (known, right, update_password) fine,
              rw (known, right, update_password) after,
            )
        | inr wrong ↦ inl (wrong, rw (known, wrong, update_password) refl)
      ]

module _ (b : Backend) (kv : KeyValue ℕ) (crypt : Bcrypt) (sha : String → ℕ) where
  -- A consumed key is not found again.
  reset_password_gone :
      (v : Vault b kv) (env : Draw) (salt : ℕ) (token password : String)
      → kv.get_key v.resets env.now (sha token) ≡ none
      → reset_password b crypt kv sha v env salt token password ≡ (v, err bad_request)
  unfolding reset_password
  reset_password_gone v env salt token password gone = rw (gone, reset_password) refl

  reset_password-run :
      (v : Vault b kv) (env : Draw) (salt user_id : ℕ) (user : User) (token password : String)
      → kv.get_key v.resets env.now (sha token) ≡ some user_id
      → b.users_table.find v.session.users user_id ≡ some user
      → user.user_is_active ≡ true
      → reset_password b crypt kv sha v env salt token password
        ≡ with_session b crypt kv sha
            (consume_reset b crypt kv sha v token)
            (changed b crypt user.user_id v.session env salt user none password)
  unfolding reset_password
  reset_password-run v env salt user_id user token password live known active =
      rw (live, known, reset_password) (if-not user.user_is_active _ _ active)

  reset_password-IsChanged :
      (v : Vault b kv) (env : Draw) (salt user_id : ℕ) (user : User) (token password : String)
      → IsLinked b env.now v.session
      → IsKeyed b v.session
      → kv.get_key v.resets env.now (sha token) ≡ some user_id
      → b.users_table.find v.session.users user_id ≡ some user
      → user.user_is_active ≡ true
      → ((reset_password b crypt kv sha v env salt token password).1 ≡ ok tt)
        × IsChanged b crypt user_id v.session
            (reset_password b crypt kv sha v env salt token password).0.session
            env
            none
            password
        × ((reset_password b crypt kv sha v env salt token password).0.resets
            ≡ kv.del_key v.resets (sha token))
  unfolding reset_password consume_reset
  reset_password-IsChanged v env salt user_id user token password linked keyed live known active =
      let own : user.user_id ≡ user_id = keyed user_id user known in
      let known' : b.users_table.find v.session.users user.user_id ≡ some user =
        ap (b.users_table.find v.session.users) own ∙ known in
      let (fine, after) =
        changed-IsChanged b crypt user.user_id v.session env salt user none password linked keyed
          known' in
      let run = reset_password-run v env salt user_id user token password live known active in
      subst
        (λ (k : ℕ).
          ((reset_password b crypt kv sha v env salt token password).1 ≡ ok tt)
          × IsChanged b crypt k v.session
              (reset_password b crypt kv sha v env salt token password).0.session env none password
          × ((reset_password b crypt kv sha v env salt token password).0.resets
              ≡ kv.del_key v.resets (sha token)))
        own
        (
          ap (λ r. r.1) run ∙ fine,
          subst
              (λ (r : Vault b kv × Result (Unit {0})).
                IsChanged b crypt user.user_id v.session r.0.session env none password)
              (sym run) after,
          ap (λ r. r.0.resets) run,
        )

  -- Where the keys of the sessions are linked and every account's row holds its own identifier, the
  -- link that forgotPassword mails to an active account works until it expires: the password is then
  -- the new one, every session of the user's set has ended, its access tokens and refresh tokens
  -- included, and the link never works again.
  pub forgot-reset_password :
      (v : Vault b kv) (now salt : ℕ) (env : Draw) (configured : Option ℤ) (id : ℕ) (user : User)
      (token email password : String)
      → IsLinked b env.now v.session
      → IsKeyed b v.session
      → find_by_email b crypt v.session email ≡ some (id, user)
      → user.user_is_active ≡ true
      → env.now < now + get_reset_token_ttl_seconds configured
      → ((reset_password b crypt kv sha
            (forgot_password b crypt kv sha v now configured token email)
            env
            salt
            token
            password).1
          ≡ ok tt)
        × IsChanged b crypt id v.session
            (reset_password b crypt kv sha
              (forgot_password b crypt kv sha v now configured token email)
              env
              salt
              token
              password).0.session
            env
            none
            password
        × ((again : Draw) (other : String)
            → (reset_password b crypt kv sha
                (reset_password b crypt kv sha
                  (forgot_password b crypt kv sha v now configured token email)
                  env
                  salt
                  token
                  password).0
                again
                salt
                token
                other).1
              ≡ err bad_request)
  unfolding forgot_password find_by_email
  forgot-reset_password v now salt env configured id user token email password linked keyed found
        active soon =
      let (there, matches) = b.users_table.first-eq-some v.session.users _ id user found in
      let ttl = get_reset_token_ttl_seconds configured in
      let sent = forgot_password b crypt kv sha v now configured token email in
      let stored : sent.resets ≡ kv.set_ex v.resets now (sha token) user.user_id ttl =
        rw (found, active, forgot_password, find_by_email) refl in
      let same : sent.session ≡ v.session =
        rw (found, active, forgot_password, find_by_email) refl in
      let live : kv.get_key sent.resets env.now (sha token) ≡ some id = rw stored (
        set_ex_here kv v.resets now (sha token) ttl env.now user.user_id soon
        ∙ ap some (keyed id user there)) in
      let (fine, changed, rest) =
        reset_password-IsChanged sent env salt id user token password (rw same linked)
          (rw same keyed) live (rw same there) active in
      (
        fine,
        subst
            (λ (x : SessionState b).
              IsChanged b crypt id x
                (reset_password b crypt kv sha sent env salt token password).0.session env none
                password)
            same changed,
        λ again other.
            let after = (reset_password b crypt kv sha sent env salt token password).0 in
            let gone : kv.get_key after.resets again.now (sha token) ≡ none =
              rw rest (del_key_here kv sent.resets (sha token) again.now) in
            ap (λ r. r.1) (reset_password_gone after again salt token other gone),
      )
