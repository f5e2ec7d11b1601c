-- ===== src/Sessions/Passwords/Changed.antt =====
-- What a new password leaves: the state after the hash is stored and the other sessions are revoked.
use egypt_supply_chain_visib.Base.{
  ℕ, ◌≡◌, ==_refl, ◌is◌, refl, sym, subst, ◌∙◌, ap, true, false, Option, some, String, ok, err,
  unauthorized, arith, if◌then◌else◌, Result,
}
use egypt_supply_chain_visib.Domain.{User}
use egypt_supply_chain_visib.Store.Saves.{save_here}
use egypt_supply_chain_visib.Sessions.{AccessPayload, Backend, SessionState, Draw}
use egypt_supply_chain_visib.Sessions.Revocation.{revoke_all_sessions}
use egypt_supply_chain_visib.Sessions.Guard.{check_claims}
use egypt_supply_chain_visib.Sessions.Closed.{IsKeyed, saved-IsKeyed}
use egypt_supply_chain_visib.Sessions.Links.{token_at, IsLinked}
use egypt_supply_chain_visib.Sessions.Closed.Refresh.{
  HasNoToken, IsOwn, revoke_all_sessions-HasNoToken, revoke_all_sessions-token,
  revoke_all_sessions-users,
}
use egypt_supply_chain_visib.Sessions.Closed.Everywhere.{
  revoke_all_sessions-refused, revoke_all_sessions-user,
}
use egypt_supply_chain_visib.Sessions.Passwords.{Bcrypt, save_password, done}

module _ (b : Backend) (crypt : Bcrypt) (user_id : ℕ) where
  -- From `env.now` on. The password is the new one. Of the sessions in the user's set, the current one
  -- apart, none is left there, no refresh token of the user is live, and the guard refuses every
  -- access token. Of the current one, the set has it if it had it, the guard treats each access token
  -- as before, and a refresh token that no other session has as its latest is read as before.
  pub record IsChanged (before after : SessionState b) (env : Draw) (current : Option ℕ)
      (password : String) : Type 0 where
    pub stored : User
    pub found : b.users_table.find after.users user_id ≡ some stored
    pub compares : crypt.compare password stored.user_password_hash ≡ true
    pub kept :
        (session : ℕ)
        → b.sessions_store.is_member after.sessions user_id session ≡ (
            if current is session
            then b.sessions_store.is_member before.sessions user_id session
            else false)
    pub no_token :
        (session : ℕ)
        → b.sessions_store.is_member before.sessions user_id session ≡ true
        → (current is session) ≡ false
        → HasNoToken b env user_id after session
    pub admitted :
        (session : ℕ) (payload : AccessPayload)
        → current ≡ some session
        → payload.sub ≡ user_id
        → payload.session_id ≡ some session
        → check_claims b after payload ≡ check_claims b before payload
    pub refreshable :
        (later token : ℕ)
        → IsOwn b env user_id before current token
        → token_at b after later token ≡ token_at b before later token
    pub refused :
        (payload : AccessPayload)
        → payload.sub ≡ user_id
        → ((session : ℕ) → payload.session_id ≡ some session → (current is session) ≡ false)
        → check_claims b after payload ≡ err unauthorized

  done-state :
      (o : SessionState b × Result ℕ) (count : ℕ) → o.1 ≡ ok count → done b crypt o ≡ (o.0, ok tt)
  done-state (s, err e) count h = cc
  done-state (s, ok n) count h = refl

  -- revokeAllSessions once the new hash is stored.
  abbrev pub changed :
      SessionState b → Draw → ℕ → User → Option ℕ → String → SessionState b × Result (Unit {0})
  changed s env salt user current password = done b crypt (
      revoke_all_sessions b (save_password b crypt s user_id user (crypt.hash salt password)) env
        user_id current)

  -- The guard reads of the row what a change of password leaves.
  changed-admitted :
      (s : SessionState b) (env : Draw) (new_hash : String) (user : User) (session : ℕ)
      (payload : AccessPayload)
      → IsKeyed b s
      → b.users_table.find s.users user_id ≡ some user
      → payload.sub ≡ user_id
      → payload.session_id ≡ some session
      → check_claims b
          (revoke_all_sessions b
            (save_password b crypt s user_id user new_hash)
            env
            user_id
            (some session)).0
          payload
        ≡ check_claims b s payload
  unfolding check_claims save_password
  changed-admitted s env new_hash user session payload keyed known own claimed =
      let row : User = record user { user_password_hash = new_hash } in
      let saved : SessionState b = record s { users = b.users_table.save s.users user_id row } in
      let after : SessionState b = (revoke_all_sessions b saved env user_id (some session)).0 in
      let there : b.users_table.find after.users user_id ≡ some row =
        ap (λ rows. b.users_table.find rows user_id)
          (revoke_all_sessions-users b env user_id saved session)
        ∙ save_here b.users_table s.users user_id row in
      let key : user.user_id ≡ user_id = keyed user_id user known in
      let still : IsKeyed b saved = saved-IsKeyed b s user_id row keyed key in
      let in_set : b.sessions_store.is_member after.sessions user.user_id session
          ≡ b.sessions_store.is_member s.sessions user.user_id session =
        subst
          (λ (k : ℕ).
            b.sessions_store.is_member after.sessions k session
            ≡ b.sessions_store.is_member s.sessions k session)
          (sym key)
          ((revoke_all_sessions-refused b env user_id saved (some session) still).0 session
            ∙ rw (==_refl session) refl) in
      rw (own, claimed, known, there, in_set) refl

  pub changed-IsChanged :
      (s : SessionState b) (env : Draw) (salt : ℕ) (user : User) (current : Option ℕ)
      (password : String)
      → IsLinked b env.now s
      → IsKeyed b s
      → b.users_table.find s.users user_id ≡ some user
      → ((changed s env salt user current password).1 ≡ ok tt)
        × IsChanged s (changed s env salt user current password).0 env current password
  unfolding save_password
  changed-IsChanged s env salt user current password linked keyed known =
      let row : User = record user { user_password_hash = crypt.hash salt password } in
      let saved : SessionState b = record s { users = b.users_table.save s.users user_id row } in
      let here : b.users_table.find saved.users user_id ≡ some row =
        ground (arith, b.users_table.find-save s.users user_id user_id row, ==_refl user_id) in
      let still = saved-IsKeyed b s user_id row keyed (keyed user_id user known) in
      let linked_after : IsLinked b env.now saved = record {
        latest = linked.latest;
        spent = linked.spent;
      } in
      let (left, refuse) = revoke_all_sessions-refused b env user_id saved current still in
      let ((count, fine), (after, there, same)) =
        revoke_all_sessions-user b env user_id saved current row here in
      subst
        (λ (o : SessionState b × Result (Unit {0})).
          (o.1 ≡ ok tt) × IsChanged s o.0 env current password)
        (sym (done-state (revoke_all_sessions b saved env user_id current) count fine))
        (
          refl,
          record {
            stored = after;
            found = there;
            compares = rw same (crypt.compare-hash salt password);
            kept = left;
            refused = refuse;
            no_token = λ session inside other.
                revoke_all_sessions-HasNoToken b env user_id saved current session linked_after
                  inside other;
            admitted = λ session payload is_current own claimed.
                subst
                  (λ (c : Option ℕ).
                    check_claims b (revoke_all_sessions b saved env user_id c).0 payload
                    ≡ check_claims b s payload)
                  (sym is_current)
                  (changed-admitted s env (crypt.hash salt password) user session payload keyed
                    known own claimed);
            refreshable = revoke_all_sessions-token b env user_id saved current;
          },
        )
