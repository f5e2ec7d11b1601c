-- ===== src/Examples/Passwords.antt =====
-- The theorems on passwords, each applied to the driver in memory.
use egypt_supply_chain_visib.Base.{
  ℕ, ◌≡◌, ◌⊎◌, ◌≤◌, ◌*◌, ◌/◌, refl, true, false, none, some, String, [], ok, err, bad_request,
  same_text, same_text_refl, arith,
}
use egypt_supply_chain_visib.Domain.{pos}
use egypt_supply_chain_visib.Store.Cache.Timed.{timed}
use egypt_supply_chain_visib.Sessions.{SessionState, Draw, backend_in_memory}
use egypt_supply_chain_visib.Sessions.Links.{IsLinked-later}
use egypt_supply_chain_visib.Sessions.Tokens.{create_token_pair, open_session}
use egypt_supply_chain_visib.Sessions.Passwords.{
  Bcrypt, Vault, get_reset_token_ttl_seconds, find_by_email, update_password, forgot_password,
  reset_password,
}
use egypt_supply_chain_visib.Sessions.Passwords.Changed.{IsChanged}
use egypt_supply_chain_visib.Sessions.Passwords.Reset.{
  get_reset_token_ttl_seconds-bounds, update_password-IsChanged, forgot-reset_password,
}
use egypt_supply_chain_visib.Examples.Setup.{driver_row}
use egypt_supply_chain_visib.Examples.SignIns.{
  signed_in, draw, signed_in-IsKeyed, signed_in-IsLinked,
}

-- A hash that is the password itself.
abbrev pub plain : Bcrypt
plain = record {
  hash = λ salt password. password;
  compare = same_text;
  compare-hash = λ salt password. same_text_refl password;
}

abbrev vault : Vault backend_in_memory (timed ℕ)
vault = record { session = signed_in; resets = λ key. none; mailed = [] }

get_reset_token_ttl_seconds-bounds_example :
    (60 ≤ get_reset_token_ttl_seconds (some (pos 30)))
    × (get_reset_token_ttl_seconds (some (pos 30)) ≤ 86400)
    × (get_reset_token_ttl_seconds (some (pos 30)) / 60 * 60
        ≡ get_reset_token_ttl_seconds (some (pos 30)))
    × ((minutes : ℕ)
        → some (pos 30) ≡ some (pos minutes)
        → 1 ≤ minutes
        → minutes ≤ 1440
        → get_reset_token_ttl_seconds (some (pos 30)) ≡ minutes * 60)
get_reset_token_ttl_seconds-bounds_example = get_reset_token_ttl_seconds-bounds (some (pos 30))

abbrev changed : SessionState backend_in_memory
changed =
    (update_password backend_in_memory plain signed_in (draw 10) 7 2 (some 101) "secret" "fresh").0

update_password-IsChanged_example :
    ((plain.compare "secret" "secret" ≡ false)
      × (update_password backend_in_memory plain signed_in (draw 10) 7 2 (some 101) "secret" "fresh"
          ≡ (signed_in, err bad_request)))
    ⊎ ((plain.compare "secret" "secret" ≡ true)
        × ((update_password backend_in_memory plain signed_in
              (draw 10)
              7
              2
              (some 101)
              "secret"
              "fresh").1
            ≡ ok tt)
        × IsChanged backend_in_memory plain 2 signed_in changed (draw 10) (some 101) "fresh")
unfolding create_token_pair open_session
update_password-IsChanged_example =
    update_password-IsChanged backend_in_memory plain 2 signed_in (draw 10) 7 driver_row (some 101)
      "secret" "fresh" signed_in-IsLinked signed_in-IsKeyed refl

abbrev asked : Vault backend_in_memory (timed ℕ)
asked =
    forgot_password backend_in_memory plain (timed ℕ) (λ text. 0) vault 10 (some (pos 30)) "link"
      "driver@nile.example"

abbrev reset : Vault backend_in_memory (timed ℕ)
reset =
    (reset_password backend_in_memory plain (timed ℕ) (λ text. 0) asked (draw 20) 7 "link"
      "fresh").0

forgot-reset_password_example :
    ((reset_password backend_in_memory plain
        (timed ℕ)
        (λ text. 0)
        asked
        (draw 20)
        7
        "link"
        "fresh").1
      ≡ ok tt)
    × IsChanged backend_in_memory plain 2 signed_in reset.session (draw 20) none "fresh"
    × ((again : Draw) (other : String)
        → (reset_password backend_in_memory plain
            (timed ℕ)
            (λ text. 0)
            reset
            again
            7
            "link"
            other).1
          ≡ err bad_request)
unfolding create_token_pair open_session find_by_email get_reset_token_ttl_seconds
forgot-reset_password_example =
    forgot-reset_password backend_in_memory (timed ℕ) plain (λ text. 0) vault 10 7 (draw 20)
      (some (pos 30)) 2 driver_row "link" "driver@nile.example" "fresh"
      (IsLinked-later backend_in_memory signed_in 10 20 (omega arith) signed_in-IsLinked)
      signed_in-IsKeyed refl refl (omega arith)
