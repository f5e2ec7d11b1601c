-- ===== src/Examples/CookieTexts.antt =====
-- The theorem on cookies, at one of them.
use egypt_supply_chain_visib.Base.{◌≡◌, refl, Option, some}
use egypt_supply_chain_visib.Sessions.Cookies.{
  read_cookie, write_cookie, split_colon, read-write_cookie,
}

read-write_cookie_example : read_cookie (write_cookie "f1" "a2") ≡ (some "f1", some "a2")
read-write_cookie_example = read-write_cookie "f1" "a2" (refl, (refl, tt)) (refl, (refl, tt))

written : write_cookie "f1" "a2" ≡ "f1:a2"
unfolding write_cookie
written = refl

without_token : read_cookie "f1" ≡ (some "f1", Option.none)
unfolding read_cookie split_colon
without_token = refl
