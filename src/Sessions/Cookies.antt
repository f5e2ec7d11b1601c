-- ===== src/Sessions/Cookies.antt =====
-- The refresh token as the cookie holds it: `${familyId}:${token}` of createTokenPair, and what
-- refreshToken makes of it with `split(':')`. The cookies of the other modules are its parts.
use Prim.Native.Char.{Char, code}
use Prim.Native.String.{◌++◌ as append}
use Prim.Native.String.append.{nil as nil_append, cons as cons_append}
use egypt_supply_chain_visib.Base.{
  ◌==◌, ◌≡◌, refl, ap, ◌∙◌, Bool, false, Option, none, some, List, [], ◌∷◌, String, if◌then◌else◌,
}

-- ':'
abbrev pub is_colon : Char → Bool
is_colon c = code c == 58

-- A character in front of the first piece.
abbrev pub in_front : Char → List String → List String
in_front c [] = []
in_front c (piece ∷ pieces) = String.◌∷◌ c piece ∷ pieces

-- `split(':')`
unfoldable pub split_colon : String → List String
split_colon String.[] = "" ∷ []
split_colon (String.◌∷◌ c rest) =
    let pieces = split_colon rest in if is_colon c then "" ∷ pieces else in_front c pieces

-- A piece that is there and not empty.
abbrev pub truthy : String → Option String
truthy String.[] = none
truthy (String.◌∷◌ c rest) = some (String.◌∷◌ c rest)

abbrev pub first_piece : List String → Option String
first_piece [] = none
first_piece (piece ∷ pieces) = truthy piece

abbrev pub second_piece : List String → Option String
second_piece [] = none
second_piece (piece ∷ pieces) = first_piece pieces

-- `const [familyId, rawToken] = refreshTokenCookie.split(':')`
unfoldable pub read_cookie : String → Option String × Option String
unfolding split_colon
read_cookie cookie = (first_piece (split_colon cookie), second_piece (split_colon cookie))

-- The template of createTokenPair and rotateToken.
unfoldable pub write_cookie : String → String → String
write_cookie family token = append family (append ":" token)

-- No ':' in a text; a UUID has none.
abbrev pub HasNoColon : String → Type 0
HasNoColon String.[] = Unit {0}
HasNoColon (String.◌∷◌ c rest) = (is_colon c ≡ false) × HasNoColon rest

split_plain : (token : String) → HasNoColon token → split_colon token ≡ token ∷ []
unfolding split_colon
split_plain String.[] h = refl
split_plain (String.◌∷◌ c rest) (plain, more) = rw (plain, split_plain rest more) refl

append-nil : (t : String) → append "" t ≡ t
append-nil t = λ i. nil_append t i

append-cons : (c : Char) (s t : String) → append (String.◌∷◌ c s) t ≡ String.◌∷◌ c (append s t)
append-cons c s t = λ i. cons_append c s t i

-- The separator in front of a token.
append-colon : (token : String) → split_colon (append ":" token) ≡ "" ∷ split_colon token
unfolding split_colon
append-colon token =
    ap split_colon (append-cons _ "" token) ∙ ap (λ s. "" ∷ split_colon s) (append-nil token)

split_pair :
    (family token : String)
    → HasNoColon family
    → HasNoColon token
    → split_colon (append family (append ":" token)) ≡ family ∷ token ∷ []
unfolding split_colon
split_pair String.[] token h plain =
    rw (append-nil (append ":" token), append-colon token, split_plain token plain) refl
split_pair (String.◌∷◌ c rest) token (here, more) plain =
    rw (append-cons c rest (append ":" token), here, split_pair rest token more plain) refl

-- What createTokenPair writes into the cookie, refreshToken reads back: the session and the token,
-- if neither has a colon in it.
pub read-write_cookie :
    (family token : String)
    → HasNoColon family
    → HasNoColon token
    → read_cookie (write_cookie family token) ≡ (truthy family, truthy token)
unfolding read_cookie write_cookie
read-write_cookie family token h plain = rw (split_pair family token h plain) refl
