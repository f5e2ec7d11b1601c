-- ===== src/Base/Results.antt =====
-- The exceptions that the services throw (NestJS's HTTP exceptions and the database's own), and a
-- result type with `do`. An exception is known by its class; messages are not kept.
use mathlib.Core.Path.{◌≡◌, refl}
use mathlib.Core.Bool.{Bool, true, false}
use mathlib.Core.Option.{Option, none, some}
use native.Mathlib.Omega.{arith}

pub data Error : Type 0 where
  bad_request unauthorized forbidden not_found conflict : Error
  -- what Prisma throws: a foreign key refuses a delete, or a value does not fit its column
  foreign_key invalid_value : Error
  -- Prisma finds no row to update; a property of null is read
  record_missing type_error : Error

pub data Result {ℓ} (A : Type ℓ) : Type ℓ where
  ok : A → Result A
  err : Error → Result A

-- A guard comes before what it guards.
infixl 5 ◌>>◌
abbrev pub ◌>>◌ {κ} : {B : Type κ} → Result (Unit {0}) → Result B → Result B
err thrown >> rest = err thrown
ok passed >> rest = rest

-- `const x = await m; …`
infixl 5 ◌>>=◌
abbrev pub ◌>>=◌ {κ ℓ} : {B : Type κ} {A : Type ℓ} → Result A → (A → Result B) → Result B
err thrown >>= rest = err thrown
ok found >>= rest = rest found

-- `if (test) throw e`
abbrev pub throw_if : Bool → Error → Result (Unit {0})
throw_if true e = err e
throw_if false e = ok tt

-- `if (!row) throw e`
abbrev pub or_throw {ℓ} : {A : Type ℓ} → Option A → Error → Result A
or_throw none e = err e
or_throw (some a) e = ok a

-- A chain that succeeds has succeeded at its first step.
pub bind-eq-ok {κ ℓ} :
    {B : Type κ} {A : Type ℓ} (first : Result A) (rest : A → Result B) {result : B}
    → (first >>= rest) ≡ ok result
    → (found : A) × (first ≡ ok found) × (rest found ≡ ok result)
bind-eq-ok (err thrown) rest h = cc
bind-eq-ok (ok found) rest h = (found, refl, h)

pub or_throw-eq-ok {ℓ} :
    {A : Type ℓ} (o : Option A) (e : Error) {a : A} → or_throw o e ≡ ok a → o ≡ some a
or_throw-eq-ok none e h = cc
or_throw-eq-ok (some b) e h = ground arith

pub throw_if-eq-ok : (b : Bool) (e : Error) {u : Unit {0}} → throw_if b e ≡ ok u → b ≡ false
throw_if-eq-ok true e h = cc
throw_if-eq-ok false e h = refl

pub ok-injective {ℓ} : {A : Type ℓ} {a b : A} → ok a ≡ ok b → a ≡ b
ok-injective h = cc

pub guard-eq-ok {ℓ} :
    {B : Type ℓ} (m : Result (Unit {0})) (k : Result B) {b : B}
    → (m >> k) ≡ ok b
    → (m ≡ ok tt) × (k ≡ ok b)
guard-eq-ok (ok u) k h = (refl, h)
guard-eq-ok (err e) k h = cc
