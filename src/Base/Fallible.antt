-- ===== src/Base/Fallible.antt =====
-- What a fallible routine returns: a value, one of the codes of lo/lo_errors.h (the C code
-- negates them where a length shares the return type), or `fault` where C has no defined
-- behaviour because memory outside an object is read.
use mathlib.Core.Bool.{Bool, true, false}
use mathlib.Core.Path.{◌≡◌, refl}

pub data Error : Type 0 where
  enotype ealloc einvalidpath einvalidtype ebadtype esize einvalidarg : Error
  eterm epad einvalidbund int_err : Error

pub data Result {ℓ} (A : Type ℓ) : Type ℓ where
  ok : A → Result A
  err : Error → Result A
  fault : Result A

infixl 5 ◌>>=◌
abbrev pub ◌>>=◌ {ℓ κ} : {A : Type ℓ} {B : Type κ} → Result A → (A → Result B) → Result B
ok a >>= f = f a
err e >>= f = err e
fault >>= f = fault

-- Errors of an inner check that the caller reports under one code of its own.
abbrev pub report {ℓ} : {A : Type ℓ} → Error → Result A → Result A
report e (ok a) = ok a
report e (err _) = err e
report e fault = fault

pub data Cases {ℓ} {A : Type ℓ} (r : Result A) : Type ℓ where
  is_ok : (a : A) → r ≡ ok a → Cases r
  is_err : (e : Error) → r ≡ err e → Cases r
  is_fault : r ≡ fault → Cases r

-- To split on a computed result and keep the equation.
pub Result-Cases {ℓ} : {A : Type ℓ} (r : Result A) → Cases r
Result-Cases (ok a) = is_ok a refl
Result-Cases (err e) = is_err e refl
Result-Cases fault = is_fault refl

infixl 5 ◌>>◌
abbrev pub ◌>>◌ {ℓ} : {B : Type ℓ} → Result (Unit {0}) → Result B → Result B
m >> k = m >>= λ _. k

-- `if (!test) { res = e; goto fail; }`
abbrev pub require : Bool → Error → Result (Unit {0})
require true e = ok tt
require false e = err e
