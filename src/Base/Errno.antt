-- ===== src/Base/Errno.antt =====
-- The error numbers that the functions of lib return, and their results as values.
use mathlib.Core.Path.{◌≡◌, refl}
use mathlib.Core.Bool.{Bool, true, false}
use mathlib.Core.Option.{Option, none, some}
use mathlib.Core.Logic.{◌⊎◌, inl, inr}

-- `etoywasmtrap` is ETOYWASMTRAP of lib/exec.h; the rest are the C library's.
pub data Errno : Type 0 where
  einval e2big enomem eoverflow erange enoent ebadf etimedout etoywasmtrap : Errno

-- `ok a` is a return of 0 with `a` stored through the result pointers, `err e` a return of `e`.
-- `fault` is no return at all: an assertion fails, or the behaviour is undefined in C.
pub data Result {ℓ} (A : Type ℓ) : Type ℓ where
  ok : A → Result A
  err : Errno → Result A
  fault : Result A

-- A step and what follows it: the first that does not return `ok` is the outcome.
infixl 5 ◌>>=◌
abbrev pub ◌>>=◌ {ℓ κ} : {A : Type ℓ} {B : Type κ} (m : Result A) (next : A → Result B) → Result B
fault >>= next = fault
err number >>= next = err number
ok a >>= next = next a

-- `assert` of C.
abbrev pub assert : Bool → Result (Unit {0})
assert true = ok tt
assert false = fault

-- An array read; out of bounds it is a fault.
abbrev pub read_elem {ℓ} : {A : Type ℓ} → Option A → Result A
read_elem none = fault
read_elem (some a) = ok a

-- `if (!test) return e;`
abbrev pub check : Bool → Errno → Result (Unit {0})
check true e = ok tt
check false e = err e

infixl 5 ◌>>◌
abbrev pub ◌>>◌ {κ} : {B : Type κ} (step : Result (Unit {0})) (next : Result B) → Result B
step >> next = step >>= λ done. next

-- Inversion of a successful bind.
pub >>=-eq-ok {ℓ κ} :
    {A : Type ℓ} {B : Type κ} (m : Result A) (next : A → Result B) {b : B} (e : (m >>= next) ≡ ok b)
    → (a : A) × (m ≡ ok a) × (next a ≡ ok b)
>>=-eq-ok fault next e = absurd (cc e)
>>=-eq-ok (err number) next e = absurd (cc e)
>>=-eq-ok (ok a) next e = (a, refl, e)

pub Result-cases {ℓ} :
    {A : Type ℓ} (r : Result A)
    → ((a : A) × (r ≡ ok a)) ⊎ (((e : Errno) × (r ≡ err e)) ⊎ (r ≡ fault))
Result-cases (ok a) = inl (a, refl)
Result-cases (err e) = inr (inl (e, refl))
Result-cases fault = inr (inr refl)
