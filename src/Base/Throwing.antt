-- ===== src/Base/Throwing.antt =====
-- A computation that returns or throws, and the errors that the code throws.
use mathlib.Core.Path.{◌≡◌, refl}
use servers_manager.Base.Strings.{Text}

-- The exceptions of the HTTP layer by their class, a database error by its code where the code
-- reads it, and any other `Error` by its message.
pub data Error : Type 0 where
  not_found bad_request conflict unauthorized too_many_requests unique_violation : Error
  type_error : Error
  error : Text → Error

pub data Throws {ℓ} (A : Type ℓ) : Type ℓ where
  throw : Error → Throws A
  ok : A → Throws A

-- `await m` followed by `next`: an exception passes by what comes next.
infixl 5 ◌>>=◌
abbrev pub ◌>>=◌ {ℓ κ} : {S : Type ℓ} {T : Type κ} → Throws S → (S → Throws T) → Throws T
throw reason >>= next = throw reason
ok value >>= next = next value

-- A chain that returned went through its first step.
pub returned {ℓ κ} :
    {S : Type ℓ} {T : Type κ} (first : Throws S) (next : S → Throws T) {result : T}
    → (first >>= next) ≡ ok result
    → (value : S) × (first ≡ ok value) × (next value ≡ ok result)
returned (throw reason) next e = cc
returned (ok value) next e = (value, refl, e)
