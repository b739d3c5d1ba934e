-- ===== src/Prelude/Exceptions.antt =====
-- Python's exceptions: a call returns a value or raises.
use mathlib.Core.Option.{Option, none, some}
use mathlib.Core.Path.{◌≡◌, refl}
use mathlib.Core.Logic.{◌⊎◌, inl, inr}

-- The exception classes that the modelled code raises. Messages are left out.
pub data Error : Type 0 where
  value_error permission_error integrity_error assertion_error : Error
  key_error runtime_error already_exists skill_promotion_error : Error
  attribute_error index_error : Error

pub data Result {ℓ} (A : Type ℓ) : Type ℓ where
  raised : (reason : Error) → Result A
  ok : (value : A) → Result A

-- `x = m()`, and what follows it; an exception leaves at once
infixl 5 ◌>>=◌
abbrev pub ◌>>=◌ {ℓ κ} : {A : Type ℓ} → {B : Type κ} → Result A → (A → Result B) → Result B
raised reason >>= rest = raised reason
ok value >>= rest = rest value

-- `assert record is not None` before a record is returned
abbrev pub fetched {ℓ} : {A : Type ℓ} → Option A → Result A
fetched none = raised assertion_error
fetched (some a) = ok a

-- A call raises or returns.
pub Result-cases {ℓ} :
    {A : Type ℓ} (r : Result A) → ((e : Error) × (r ≡ raised e)) ⊎ ((a : A) × (r ≡ ok a))
Result-cases (raised e) = inl (e, refl)
Result-cases (ok a) = inr (a, refl)
