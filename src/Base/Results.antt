-- ===== src/Base/Results.antt =====
-- Operations that throw, and operations that may read past an array.
use mathlib.Core.Logic.{◌⊎◌, inl, inr}
use mathlib.Core.Path.{◌≡◌, refl}
use mathlib.Core.Option.{none, some}

-- The exceptions that the code throws or lets pass, `out_of_bounds` for a read past a vector, and
-- `diff_limit` where a verification has seen too many differences and stops.
pub data Error : Type 0 where
  duplicate_key too_much_rows bad_columns bad_conversion bad_address bad_time : Error
  stream_failure invalid_argument out_of_range out_of_bounds diff_limit : Error

pub data Result {ℓ} (A : Type ℓ) : Type ℓ where
  ok : A → Result A
  err : Error → Result A

-- `fault` is a read or write outside an array; `no_fuel` is a loop that was cut off.
pub data Run {ℓ} (A : Type ℓ) : Type ℓ where
  done : A → Run A
  fault : Run A
  no_fuel : Run A

infixl 5 ◌>>=◌
abbrev pub ◌>>=◌ {ℓ κ} : {A : Type ℓ} {B : Type κ} → Run A → (A → Run B) → Run B
done a >>= f = f a
fault >>= f = fault
no_fuel >>= f = no_fuel

abbrev pub and_then {ℓ κ} : {A : Type ℓ} {B : Type κ} → Result A → (A → Result B) → Result B
and_then (ok a) f = f a
and_then (err e) f = err e

abbrev pub IsOk {ℓ} : {A : Type ℓ} → Result A → Type 0
IsOk (ok a) = Unit
IsOk (err e) = ⊥

pub Result-cases {ℓ} :
    {A : Type ℓ} (r : Result A) → ((a : A) × (r ≡ ok a)) ⊎ ((e : Error) × (r ≡ err e))
Result-cases (ok a) = inl (a, refl)
Result-cases (err e) = inr (e, refl)

pub no_fuel_done : {A : Type 0} {a : A} → ¬ (no_fuel ≡ done a)
no_fuel_done h = cc

pub fault_done : {A : Type 0} {a : A} → ¬ (fault ≡ done a)
fault_done h = cc

pub done_inj : {A : Type 0} {a b : A} → done a ≡ done b → a ≡ b
done_inj h = cc

pub bind_done :
    {A B : Type 0} (m : Run A) (f : A → Run B) (b : B)
    → (m >>= f) ≡ done b
    → (a : A) × (m ≡ done a) × (f a ≡ done b)
bind_done (done a) f b h = (a, refl, h)
bind_done fault f b h = absurd (fault_done h)
bind_done no_fuel f b h = absurd (no_fuel_done h)

pub ok_err : {A : Type 0} {a : A} {e : Error} → ¬ (err e ≡ ok a)
ok_err h = cc

pub ok_inj : {A : Type 0} {a b : A} → ok a ≡ ok b → a ≡ b
ok_inj h = cc

pub some-none : {A : Type 0} {a : A} → ¬ (some a ≡ none)
some-none h = cc

pub none-some : {A : Type 0} {a : A} → ¬ (none ≡ some a)
none-some h = cc

pub some_inj : {A : Type 0} {a b : A} → some a ≡ some b → a ≡ b
some_inj h = cc
