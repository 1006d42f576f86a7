-- ===== src/Prelude/Error.antt =====
-- Go's `error` values, and results that are a value, an error or a panic.
use Prim.Native.String.{String}
use mathlib.Core.Bool.{Bool, false}
use mathlib.Core.List.{List, []}
use mathlib.Core.Path.{◌≡◌, refl}
use mathlib.Core.Logic.{◌⊎◌, inl, inr}
use smuggle.Prelude.Equality.{◌==◌, string_eq}

-- `errors.New` and `fmt.Errorf` with the format and its arguments, `%w` with the wrapped error,
-- and the sentinel values that `errors.Is` looks for.
pub data Error : Type 0 where
  errorf : String → List String → Error
  wrapf : String → List String → Error → Error
  sentinel : String → Error

abbrev pub new_error : String → Error
new_error message = errorf message []

abbrev pub wrap : String → Error → Error
wrap message e = wrapf message [] e

-- `errors.Is(err, target)` for a sentinel target.
abbrev pub is_error : Error → String → Bool
is_error (errorf _ _) target = false
is_error (wrapf _ _ e) target = is_error e target
is_error (sentinel name) target = name == target

pub data Result {ℓ} (A : Type ℓ) : Type ℓ where
  ok : A → Result A
  err : Error → Result A
  panic : String → Result A

-- The chain of calls that return at the first error.
infixl 5 ◌>>=◌ ◌>>◌
abbrev pub ◌>>=◌ {ℓ κ} : {A : Type ℓ} {B : Type κ} → Result A → (A → Result B) → Result B
ok a >>= f = f a
err e >>= f = err e
panic p >>= f = panic p

abbrev pub ◌>>◌ {ℓ} : {B : Type ℓ} → Result (Unit {0}) → Result B → Result B
m >> k = m >>= λ _. k

-- `if err != nil { return fmt.Errorf("…: %w", err) }`
abbrev pub map_err {ℓ} : {A : Type ℓ} → (Error → Error) → Result A → Result A
map_err f (ok a) = ok a
map_err f (err e) = err (f e)
map_err f (panic p) = panic p

-- To split on a computed result and keep the equation.
pub Result-cases {ℓ} :
    {A : Type ℓ} (r : Result A)
    → ((a : A) × (r ≡ ok a)) ⊎ ((e : Error) × (r ≡ err e)) ⊎ ((p : String) × (r ≡ panic p))
Result-cases (ok a) = inl (a, refl)
Result-cases (err e) = inr (inl (e, refl))
Result-cases (panic p) = inr (inr (p, refl))
