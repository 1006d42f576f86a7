-- ===== src/Config/Merge.antt =====
-- internal/config: how one configuration overrides another, field by field and with nil pointers.
use smuggle.Prelude.{ℕ, String, Bool, true, false, ◌||◌, Option, none, some, ◌≡◌, refl, arith}
use smuggle.Prelude.{if◌then◌else◌, ◌==◌, nat_eq, string_eq}
use smuggle.Prelude.Int.{ℤ, pos, negsuc}

-- `if other.Field != nil { result.Field = other.Field }`
abbrev pub override {ℓ} : {A : Type ℓ} → Option A → Option A → Option A
override a none = a
override a (some b) = some b

-- The same for a text, a number or a duration, whose zero value means that it is not set.
abbrev pub override_text : String → String → String
override_text a b = if b == "" then a else b

abbrev pub override_nat : ℕ → ℕ → ℕ
override_nat a b = if b == 0 then a else b

abbrev pub is_zero : ℤ → Bool
is_zero (pos n) = n == 0
is_zero (negsuc n) = false

abbrev pub override_duration : ℤ → ℤ → ℤ
override_duration a b = if is_zero b then a else b

-- The nil cases that every `Merge` begins with.
abbrev pub merge_with {ℓ} : {A : Type ℓ} → (A → A → A) → Option A → Option A → Option A
merge_with f none other = other
merge_with f (some a) none = some a
merge_with f (some a) (some b) = some (f a b)

-- The value that a pointer to a Bool stands for where nil means false.
abbrev pub is_true : Option Bool → Bool
is_true none = false
is_true (some b) = b

pub override_assoc {ℓ} :
    {A : Type ℓ} (a b c : Option A) → override (override a b) c ≡ override a (override b c)
override_assoc a b none = refl
override_assoc a b (some c) = refl

pub override_text_assoc :
    (a b c : String) → override_text (override_text a b) c ≡ override_text a (override_text b c)
override_text_assoc a b c = ground arith

pub override_nat_assoc :
    (a b c : ℕ) → override_nat (override_nat a b) c ≡ override_nat a (override_nat b c)
override_nat_assoc a b c = ground arith

pub or_assoc : (a b c : Bool) → ((a || b) || c) ≡ (a || (b || c))
or_assoc true b c = refl
or_assoc false b c = refl

-- Merging is associative once it is so without nil pointers.
pub merge_with_assoc {ℓ} :
    {A : Type ℓ} (f : A → A → A) (assoc : (a b c : A) → f (f a b) c ≡ f a (f b c))
    (a b c : Option A)
    → merge_with f (merge_with f a b) c ≡ merge_with f a (merge_with f b c)
merge_with_assoc f assoc none b c = refl
merge_with_assoc f assoc (some a) none c = refl
merge_with_assoc f assoc (some a) (some b) none = refl
merge_with_assoc f assoc (some a) (some b) (some c) = rw (assoc a b c) refl
