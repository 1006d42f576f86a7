-- ===== src/Prelude/State.antt =====
-- Code that changes a state and may fail: the state stays changed when an error is returned.
use mathlib.Core.Path.{◌≡◌, refl, ap, ◌∙◌}
use mathlib.Core.Logic.{◌⊎◌, inl, inr, ◌≢◌}
use smuggle.Prelude.Error.{Error, Result, ok, err, panic, map_err}

abbrev pub St {ℓ} : Type ℓ → Type 0 → Type ℓ
St S A = S → Result A × S

-- What follows a result: an error or a panic ends the sequence.
abbrev pub next : {S A B : Type 0} → Result A → S → (A → St S B) → Result B × S
next (ok a) t f = f a t
next (err e) t f = (err e, t)
next (panic p) t f = (panic p, t)

infixl 5 ◌>>=◌ ◌>>◌
abbrev pub ◌>>=◌ : {S A B : Type 0} → St S A → (A → St S B) → St S B
◌>>=◌ m f s = let (r, t) = m s in next r t f

abbrev pub ◌>>◌ : {S B : Type 0} → St S (Unit {0}) → St S B → St S B
m >> k = m >>= λ _. k

abbrev pub return : {S A : Type 0} → A → St S A
return a s = (ok a, s)

abbrev pub fail : {S A : Type 0} → Error → St S A
fail e s = (err e, s)

abbrev pub lift : {S A : Type 0} → Result A → St S A
lift r s = (r, s)

-- An error is wrapped and returned.
abbrev pub on_error : {S A : Type 0} → (Error → Error) → St S A → St S A
on_error f m s = let (r, t) = m s in (map_err f r, t)

next-ok :
    {S A B : Type 0} (r : Result A) (t : S) (f : A → St S B) {b : B}
    → (next r t f).0 ≡ ok b
    → (a : A) × (r ≡ ok a) × ((f a t).0 ≡ ok b) × (next r t f ≡ f a t)
next-ok (ok a) t f h = (a, refl, h, refl)
next-ok (err e) t f h = cc
next-ok (panic p) t f h = cc

-- The parts of a sequence that succeeds.
pub >>=-ok :
    {S A B : Type 0} (m : St S A) (f : A → St S B) (s : S) {b : B}
    → ((m >>= f) s).0 ≡ ok b
    → (a : A) × ((m s).0 ≡ ok a) × ((f a (m s).1).0 ≡ ok b) × ((m >>= f) s ≡ f a (m s).1)
>>=-ok m f s h = next-ok (m s).0 (m s).1 f h

map_err-ok : {A : Type 0} (f : Error → Error) (r : Result A) {a : A} → map_err f r ≡ ok a → r ≡ ok a
map_err-ok f (ok a) h = h
map_err-ok f (err e) h = cc
map_err-ok f (panic p) h = cc

pub on_error-ok :
    {S A : Type 0} (f : Error → Error) (m : St S A) (s : S) {a : A}
    → (on_error f m s).0 ≡ ok a
    → (m s).0 ≡ ok a
on_error-ok f m s h = map_err-ok f (m s).0 h

next-cases :
    {S A B : Type 0} (r : Result A) (t : S) (f : A → St S B)
    → (((b : B) → (next r t f).0 ≢ ok b) × ((next r t f).1 ≡ t))
      ⊎ ((a : A) × (r ≡ ok a) × (next r t f ≡ f a t))
next-cases (ok a) t f = inr (a, refl, refl)
next-cases (err e) t f = inl (λ b h. cc h, refl)
next-cases (panic p) t f = inl (λ b h. cc h, refl)

-- A sequence ends with its first part, or goes on with the value of it.
pub >>=-cases :
    {S A B : Type 0} (m : St S A) (f : A → St S B) (s : S)
    → (((b : B) → ((m >>= f) s).0 ≢ ok b) × (((m >>= f) s).1 ≡ (m s).1))
      ⊎ ((a : A) × ((m s).0 ≡ ok a) × ((m >>= f) s ≡ f a (m s).1))
>>=-cases m f s = next-cases (m s).0 (m s).1 f

-- What both parts of a sequence leave as it is, the sequence does.
pub >>=-view :
    {S A B C : Type 0} (view : S → C) (m : St S A) (f : A → St S B) (s : S)
    → view (m s).1 ≡ view s
    → ((a : A) (t : S) → view (f a t).1 ≡ view t)
    → view ((m >>= f) s).1 ≡ view s
>>=-view view m f s first second = elim (next-cases (m s).0 (m s).1 f) [
  | inl (bad, same) ↦ ap view same ∙ first
  | inr (a, e, same) ↦ ap (λ r. view r.1) same ∙ second a (m s).1 ∙ first
]
