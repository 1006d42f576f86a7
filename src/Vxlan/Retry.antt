-- ===== src/Vxlan/Retry.antt =====
-- internal/helper/retry/retry.go: a call is repeated until it succeeds or its time is over. The
-- number of attempts that the 60 seconds of go-retry allow is a parameter.
use smuggle.Prelude.{
  ◌<◌, ℕ, zero, suc, Bool, false, Bool-cases, inl, inr, Option, none, some, ◌≡◌, refl, arith, ◌∙◌,
  if◌then◌else◌,
}
use smuggle.Prelude.Error.{Error, Result, Result-cases, ok, err, panic, is_error}
use smuggle.Prelude.State.{St}
use smuggle.Vxlan.Interface.{IsKernelCall, deadline_exceeded}

-- The last error, which may be nil.
abbrev pub last_result : Option Error → Result (Unit {0})
last_result none = ok tt
last_result (some e) = err e

-- `last` is the error of the attempt before. One that exceeds the deadline ends the attempts.
unfoldable pub retry_from : {S : Type 0} → ℕ → Option Error → St S (Unit {0}) → St S (Unit {0})
retry_from zero last f s = (last_result last, s)
retry_from (suc n) last f s =
    let (r, t) = f s in
    elim r [
      | ok u ↦ (ok tt, t)
      | err e ↦
          if is_error e deadline_exceeded then (last_result last, t) else retry_from n (some e) f t
      | panic p ↦ (panic p, t)
    ]

-- At least one attempt is made.
unfoldable pub retry : {S : Type 0} → ℕ → St S (Unit {0}) → St S (Unit {0})
unfolding retry_from
retry more f = retry_from (suc more) none f

module _ {S : Type 0} (f : St S (Unit {0})) (kernel : IsKernelCall f) where
  retry_from-ok :
      (n : ℕ) (last : Option Error) (s : S)
      → (retry_from n last f s).0 ≡ ok tt
      → (last ≡ none → 0 < n)
      → (t : S) × ((f t).0 ≡ ok tt) × ((retry_from n last f s).1 ≡ (f t).1)
  unfolding retry_from
  retry_from-ok zero none s done some_left = absurd (omega (arith, some_left refl))
  retry_from-ok zero (some e) s done some_left = cc
  retry_from-ok (suc n) last s done some_left = elim (Result-cases (f s).0) [
    | inl (u, worked) ↦ (s, worked, rw (retry_from, worked) refl)
    | inr (inl (e, failed)) ↦
        let goes : is_error e deadline_exceeded ≡ false = kernel s e failed in
        let (t, worked, same) =
          retry_from-ok n (some e) (f s).1 (rw (retry_from, failed, goes) at done) (λ h. cc h) in
        (t, worked, rw (retry_from, failed, goes) same)
    | inr (inr (p, crashed)) ↦ absurd (ground arith)
  ]

  -- A repeated call of the kernel that succeeds has ended with an attempt that did.
  pub retry-ok :
      (more : ℕ) (s : S)
      → (retry more f s).0 ≡ ok tt
      → (t : S) × ((f t).0 ≡ ok tt) × ((retry more f s).1 ≡ (f t).1)
  unfolding retry
  retry-ok more s done = retry_from-ok (suc more) none s done (λ h. omega arith)

-- What every attempt keeps is kept.
module _ {S : Type 0} (f : St S (Unit {0})) (view : S → Bool)
    (keeps : (s : S) → view (f s).1 ≡ view s) where
  retry_from_keeps : (n : ℕ) (last : Option Error) (s : S) → view (retry_from n last f s).1 ≡ view s
  unfolding retry_from
  retry_from_keeps zero last s = refl
  retry_from_keeps (suc n) last s = elim (Result-cases (f s).0) [
    | inl (u, worked) ↦ rw (retry_from, worked) (keeps s)
    | inr (inl (e, failed)) ↦ elim (Bool-cases (is_error e deadline_exceeded)) [
      | inl ends ↦ rw (retry_from, failed, ends) (keeps s)
      | inr goes ↦ rw (retry_from, failed, goes) (retry_from_keeps n (some e) (f s).1 ∙ keeps s)
    ]
    | inr (inr (p, crashed)) ↦ rw (retry_from, crashed) (keeps s)
  ]

  pub retry_keeps : (more : ℕ) (s : S) → view (retry more f s).1 ≡ view s
  unfolding retry
  retry_keeps more s = retry_from_keeps (suc more) none s
