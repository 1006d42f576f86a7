-- ===== src/Disk/Trace.antt =====
-- What all states of a sequence of recorded calls satisfy.
use smuggle.Prelude.{◌∷◌, ◌≡◌, refl, All}
use smuggle.Prelude.Error.{Result, ok, err, panic}
use smuggle.Prelude.State.{St, ◌>>=◌, next}
use smuggle.Disk.{Traced, call}

module _ {S : Type 0} (P : S → Type 0) where
  abbrev pub Holds : Traced S → Type 0
  Holds r = All P (r.now ∷ r.seen)

  abbrev pub Keeps : {A : Type 0} → St (Traced S) A → Type 0
  Keeps m = (r : Traced S) → Holds r → Holds (m r).1

  pub call-Keeps : {A : Type 0} (f : St S A) → ((s : S) → P s → P (f s).1) → Keeps (call f)
  call-Keeps f k r h = (k r.now h.0, h)

  next-Holds :
      {A B : Type 0} (x : Result A) (t : Traced S) (f : A → St (Traced S) B)
      → Holds t
      → ((a : A) → x ≡ ok a → Holds (f a t).1)
      → Holds (next x t f).1
  next-Holds (ok a) t f h k = k a refl
  next-Holds (err e) t f h k = h
  next-Holds (panic p) t f h k = h

  -- A sequence keeps what its first part does, and its second part on the values that the first
  -- part gives.
  pub >>=-Keeps :
      {A B : Type 0} (m : St (Traced S) A) (f : A → St (Traced S) B)
      → Keeps m
      → ((a : A) (r : Traced S) → Holds r → (m r).0 ≡ ok a → Keeps (f a))
      → Keeps (m >>= f)
  >>=-Keeps m f k l r h = next-Holds (m r).0 (m r).1 f (k r h) (λ a e. l a r h e (m r).1 (k r h))
