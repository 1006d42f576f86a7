-- ===== src/Disk/Atomic.antt =====
-- What readers of the CNI configurations find while one is set.
use smuggle.Prelude.{
  List, String, ◌<>◌, Option, none, some, [], ◌∷◌, ◌≡◌, ◌≢◌, refl, ◌∙◌, All, All-map, ◌⊎◌, inl, inr,
}
use smuggle.Prelude.Error.{Error, Result, Result-cases, ok, err, panic, wrap}
use smuggle.Prelude.State.{on_error}
use smuggle.Client.Init.{CniConfig}
use smuggle.Disk.{FileSystem, IsLawful, Traced, call}
use smuggle.Disk.Cni.{set}
use smuggle.Disk.Trace.{Holds}
use smuggle.Disk.Outcome.{Shows, IsSafe, set-Outcome, wrapped-ok}

module _ (F : FileSystem) (L : IsLawful F) where
  open L use {content}

  -- The paths that a new temporary file cannot have.
  target-IsSafe :
      (path name : String) (c : Option String) → IsSafe F L (F.join path (name <> ".conf")) c path
  target-IsSafe path name c t s h created = L.create_temp_suffix path t name s created

  present-IsSafe : (path p old : String) → IsSafe F L p (some old) path
  present-IsSafe path p old t s h created e =
      let none_there : content s p ≡ none =
        rw e at (L.create_temp_new path ".cni-*.tmp" t s created).0 in
      cc (h, none_there)

  not-ok :
      {A : Type 0} {r : Result A} {a : A}
      → ((e : Error) × (r ≡ err e)) ⊎ ((m : String) × (r ≡ panic m))
      → r ≢ ok a
  not-ok (inl (e, h)) g = cc (h, g)
  not-ok (inr (m, h)) g = cc (h, g)

  abbrev pub started : F.State → Traced F.State
  started s = record { now = s; seen = [] }

  module _ (marshal : CniConfig → Result String) (path : String) (cfg : CniConfig) where
    abbrev pub target : String
    target = F.join path (cfg.name <> ".conf")

    -- The old content or the whole new text.
    abbrev pub IsWhole : F.State → F.State → Type 0
    IsWhole s t =
        (content t target ≡ content s target)
        ⊎ ((x : String) × (marshal cfg ≡ ok x) × (content t target ≡ some x))

    -- A result and a last state: the new text when it worked, and else the old content.
    abbrev pub Ends : F.State → Result (Unit {0}) → F.State → Type 0
    Ends s r t =
        ((r ≡ ok tt) × (x : String) × (marshal cfg ≡ ok x) × (content t target ≡ some x))
        ⊎ ((r ≢ ok tt) × (content t target ≡ content s target))

    old-IsWhole :
        (s : F.State) (ts : List F.State)
        → All (Shows F L target (content s target)) ts
        → All (IsWhole s) ts
    old-IsWhole s ts h = All-map (λ t e. inl e) ts h

    abbrev IsAtomic : F.State → Result (Unit {0}) × Traced F.State → Type 0
    IsAtomic s (r, t) = All (IsWhole s) (t.now ∷ t.seen) × Ends s r t.now

    rename-IsAtomic :
        (s : F.State) (x t : String) (r : Traced F.State)
        → marshal cfg ≡ ok x
        → content r.now t ≡ some x
        → Holds (Shows F L target (content s target)) r
        → IsAtomic s
            (on_error (wrap "failed to rename temporary file: %w") (call (F.rename t target)) r)
    rename-IsAtomic s x t r whole full h = elim (Result-cases (F.rename t target r.now).0) [
      | inl (u, moved) ↦
          let shown = L.rename_ok t target r.now moved ∙ full in
          (
            (inr (x, whole, shown), old-IsWhole s (r.now ∷ r.seen) h),
            inl (rw moved refl, x, whole, shown),
          )
      | inr failed ↦
          let bad : (F.rename t target r.now).0 ≢ ok tt = λ e. not-ok failed e in
          let shown = L.rename_failed t target target r.now bad ∙ h.0 in
          (
            (inl shown, old-IsWhole s (r.now ∷ r.seen) h),
            inr (λ e. bad (wrapped-ok F L _ (F.rename t target) r e), shown),
          )
    ]

    -- `Set` changes a configuration at once: in every state that it passes through, the file shows
    -- what it did before or the whole new text. At the end it shows the new text if `Set` succeeded,
    -- and what it did before if it failed.
    pub set_atomic :
        (s : F.State)
        → (All (IsWhole s) (
            (set F marshal path (some cfg) (started s)).1.now
            ∷ (set F marshal path (some cfg) (started s)).1.seen))
          × Ends s
              (set F marshal path (some cfg) (started s)).0
              (set F marshal path (some cfg) (started s)).1.now
    set_atomic s =
        let out = set F marshal path (some cfg) (started s) in
        let safe = target-IsSafe path cfg.name (content s target) in
        elim (set-Outcome F L target (content s target) marshal path cfg (started s) safe
          (refl, tt)) [
            | inl (bad, h) ↦ (old-IsWhole s (out.1.now ∷ out.1.seen) h, inr (bad tt, h.0))
            | inr (x, t, r, whole, apart, h, full, at) ↦
                rw at (rename-IsAtomic s x t r whole full h)
          ]

    -- `Set` keeps every other file: any that was there shows the same in every state that `Set`
    -- passes through.
    pub set_keeps_others :
        (s : F.State) (p old : String)
        → content s p ≡ some old
        → target ≢ p
        → All
            (λ t. content t p ≡ some old)
            ((set F marshal path (some cfg) (started s)).1.now
              ∷ (set F marshal path (some cfg) (started s)).1.seen)
    set_keeps_others s p old there apart =
        elim (set-Outcome F L p (some old) marshal path cfg (started s) (present-IsSafe path p old)
          (there, tt)) [
            | inl (bad, h) ↦ h
            | inr (x, t, r, whole, other, h, full, at) ↦
                rw at (L.rename_other t target p r.now other apart ∙ h.0, h)
          ]
