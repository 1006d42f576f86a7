-- ===== src/Disk/Outcome.antt =====
-- How `Set` of the CNI store ends, and what it leaves as it was.
use smuggle.Prelude.{String, ◌<>◌, Option, some, ◌≡◌, ◌≢◌, refl, ◌∙◌, ◌⊎◌, inl, inr, ap}
use smuggle.Prelude.Error.{Result, ok, err, panic, wrap}
use smuggle.Prelude.State.{St, lift, on_error, return, ◌>>=◌, >>=-ok, >>=-cases, on_error-ok}
use smuggle.Client.Init.{CniConfig}
use smuggle.Disk.{FileSystem, IsLawful, Traced, call}
use smuggle.Disk.Cni.{discard, after, discard_on_error, fill, temp_file, set}
use smuggle.Disk.Trace.{Holds, Keeps, call-Keeps, >>=-Keeps}

module _ (F : FileSystem) (L : IsLawful F) where
  open L use {content}

  -- A call that succeeds in a wrapped form.
  pub wrapped-ok :
      {A : Type 0} (text : String) (f : St F.State A) (r : Traced F.State) {a : A}
      → (on_error (wrap text) (call f) r).0 ≡ ok a
      → (f r.now).0 ≡ ok a
  wrapped-ok text f r h = on_error-ok (wrap text) (call f) r h

  fill-ok :
      (t x : String) (r : Traced F.State)
      → content r.now t ≡ some ""
      → (fill F t x r).0 ≡ ok tt
      → content (fill F t x r).1.now t ≡ some x
  unfolding fill
  fill-ok t x r empty done =
      let written = on_error (wrap "failed to write to temporary file: %w") (call (F.write t x)) in
      let synced = on_error (wrap "failed to sync temporary file: %w") (call (F.sync t)) in
      let (u, e1, done1, at1) = >>=-ok written _ r done in
      let r1 = (written r).1 in
      let (u', e2, done2, at2) = >>=-ok synced _ r1 done1 in
      let r2 = (synced r1).1 in
      rw (ap (λ y. y.1) (at1 ∙ at2)) (
        L.close_keeps t t r2.now
        ∙ L.sync_keeps t t r1.now
        ∙ L.write_ok t x r.now empty (wrapped-ok _ (F.write t x) r e1))

  discard_on_error-ok :
      {A : Type 0} (t : String) (x : Result A) (r : Traced F.State) {a : A}
      → (after F t x r).0 ≡ ok a
      → (x ≡ ok a) × ((after F t x r).1 ≡ r)
  discard_on_error-ok t (ok a) r h = (h, refl)
  discard_on_error-ok t (err e) r h = cc
  discard_on_error-ok t (panic m) r h = cc

  temp_file-ok :
      (path x : String) (r : Traced F.State) {t : String}
      → (temp_file F path x r).0 ≡ ok t
      → ((F.create_temp path ".cni-*.tmp" r.now).0 ≡ ok t)
        × (content (temp_file F path x r).1.now t ≡ some x)
  unfolding temp_file
  temp_file-ok path x r {t = t} done =
      let create =
        on_error (wrap "failed to create temporary file: %w")
          (call (F.create_temp path ".cni-*.tmp")) in
      let (t0, e1, done1, at1) = >>=-ok create _ r done in
      let r1 = (create r).1 in
      let (u, e2, done2, at2) = >>=-ok (discard_on_error F t0 (fill F t0 x)) _ r1 done1 in
      let (filled, kept) = discard_on_error-ok t0 (fill F t0 x r1).0 (fill F t0 x r1).1 e2 in
      let made = wrapped-ok _ (F.create_temp path ".cni-*.tmp") r e1 in
      let same : t0 ≡ t = cc done2 in
      let holds : content (temp_file F path x r).1.now t0 ≡ some x =
        rw (ap (λ y. y.1) (at1 ∙ at2), kept)
          (fill-ok t0 x r1 (L.create_temp_new path ".cni-*.tmp" t0 r.now made).1 filled) in
      let both : ((F.create_temp path ".cni-*.tmp" r.now).0 ≡ ok t0)
          × (content (temp_file F path x r).1.now t0 ≡ some x) =
        (made, holds) in
      rw same at both

  -- All but the temporary file.
  module _ (p : String) (c : Option String) where
    abbrev pub Shows : F.State → Type 0
    Shows s = content s p ≡ c

    same-Keeps :
        {A : Type 0} (f : St F.State A)
        → ((s : F.State) → content (f s).1 p ≡ content s p)
        → Keeps Shows (call f)
    same-Keeps f k = call-Keeps Shows f (λ s h. k s ∙ h)

    discard-Holds :
        (t : String) (r : Traced F.State) → t ≢ p → Holds Shows r → Holds Shows (discard F t r)
    unfolding discard
    discard-Holds t r apart h =
        call-Keeps Shows (F.remove t) (λ s e. L.remove_other t p s apart ∙ e) (call (F.close t) r).1
          (call-Keeps Shows (F.close t) (λ s e. L.close_keeps t p s ∙ e) r h)

    after-Holds :
        {A : Type 0} (t : String) (x : Result A) (r : Traced F.State)
        → t ≢ p
        → Holds Shows r
        → Holds Shows (after F t x r).1
    after-Holds t (ok a) r apart h = h
    after-Holds t (err e) r apart h = discard-Holds t r apart h
    after-Holds t (panic m) r apart h = discard-Holds t r apart h

    fill-Keeps : (t x : String) → t ≢ p → Keeps Shows (fill F t x)
    unfolding fill
    fill-Keeps t x apart =
        >>=-Keeps Shows
          (on_error (wrap "failed to write to temporary file: %w") (call (F.write t x))) _
          (same-Keeps (F.write t x) (λ s. L.write_other t x p s apart))
          (λ u r h e.
            >>=-Keeps Shows (on_error (wrap "failed to sync temporary file: %w") (call (F.sync t)))
              _ (same-Keeps (F.sync t) (L.sync_keeps t p))
              (λ u' r' h' e'. same-Keeps (F.close t) (L.close_keeps t p)))

    -- A name that no new temporary file can have while the path shows this content.
    abbrev pub IsSafe : String → Type 0
    IsSafe path =
        (t : String) (s : F.State)
        → content s p ≡ c
        → (F.create_temp path ".cni-*.tmp" s).0 ≡ ok t
        → t ≢ p

    temp_file-Keeps : (path x : String) → IsSafe path → Keeps Shows (temp_file F path x)
    unfolding temp_file
    temp_file-Keeps path x safe =
        >>=-Keeps Shows
          (on_error (wrap "failed to create temporary file: %w")
            (call (F.create_temp path ".cni-*.tmp")))
          _
          (call-Keeps Shows (F.create_temp path ".cni-*.tmp")
            (λ s h. L.create_temp_other path ".cni-*.tmp" p s (λ e. safe p s h e refl) ∙ h))
          (λ t r h e.
            let apart = safe t r.now h.0 (
              on_error-ok (wrap "failed to create temporary file: %w")
                (call (F.create_temp path ".cni-*.tmp")) r e) in
            >>=-Keeps Shows (discard_on_error F t (fill F t x)) (λ u. return t)
              (λ r' h'.
                after-Holds t (fill F t x r').0 (fill F t x r').1 apart
                  (fill-Keeps t x apart r' h'))
              (λ u r' h' e' r'' h''. h''))

    -- How `Set` ends: before the rename, or with it, from a temporary file that has all the data.
    abbrev pub Outcome : (CniConfig → Result String) → String → CniConfig → Traced F.State → Type 0
    Outcome marshal path cfg s =
        (((u : Unit {0}) → (set F marshal path (some cfg) s).0 ≢ ok u)
          × Holds Shows (set F marshal path (some cfg) s).1)
        ⊎ ((x : String) × (t : String) × (r : Traced F.State) × (marshal cfg ≡ ok x)
            × (t ≢ p)
            × (Holds Shows r)
            × (content r.now t ≡ some x)
            × (set F marshal path (some cfg) s
                ≡ on_error (wrap "failed to rename temporary file: %w")
                    (call (F.rename t (F.join path (cfg.name <> ".conf")))) r))

    pub set-Outcome :
        (marshal : CniConfig → Result String) (path : String) (cfg : CniConfig) (s : Traced F.State)
        → IsSafe path
        → Holds Shows s
        → Outcome marshal path cfg s
    unfolding set
    set-Outcome marshal path cfg s safe h =
        let mkdir = on_error (wrap "failed to create directory: %w") (call (F.mkdir_all path)) in
        let data_of = on_error (wrap "failed to marshal CNI config: %w") (lift (marshal cfg)) in
        let finish : String → St (Traced F.State) (Unit {0}) = λ t.
          on_error (wrap "failed to rename temporary file: %w")
            (call (F.rename t (F.join path (cfg.name <> ".conf")))) in
        let store : String → St (Traced F.State) (Unit {0}) = λ x. temp_file F path x >>= finish in
        let r1 = (mkdir s).1 in
        let shown = same-Keeps (F.mkdir_all path) (L.mkdir_all_keeps path p) s h in
        elim (>>=-cases mkdir (λ u. data_of >>= store) s) [
          | inl (bad, same) ↦ inl (bad, rw same shown)
          | inr (u, e1, at1) ↦ elim (>>=-cases data_of store r1) [
            | inl (bad, same) ↦ inl (rw at1 bad, rw (at1, same) shown)
            | inr (x, e2, at2) ↦
                let shown2 = temp_file-Keeps path x safe r1 shown in
                elim (>>=-cases (temp_file F path x) finish r1) [
                  | inl (bad, same) ↦ inl (rw (at1, at2) bad, rw (at1, at2, same) shown2)
                  | inr (t, e3, at3) ↦
                      let (created, full) = temp_file-ok path x r1 e3 in
                      inr (
                        x,
                        t,
                        (temp_file F path x r1).1,
                        on_error-ok (wrap "failed to marshal CNI config: %w") (lift (marshal cfg))
                            r1 e2,
                        safe t r1.now shown.0 created,
                        shown2,
                        full,
                        at1 ∙ at2 ∙ at3,
                      )
                ]
          ]
        ]
