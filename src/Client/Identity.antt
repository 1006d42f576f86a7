-- ===== src/Client/Identity.antt =====
-- internal/agent/client/client.go: `generateID`, the client's id on disk.
use smuggle.Prelude.{
  String, false, Bool-cases, some, ◌≡◌, ◌≢◌, refl, ◌⊎◌, inl, inr, ◌∙◌, ap, if◌then◌else◌, ◌==◌,
  string_eq, subst, ==_ne,
}
use smuggle.Prelude.Error.{Error, Result, Result-cases, ok, err, panic, wrap}
use smuggle.Prelude.State.{St, return, on_error, ◌>>=◌, ◌>>◌, >>=-ok, on_error-ok}
use smuggle.Disk.{FileSystem, IsLawful}

abbrev pub client_id_file_name : String
client_id_file_name = "id"

module _ (F : FileSystem) (data_dir : String) where
  abbrev pub id_file_path : String
  id_file_path = F.join data_dir client_id_file_name

  -- The end of `generateID`, with the UUID that is new.
  unfoldable pub store_new_id : String → St F.State String
  store_new_id new_id = do
    on_error (wrap "failed to create data directory: %w") (F.mkdir_all data_dir)
    on_error (wrap "failed to write client ID to file: %w") (F.write_file id_file_path new_id)
    return new_id

  abbrev pub use_id : String → Result String → St F.State String
  use_id new_id (ok id) s = if id == "" then store_new_id new_id s else (ok id, s)
  use_id new_id (err e) s =
      if F.is_not_exist e
      then store_new_id new_id s
      else (err (wrap "failed to read client ID file: %w" e), s)
  use_id new_id (panic p) s = (panic p, s)

  -- The id that the client takes.
  unfoldable pub generate_id : String → St F.State String
  generate_id new_id s = use_id new_id (F.read_file id_file_path s) s

module _ (F : FileSystem) (L : IsLawful F) (data_dir : String) where
  open L use {content}

  abbrev id_file : String
  id_file = id_file_path F data_dir

  -- An id that is stored under the path.
  abbrev IsStored : String → F.State → Type 0
  IsStored id s = (content s id_file ≡ some id) × (id ≢ "")

  store_new_id-IsStored :
      (new_id id : String) (s : F.State)
      → new_id ≢ ""
      → (store_new_id F data_dir new_id s).0 ≡ ok id
      → IsStored id (store_new_id F data_dir new_id s).1
  unfolding store_new_id
  store_new_id-IsStored new_id id s given done =
      let mkdir = on_error (wrap "failed to create data directory: %w") (F.mkdir_all data_dir) in
      let put : St F.State (Unit {0}) =
        on_error (wrap "failed to write client ID to file: %w") (F.write_file id_file new_id) in
      let (u, e1, done1, at1) = >>=-ok mkdir (λ u. put >>= λ v. return new_id) s done in
      let s1 = (mkdir s).1 in
      let (v, e2, done2, at2) = >>=-ok put (λ v. return new_id) s1 done1 in
      let same : new_id ≡ id = cc done2 in
      let kept : IsStored new_id (store_new_id F data_dir new_id s).1 = (
        rw (at1 ∙ at2) (
            L.write_file_ok id_file new_id s1 (
              on_error-ok (wrap "failed to write client ID to file: %w")
                (F.write_file id_file new_id) s1 e2)),
        given,
      ) in
      subst (λ i. IsStored i (store_new_id F data_dir new_id s).1) same kept

  generate_id-IsStored :
      (new_id id : String) (s : F.State)
      → new_id ≢ ""
      → (generate_id F data_dir new_id s).0 ≡ ok id
      → IsStored id (generate_id F data_dir new_id s).1
  unfolding generate_id
  generate_id-IsStored new_id id s given done = elim (Result-cases (F.read_file id_file s)) [
    | inl (old, read) ↦ elim (Bool-cases (old == "")) [
      | inl empty ↦
          rw (generate_id, read, empty)
            (store_new_id-IsStored new_id id s given (rw (generate_id, read, empty) at done))
      | inr full ↦
          let same : old ≡ id = cc (rw (generate_id, read, full) at done) in
          rw (generate_id, read, full)
            (
              L.read_file_ok id_file old s read ∙ ap some same,
              λ e.
                  let blank : ◌==◌ {A = String} "" "" ≡ false =
                    subst (λ t. (t == "") ≡ false) (same ∙ e) full in
                  cc blank,
            )
    ]
    | inr (inl (e, failed)) ↦ elim (Bool-cases (F.is_not_exist e)) [
      | inl missing ↦
          rw (generate_id, failed, missing)
            (store_new_id-IsStored new_id id s given (rw (generate_id, failed, missing) at done))
      | inr other ↦ cc (rw (generate_id, failed, other) at done)
    ]
    | inr (inr (m, crashed)) ↦ absurd (L.read_file_returns id_file m s crashed)
  ]

  -- An id that a client has taken is the id of the client after a restart, whatever UUID it would
  -- make, and the disk stays as it is: the only other result is the error of a read that fails.
  pub generate_id_again :
      (new_id id later_id : String) (s : F.State)
      → new_id ≢ ""
      → (generate_id F data_dir new_id s).0 ≡ ok id
      → (generate_id F data_dir later_id (generate_id F data_dir new_id s).1
          ≡ (ok id, (generate_id F data_dir new_id s).1))
        ⊎ ((e : Error) × (F.is_not_exist e ≡ false)
            × (generate_id F data_dir later_id (generate_id F data_dir new_id s).1 ≡ (
              err (wrap "failed to read client ID file: %w" e),
              (generate_id F data_dir new_id s).1,
            )))
  unfolding generate_id
  generate_id_again new_id id later_id s given done =
      let t = (generate_id F data_dir new_id s).1 in
      let (stored, full) = generate_id-IsStored new_id id s given done in
      elim (Result-cases (F.read_file id_file t)) [
        | inl (x, read) ↦
            let same : x ≡ id = cc (L.read_file_ok id_file x t read, stored) in
            inl (rw (generate_id, read, same, ==_ne id "" full) refl)
        | inr (inl (e, failed)) ↦ elim (Bool-cases (F.is_not_exist e)) [
          | inl missing ↦ absurd (cc (L.read_file_missing id_file e t failed missing, stored))
          | inr other ↦ inr (e, other, rw (generate_id, failed, other) refl)
        ]
        | inr (inr (m, crashed)) ↦ absurd (L.read_file_returns id_file m t crashed)
      ]
