-- ===== src/Disk/Cni.antt =====
-- internal/store/file/file.go: the store of CNI configurations.
use smuggle.Prelude.{String, ◌<>◌, Option, none, some}
use smuggle.Prelude.Error.{Result, ok, err, panic, new_error, wrap}
use smuggle.Prelude.State.{St, return, fail, lift, on_error, ◌>>=◌, ◌>>◌}
use smuggle.Client.Init.{CniConfig}
use smuggle.Disk.{FileSystem, Traced, call}

-- The deferred function: it runs when the file is not closed yet, and its errors are not looked at.
module _ (F : FileSystem) where
  unfoldable pub discard : String → Traced F.State → Traced F.State
  discard temp s = (call (F.remove temp) (call (F.close temp) s).1).1

  abbrev pub after : {A : Type 0} → String → Result A → Traced F.State → Result A × Traced F.State
  after temp (ok a) s = (ok a, s)
  after temp (err e) s = (err e, discard temp s)
  after temp (panic p) s = (panic p, discard temp s)

  abbrev pub discard_on_error :
      {A : Type 0} → String → St (Traced F.State) A → St (Traced F.State) A
  discard_on_error temp m s = let (r, t) = m s in after temp r t

  -- The data in the temporary file, which is closed at the end.
  unfoldable pub fill : String → String → St (Traced F.State) (Unit {0})
  fill temp data_text = do
    on_error (wrap "failed to write to temporary file: %w") (call (F.write temp data_text))
    on_error (wrap "failed to sync temporary file: %w") (call (F.sync temp))
    on_error (wrap "failed to close temporary file: %w") (call (F.close temp))

  unfoldable pub temp_file : String → String → St (Traced F.State) String
  unfolding fill
  temp_file path data_text = do
    temp ←
        on_error (wrap "failed to create temporary file: %w")
          (call (F.create_temp path ".cni-*.tmp"))
    discard_on_error temp (fill temp data_text)
    return temp

  -- `Set` of the store at a path; `marshal` is `json.MarshalIndent`.
  unfoldable pub set :
      (CniConfig → Result String) → String → Option CniConfig → St (Traced F.State) (Unit {0})
  unfolding temp_file
  set marshal path none = fail (new_error "CNI config cannot be nil")
  set marshal path (some cfg) = do
    on_error (wrap "failed to create directory: %w") (call (F.mkdir_all path))
    data_text ← on_error (wrap "failed to marshal CNI config: %w") (lift (marshal cfg))
    temp ← temp_file path data_text
    on_error (wrap "failed to rename temporary file: %w")
        (call (F.rename temp (F.join path (cfg.name <> ".conf"))))
