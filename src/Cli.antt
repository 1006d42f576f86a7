-- ===== src/Cli.antt =====
-- internal/cmd/network/init.go: the command that writes an example of a network,
-- internal/version/version.go, and the end of `main` in cmd/cmd.go.
use smuggle.Prelude.{
  ℕ, String, ◌<>◌, ◌==◌, string_eq, true, Bool-cases, not, none, some, List, [], ◌∷◌, ◌++◌, ◌≡◌,
  ◌≢◌, ◌⊎◌, inl, inr, refl, if◌then◌else◌,
}
use smuggle.Prelude.Error.{Error, Result, Result-cases, ok, err, panic, errorf, wrap}
use smuggle.Disk.{FileSystem, IsLawful}

abbrev pub version : String
version = "0.0.1"

abbrev pub version_prerelease : String
version_prerelease = "dev"

-- `Get`.
abbrev pub get_version : String
get_version =
    if not (version_prerelease == "") then version <> ("-" <> version_prerelease) else version

-- The version printer of cmd/cmd.go; `format_kv` is `FormatKV`, which is package columnize.
abbrev pub print_version : (List String → String) → String → String → String
print_version format_kv build_time build_commit =
    format_kv (
      ("Version|" <> get_version)
      ∷ ("Build Time|" <> build_time)
      ∷ ("Build Commit|" <> build_commit)
      ∷ [])
    <> "\n"

-- `main` behind the run of the command: what it writes to stderr, and the status of the process.
abbrev pub main_end : (Error → String) → Result (Unit {0}) → String × ℕ
main_end message (ok u) = ("", 0)
main_end message (err e) = (message e <> "\n", 1)
main_end message (panic p) = (p, 2)

abbrev pub network_init_filename : String
network_init_filename = "smuggle-net.json"

abbrev pub network_init_content : String
network_init_content =
    "\n{\n  \"name\": \"vxlan\",\n  \"ipmasq\": true,\n  \"ipv4\": {\n    \"network\": \"10.10.0.0/16\",\n    \"size\": 24\n  },\n  \"provider\": {\n    \"name\": \"vxlan\",\n    \"config\": {\n      \"vni\": 1,\n      \"port\": 4789\n    }\n  }\n}\n"

-- `stat` is `os.Stat`, and `trim_space` is `strings.TrimSpace`.
module _ (F : FileSystem) (stat : String → F.State → Result (Unit {0}))
    (trim_space : String → String) where
  -- The disk, and what the command has printed.
  pub record Terminal : Type 0 where
    pub disk : F.State
    pub printed : List String

  abbrev pub example : String
  example = trim_space network_init_content

  abbrev pub success : String
  success = "successfully wrote file " <> (network_init_filename <> "\n")

  unfoldable pub report_written : Result (Unit {0}) → Terminal → Result (Unit {0}) × Terminal
  report_written (ok u) w = (ok u, record w { printed = w.printed ++ (success ∷ []) })
  report_written (err e) w = (err (wrap "failed to write file: %w" e), w)
  report_written (panic p) w = (panic p, w)

  unfoldable pub write_example : Terminal → Result (Unit {0}) × Terminal
  write_example w =
      let (r, d) = F.write_file network_init_filename example w.disk in
      report_written r (record w { disk = d })

  -- The action, with what `os.Stat` says of the file.
  unfoldable pub init_action : Result (Unit {0}) → Terminal → Result (Unit {0}) × Terminal
  init_action (ok u) w = (err (errorf "%s already exists" (network_init_filename ∷ [])), w)
  init_action (err e) w =
      if F.is_not_exist e
      then write_example w
      else (err (wrap "failed to check for existing file: %w" e), w)
  init_action (panic p) w = (panic p, w)

  unfoldable pub init_command : Terminal → Result (Unit {0}) × Terminal
  init_command w = init_action (stat network_init_filename w.disk) w

  module _ (L : IsLawful F)
      (stat_missing : (p : String) (e : Error) (s : F.State)
        → stat p s ≡ err e
        → F.is_not_exist e ≡ true
        → L.content s p ≡ none) where
    open L use {content}

    -- How the command ends: the file was missing and now is the example, with a line that says so, or
    -- there is an error, and a file that was there is as it was.
    abbrev pub Ends : Terminal → Result (Unit {0}) → Terminal → Type 0
    Ends w r v =
        ((r ≡ ok tt)
          × (content w.disk network_init_filename ≡ none)
          × (content v.disk network_init_filename ≡ some example)
          × (v.printed ≡ w.printed ++ (success ∷ [])))
        ⊎ ((r ≢ ok tt)
            × (v.printed ≡ w.printed)
            × ((x : String) → content w.disk network_init_filename ≡ some x → v ≡ w))

    write_example-Ends :
        (w : Terminal)
        → content w.disk network_init_filename ≡ none
        → Ends w (write_example w).0 (write_example w).1
    unfolding write_example report_written
    write_example-Ends w missing =
        elim (Result-cases (F.write_file network_init_filename example w.disk).0) [
          | inl (u, done) ↦
              rw done (
                inl
                  (refl, missing, L.write_file_ok network_init_filename example w.disk done, refl))
          | inr (inl (e, failed)) ↦
              rw failed (inr (λ h. cc h, refl, λ x held. absurd (cc (missing, held))))
          | inr (inr (p, crashed)) ↦
              rw crashed (inr (λ h. cc h, refl, λ x held. absurd (cc (missing, held))))
        ]

    -- Where `os.Stat` says only of a missing file that it does not exist, the command never overwrites
    -- a file: it either finds none, writes the whole example and says so, or ends with an error and,
    -- where the file was there, with the disk as it was.
    pub init_command_lem : (w : Terminal) → Ends w (init_command w).0 (init_command w).1
    unfolding init_command init_action
    init_command_lem w = elim (Result-cases (stat network_init_filename w.disk)) [
      | inl (u, there) ↦ rw there (inr (λ h. cc h, refl, λ x held. refl))
      | inr (inl (e, failed)) ↦ elim (Bool-cases (F.is_not_exist e)) [
        | inl missing ↦
            rw (failed, missing)
              (write_example-Ends w (stat_missing network_init_filename e w.disk failed missing))
        | inr other ↦ rw (failed, other) (inr (λ h. cc h, refl, λ x held. refl))
      ]
      | inr (inr (p, crashed)) ↦ rw crashed (inr (λ h. cc h, refl, λ x held. refl))
    ]
