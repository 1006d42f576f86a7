-- ===== src/Disk.antt =====
-- The files that clients keep: package os and `filepath.Join` as the interface `FileSystem`, with
-- what they document, and calls whose states are recorded.
pub mod Cni
pub mod Trace
pub mod Outcome
pub mod Atomic
use smuggle.Prelude.{String, ◌<>◌, Bool, true, Option, none, some, List, ◌∷◌, ◌≡◌, ◌≢◌}
use smuggle.Prelude.Error.{Error, Result, ok, err, panic}
use smuggle.Prelude.State.{St}

-- An open file is known by its path. `is_not_exist` is `os.IsNotExist`.
pub record FileSystem : Type 1 where
  pub State : Type 0
  pub join : String → String → String
  pub is_not_exist : Error → Bool
  pub mkdir_all : String → St State (Unit {0})
  pub create_temp : String → String → St State String
  pub write : String → String → St State (Unit {0})
  pub sync : String → St State (Unit {0})
  pub close : String → St State (Unit {0})
  pub remove : String → St State (Unit {0})
  pub rename : String → String → St State (Unit {0})
  pub read_file : String → State → Result String
  pub write_file : String → String → St State (Unit {0})

-- `content` is what a reader finds under a path: a file's text, or nothing. A temporary file is a new
-- one, and the last star of its pattern stands for other characters.
pub record IsLawful (F : FileSystem) : Type 0 where
  pub content : F.State → String → Option String
  pub mkdir_all_keeps : (d p : String) (s : F.State) → content (F.mkdir_all d s).1 p ≡ content s p
  pub create_temp_new :
      (d pattern t : String) (s : F.State)
      → (F.create_temp d pattern s).0 ≡ ok t
      → (content s t ≡ none) × (content (F.create_temp d pattern s).1 t ≡ some "")
  pub create_temp_other :
      (d pattern p : String) (s : F.State)
      → (F.create_temp d pattern s).0 ≢ ok p
      → content (F.create_temp d pattern s).1 p ≡ content s p
  pub create_temp_suffix :
      (d t name : String) (s : F.State)
      → (F.create_temp d ".cni-*.tmp" s).0 ≡ ok t
      → t ≢ F.join d (name <> ".conf")
  pub write_ok :
      (t x : String) (s : F.State)
      → content s t ≡ some ""
      → (F.write t x s).0 ≡ ok tt
      → content (F.write t x s).1 t ≡ some x
  pub write_other :
      (t x p : String) (s : F.State) → t ≢ p → content (F.write t x s).1 p ≡ content s p
  pub sync_keeps : (t p : String) (s : F.State) → content (F.sync t s).1 p ≡ content s p
  pub close_keeps : (t p : String) (s : F.State) → content (F.close t s).1 p ≡ content s p
  pub remove_other : (t p : String) (s : F.State) → t ≢ p → content (F.remove t s).1 p ≡ content s p
  pub rename_ok :
      (t q : String) (s : F.State)
      → (F.rename t q s).0 ≡ ok tt
      → content (F.rename t q s).1 q ≡ content s t
  pub rename_other :
      (t q p : String) (s : F.State) → t ≢ p → q ≢ p → content (F.rename t q s).1 p ≡ content s p
  pub rename_failed :
      (t q p : String) (s : F.State)
      → (F.rename t q s).0 ≢ ok tt
      → content (F.rename t q s).1 p ≡ content s p
  pub read_file_ok : (p x : String) (s : F.State) → F.read_file p s ≡ ok x → content s p ≡ some x
  pub read_file_missing :
      (p : String) (e : Error) (s : F.State)
      → F.read_file p s ≡ err e
      → F.is_not_exist e ≡ true
      → content s p ≡ none
  pub read_file_returns : (p m : String) (s : F.State) → F.read_file p s ≢ panic m
  pub write_file_ok :
      (p x : String) (s : F.State)
      → (F.write_file p x s).0 ≡ ok tt
      → content (F.write_file p x s).1 p ≡ some x

-- The present state and those before it, the last one first.
pub record Traced (S : Type 0) : Type 0 where
  pub now : S
  pub seen : List S

abbrev pub call : {S A : Type 0} → St S A → St (Traced S) A
call f r = let (x, t) = f r.now in (x, record { now = t; seen = r.now ∷ r.seen })
