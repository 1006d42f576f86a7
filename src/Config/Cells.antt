-- ===== src/Config/Cells.antt =====
-- The configurations that are changed through pointers: server, reaper and Nomad variables. All
-- other sections are never written after they are made, so they are values.
use smuggle.Prelude.{ℕ, ◌+◌, String, Bool, Option, none, if◌then◌else◌, ◌==◌, nat_eq}
use smuggle.Prelude.Int.{ℤ, pos}

-- The texts are those of a file, before `Parse`.
pub record ReaperConfig : Type 0 where
  pub interval_hcl : String
  pub interval : ℤ
  pub threshold_hcl : String
  pub threshold : ℤ

-- Pointers are numbers.
pub record ServerConfig : Type 0 where
  pub enabled : Option Bool
  pub reaper : Option ℕ

pub record StoreConfig : Type 0 where
  pub backend : String
  pub nvar : Option ℕ

-- `nvars` holds the path of a `StoreNVarConfig`.
pub record Heap : Type 0 where
  pub servers : ℕ → ServerConfig
  pub reapers : ℕ → ReaperConfig
  pub nvars : ℕ → String
  pub next : ℕ

abbrev pub update : {A : Type 0} → (ℕ → A) → ℕ → A → ℕ → A
update f r a q = if q == r then a else f q

abbrev pub write_server : ℕ → ServerConfig → Heap → Heap
write_server r s h = record h { servers = update h.servers r s }

abbrev pub write_reaper : ℕ → ReaperConfig → Heap → Heap
write_reaper r c h = record h { reapers = update h.reapers r c }

abbrev pub write_nvar : ℕ → String → Heap → Heap
write_nvar r path h = record h { nvars = update h.nvars r path }

-- A fresh pointer.
abbrev pub new_server : ServerConfig → Heap → ℕ × Heap
new_server s h = (h.next, write_server h.next s (record h { next = h.next + 1 }))

abbrev pub new_reaper : ReaperConfig → Heap → ℕ × Heap
new_reaper c h = (h.next, write_reaper h.next c (record h { next = h.next + 1 }))

abbrev pub new_nvar : String → Heap → ℕ × Heap
new_nvar path h = (h.next, write_nvar h.next path (record h { next = h.next + 1 }))

abbrev pub empty_reaper : ReaperConfig
empty_reaper = record { interval_hcl = ""; interval = pos 0; threshold_hcl = ""; threshold = pos 0 }

abbrev pub empty_heap : Heap
empty_heap = record {
  servers = λ r. record { enabled = none; reaper = none };
  reapers = λ r. empty_reaper;
  nvars = λ r. "";
  next = 0;
}
