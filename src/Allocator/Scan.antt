-- ===== src/Allocator/Scan.antt =====
-- The sequential search finds the first free subnet, and always ends.
use smuggle.Prelude.{ℕ, zero, suc, ◌+◌, ◌-◌, ◌*◌, ◌/◌, ◌≤◌, ◌<◌, ◌≡◌, arith, true, false}
use smuggle.Prelude.{List, contains, Bool-cases, inl, inr, ltb, leb, nat_eq, leb→le, ltb→lt}
use native.Mathlib.Nat.{mod-lt, div-add-mod}
use native.Mathlib.Decide.{dec_le}
use smuggle.Ipv4.{u32}
use smuggle.Allocator.{
  Search, found, exhausted, invalid_range, crashed, out_of_fuel, scan, scan_fuel,
}

-- What the search says of the candidates `lo`, `lo + step`, … up to `hi`.
abbrev pub FirstFree : List ℕ → ℕ → ℕ → ℕ → Search → Type 0
FirstFree used hi step lo (found a) =
    (k : ℕ) × (a ≡ lo + k * step)
    × (a ≤ hi)
    × (contains used a ≡ false)
    × ((j : ℕ) → j < k → contains used (lo + j * step) ≡ true)
FirstFree used hi step lo exhausted =
    (j : ℕ) → lo + j * step ≤ hi → contains used (lo + j * step) ≡ true
FirstFree used hi step lo invalid_range = ⊥
FirstFree used hi step lo (crashed p) = ⊥
FirstFree used hi step lo out_of_fuel = ⊥

at_zero : (lo step : ℕ) → lo + zero * step ≡ lo
at_zero lo step = omega arith

at_suc : (lo step j : ℕ) → lo + suc j * step ≡ lo + step + j * step
at_suc lo step j = omega arith

module _ (used : List ℕ) (hi step : ℕ) (some_step : 0 < step) (half : step ≤ 2147483648)
    (top : hi < 4294967296) where
  none_left : (lo : ℕ) → hi < lo → FirstFree used hi step lo exhausted
  none_left lo h j le = absurd (omega arith)

  -- The candidate in use is put in front of what the rest of the search says.
  FirstFree-cons :
      (lo : ℕ) (r : Search)
      → contains used lo ≡ true
      → FirstFree used hi step (lo + step) r
      → FirstFree used hi step lo r
  FirstFree-cons lo (found a) taken (k, at, le, free, before) =
      (suc k, omega (arith), le, free, earlier)
    where
      earlier : (j : ℕ) → j < suc k → contains used (lo + j * step) ≡ true
      earlier zero lt = rw (at_zero lo step) taken
      earlier (suc j) lt = rw (at_suc lo step j) (before j (omega arith))
  FirstFree-cons lo exhausted taken all = every
    where
      every : (j : ℕ) → lo + j * step ≤ hi → contains used (lo + j * step) ≡ true
      every zero le = rw (at_zero lo step) taken
      every (suc j) le = rw (at_suc lo step j) (all j (rw (at_suc lo step j) at le))
  FirstFree-cons lo invalid_range taken h = h
  FirstFree-cons lo (crashed p) taken h = h
  FirstFree-cons lo out_of_fuel taken h = h

  -- Behind the guard no candidate is left.
  guard_stops :
      (lo : ℕ)
      → lo ≤ hi
      → contains used lo ≡ true
      → ltb (u32 (hi + 4294967296 - step)) lo ≡ true
      → FirstFree used hi step lo exhausted
  guard_stops lo le taken guard zero _ = rw (at_zero lo step) taken
  guard_stops lo le taken guard (suc j) h =
      absurd (omega (arith, ltb→lt _ _ guard, rw (at_suc lo step j) at h))

  -- A candidate that passes the guard has a successor within 32 bits.
  no_wrap :
      (lo : ℕ)
      → lo ≤ hi
      → ltb (u32 (hi + 4294967296 - step)) lo ≡ false
      → u32 (lo + step) ≡ lo + step
  no_wrap lo le more = ground arith

  rounds : (lo : ℕ) → hi + step < lo + scan_fuel hi step lo * step
  rounds lo = omega (arith, mod-lt (hi - lo) {m = step} some_step, div-add-mod (hi - lo) step)

  past_end : (fuel lo : ℕ) → hi < lo → FirstFree used hi step lo (scan (suc fuel) used hi step lo)
  unfolding scan
  past_end fuel lo h = elim (Bool-cases (leb lo hi)) [
    | inl inside ↦ absurd (omega (arith, leb→le lo hi inside))
    | inr past ↦ rw past (none_left lo h)
  ]

  scan_correct :
      (fuel lo : ℕ)
      → lo ≤ hi + step
      → hi + step < lo + fuel * step
      → FirstFree used hi step lo (scan fuel used hi step lo)
  unfolding scan
  scan_correct zero lo near enough = absurd (omega arith)
  scan_correct (suc fuel) lo near enough = elim (Bool-cases (leb lo hi)) [
    | inr past ↦ rw past (none_left lo (ground arith))
    | inl inside ↦ elim (Bool-cases (contains used lo)) [
      | inr free ↦
          rw (inside, free) (0, omega arith, leb→le lo hi inside, free, λ j lt. elim lt [ ])
      | inl taken ↦ elim (Bool-cases (ltb (u32 (hi + 4294967296 - step)) lo)) [
        | inl guard ↦ rw (inside, taken, guard) (guard_stops lo (leb→le lo hi inside) taken guard)
        | inr more ↦
            rw (inside, taken, more, no_wrap lo (leb→le lo hi inside) more)
              (FirstFree-cons lo _ taken
                (scan_correct fuel (lo + step) (omega (arith, leb→le lo hi inside)) (omega arith)))
      ]
    ]
  ]

  -- The fuel that the function starts with is enough.
  pub scan-FirstFree :
      (lo : ℕ) → FirstFree used hi step lo (scan (scan_fuel hi step lo) used hi step lo)
  scan-FirstFree lo = elim (dec_le lo (hi + step)) [
    | yes near ↦ scan_correct (scan_fuel hi step lo) lo near (rounds lo)
    | no far ↦ past_end (suc ((hi - lo) / step)) lo (omega arith)
  ]
