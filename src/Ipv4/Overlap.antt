-- ===== src/Ipv4/Overlap.antt =====
-- `Overlap` against the addresses that two networks have in common.
use Prim.Native.Nat.{bit_and}
use native.Mathlib.Nat.{
  pow-zero, pow-suc, one-le-pow, add-suc, add-zero, mul_assoc, mul-div_cancel, div-div-eq-div-mul,
}
use smuggle.Prelude.{ℕ, zero, suc, ◌+◌, ◌-◌, ◌*◌, ◌/◌, ◌^◌, ◌≤◌, ◌<◌, ◌≡◌, refl, arith}
use smuggle.Prelude.{◌↔◌, true, inl, inr, Bool-cases, ◌==◌, nat_eq, nat_beq_iff, ap}
use smuggle.Prelude.{every_below, every_below_lem, ltb, ◌∙◌, sym}
use smuggle.Ipv4.{Ipv4Net, mask, overlap}
use smuggle.Ipv4.Mask.{bit_and_high}

-- A uint32 address with a prefix of at most 32 bits.
pub record IsNet (n : Ipv4Net) : Type 0 where
  pub ip_bound : n.ip < 4294967296
  pub size_bound : n.size ≤ 32

-- The addresses of the block that the network's address lies in.
abbrev pub Covers : Ipv4Net → ℕ → Type 0
Covers n x = (x < 4294967296) × (x / 2 ^ (32 - n.size) ≡ n.ip / 2 ^ (32 - n.size))

mask_table :
    every_below 33 (λ s. mask (record { ip = 0; size = s }) == (2 ^ s - 1) * 2 ^ (32 - s)) ≡ true
unfolding every_below mask
mask_table = refl

mask_lem : (n : Ipv4Net) → n.size ≤ 32 → mask n ≡ (2 ^ n.size - 1) * 2 ^ (32 - n.size)
unfolding mask
mask_lem n h = (nat_beq_iff _ _).0 (
    every_below_lem 33 (λ s. mask (record { ip = 0; size = s }) == (2 ^ s - 1) * 2 ^ (32 - s))
      n.size mask_table (omega arith))

pow-add : (c m n : ℕ) → c ^ (m + n) ≡ c ^ m * c ^ n
pow-add c m zero = rw (add-zero, pow-zero) (omega arith)
pow-add c m (suc n) = rw (add-suc, pow-suc, pow-suc, pow-add c m n) (mul_assoc _ _ _)

-- Masking keeps the number of the block.
bit_and-mask :
    (n : Ipv4Net) (x : ℕ)
    → n.size ≤ 32
    → x < 4294967296
    → bit_and x (mask n) ≡ x / 2 ^ (32 - n.size) * 2 ^ (32 - n.size)
bit_and-mask n x h b =
    let whole : n.size + (32 - n.size) ≡ 32 = omega arith in
    rw (mask_lem n h) (bit_and_high (32 - n.size) n.size x (rw whole b))

-- A block of fewer bits lies in the block of more.
coarser : (x y j k : ℕ) → j ≤ k → x / 2 ^ j ≡ y / 2 ^ j → x / 2 ^ k ≡ y / 2 ^ k
coarser x y j k h e =
    let split : k ≡ j + (k - j) = omega arith in
    rw (split, pow-add 2 j (k - j), ← div-div-eq-div-mul, e)
      (div-div-eq-div-mul y (2 ^ j) (2 ^ (k - j)))

mul_cancel : (q r p : ℕ) → 0 < p → q * p ≡ r * p → q ≡ r
mul_cancel q r p h e = sym (mul-div_cancel q h) ∙ ap (λ (t : ℕ). t / p) e ∙ mul-div_cancel r h

-- One mask: equal masked addresses are equal block numbers.
masked_iff :
    (n : Ipv4Net) (x y : ℕ)
    → n.size ≤ 32
    → x < 4294967296
    → y < 4294967296
    → ((bit_and x (mask n) == bit_and y (mask n)) ≡ true)
      ↔ (x / 2 ^ (32 - n.size) ≡ y / 2 ^ (32 - n.size))
masked_iff n x y h bx by =
    rw (bit_and-mask n x h bx, bit_and-mask n y h by)
      (
        λ e.
            mul_cancel _ _ (2 ^ (32 - n.size)) (one-le-pow _ 2 (omega arith))
              ((nat_beq_iff _ _).0 e),
        λ e. (nat_beq_iff _ _).1 (ap (λ (t : ℕ). t * 2 ^ (32 - n.size)) e),
      )

-- `Overlap` holds exactly when some address lies in the blocks of both networks.
pub overlap_iff :
    (a b : Ipv4Net) → IsNet a → IsNet b → (overlap a b ≡ true) ↔ ((x : ℕ) × Covers a x × Covers b x)
unfolding overlap
overlap_iff a b va vb = elim (Bool-cases (ltb a.size b.size)) [
  | inl shorter ↦ rw shorter (
    λ e. (
      b.ip,
      (vb.ip_bound, sym ((masked_iff a a.ip b.ip va.size_bound va.ip_bound vb.ip_bound).0 e)),
      (vb.ip_bound, refl),
    ),
    λ (x, ca, cb).
        (masked_iff a a.ip b.ip va.size_bound va.ip_bound vb.ip_bound).1
          (sym ca.1 ∙ coarser x b.ip (32 - b.size) (32 - a.size) (ground arith) cb.1),
  )
  | inr longer ↦ rw longer (
    λ e. (
      a.ip,
      (va.ip_bound, refl),
      (va.ip_bound, (masked_iff b a.ip b.ip vb.size_bound va.ip_bound vb.ip_bound).0 e),
    ),
    λ (x, ca, cb).
        (masked_iff b a.ip b.ip vb.size_bound va.ip_bound vb.ip_bound).1
          (sym (coarser x a.ip (32 - a.size) (32 - b.size) (ground arith) ca.1) ∙ cb.1),
  )
]
