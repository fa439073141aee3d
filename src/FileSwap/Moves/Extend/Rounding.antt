-- ===== src/FileSwap/Moves/Extend/Rounding.antt =====
-- src/managedFileSwap.cpp: sizes up to whole page files.
use rambrain.Prelude.{
  ℕ, ◌+◌, ◌-◌, ◌*◌, ◌/◌, ◌%◌, ◌≡◌, ◌<◌, ◌≤◌, ◌∙◌, inl, inr, false, Bool-cases, ◌==◌, ltb, arith,
  ==_iff,
}
use native.Mathlib.Nat.{div-add-mod, mul_comm, mod-lt}
use rambrain.Prelude.Words.{u64, add64, add64_fits}
use rambrain.FileSwap.Moves.Extend.{layout_number, whole_files, u32}

positive_of : (n : ℕ) → (n == 0) ≡ false → 0 < n
positive_of n h = ground (arith, h)

pub not_below : (a b : ℕ) → b ≤ a → ltb a b ≡ false
not_below a b h = ground (arith, h)

rounded_odd :
    (q pfs size r : ℕ)
    → pfs * q + r ≡ size
    → r < pfs
    → pfs * q ≡ q * pfs
    → size + pfs < u64
    → add64 size (pfs - r) ≡ (q + 1) * pfs
rounded_odd q pfs size r e small c fits =
    add64_fits size (pfs - r) (omega (arith, fits)) ∙ omega (arith, e, c, small)

pub whole_multiple :
    (pfs size : ℕ)
    → 0 < pfs
    → size + pfs < u64
    → (k : ℕ) × (whole_files pfs size ≡ k * pfs) × (size ≤ k * pfs) × (k * pfs < size + pfs)
whole_multiple pfs size positive fits =
    let q = size / pfs in
    let r = size % pfs in
    let e : pfs * q + r ≡ size = div-add-mod size pfs in
    let c : pfs * q ≡ q * pfs = mul_comm pfs q in
    let small : r < pfs = mod-lt size positive in
    elim (Bool-cases (r == 0)) [
      | inl even ↦
          let z = (==_iff r 0).0 even in
          (
            q,
            rw even (add64_fits size 0 (omega (arith, fits)) ∙ omega (arith, e, c, z)),
            omega (arith, e, c, z),
            omega (arith, e, c, z, positive),
          )
      | inr odd ↦ (
        q + 1,
        rw odd (rounded_odd q pfs size r e small c fits),
        omega (arith, e, c, small),
        omega (arith, e, c, positive_of r odd),
      )
    ]

pub number_bounds :
    (size pfs : ℕ)
    → 0 < pfs
    → size + pfs < u64
    → size / pfs + 1 < u32
    → (size ≤ layout_number size pfs * pfs) × (layout_number size pfs * pfs < u64)
number_bounds size pfs positive fits count =
    let q = size / pfs in
    let r = size % pfs in
    let e : pfs * q + r ≡ size = div-add-mod size pfs in
    let c : pfs * q ≡ q * pfs = mul_comm pfs q in
    let small : r < pfs = mod-lt size positive in
    elim (Bool-cases (r == 0)) [
      | inl even ↦
          let z = (==_iff r 0).0 even in
          let n : q % u32 ≡ q = omega (arith, count) in
          rw (even, n) (omega (arith, e, c, z), omega (arith, e, c, z, fits))
      | inr odd ↦
          let n : (q + 1) % u32 ≡ q + 1 = omega (arith, count) in
          rw (odd, n) (omega (arith, e, c, small), omega (arith, e, c, fits))
    ]
