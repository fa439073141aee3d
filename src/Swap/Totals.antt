-- ===== src/Swap/Totals.antt =====
-- The bytes of the chunks in a state, which the accounts have to match.
use rambrain.Prelude.{
  ℕ, ◌+◌, ◌≤◌, ◌≡◌, refl, Bool, Bool-cases, inl, inr, ◌==◌, if◌then◌else◌, List, [], ◌∷◌, arith,
  update, ◌∈◌, ◌∉◌, Distinct, erase,
}
use rambrain.Chunk.{Chunk, MemoryStatus, has_flag, is_status, mem_allocated, mem_swapped}

abbrev pub weight : (MemoryStatus → Bool) → Chunk → ℕ
weight test c = if test c.status then c.size else 0

abbrev pub total : (MemoryStatus → Bool) → (ℕ → Chunk) → List ℕ → ℕ
total test chunks [] = 0
total test chunks (i ∷ is) = weight test (chunks i) + total test chunks is

-- Chunks whose bytes are in RAM, and chunks whose bytes are in the swap.
abbrev pub in_ram : MemoryStatus → Bool
in_ram st = has_flag st mem_allocated

abbrev pub in_swap : MemoryStatus → Bool
in_swap st = is_status st mem_swapped

module _ (test : MemoryStatus → Bool) (chunks : ℕ → Chunk) (i : ℕ) (c : Chunk) where
  -- A write to a chunk that is not in the list.
  pub total-update_other :
      (is : List ℕ) → i ∉ is → total test (update chunks i c) is ≡ total test chunks is
  unfolding update
  total-update_other [] out = refl
  total-update_other (j ∷ is) out = ground (arith, total-update_other is)

  pub total-update :
      (is : List ℕ)
      → Distinct is
      → i ∈ is
      → total test (update chunks i c) is + weight test (chunks i)
        ≡ total test chunks is + weight test c
  unfolding update
  total-update [] d m = ground arith
  total-update (j ∷ is) (out, d) m = elim (Bool-cases (i == j)) [
    | inl here ↦ ground (arith, total-update_other is)
    | inr there ↦ ground (arith, total-update is d)
  ]

-- A chunk in the list is part of the total.
pub weight-total :
    (test : MemoryStatus → Bool) (chunks : ℕ → Chunk) (i : ℕ) (is : List ℕ)
    → i ∈ is
    → weight test (chunks i) ≤ total test chunks is
weight-total test chunks i [] m = ground arith
weight-total test chunks i (j ∷ is) m = elim (Bool-cases (i == j)) [
  | inl here ↦ ground arith
  | inr there ↦ ground (arith, weight-total test chunks i is)
]

-- Taking a chunk out of the list, and a change that leaves status and sizes.
pub total-erase :
    (test : MemoryStatus → Bool) (chunks : ℕ → Chunk) (i : ℕ) (is : List ℕ)
    → i ∈ is
    → total test chunks (erase i is) + weight test (chunks i) ≡ total test chunks is
total-erase test chunks i [] m = ground arith
total-erase test chunks i (j ∷ is) m = elim (Bool-cases (i == j)) [
  | inl here ↦ let e : i ≡ j = ground arith in rw (here, e) (omega arith)
  | inr there ↦ ground (arith, total-erase test chunks i is)
]

pub total-same :
    (test : MemoryStatus → Bool) (old new : ℕ → Chunk) (is : List ℕ)
    → ((i : ℕ) → (new i).status ≡ (old i).status)
    → ((i : ℕ) → (new i).size ≡ (old i).size)
    → total test new is ≡ total test old is
total-same test old new [] st sz = refl
total-same test old new (i ∷ is) st sz = rw (st i, sz i, total-same test old new is st sz) refl
