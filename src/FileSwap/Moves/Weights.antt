-- ===== src/FileSwap/Moves/Weights.antt =====
-- What a chunk counts for in the accounts of src/managedMemory.cpp and src/managedSwap.cpp, by its
-- status.
use rambrain.Prelude.{
  ℕ, ◌+◌, ◌≡◌, ◌≤◌, refl, inl, inr, Bool, true, false, ◌||◌, ◌==◌, if◌then◌else◌, Bool-cases, List,
  [], ◌∷◌, arith, ◌∈◌,
}
use rambrain.Chunk.{
  Chunk, MemoryStatus, has_flag, is_status, mem_allocated, mem_allocated_inuse_read, mem_swapped,
  mem_swapin, mem_swapout,
}
use rambrain.Swap.Totals.{total, weight}

-- Chunks that take bytes of the RAM, that take bytes of the swap, and that will leave the RAM.
abbrev pub holds_ram : MemoryStatus → Bool
holds_ram st = has_flag st mem_allocated || is_status st mem_swapin || is_status st mem_swapout

abbrev pub holds_swap : MemoryStatus → Bool
holds_swap st = is_status st mem_swapped || is_status st mem_swapin || is_status st mem_swapout

abbrev pub leaving : MemoryStatus → Bool
leaving st = is_status st mem_swapout

abbrev pub any : MemoryStatus → Bool
any st = true

pub total_le_any :
    (test : MemoryStatus → Bool) (chunks : ℕ → Chunk) (is : List ℕ)
    → total test chunks is ≤ total any chunks is
total_le_any test chunks [] = omega arith
total_le_any test chunks (i ∷ is) =
    let h = total_le_any test chunks is in
    elim (Bool-cases (test (chunks i).status)) [
      | inl held ↦ rw held (omega (arith, h))
      | inr free ↦ rw free (omega (arith, h))
    ]

pub total_room :
    (test : MemoryStatus → Bool) (chunks : ℕ → Chunk) (i : ℕ) (is : List ℕ)
    → i ∈ is
    → total test chunks is + (chunks i).size ≤ total any chunks is + weight test (chunks i)
total_room test chunks i [] m = ground (arith, m)
total_room test chunks i (j ∷ is) m = elim (Bool-cases (i == j)) [
  | inl here ↦
      let e : i ≡ j = ground (arith, here) in
      let h = total_le_any test chunks is in rw e (omega (arith, h))
  | inr there ↦
      let t : i ∈ is = ground (arith, m, there) in
      let h = total_room test chunks i is t in
      elim (Bool-cases (test (chunks j).status)) [
        | inl held ↦ rw held (omega (arith, h))
        | inr free ↦ rw free (omega (arith, h))
      ]
]

-- The weights of a chunk by its status: RAM, swap, on its way out.
unfoldable pub Weights : Chunk → ℕ → ℕ → ℕ → Type 0
Weights c x y z = (weight holds_ram c ≡ x) × (weight holds_swap c ≡ y) × (weight leaving c ≡ z)

module _ (c : Chunk) where
  pub swapped-Weights : c.status ≡ mem_swapped → Weights c 0 c.size 0
  unfolding Weights
  swapped-Weights st = rw st (refl, refl, refl)

  pub allocated-Weights : c.status ≡ mem_allocated → Weights c c.size 0 0
  unfolding Weights
  allocated-Weights st = rw st (refl, refl, refl)

  pub arriving-Weights : c.status ≡ mem_swapin → Weights c c.size c.size 0
  unfolding Weights
  arriving-Weights st = rw st (refl, refl, refl)

  pub leaving-Weights : c.status ≡ mem_swapout → Weights c c.size c.size c.size
  unfolding Weights
  leaving-Weights st = rw st (refl, refl, refl)

pub arrived-Weights :
    (c : Chunk) (b : Bool)
    → Weights
        (record c { status = if b then mem_allocated else mem_allocated_inuse_read })
        c.size
        0
        0
unfolding Weights
arrived-Weights c true = (refl, refl, refl)
arrived-Weights c false = (refl, refl, refl)
