-- ===== src/Swap/Batch.antt =====
-- src/managedDummySwap.cpp: swapOut and swapIn, of one chunk and of a list, keep the accounts right.
use rambrain.Prelude.{
  ℕ, ◌+◌, ◌≤◌, ◌<◌, ◌≡◌, refl, false, Bool-cases, inl, inr, ◌==◌, ltb, List, [], ◌∷◌, arith, update,
  ◌∈◌, ◌∉◌,
}
use rambrain.Prelude.Words.{u64, add64}
use rambrain.Chunk.{MemoryStatus, mem_allocated, mem_swapped}
use rambrain.Heap.{Malloc}
use rambrain.State.{State}
use rambrain.Swap.Dummy.{
  move_out, move_in, swap_out, swap_in, swap_out_from, swap_in_from, swap_out_all, swap_in_all,
}
use rambrain.Swap.Totals.{in_ram, weight-total}
use rambrain.Swap.Books.{Balanced, move_out-Balanced, move_in-Balanced, allocated_weights}

-- Chunks of the manager, each once, that have the status `st`.
abbrev pub AllAre : MemoryStatus → List ℕ → State → Type 0
AllAre st [] s = Unit
AllAre st (i ∷ is) s = (i ∉ is) × (i ∈ s.mem_chunks) × ((s.chunks i).status ≡ st) × AllAre st is s

AllAre-same :
    (st : MemoryStatus) (is : List ℕ) (i : ℕ) (s s' : State)
    → i ∉ is
    → s'.mem_chunks ≡ s.mem_chunks
    → ((j : ℕ) → (j == i) ≡ false → s'.chunks j ≡ s.chunks j)
    → AllAre st is s
    → AllAre st is s'
AllAre-same st [] i s s' out keys same a = tt
AllAre-same st (j ∷ is) i s s' out keys same (once, known, at, rest) =
    let e = same j (ground arith) in
    (once, rw keys known, rw e at, AllAre-same st is i s s' (ground arith) keys same rest)

-- The guard of swapOut, whose sum does not wrap around.
room_of_guard :
    (s : State) (i : ℕ)
    → Balanced s
    → i ∈ s.mem_chunks
    → (s.chunks i).status ≡ mem_allocated
    → ltb s.acc.swap_size (add64 (s.chunks i).size s.acc.swap_used) ≡ false
    → s.acc.swap_used + (s.chunks i).size ≤ s.acc.swap_size
unfolding add64
room_of_guard s i v m here guard =
    let w = allocated_weights (s.chunks i) here in
    let inside = weight-total in_ram s.chunks i s.mem_chunks m in
    let small : (s.chunks i).size ≤ s.acc.memory_used = omega (arith, inside, w.0, v.ram) in
    ground (arith, small, v.free, v.fits, guard)

module _ (mm_malloc : Malloc) where
  swap_out_keys : (i : ℕ) (s : State) → (swap_out mm_malloc i s).1.mem_chunks ≡ s.mem_chunks
  unfolding swap_out move_out
  swap_out_keys i s = ground arith

  swap_out_other :
      (i : ℕ) (s : State) (j : ℕ)
      → (j == i) ≡ false
      → (swap_out mm_malloc i s).1.chunks j ≡ s.chunks j
  unfolding swap_out move_out update
  swap_out_other i s j other = ground arith

  swap_in_keys : (i : ℕ) (s : State) → (swap_in mm_malloc i s).1.mem_chunks ≡ s.mem_chunks
  unfolding swap_in move_in
  swap_in_keys i s = ground arith

  swap_in_other :
      (i : ℕ) (s : State) (j : ℕ)
      → (j == i) ≡ false
      → (swap_in mm_malloc i s).1.chunks j ≡ s.chunks j
  unfolding swap_in move_in update
  swap_in_other i s j other = ground arith

  pub swap_out-Balanced :
      (i : ℕ) (s : State)
      → Balanced s
      → i ∈ s.mem_chunks
      → (s.chunks i).status ≡ mem_allocated
      → let r = swap_out mm_malloc i s in
        Balanced r.1
        × (r.1.acc.memory_used + r.0 ≡ s.acc.memory_used)
        × (r.1.acc.memory_swapped ≡ s.acc.memory_swapped + r.0)
  unfolding swap_out
  swap_out-Balanced i s v m here =
      let n = (s.chunks i).size in
      let buf = mm_malloc s.heap n s.memory_alignment in
      elim (Bool-cases (ltb s.acc.swap_size (add64 n s.acc.swap_used))) [
        | inl full ↦ rw full (v, omega arith, omega arith)
        | inr room ↦ elim (Bool-cases (buf == 0)) [
          | inl none ↦ rw (room, none) (v, omega arith, omega arith)
          | inr some ↦
              rw (room, some) (move_out-Balanced s i v m buf here (room_of_guard s i v m here room))
        ]
      ]

  pub swap_in-Balanced :
      (i : ℕ) (s : State)
      → Balanced s
      → i ∈ s.mem_chunks
      → (s.chunks i).status ≡ mem_swapped
      → let r = swap_in mm_malloc i s in
        Balanced r.1
        × (r.1.acc.memory_used ≡ s.acc.memory_used + r.0)
        × (r.1.acc.memory_swapped + r.0 ≡ s.acc.memory_swapped)
  unfolding swap_in
  swap_in-Balanced i s v m away =
      let buf = mm_malloc s.heap (s.chunks i).size s.memory_alignment in
      elim (Bool-cases (buf == 0)) [
        | inl none ↦ rw none (v, omega arith, omega arith)
        | inr some ↦ rw some (move_in-Balanced s i v m buf away)
      ]

  swap_out_from-Balanced :
      (is : List ℕ) (n : ℕ) (s : State)
      → Balanced s
      → AllAre mem_allocated is s
      → n + s.acc.memory_used < u64
      → let r = swap_out_from mm_malloc n is s in
        Balanced r.1 × (r.1.acc.memory_used + r.0 ≡ s.acc.memory_used + n)
  unfolding add64
  swap_out_from-Balanced [] n s v a small = (v, refl)
  swap_out_from-Balanced (i ∷ is) n s v (once, known, here, rest) small =
      let one = swap_out-Balanced i s v known here in
      let s' = (swap_out mm_malloc i s).1 in
      let n' = add64 n (swap_out mm_malloc i s).0 in
      let a' =
        AllAre-same mem_allocated is i s s' once (swap_out_keys i s) (swap_out_other i s) rest in
      let more = swap_out_from-Balanced is n' s' one.0 a' (omega (arith, one.1)) in
      (more.0, omega (arith, more.1, one.1))

  -- Where the accounts match the chunks, swapOut on distinct allocated chunks returns the bytes that left
  -- the RAM, and every account still matches.
  pub swap_out_all-Balanced :
      (is : List ℕ) (s : State)
      → Balanced s
      → AllAre mem_allocated is s
      → let r = swap_out_all mm_malloc is s in
        Balanced r.1 × (r.1.acc.memory_used + r.0 ≡ s.acc.memory_used)
  swap_out_all-Balanced is s v a =
      let r = swap_out_from-Balanced is 0 s v a (omega (arith, v.fits)) in (r.0, omega (arith, r.1))

  swap_in_from-Balanced :
      (is : List ℕ) (n : ℕ) (s : State)
      → Balanced s
      → AllAre mem_swapped is s
      → n + s.acc.memory_swapped < u64
      → let r = swap_in_from mm_malloc n is s in
        Balanced r.1 × (r.1.acc.memory_used + n ≡ s.acc.memory_used + r.0)
  unfolding add64
  swap_in_from-Balanced [] n s v a small = (v, refl)
  swap_in_from-Balanced (i ∷ is) n s v (once, known, away, rest) small =
      let one = swap_in-Balanced i s v known away in
      let s' = (swap_in mm_malloc i s).1 in
      let n' = add64 n (swap_in mm_malloc i s).0 in
      let a' = AllAre-same mem_swapped is i s s' once (swap_in_keys i s) (swap_in_other i s) rest in
      let more = swap_in_from-Balanced is n' s' one.0 a' (omega (arith, small, one.2)) in
      (more.0, omega (arith, more.1, one.1))

  -- Where the accounts match the chunks, swapIn on distinct swapped chunks returns the bytes that came
  -- to the RAM, and every account still matches.
  pub swap_in_all-Balanced :
      (is : List ℕ) (s : State)
      → Balanced s
      → AllAre mem_swapped is s
      → let r = swap_in_all mm_malloc is s in
        Balanced r.1 × (r.1.acc.memory_used ≡ s.acc.memory_used + r.0)
  swap_in_all-Balanced is s v a =
      let r = swap_in_from-Balanced is 0 s v a (omega (arith, v.fits)) in (r.0, omega (arith, r.1))
