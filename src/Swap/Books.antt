-- ===== src/Swap/Books.antt =====
-- The accounts match the chunks, whatever the dummy swap of src/managedDummySwap.cpp does.
use rambrain.Prelude.{ℕ, ◌+◌, ◌≤◌, ◌<◌, ◌≡◌, refl, true, false, arith, ◌∈◌, Distinct}
use rambrain.Prelude.Words.{u64, add64, sub64}
use rambrain.Chunk.{Chunk, mem_allocated, mem_swapped}
use rambrain.State.{State, Accounts}
use rambrain.Swap.{claim_usageof, claim_ram_usageof}
use rambrain.Swap.Dummy.{move_out, move_in}
use rambrain.Swap.Totals.{total, weight, in_ram, in_swap, total-update, weight-total}

pub record Balanced (s : State) : Type 0 where
  pub distinct : Distinct s.mem_chunks
  pub ram : s.acc.memory_used ≡ total in_ram s.chunks s.mem_chunks
  pub out : s.acc.memory_swapped ≡ total in_swap s.chunks s.mem_chunks
  pub used : s.acc.swap_used ≡ s.acc.memory_swapped
  pub free : s.acc.swap_used + s.acc.swap_free ≡ s.acc.swap_size
  pub fits : s.acc.memory_used + s.acc.memory_swapped + s.acc.swap_size < u64

-- No account is out by the wrap-around when `n` bytes go from RAM to the swap.
claim_out :
    (n : ℕ) (a : Accounts)
    → n ≤ a.memory_used
    → a.swap_used + n ≤ a.swap_size
    → a.swap_used ≡ a.memory_swapped
    → a.swap_used + a.swap_free ≡ a.swap_size
    → a.memory_used + a.memory_swapped + a.swap_size < u64
    → let b = claim_usageof n true false (claim_usageof n false true a) in
      (b.memory_used + n ≡ a.memory_used)
      × (b.memory_swapped ≡ a.memory_swapped + n)
      × (b.swap_used ≡ a.swap_used + n)
      × (b.swap_free + n ≡ a.swap_free)
unfolding claim_usageof claim_ram_usageof add64 sub64
claim_out n a small room used free fits = (omega arith, omega arith, omega arith, omega arith)

claim_in :
    (n : ℕ) (a : Accounts)
    → n ≤ a.memory_swapped
    → a.swap_used ≡ a.memory_swapped
    → a.swap_used + a.swap_free ≡ a.swap_size
    → a.memory_used + a.memory_swapped + a.swap_size < u64
    → let b = claim_usageof n true true (claim_usageof n false false a) in
      (b.memory_used ≡ a.memory_used + n)
      × (b.memory_swapped + n ≡ a.memory_swapped)
      × (b.swap_used + n ≡ a.swap_used)
      × (b.swap_free ≡ a.swap_free + n)
unfolding claim_usageof claim_ram_usageof add64 sub64
claim_in n a small used free fits = (omega arith, omega arith, omega arith, omega arith)

pub allocated_weights :
    (c : Chunk) → c.status ≡ mem_allocated → (weight in_ram c ≡ c.size) × (weight in_swap c ≡ 0)
allocated_weights c here = rw here (refl, refl)

pub swapped_weights :
    (c : Chunk) → c.status ≡ mem_swapped → (weight in_ram c ≡ 0) × (weight in_swap c ≡ c.size)
swapped_weights c away = rw away (refl, refl)

module _ (s : State) (i : ℕ) (v : Balanced s) (m : i ∈ s.mem_chunks) (buf : ℕ) where
  pub move_out-Balanced :
      (s.chunks i).status ≡ mem_allocated
      → s.acc.swap_used + (s.chunks i).size ≤ s.acc.swap_size
      → Balanced (move_out buf i s)
        × ((move_out buf i s).acc.memory_used + (s.chunks i).size ≡ s.acc.memory_used)
        × ((move_out buf i s).acc.memory_swapped ≡ s.acc.memory_swapped + (s.chunks i).size)
  unfolding move_out
  move_out-Balanced here room =
      let c = s.chunks i in
      let c' = record c { swap_buf = buf; loc_ptr = 0; status = mem_swapped } in
      let w = allocated_weights c here in
      let inside = weight-total in_ram s.chunks i s.mem_chunks m in
      let books =
        claim_out c.size s.acc (omega (arith, inside, w.0, v.ram)) room v.used v.free v.fits in
      let ram = total-update in_ram s.chunks i c' s.mem_chunks v.distinct m in
      let out = total-update in_swap s.chunks i c' s.mem_chunks v.distinct m in
      (
        record {
          distinct = v.distinct;
          ram = omega (arith, books, ram, w.0, v.ram);
          out = omega (arith, books, out, w.1, v.out);
          used = omega (arith, books, v.used);
          free = omega (arith, books, v.free);
          fits = omega (arith, books, v.fits);
        },
        books.0,
        books.1,
      )

  pub move_in-Balanced :
      (s.chunks i).status ≡ mem_swapped
      → Balanced (move_in buf i s)
        × ((move_in buf i s).acc.memory_used ≡ s.acc.memory_used + (s.chunks i).size)
        × ((move_in buf i s).acc.memory_swapped + (s.chunks i).size ≡ s.acc.memory_swapped)
  unfolding move_in
  move_in-Balanced away =
      let c = s.chunks i in
      let c' = record c { loc_ptr = buf; swap_buf = 0; status = mem_allocated } in
      let w = swapped_weights c away in
      let inside = weight-total in_swap s.chunks i s.mem_chunks m in
      let books = claim_in c.size s.acc (omega (arith, inside, w.1, v.out)) v.used v.free v.fits in
      let ram = total-update in_ram s.chunks i c' s.mem_chunks v.distinct m in
      let out = total-update in_swap s.chunks i c' s.mem_chunks v.distinct m in
      (
        record {
          distinct = v.distinct;
          ram = omega (arith, books, ram, w.0, v.ram);
          out = omega (arith, books, out, w.1, v.out);
          used = omega (arith, books, v.used);
          free = omega (arith, books, v.free);
          fits = omega (arith, books, v.fits);
        },
        books.0,
        books.1,
      )
