-- ===== src/FileSwap/Moves/Counted.antt =====
-- The accounts of src/managedMemory.cpp and src/managedSwap.cpp while chunks are on their way: what
-- src/managedFileSwap.cpp books when a transfer begins and when it has ended.
use rambrain.Prelude.{
  ℕ, ◌+◌, ◌≡◌, ◌<◌, ◌≤◌, refl, Bool, ◌==◌, if◌then◌else◌, arith, update, ◌∈◌, Distinct,
}
use rambrain.Prelude.Words.{u64, add64_fits, sub64_fits}
use rambrain.Chunk.{
  Chunk, MemoryStatus, mem_allocated, mem_allocated_inuse_read, mem_swapped, mem_swapin,
  mem_swapout,
}
use rambrain.Ring.{Ptr, null}
use rambrain.State.{State, Accounts}
use rambrain.Swap.{claim_usageof, claim_tobefreed, claim_ram_usageof}
use rambrain.Swap.Totals.{total, weight, total-update, weight-total}
use rambrain.FileSwap.Transfer.{swapped_in, swapped_out}
use rambrain.FileSwap.Moves.{start_swap_in, start_swap_out, drop_copy}
use rambrain.FileSwap.Moves.Weights.{
  holds_ram, holds_swap, leaving, any, total_le_any, total_room, Weights, swapped-Weights,
  allocated-Weights, arriving-Weights, leaving-Weights, arrived-Weights,
}

pub record Counted (s : State) : Type 0 where
  pub distinct : Distinct s.mem_chunks
  pub ram : s.acc.memory_used ≡ total holds_ram s.chunks s.mem_chunks
  pub out : s.acc.memory_swapped ≡ total holds_swap s.chunks s.mem_chunks
  pub tobefreed : s.acc.memory_tobefreed ≡ total leaving s.chunks s.mem_chunks
  pub used : s.acc.swap_used ≡ s.acc.memory_swapped
  pub fits : total any s.chunks s.mem_chunks < u64

-- The accounts move as the weights of the chunk do.
record Moved (c c' : Chunk) (a a' : Accounts) : Type 0 where
  pub ram : a'.memory_used + weight holds_ram c ≡ a.memory_used + weight holds_ram c'
  pub out : a'.memory_swapped + weight holds_swap c ≡ a.memory_swapped + weight holds_swap c'
  pub tobefreed : a'.memory_tobefreed + weight leaving c ≡ a.memory_tobefreed + weight leaving c'
  pub used : a'.swap_used ≡ a'.memory_swapped

module _ (i : ℕ) (s : State) (v : Counted s) (m : i ∈ s.mem_chunks) where
  Counted-Moved :
      (c' : Chunk) (s' : State)
      → s'.chunks ≡ update s.chunks i c'
      → s'.mem_chunks ≡ s.mem_chunks
      → c'.size ≡ (s.chunks i).size
      → Moved (s.chunks i) c' s.acc s'.acc
      → Counted s'
  Counted-Moved c' s' new keys same w =
      let ram = total-update holds_ram s.chunks i c' s.mem_chunks v.distinct m in
      let out = total-update holds_swap s.chunks i c' s.mem_chunks v.distinct m in
      let gone = total-update leaving s.chunks i c' s.mem_chunks v.distinct m in
      let all = total-update any s.chunks i c' s.mem_chunks v.distinct m in
      record {
        distinct = rw keys v.distinct;
        ram = rw (new, keys) (omega (arith, ram, w.ram, v.ram));
        out = rw (new, keys) (omega (arith, out, w.out, v.out));
        tobefreed = rw (new, keys) (omega (arith, gone, w.tobefreed, v.tobefreed));
        used = w.used;
        fits = rw (new, keys) (omega (arith, all, same, v.fits));
      }

  -- No account of the chunk's bytes wraps around.
  bounds :
      (s.acc.memory_used < u64)
      × (s.acc.memory_swapped < u64)
      × (s.acc.memory_tobefreed < u64)
      × (weight holds_ram (s.chunks i) ≤ s.acc.memory_used)
      × (weight holds_swap (s.chunks i) ≤ s.acc.memory_swapped)
      × (weight leaving (s.chunks i) ≤ s.acc.memory_tobefreed)
  bounds =
      let a = total_le_any holds_ram s.chunks s.mem_chunks in
      let b = total_le_any holds_swap s.chunks s.mem_chunks in
      let c = total_le_any leaving s.chunks s.mem_chunks in
      let d = weight-total holds_ram s.chunks i s.mem_chunks m in
      let e = weight-total holds_swap s.chunks i s.mem_chunks m in
      let g = weight-total leaving s.chunks i s.mem_chunks m in
      (
        omega (arith, a, v.ram, v.fits),
        omega (arith, b, v.out, v.fits),
        omega (arith, c, v.tobefreed, v.fits),
        omega (arith, d, v.ram),
        omega (arith, e, v.out),
        omega (arith, g, v.tobefreed),
      )

  -- What a total does not have of the chunk still fits with it.
  room :
      (test : MemoryStatus → Bool)
      → weight test (s.chunks i) ≡ 0
      → total test s.chunks s.mem_chunks + (s.chunks i).size < u64
  room test zero =
      let h = total_room test s.chunks i s.mem_chunks m in omega (arith, h, zero, v.fits)

  pub start_swap_in-Counted :
      (buf : ℕ) → (s.chunks i).status ≡ mem_swapped → Counted (start_swap_in buf i s)
  unfolding start_swap_in claim_usageof claim_ram_usageof Weights
  start_swap_in-Counted buf st =
      let c = s.chunks i in
      let w = swapped-Weights c st in
      let big = room holds_ram w.0 in
      let sum = add64_fits s.acc.memory_used c.size (omega (arith, v.ram, big)) in
      Counted-Moved (record c { loc_ptr = buf; status = mem_swapin }) (start_swap_in buf i s) refl
        refl refl
        (record {
          ram = omega (arith, sum, w.0);
          out = omega (arith, w.1);
          tobefreed = omega (arith, w.2);
          used = v.used;
        })

  pub swapped_in-Counted : (s.chunks i).status ≡ mem_swapin → Counted (swapped_in i s)
  unfolding swapped_in claim_usageof claim_ram_usageof Weights
  swapped_in-Counted st =
      let c = s.chunks i in
      let w = arriving-Weights c st in
      let b = bounds in
      let less = sub64_fits s.acc.memory_swapped c.size b.1 (omega (arith, b.4, w.1)) in
      let used = v.used in
      let u = arrived-Weights c (c.use_cnt == 0) in
      let st1 = if c.use_cnt == 0 then mem_allocated else mem_allocated_inuse_read in
      Counted-Moved (record c { status = st1 }) (swapped_in i s) refl refl refl
        (record {
          ram = omega (arith, w.0, u.0);
          out = omega (arith, less, w.1, u.1, b.4);
          tobefreed = omega (arith, w.2, u.2);
          used = rw used refl;
        })

  pub start_swap_out-Counted :
      (q : Ptr) → (s.chunks i).status ≡ mem_allocated → Counted (start_swap_out i q s)
  unfolding start_swap_out claim_usageof claim_ram_usageof claim_tobefreed Weights
  start_swap_out-Counted q st =
      let c = s.chunks i in
      let w = allocated-Weights c st in
      let more =
        add64_fits s.acc.memory_swapped c.size (omega (arith, v.out, room holds_swap w.1)) in
      let soon =
        add64_fits s.acc.memory_tobefreed c.size (omega (arith, v.tobefreed, room leaving w.2)) in
      let used = v.used in
      Counted-Moved (record c { swap_buf = q; status = mem_swapout }) (start_swap_out i q s) refl
        refl refl
        (record {
          ram = omega (arith, w.0);
          out = omega (arith, more, w.1);
          tobefreed = omega (arith, soon, w.2);
          used = rw used refl;
        })

  pub swapped_out-Counted : (s.chunks i).status ≡ mem_swapout → Counted (swapped_out i s)
  unfolding swapped_out claim_usageof claim_ram_usageof claim_tobefreed Weights
  swapped_out-Counted st =
      let c = s.chunks i in
      let w = leaving-Weights c st in
      let b = bounds in
      let less = sub64_fits s.acc.memory_used c.size b.0 (omega (arith, b.3, w.0)) in
      let done = sub64_fits s.acc.memory_tobefreed c.size b.2 (omega (arith, b.5, w.2)) in
      Counted-Moved (record c { loc_ptr = null; status = mem_swapped }) (swapped_out i s) refl refl
        refl
        (record {
          ram = omega (arith, less, w.0, b.3);
          out = omega (arith, w.1);
          tobefreed = omega (arith, done, w.2, b.5);
          used = v.used;
        })

  pub drop_copy-Counted : (s.chunks i).status ≡ mem_allocated → Counted (drop_copy i s)
  unfolding drop_copy claim_usageof claim_ram_usageof Weights
  drop_copy-Counted st =
      let c = s.chunks i in
      let w = allocated-Weights c st in
      let b = bounds in
      let less = sub64_fits s.acc.memory_used c.size b.0 (omega (arith, b.3, w.0)) in
      let more =
        add64_fits s.acc.memory_swapped c.size (omega (arith, v.out, room holds_swap w.1)) in
      let used = v.used in
      Counted-Moved (record c { loc_ptr = null; status = mem_swapped }) (drop_copy i s) refl refl
        refl
        (record {
          ram = omega (arith, less, w.0, b.3);
          out = omega (arith, more, w.1);
          tobefreed = omega (arith, w.2);
          used = rw used refl;
        })
