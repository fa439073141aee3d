-- ===== src/FileSwap/Moves.antt =====
-- src/managedFileSwap.cpp: swapDelete, swapIn, swapOut, and what makes the swap larger. The chunk is
-- given by its address `i`; signalSwappingCond only wakes threads, so it has no counterpart.
pub mod Extend
pub mod Weights
pub mod Counted
pub mod Steps
pub mod Copies
pub mod Refines
use rambrain.Prelude.{
  ℕ, ◌+◌, Bool, true, false, not, ◌&&◌, ◌||◌, ◌==◌, ltb, if◌then◌else◌, Option, none, some, List,
  [], ◌∷◌,
}
use rambrain.Prelude.Words.{add64, sub64}
use rambrain.Chunk.{
  MemoryStatus, mem_swapin, mem_swapout, mem_swapped, is_status, is_resident, is_out,
}
use rambrain.Ring.{Ptr, null}
use rambrain.Heap.{Malloc, mm_free, occupy}
use rambrain.State.{State, put_chunk}
use rambrain.Swap.{claim_usageof, claim_tobefreed}
use rambrain.FileSwap.{Files, put_base}
use rambrain.FileSwap.Release.{pffree}
use rambrain.FileSwap.Allocate.{pfmalloc, Found, found, refused}
use rambrain.FileSwap.Allocate
use rambrain.FileSwap.Transfer.{Run, finished, failed, unending, next, copy_mem, out_of_swap_space}

-- What the operations take from outside: sizeof(pageFileLocation), the alignment of transfers, the
-- step of a file's size, `new`, the wait for a request, ftruncate, and _mm_malloc.
pub record Outside : Type 0 where
  pub overhead : ℕ
  pub align : ℕ
  pub resize_step : ℕ
  pub new_location : Files → Ptr
  pub new_tracker : Files → Ptr
  pub settle : Ptr → Files → Files
  pub ftruncate : ℕ → ℕ → ℕ
  pub mm_malloc : Malloc

-- swapDelete, after pffree.
unfoldable pub forget_swapped : ℕ → Files → Files
forget_swapped i f =
    let c = f.base.chunks i in
    let s = put_chunk i (record c { swap_buf = null }) f.base in
    if c.loc_ptr == null
    then put_base (record s { acc = claim_usageof c.size false false s.acc }) f
    else put_base s f

-- A buffer for the chunk, or none.
unfoldable pub with_buffer : ℕ → ℕ → Files → Files
with_buffer buf i f =
    let s = f.base in
    if buf == null then f else put_base (record s { heap = occupy buf (s.chunks i).size s.heap }) f

-- swapIn where the chunk will be read to `buf`.
unfoldable pub start_swap_in : ℕ → ℕ → State → State
start_swap_in buf i s =
    let c = s.chunks i in
    record (put_chunk i (record c { loc_ptr = buf; status = mem_swapin }) s) {
      acc = claim_usageof c.size true true s.acc;
    }

-- swapOut where the chunk is in the swap as it is.
unfoldable pub drop_copy : ℕ → State → State
drop_copy i s =
    let c = s.chunks i in
    record (put_chunk i (record c { loc_ptr = null; status = mem_swapped }) s) {
      heap = mm_free c.loc_ptr s.heap;
      acc = claim_usageof c.size false true (claim_usageof c.size true false s.acc);
    }

unfoldable pub start_swap_out : ℕ → Ptr → State → State
start_swap_out i q s =
    let c = s.chunks i in
    record (put_chunk i (record c { swap_buf = q; status = mem_swapout }) s) {
      acc = claim_tobefreed c.size true (claim_usageof c.size false true s.acc);
    }

module _ (w : Outside) (fuel : ℕ) where
  abbrev copy : Ptr → ℕ → Bool → Files → Run {0} Unit
  copy = copy_mem w.align w.resize_step w.ftruncate w.new_tracker fuel

  unfoldable pub swap_delete : ℕ → Files → Run {0} Unit
  unfolding forget_swapped
  swap_delete i f =
      let c = f.base.chunks i in
      if c.swap_buf == null then finished tt f else elim (pffree w.settle fuel c.swap_buf f) [
        | none ↦ unending
        | some g ↦ finished tt (forget_swapped i g)
      ]

  -- swapIn, once the buffer was asked for.
  unfoldable pub swap_in_to : ℕ → ℕ → Files → Run ℕ
  unfolding start_swap_in
  swap_in_to buf i f =
      let c = f.base.chunks i in
      if (c.swap_buf == null) || is_status c.status mem_swapin
      then finished 0 f
      else if buf == null
      then finished 0 f
      else if is_resident c.status
      then finished 0 f
      else next (copy c.swap_buf buf true (put_base (start_swap_in buf i f.base) f))
          (λ u g. finished c.size g)

  -- swapIn: the bytes that will be swapped in. The buffer is allocated before anything is tested.
  unfoldable pub swap_in : ℕ → Files → Run ℕ
  unfolding swap_in_to with_buffer
  swap_in i f =
      let s = f.base in
      let buf = w.mm_malloc s.heap (s.chunks i).size s.memory_alignment in
      swap_in_to buf i (with_buffer buf i f)

  -- swapOut with what pfmalloc found.
  unfoldable pub write_out : ℕ → Option Found → Run ℕ
  unfolding start_swap_out
  write_out i none = unending
  write_out i (some (refused g)) = finished 0 g
  write_out i (some (Allocate.out_of_swap_space g)) = failed out_of_swap_space g
  write_out i (some (found q g)) =
      let c = g.base.chunks i in
      next (copy q c.loc_ptr false (put_base (start_swap_out i q g.base) g))
        (λ u h. finished c.size h)

  -- swapOut: the bytes that are or will be swapped out.
  unfoldable pub swap_out : ℕ → Files → Run ℕ
  unfolding write_out drop_copy
  swap_out i f =
      let s = f.base in
      let c = s.chunks i in
      if ltb s.acc.swap_free c.size
      then finished 0 f
      else if is_out c.status
      then finished c.size f
      else if not (c.swap_buf == null)
      then finished c.size (put_base (drop_copy i s) f)
      else write_out i (pfmalloc w.overhead w.align w.new_location w.settle fuel i c.size f)

  -- The loops over a list of chunks, from `n_swapped` on.
  unfoldable pub swap_in_from : ℕ → List ℕ → Files → Run ℕ
  unfolding swap_in
  swap_in_from n_swapped [] f = finished n_swapped f
  swap_in_from n_swapped (i ∷ is) f =
      next (swap_in i f) (λ n g. swap_in_from (add64 n_swapped n) is g)

  unfoldable pub swap_out_from : ℕ → List ℕ → Files → Run ℕ
  unfolding swap_out
  swap_out_from n_swapped [] f = finished n_swapped f
  swap_out_from n_swapped (i ∷ is) f =
      next (swap_out i f) (λ n g. swap_out_from (add64 n_swapped n) is g)

  abbrev pub swap_in_all : List ℕ → Files → Run ℕ
  swap_in_all is f = swap_in_from 0 is f

  abbrev pub swap_out_all : List ℕ → Files → Run ℕ
  swap_out_all is f = swap_out_from 0 is f
