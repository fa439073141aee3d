-- ===== src/Swap/Dummy.antt =====
-- src/managedDummySwap.cpp: a swap that keeps its chunks in RAM, for tests. The chunk is given by
-- its address `i`; signalSwappingCond only wakes threads, so it has no counterpart.
use rambrain.Prelude.{ℕ, true, false, ◌==◌, ltb, if◌then◌else◌, List, [], ◌∷◌}
use rambrain.Prelude.Words.{add64}
use rambrain.Chunk.{mem_allocated, mem_swapped, is_status}
use rambrain.Ring.{null}
use rambrain.Heap.{Malloc, memcpy, mm_free, occupy}
use rambrain.State.{State, put_chunk}
use rambrain.Swap.{claim_usageof}

-- What swapOut does when it has a buffer.
unfoldable pub move_out : ℕ → ℕ → State → State
unfolding claim_usageof memcpy
move_out buf i s =
    let c = s.chunks i in
    record (put_chunk i (record c { swap_buf = buf; loc_ptr = null; status = mem_swapped }) s) {
      heap = mm_free c.loc_ptr (memcpy buf c.loc_ptr c.size (occupy buf c.size s.heap));
      acc = claim_usageof c.size true false (claim_usageof c.size false true s.acc);
      stats = record s.stats { swap_out_bytes = add64 s.stats.swap_out_bytes c.size };
    }

unfoldable pub move_in : ℕ → ℕ → State → State
unfolding claim_usageof memcpy
move_in buf i s =
    let c = s.chunks i in
    record (put_chunk i (record c { loc_ptr = buf; swap_buf = null; status = mem_allocated }) s) {
      heap = mm_free c.swap_buf (memcpy buf c.swap_buf c.size (occupy buf c.size s.heap));
      acc = claim_usageof c.size true true (claim_usageof c.size false false s.acc);
      stats = record s.stats { swap_in_bytes = add64 s.stats.swap_in_bytes c.size };
    }

module _ (mm_malloc : Malloc) where
  -- swapOut: the bytes that were swapped, and the state.
  unfoldable pub swap_out : ℕ → State → ℕ × State
  unfolding move_out
  swap_out i s =
      let n = (s.chunks i).size in
      let buf = mm_malloc s.heap n s.memory_alignment in
      if ltb s.acc.swap_size (add64 n s.acc.swap_used)
      then (0, s)
      else if buf == null
      then (0, s)
      else (n, move_out buf i s)

  unfoldable pub swap_in : ℕ → State → ℕ × State
  unfolding move_in
  swap_in i s =
      let n = (s.chunks i).size in
      let buf = mm_malloc s.heap n s.memory_alignment in
      if buf == null then (0, s) else (n, move_in buf i s)

  -- The loops over a list of chunks, from `n_swapped` on.
  abbrev pub swap_out_from : ℕ → List ℕ → State → ℕ × State
  swap_out_from n_swapped [] s = (n_swapped, s)
  swap_out_from n_swapped (i ∷ is) s =
      let r = swap_out i s in swap_out_from (add64 n_swapped r.0) is r.1

  abbrev pub swap_in_from : ℕ → List ℕ → State → ℕ × State
  swap_in_from n_swapped [] s = (n_swapped, s)
  swap_in_from n_swapped (i ∷ is) s =
      let r = swap_in i s in swap_in_from (add64 n_swapped r.0) is r.1

  abbrev pub swap_out_all : List ℕ → State → ℕ × State
  swap_out_all is s = swap_out_from 0 is s

  abbrev pub swap_in_all : List ℕ → State → ℕ × State
  swap_in_all is s = swap_in_from 0 is s

-- swapDelete.
unfoldable pub swap_delete : ℕ → State → State
unfolding claim_usageof
swap_delete i s =
    let c = s.chunks i in
    if is_status c.status mem_swapped
    then record s { acc = claim_usageof c.size false false s.acc; heap = mm_free c.swap_buf s.heap }
    else s
