-- ===== src/Manager/Use.antt =====
-- src/managedMemory.cpp: prepareUse, setUse and unsetUse, and the waiting for a chunk.
use rambrain.Prelude.{
  ℕ, zero, suc, ◌+◌, ◌-◌, ◌%◌, ◌^◌, Bool, true, false, not, ◌&&◌, ◌||◌, ◌==◌, ltb, if◌then◌else◌,
}
use rambrain.Prelude.Words.{add64, sub64}
use rambrain.Chunk.{
  MemoryStatus, mem_root, mem_allocated_inuse_read, mem_allocated_inuse_write, mem_allocated_inuse,
  mem_allocated, mem_swapped, mem_swapin, mem_swapout, has_flag, is_status,
}
use rambrain.State.{State, put_chunk}
use rambrain.Effects.{
  Outcome, returned, thrown, stuck, after, Parts, lock, unlock, zero_unsets, unset_unused,
}

abbrev status_of : ℕ → State → MemoryStatus
status_of i s = (s.chunks i).status

abbrev pub set_status : ℕ → MemoryStatus → State → State
set_status i st s = put_chunk i (record (s.chunks i) { status = st }) s

module _ (p : Parts) where
  -- The loops `while ( chunk.status == st ) waitForAIO()`.
  abbrev pub wait_while : ℕ → MemoryStatus → ℕ → State → Outcome {0} Unit
  wait_while zero st i s = stuck
  wait_while (suc k) st i s =
      let waited = after (p.wait_for_aio s) (λ (u : Unit) (s1 : State). wait_while k st i s1) in
      if is_status (status_of i s) st then waited else returned tt s

  -- waitForSwapin and waitForSwapout, with `keepSwapLock`.
  unfoldable pub wait_for_swapin : ℕ → ℕ → State → Outcome Bool
  wait_for_swapin fuel i s =
      let st = status_of i s in
      if is_status st mem_swapout || is_status st mem_swapped
      then returned false s
      else after (wait_while fuel mem_swapin i s)
          λ _ s1. returned (has_flag (status_of i s1) mem_allocated) s1

  unfoldable pub wait_for_swapout : ℕ → ℕ → State → Outcome Bool
  wait_for_swapout fuel i s =
      let st = status_of i s in
      if is_status st mem_swapin || has_flag st mem_allocated
      then returned false s
      else after (wait_while fuel mem_swapout i s)
          λ _ s1. returned (is_status (status_of i s1) mem_swapped) s1

  -- `case MEM_SWAPPED` of prepareUse.
  abbrev pub fetch : ℕ → State → Outcome Bool
  fetch i s = p.swap_in i (record s {
    stats = record s.stats {
      swap_misses = add64 s.stats.swap_misses 1;
      swap_hits = sub64 s.stats.swap_hits 1;
    };
  })

  abbrev pub after_swapout : ℕ → Bool → State → Outcome Bool
  after_swapout i true s = fetch i s
  after_swapout i false s = returned true s

  -- prepareUse without the lock of its own.
  unfoldable pub prepare_use : ℕ → ℕ → State → Outcome Bool
  unfolding wait_for_swapout
  prepare_use fuel i s =
      if is_status (status_of i s) mem_swapout
      then after (wait_for_swapout fuel i s) (after_swapout i)
      else if is_status (status_of i s) mem_swapped
      then fetch i s
      else returned true s

  -- The last cases of setUse, which fall through to touch.
  unfoldable pub hand_out : ℕ → State → Outcome Bool
  hand_out i s = returned true (
      unlock
        (p.touch i (record s { stats = record s.stats { swap_hits = add64 s.stats.swap_hits 1 } })))

  unfoldable pub grant : ℕ → Bool → State → Outcome Bool
  unfolding hand_out
  grant i write s =
      if write
      then after (p.invalidate_cache_for i (set_status i mem_allocated_inuse_write s))
          (λ (u : Unit) (s1 : State). hand_out i s1)
      else hand_out i s

  -- From `case MEM_SWAPIN` on.
  unfoldable pub await_use : ℕ → ℕ → Bool → State → Outcome Bool
  unfolding wait_for_swapin grant
  await_use fuel i write s = after (wait_for_swapin fuel i s) λ b s1.
      if not b && not (has_flag (status_of i s1) mem_allocated)
      then returned false (unlock s1)
      else grant i write (set_status i mem_allocated_inuse_read s1)

  abbrev pub fetch_use : ℕ → ℕ → Bool → State → Outcome Bool
  fetch_use fuel i write s =
      after (prepare_use fuel i s)
        λ b s1. if b then await_use fuel i write s1 else returned false (unlock s1)

  -- The switch of setUse.
  abbrev pub switch_use : ℕ → ℕ → Bool → MemoryStatus → State → Outcome Bool
  switch_use fuel i write mem_swapout s = fetch_use fuel i write s
  switch_use fuel i write mem_swapped s = fetch_use fuel i write s
  switch_use fuel i write mem_swapin s = await_use fuel i write s
  switch_use fuel i write mem_allocated s = grant i write (set_status i mem_allocated_inuse_read s)
  switch_use fuel i write mem_allocated_inuse s = grant i write s
  switch_use fuel i write mem_allocated_inuse_read s = grant i write s
  switch_use fuel i write mem_allocated_inuse_write s = hand_out i s
  switch_use fuel i write mem_root s = returned false (unlock s)

  -- `useCnt` is an unsigned short.
  unfoldable pub set_use : ℕ → ℕ → Bool → State → Outcome Bool
  unfolding await_use grant hand_out prepare_use
  set_use fuel i write s =
      let c = s.chunks i in
      let s1 = put_chunk i (record c { use_cnt = (c.use_cnt + 1) % 2 ^ 16 }) (lock s) in
      switch_use fuel i write c.status s1

  unfoldable pub unset_use : ℕ → ℕ → State → Outcome Bool
  unset_use i no_unsets s =
      let c = s.chunks i in
      let left = c.use_cnt - no_unsets in
      let st =
        if has_flag c.status mem_allocated_inuse_read && (left == 0)
        then mem_allocated
        else c.status in
      if no_unsets == 0
      then thrown zero_unsets (unlock s)
      else if ltb c.use_cnt no_unsets
      then thrown unset_unused (unlock s)
      else after (p.untouch i (put_chunk i (record c { use_cnt = left; status = st }) (lock s)))
          λ _ s1. returned true (unlock s1)
