-- ===== src/Manager.antt =====
-- src/managedMemory.cpp: room in RAM, allocation and release. The mutex is taken and given back as
-- the source does.
pub mod Use
pub mod Room
pub mod Books
pub mod Locks
pub mod Counts
pub mod Allocation
pub mod Limit
use rambrain.Prelude.{
  ℕ, zero, suc, ◌-◌, ◌%◌, ◌+◌, Bool, true, false, not, ◌&&◌, ◌||◌, ◌==◌, ltb, if◌then◌else◌, Option,
  none, some, List, [], ◌∷◌, has, erase, update,
}
use rambrain.Prelude.Words.{add64, sub64, u64}
use rambrain.Chunk.{
  Chunk, MemoryStatus, mem_allocated, mem_allocated_inuse, mem_swapin, has_flag, is_status,
  is_resident,
}
use rambrain.Heap.{mm_free, occupy}
use rambrain.State.{State, Accounts, put_chunk}
use rambrain.Effects.{
  Exception, Outcome, returned, thrown, stuck, undefined, after, SwapErrorCode, err_success,
  err_swapfull, err_morethantotalram, err_notenoughcandidates, Parts, lock, unlock,
  object_bigger_than_ram, too_much_used, swap_full, unknown_reason, malloc_failed, free_in_use,
}

-- `orisSwappedin && (its status & MEM_ALLOCATED || its status == MEM_SWAPIN)`.
abbrev pub arrived : Option ℕ → State → Bool
arrived none s = false
arrived (some i) s = is_resident (s.chunks i).status

abbrev pub is_success : SwapErrorCode → Bool
is_success err_success = true
is_success e = false

-- The exception of each error code.
abbrev pub reason : SwapErrorCode → Exception
reason err_morethantotalram = object_bigger_than_ram
reason err_notenoughcandidates = too_much_used
reason err_swapfull = swap_full
reason err_success = unknown_reason

-- `sizereq + memory_used > memory_max`.
abbrev pub lacks_room : ℕ → State → Bool
lacks_room sizereq s = ltb s.acc.memory_max (add64 sizereq s.acc.memory_used)

-- How a round of ensureEnoughSpace's loop ends: with the result, or with `cacheCleaned`.
pub data Round : Type 0 where
  finished again : Bool → Round

module _ (p : Parts) where
  -- The end of a round: wait if there is still no room.
  abbrev pub linger : ℕ → Bool → State → Outcome Round
  linger sizereq cleaned s =
      if lacks_room sizereq s
      then after (p.wait_for_aio s) (λ (u : Unit) (s1 : State). returned (again cleaned) s1)
      else returned (again cleaned) s

  -- What follows swapOut.
  unfoldable pub judge_swap_out : ℕ → Bool → SwapErrorCode → State → Outcome Round
  judge_swap_out sizereq cleaned err s =
      if is_success err || not (s.acc.memory_tobefreed == 0)
      then linger sizereq cleaned s
      else if not cleaned
      then after (p.cleanup_cached_elements s) (λ (u : Unit) (s1 : State). returned (again true) s1)
      else if s.out_of_swap_is_fatal
      then thrown (reason err) (unlock s)
      else after (p.cleanup_cached_elements s)
          (λ (u : Unit) (s1 : State). linger sizereq cleaned s1)

  unfoldable pub ensure_round : ℕ → Option ℕ → Bool → State → Outcome Round
  unfolding judge_swap_out
  ensure_round sizereq ori cleaned s =
      let a = s.acc in
      if not (lacks_room sizereq s) || arrived ori s
      then returned (finished (arrived ori s)) s
      else if ltb a.memory_max (sub64 (add64 sizereq a.memory_used) a.memory_tobefreed)
      then after
          (p.swap_out (sub64 (sub64 sizereq (sub64 a.memory_max a.memory_used)) a.memory_tobefreed)
            s)
          (judge_swap_out sizereq cleaned)
      else linger sizereq cleaned s

  -- ensureEnoughSpace, from a value of `cacheCleaned` on.
  unfoldable pub ensure_from : ℕ → ℕ → Option ℕ → Bool → State → Outcome Bool
  ensure_from zero sizereq ori cleaned s = stuck
  ensure_from (suc k) sizereq ori cleaned s =
      let loop = ensure_from k sizereq ori in
      after (ensure_round sizereq ori cleaned s)
        λ r s1. elim r [ finished b ↦ returned b s1 | again c ↦ loop c s1 ]

  abbrev pub ensure_enough_space : ℕ → ℕ → Option ℕ → State → Outcome Bool
  ensure_enough_space fuel sizereq ori s = ensure_from fuel sizereq ori false s

-- memChunks.insert: the keys of a std::map are in order, and an old entry stays.
abbrev pub insert_key : ℕ → List ℕ → List ℕ
insert_key i [] = i ∷ []
insert_key i (j ∷ js) =
    let further = insert_key i js in
    if i == j then j ∷ js else if ltb i j then i ∷ j ∷ js else j ∷ further

-- Up to a multiple of the alignment.
abbrev pub round_up : ℕ → ℕ → ℕ
round_up n align = if n % align == 0 then n else add64 n (align - n % align)

-- The chunk that mmalloc makes; `preemptive_loaded` is false from its declaration on.
abbrev pub new_chunk : ℕ → ℕ → Chunk
new_chunk i n = record {
  status = mem_allocated;
  use_cnt = 0;
  loc_ptr = 0;
  size = n;
  id = i;
  preemptive_loaded = false;
  sched_buf = 0;
  swap_buf = 0;
}

module _ (p : Parts) where
  -- mmalloc once there is room, up to the allocation of the bytes.
  unfoldable pub enrol : ℕ → State → State
  enrol n s =
      let i = s.mem_id_pace in
      let s1 = record (put_chunk i (new_chunk i n) s) {
        acc = record s.acc { memory_used = add64 s.acc.memory_used n };
        mem_id_pace = add64 i 1;
      } in
      let s2 = p.touch i (p.scheduler_register i s1) in
      record s2 { mem_chunks = insert_key i s2.mem_chunks }

  -- The bytes of chunk `i`. Where there are none, the exception leaves the mutex locked.
  unfoldable pub fill : ℕ → ℕ → State → Outcome ℕ
  fill n i s =
      let buf = p.mm_malloc n s in
      let c = s.chunks i in
      if n == 0
      then returned i (unlock s)
      else if buf == 0
      then thrown malloc_failed (put_chunk i (record c { loc_ptr = 0 }) s)
      else returned i (
          unlock
            (record (put_chunk i (record c { loc_ptr = buf }) s) { heap = occupy buf n s.heap }))

  unfoldable pub mmalloc : ℕ → ℕ → State → Outcome ℕ
  unfolding enrol fill
  mmalloc fuel sizereq s =
      let n = round_up sizereq s.memory_alignment in
      after (ensure_enough_space p fuel n none (lock s)) λ _ s1. fill n s1.mem_id_pace (enrol n s1)

  -- mfree behind its test: the scheduler's element and the RAM.
  unfoldable pub release_ram : ℕ → Bool → State → State
  release_ram i in_cleanup s =
      let s1 = if in_cleanup then s else p.scheduler_delete i s in
      let c = s1.chunks i in
      if is_status c.status mem_allocated
      then record s1 {
        heap = mm_free c.loc_ptr s1.heap;
        acc = record s1.acc { memory_used = sub64 s1.acc.memory_used c.size };
      }
      else s1

  -- Then the swap, the entry and the mutex.
  unfoldable pub discard : ℕ → Bool → State → Outcome {0} Unit
  unfolding release_ram
  discard i in_cleanup s =
      let s1 = release_ram i in_cleanup s in
      after (if (s1.chunks i).swap_buf == 0 then returned tt s1 else p.swap_delete i s1)
        (λ (u : Unit) (s2 : State).
          returned tt (unlock (record s2 { mem_chunks = erase i s2.mem_chunks })))

  unfoldable pub mfree : ℕ → Bool → State → Outcome {0} Unit
  unfolding discard
  mfree i in_cleanup s =
      if not (has i s.mem_chunks)
      then undefined
      else if has_flag (s.chunks i).status mem_allocated_inuse
      then thrown free_in_use (unlock s)
      else discard i in_cleanup (lock s)

  -- linearMfree: the map's entries in order.
  abbrev pub mfree_each : List ℕ → State → Outcome {0} Unit
  mfree_each [] s = returned tt s
  mfree_each (i ∷ is) s = after (mfree i true s) λ _ s1. mfree_each is s1

  abbrev pub linear_mfree : State → Outcome {0} Unit
  linear_mfree s = mfree_each s.mem_chunks s
