-- ===== src/State.antt =====
-- The state that the memory manager, its scheduler and its swap share: the fields of
-- src/managedMemory.h, src/cyclicManagedMemory.h and src/managedSwap.h, and the chunks.
use rambrain.Prelude.{ℕ, Bool, List, update}
use rambrain.Chunk.{Chunk}
use rambrain.Ring.{Ptr, Links}
use rambrain.Heap.{Heap}

-- enum backlog_action.
pub data BacklogAction : Type 0 where
  unknown registered deleted swapped_out swapped_in decayed touched checked : BacklogAction

-- struct backlog_entry. Ids and sizes share one 64-bit field.
pub record BacklogEntry : Type 0 where
  pub action : BacklogAction
  pub value : ℕ

-- The scheduler. `chunk` is `cyclicAtime::chunk`; the backlog's array is a function of the index.
pub record Cyclic : Type 0 where
  pub links : Links
  pub chunk : Ptr → ℕ
  pub active : Ptr
  pub counter_active : Ptr
  pub preemptive_start : Ptr
  pub preemtive_swap_in : Bool
  pub preemtive_swap_out : Bool
  pub preemptive_bytes : ℕ
  pub consecutive_preemptive_transactions : ℕ
  pub preemptive_since_last : ℕ
  pub backlog : ℕ → BacklogEntry
  pub backlog_pos : ℕ

-- The accounts of managedMemory and managedSwap, in bytes.
pub record Accounts : Type 0 where
  pub memory_max : ℕ
  pub memory_used : ℕ
  pub memory_swapped : ℕ
  pub memory_tobefreed : ℕ
  pub swap_size : ℕ
  pub swap_used : ℕ
  pub swap_free : ℕ

-- What SWAPSTATS counts, as far as the modelled operations write it.
pub record Stats : Type 0 where
  pub swap_hits : ℕ
  pub swap_misses : ℕ
  pub swap_out_bytes : ℕ
  pub swap_in_bytes : ℕ
  pub n_swap_out : ℕ
  pub n_swap_in : ℕ
  pub swap_out_scheduled_bytes : ℕ
  pub swap_in_scheduled_bytes : ℕ

-- `locked` and `topo_locked` say whether the running thread holds `stateChangeMutex` and
-- `cyclicTopoLock`; `chunks` is the memory that holds the chunks, `mem_chunks` the keys of the map `memChunks`.
pub record State : Type 0 where
  pub chunks : ℕ → Chunk
  pub mem_chunks : List ℕ
  pub ring : Cyclic
  pub acc : Accounts
  pub heap : Heap
  pub stats : Stats
  pub memory_alignment : ℕ
  pub out_of_swap_is_fatal : Bool
  pub mem_id_pace : ℕ
  pub locked : Bool
  pub topo_locked : Bool

-- A write to the chunk at `i`.
abbrev pub put_chunk : ℕ → Chunk → State → State
put_chunk i c s = record s { chunks = update s.chunks i c }

abbrev pub put_ring : Cyclic → State → State
put_ring r s = record s { ring = r }

-- The chunk that an element of the cycle stands for.
abbrev pub chunk_at : State → Ptr → Chunk
chunk_at s p = s.chunks (s.ring.chunk p)
