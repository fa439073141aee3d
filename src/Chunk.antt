-- ===== src/Chunk.antt =====
-- src/managedMemoryChunk.h: the status flags and the chunk (PARENTAL_CONTROL is off, as in the
-- default build). A chunk's address is its `id`; a buffer is the address of its bytes, 0 is NULL.
use Prim.Native.Nat.{bit_and}
use rambrain.Prelude.{ℕ, Bool, not, ◌≡◌, refl, true, ◌||◌, ◌==◌}

pub data MemoryStatus : Type 0 where
  mem_root mem_allocated_inuse_read mem_allocated_inuse_write mem_allocated_inuse : MemoryStatus
  mem_allocated mem_swapped mem_swapin mem_swapout : MemoryStatus

-- The numbers behind the enumerators.
abbrev pub flags : MemoryStatus → ℕ
flags mem_root = 0
flags mem_allocated_inuse_read = 5
flags mem_allocated_inuse_write = 7
flags mem_allocated_inuse = 1
flags mem_allocated = 4
flags mem_swapped = 8
flags mem_swapin = 16
flags mem_swapout = 32

-- `s == t` and `s & t` as conditions.
abbrev pub is_status : MemoryStatus → MemoryStatus → Bool
is_status s t = flags s == flags t

abbrev pub has_flag : MemoryStatus → MemoryStatus → Bool
has_flag s t = not (bit_and (flags s) (flags t) == 0)

pub record Chunk : Type 0 where
  pub status : MemoryStatus
  pub use_cnt : ℕ
  pub loc_ptr : ℕ
  pub size : ℕ
  pub id : ℕ
  pub preemptive_loaded : Bool
  pub sched_buf : ℕ
  pub swap_buf : ℕ

-- `status & MEM_ALLOCATED || status == MEM_SWAPIN`: in memory, or on the way there.
abbrev pub is_resident : MemoryStatus → Bool
is_resident s = has_flag s mem_allocated || is_status s mem_swapin

-- `status == MEM_SWAPPED || status == MEM_SWAPOUT`.
abbrev pub is_out : MemoryStatus → Bool
is_out s = is_status s mem_swapped || is_status s mem_swapout

in_use_flags : has_flag mem_allocated_inuse_write mem_allocated ≡ true
in_use_flags = refl
