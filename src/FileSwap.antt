-- ===== src/FileSwap.antt =====
-- src/managedFileSwap.h: the page files, their locations and the two maps of them. An address of a
-- pageFileLocation is a number, 0 is NULL; `new` is a parameter of what allocates.
pub mod Offsets
pub mod Tiles
pub mod Open
pub mod InUse
pub mod Allocate
pub mod Release
pub mod Transfer
pub mod Moves
pub mod RoundTrip
use rambrain.Prelude.{ℕ, ◌+◌, ◌*◌, ◌%◌, Bool, true, false, List, update}
use rambrain.Prelude.Words.{u64}
use rambrain.Ring.{Ptr}
use rambrain.State.{State}

-- enum pageChunkStatus.
pub data PageStatus : Type 0 where
  page_free page_part page_end page_wasread page_unknown_state : PageStatus

abbrev pub is_free : PageStatus → Bool
is_free page_free = true
is_free s = false

abbrev pub is_end : PageStatus → Bool
is_end page_end = true
is_end s = false

-- class pageFileLocation. `link` is the union glob_off_next: the next part, or the chunk at PAGE_END.
-- `tracker` is aio_ptr's, 0 where aio_ptr is NULL.
pub record Location : Type 0 where
  pub file : ℕ
  pub offset : ℕ
  pub size : ℕ
  pub link : Ptr
  pub status : PageStatus
  pub tracker : Ptr
  pub aio_lock : Bool

-- std::map<global_offset, pageFileLocation *>, in the order of its keys.
abbrev pub Offsets : Type 0
Offsets = List (ℕ × Ptr)

-- What io_prep_pread, where it reads, and io_prep_pwrite are given, and the location it is about.
pub record Request : Type 0 where
  pub at : Ptr
  pub reads : Bool
  pub in_file : ℕ
  pub buffer : ℕ
  pub length : ℕ
  pub from : ℕ

-- managedFileSwap, with what it shares. `trackers` holds the counters that a copy waits for,
-- `pending` is the map pendingAios.
pub record Files : Type 0 where
  pub base : State
  pub locs : Ptr → Location
  pub free_space : Offsets
  pub all_space : Offsets
  pub page_file_size : ℕ
  pub page_file_number : ℕ
  pub current_size : ℕ → ℕ
  pub trackers : Ptr → ℕ
  pub pending : List Request
  pub actions_queued : ℕ

-- determineGlobalOffset.
abbrev pub global_offset : ℕ → Location → ℕ
global_offset page_file_size l = (l.file * page_file_size + l.offset) % u64

abbrev pub put_loc : Ptr → Location → Files → Files
put_loc p l f = record f { locs = update f.locs p l }

abbrev pub put_base : State → Files → Files
put_base s f = record f { base = s }

-- A new value of swapFree.
abbrev pub put_swap_free : ℕ → Files → Files
put_swap_free n f = put_base (record f.base { acc = record f.base.acc { swap_free = n } }) f
