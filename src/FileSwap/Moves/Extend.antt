-- ===== src/FileSwap/Moves/Extend.antt =====
-- src/managedFileSwap.cpp: the page files of the constructor, extendSwap and extendSwapByPolicy.
-- statvfs, open and the user's input are parameters.
pub mod Layout
pub mod Rounding
pub mod Larger
use rambrain.Prelude.{
  ℕ, zero, suc, ◌+◌, ◌-◌, ◌*◌, ◌/◌, ◌%◌, Bool, true, false, not, ◌&&◌, ◌||◌, ◌==◌, ltb,
  if◌then◌else◌, Option, none, some, List, [], ◌∷◌,
}
use rambrain.Prelude.Words.{u64, add64, sub64}
use rambrain.Ring.{Ptr, null}
use rambrain.State.{State}
use rambrain.FileSwap.{Files, Location, PageStatus, page_free, Offsets, put_loc}
use rambrain.FileSwap.Offsets.{put}
use rambrain.FileSwap.Transfer.{Run, finished, failed, unending, next, could_not_open}

abbrev pub u32 : ℕ
u32 = 4294967296

abbrev mib : ℕ
mib = 1048576

abbrev gig : ℕ
gig = 1073741824

-- A whole page file as one free location.
abbrev pub page_file : ℕ → ℕ → Location
page_file page_file_size n = record {
  file = n;
  offset = 0;
  size = page_file_size;
  link = null;
  status = page_free;
  tracker = null;
  aio_lock = false;
}

-- The size of a page file: `one_file`, or a choice of the swap's own, at the alignment.
abbrev pub layout_size : ℕ → ℕ → ℕ → ℕ
layout_size align size one_file =
    let share = size / 16 in
    let capped = if ltb share (4 * gig) then share else 4 * gig in
    let chosen = if one_file == 0 then (if ltb capped mib then mib else capped) else one_file in
    add64 chosen (if chosen % align == 0 then 0 else align - chosen % align)

abbrev pub layout_number : ℕ → ℕ → ℕ
layout_number size one_file =
    (if size % one_file == 0 then size / one_file else size / one_file + 1) % u32

-- The size up to whole page files.
abbrev pub whole_files : ℕ → ℕ → ℕ
whole_files page_file_size size =
    add64 size (if size % page_file_size == 0 then 0 else page_file_size - size % page_file_size)

-- enum class swapPolicy.
pub data SwapPolicy : Type 0 where
  fixed autoextendable interactive : SwapPolicy

-- What openSwapFileRange does.
pub data Opened : Type 0 where
  opened opened_none open_failed : Opened

module _ (new_location : Files → Ptr) where
  unfoldable pub add_page_file : ℕ → Files → Files
  add_page_file n f =
      let p = new_location f in
      let goff = n * f.page_file_size % u64 in
      record (put_loc p (page_file f.page_file_size n) f) {
        free_space = put goff p f.free_space;
        all_space = put goff p f.all_space;
      }

  -- The loop over the new files, from `n` on.
  unfoldable pub add_page_files : ℕ → ℕ → Files → Files
  unfolding add_page_file
  add_page_files zero n f = f
  add_page_files (suc k) n f = add_page_files k (suc n) (add_page_file n f)

  -- The constructor's maps and sizes, the files being open.
  unfoldable pub lay_out : ℕ → ℕ → ℕ → Files → Files
  unfolding add_page_files
  lay_out align size one_file f =
      let pfs = layout_size align size one_file in
      let number = layout_number size pfs in
      let bytes = number * pfs % u64 in
      let acc = record f.base.acc { swap_size = bytes; swap_used = 0; swap_free = bytes } in
      add_page_files number 0 (record f {
        base = record f.base { acc = acc };
        free_space = [];
        all_space = [];
        page_file_size = pfs;
        page_file_number = number;
      })

  -- The new files are in the maps; `number` is how many there are now.
  unfoldable pub grow : ℕ → ℕ → Files → Files
  unfolding add_page_files
  grow number size f =
      let g = add_page_files (number - f.page_file_number) f.page_file_number f in
      let a = g.base.acc in
      record g {
        base = record g.base {
          acc = record a { swap_free = add64 a.swap_free size; swap_size = add64 a.swap_size size };
        };
        page_file_number = number;
      }

  module _ (free_disk : ℕ) (open_range : ℕ → ℕ → Opened) where
    -- extendSwap.
    unfoldable pub extend_swap : ℕ → Files → Run Bool
    unfolding grow
    extend_swap size f =
        let bytes = whole_files f.page_file_size size in
        let number = (f.page_file_number + bytes / f.page_file_size) % u32 in
        if ltb free_disk bytes
        then finished false f
        else elim (open_range f.page_file_number number) [
          | opened ↦ finished true (grow number bytes f)
          | opened_none ↦ finished false (record f { page_file_number = number })
          | open_failed ↦ failed could_not_open (record f { page_file_number = number })
        ]

    -- The answers of the user until one is possible, in bytes.
    unfoldable pub asked : ℕ → ℕ → List ℕ → Option ℕ
    asked page_file_size needed [] = none
    asked page_file_size needed (n ∷ ns) =
        let bytes = n * page_file_size % u64 in
        if ltb bytes needed || ltb free_disk bytes
        then asked page_file_size needed ns
        else some bytes

    -- extendSwapByPolicy; `needed` is more than 0, or the loop does not ask.
    unfoldable pub extend_swap_by_policy : SwapPolicy → List ℕ → ℕ → Files → Run Bool
    unfolding extend_swap asked
    extend_swap_by_policy fixed answers min_size f = finished false f
    extend_swap_by_policy autoextendable answers min_size f =
        let needed = whole_files f.page_file_size min_size in
        if ltb free_disk needed then finished false f else extend_swap needed f
    extend_swap_by_policy interactive answers min_size f =
        let needed = whole_files f.page_file_size min_size in
        if needed == 0 then extend_swap 0 f else elim (asked f.page_file_size needed answers) [
          | none ↦ unending
          | some bytes ↦ extend_swap bytes f
        ]
