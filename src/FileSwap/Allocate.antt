-- ===== src/FileSwap/Allocate.antt =====
-- src/managedFileSwap.cpp: allocInFree and pfmalloc. `overhead` is sizeof(pageFileLocation), and
-- `new_location` the address that `new` returns.
pub mod Shapes
pub mod InFree
pub mod Cut
pub mod Placed
pub mod FirstFit
pub mod Zero
use rambrain.Prelude.{
  ℕ, zero, suc, ◌+◌, ◌-◌, ◌*◌, ◌/◌, ◌%◌, Bool, true, false, not, ◌&&◌, ◌==◌, ltb, leb,
  if◌then◌else◌, Option, none, some, List, [], ◌∷◌,
}
use rambrain.Prelude.Words.{u64, add64, sub64}
use rambrain.Ring.{Ptr, null}
use rambrain.State.{State}
use rambrain.FileSwap.{
  Files, Location, PageStatus, page_free, page_part, page_end, Offsets, global_offset, put_loc,
  put_swap_free,
}
use rambrain.FileSwap.Offsets.{find, put, remove, behind}
use rambrain.FileSwap.Release.{pffree, cleanup_cached_elements}

-- The size up to a multiple of the alignment.
abbrev pub padded : ℕ → ℕ → ℕ
padded size align = (size / align + (if size % align == 0 then 0 else 1)) * align % u64

module _ (overhead : ℕ) (align : ℕ) where
  -- The free location is used as it is: what is left of it is too small to be kept.
  unfoldable pub take_whole : Ptr → ℕ → Files → Ptr × Files
  take_whole p size f =
      let l = f.locs p in
      let lost = sub64 l.size (padded size align) in
      (p, put_loc p (record l { size = size }) (put_swap_free (sub64 f.base.acc.swap_free lost) f))

  -- A new location is cut off its front.
  unfoldable pub cut_front : Ptr → Ptr → ℕ → Files → Ptr × Files
  cut_front neu p size f =
      let l = f.locs p in
      let pad = padded size align in
      let goff = global_offset f.page_file_size l in
      let rest = record l { offset = add64 l.offset pad; size = sub64 l.size pad; link = null } in
      let new_goff = global_offset f.page_file_size rest in
      (
        neu,
        record (put_loc neu (record l { size = size }) (put_loc p rest f)) {
          free_space = put new_goff p f.free_space;
          all_space = put goff neu (put new_goff p f.all_space);
        },
      )

  unfoldable pub alloc_in_free : Ptr → Ptr → ℕ → Files → Ptr × Files
  unfolding take_whole cut_front
  alloc_in_free neu p size f =
      let l = f.locs p in
      let pad = padded size align in
      let f1 = record f { free_space = remove (global_offset f.page_file_size l) f.free_space } in
      let f2 =
        if pad == size
        then f1
        else put_swap_free (sub64 f.base.acc.swap_free (sub64 pad size)) f1 in
      if not (pad == size) && ltb l.size pad
      then (null, f1)
      else if ltb (sub64 l.size pad) overhead
      then take_whole p size f2
      else cut_front neu p size f2

-- The first free location that is large enough.
unfoldable pub first_fit : ℕ → (Ptr → Location) → Offsets → Option Ptr
first_fit size locs [] = none
first_fit size locs (e ∷ m) = if leb size (locs e.1).size then some e.1 else first_fit size locs m

-- The space in all free locations, as far as it is needed; split locations are padded.
unfoldable pub gather : ℕ → ℕ → ℕ → (Ptr → Location) → Offsets → ℕ
gather align size total locs [] = total
gather align size total locs (e ∷ m) =
    let sum = add64 (total - total % align) (locs e.1).size in
    let further = gather align size sum locs m in if ltb sum size then further else sum

abbrev set_page : Ptr → PageStatus → Ptr → Files → Files
set_page p st link f = put_loc p (record (f.locs p) { status = st; link = link }) f

-- The parts so far: the first one, the size that is missing, the files.
pub record Parted : Type 0 where
  pub first : Ptr
  pub missing : ℕ
  pub files : Files

-- How pfmalloc ends: with a location, with NULL, or by "Out of swap space". Below, `none` is a run
-- that outlasts the fuel, or one that follows a NULL of allocInFree, which C++ leaves undefined.
pub data Found : Type 0 where
  found : Ptr → Files → Found
  refused : Files → Found
  out_of_swap_space : Files → Found

module _ (overhead align : ℕ) (new_location : Files → Ptr) (settle : Ptr → Files → Files) where
  -- One round: the part taken from the free location `p`, chained to the former one.
  unfoldable pub take_part : Ptr → ℕ → Ptr → Ptr → Files → Ptr × ℕ × Files
  unfolding alloc_in_free
  take_part chunk size former p f =
      let avail = (f.locs p).size in
      let wanted = if ltb size avail then size else avail in
      let here = if ltb wanted size then wanted - wanted % align else wanted in
      let r = alloc_in_free overhead align (new_location f) p here f in
      let left = sub64 size here in
      let st = if left == 0 then page_end else page_part in
      let l = r.1.locs r.0 in
      let f2 = put_loc r.0 (record l { status = st }) r.1 in
      let f3 =
        if former == null then f2 else put_loc former (record (f2.locs former) { link = r.0 }) f2 in
      let f4 = if left == 0 then put_loc r.0 (record (f3.locs r.0) { link = chunk }) f3 else f3 in
      (r.0, left, f4)

  -- The loop over the free locations; behind the last one the source finds no entry either.
  unfoldable pub take_parts : ℕ → Ptr → ℕ → Ptr → Ptr → ℕ × Ptr → Files → Option Parted
  unfolding take_part
  take_parts zero chunk size first former e f = none
  take_parts (suc k) chunk size first former e f =
      let next = behind e.0 f.free_space in
      let r = take_part chunk size former e.1 f in
      let q = r.0 in
      let g = r.2 in
      let first1 = if first == null then q else first in
      let stop = some (record {
        first = first1;
        missing = r.1;
        files = put_loc q (record (g.locs q) { status = page_end }) g;
      }) in
      let loop = λ (d : ℕ × Ptr). take_parts k chunk r.1 first1 q d g in
      if q == null
      then none
      else if r.1 == 0
      then some (record { first = first1; missing = 0; files = g })
      else elim next [
        | none ↦ stop
        | some d ↦ elim (find d.0 g.free_space) [ none ↦ stop | some p ↦ loop (d.0, p) ]
      ]

  -- The location for a chunk that fits nowhere as a whole.
  unfoldable pub in_parts : ℕ → Ptr → ℕ → Files → Option Found
  unfolding take_parts
  in_parts fuel chunk size f = elim f.free_space [
    | [] ↦ some (refused f)
    | e ∷ m ↦ elim (take_parts fuel chunk size null null e f) [
      | none ↦ none
      | some r ↦
          if r.missing == 0
          then some (found r.first r.files)
          else elim (pffree settle fuel r.first r.files) [ none ↦ none | some g ↦ some (refused g) ]
    ]
  ]

  -- pfmalloc from the count of the free space on.
  unfoldable pub spread : ℕ → Ptr → ℕ → Files → Option Found
  unfolding in_parts
  spread fuel chunk size f =
      let total = gather align size 0 f.locs f.free_space in
      if leb size total
      then in_parts fuel chunk size f
      else elim (cleanup_cached_elements settle fuel (sub64 size total) f) [
        | none ↦ none
        | some r ↦ if r.0 then in_parts fuel chunk size r.1 else some (out_of_swap_space r.1)
      ]

  -- With the free location that is large enough, if there is one.
  unfoldable pub allocate_at : ℕ → Ptr → ℕ → Option Ptr → Files → Option Found
  unfolding spread alloc_in_free
  allocate_at fuel chunk size none f = spread fuel chunk size f
  allocate_at fuel chunk size (some p) f =
      let r = alloc_in_free overhead align (new_location f) p size f in
      if r.0 == null then none else some (found r.0 (set_page r.0 page_end chunk r.1))

  unfoldable pub allocate_from : ℕ → Ptr → ℕ → Offsets → Files → Option Found
  unfolding allocate_at
  allocate_from fuel chunk size [] f = some (refused f)
  allocate_from fuel chunk size (e ∷ m) f =
      allocate_at fuel chunk size (first_fit size f.locs (e ∷ m)) f

  unfoldable pub pfmalloc : ℕ → Ptr → ℕ → Files → Option Found
  unfolding allocate_from
  pfmalloc fuel chunk size f = allocate_from fuel chunk size f.free_space f
