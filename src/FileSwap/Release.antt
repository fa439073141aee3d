-- ===== src/FileSwap/Release.antt =====
-- src/managedFileSwap.cpp: pffree, and what gives cached locations back. `settle` is the wait for a
-- location whose request is still pending.
pub mod Join
pub mod Merge
pub mod Keeps
use rambrain.Prelude.{
  ℕ, zero, suc, ◌+◌, Bool, true, false, not, ◌&&◌, ◌||◌, ◌==◌, ltb, if◌then◌else◌, Option, none,
  some, List, [], ◌∷◌,
}
use rambrain.Prelude.Words.{add64, sub64}
use rambrain.Chunk.{Chunk, has_flag, mem_allocated}
use rambrain.Ring.{Ptr, null}
use rambrain.State.{State, put_chunk}
use rambrain.FileSwap.{
  Files, Location, PageStatus, page_free, is_free, is_end, Offsets, global_offset, put_loc,
  put_base, put_swap_free,
}
use rambrain.FileSwap.Offsets.{put, remove, seek, before, behind}

-- Free space before the location is merged with it: the location that goes on, and the files.
unfoldable pub merge_previous : Ptr → Option (ℕ × Ptr) → Files → Ptr × Files
merge_previous p none f = (p, f)
merge_previous p (some e) f =
    let l = f.locs p in
    let prev = f.locs e.1 in
    if is_free prev.status
    then (
      e.1,
      record (put_loc e.1 (record prev { size = add64 prev.size l.size }) f) {
        all_space = remove (global_offset f.page_file_size l) f.all_space;
      },
    )
    else (p, f)

unfoldable pub merge_before : Ptr → Files → Ptr × Files
unfolding merge_previous
merge_before p f =
    let l = f.locs p in
    if l.offset == 0
    then (p, f)
    else merge_previous p (before (global_offset f.page_file_size l) f.all_space) f

-- The offset of what follows, or the end of the swap.
unfoldable pub next_offset : Option (ℕ × Ptr) → Files → ℕ
next_offset none f = f.base.acc.swap_size
next_offset (some e) f = global_offset f.page_file_size (f.locs e.1)

-- Unusable space behind the location is used again.
unfoldable pub reclaim_gap : Ptr → Files → Files
unfolding next_offset
reclaim_gap c f =
    let l = f.locs c in
    let goff = global_offset f.page_file_size l in
    let size = sub64 (next_offset (behind goff f.all_space) f) goff in
    if l.size == size
    then f
    else put_loc c (record l { size = size })
        (put_swap_free (add64 f.base.acc.swap_free (sub64 size l.size)) f)

unfoldable pub merge_next : Ptr → Option (ℕ × Ptr) → Files → Files
merge_next c none f = f
merge_next c (some e) f =
    let l = f.locs c in
    let n = f.locs e.1 in
    let goff = global_offset f.page_file_size n in
    if not (n.offset == 0) && is_free n.status
    then record (put_loc c (record l { size = add64 l.size n.size }) f) {
      free_space = remove goff f.free_space;
      all_space = remove goff f.all_space;
    }
    else f

unfoldable pub merge_behind : Ptr → Files → Files
unfolding merge_next
merge_behind c f = merge_next c (behind (global_offset f.page_file_size (f.locs c)) f.all_space) f

unfoldable pub mark_free : Ptr → Files → Files
mark_free c f =
    let l = f.locs c in
    record (put_loc c (record l { status = page_free }) f) {
      free_space = put (global_offset f.page_file_size l) c f.free_space;
    }

-- The body of pffree's loop, after the wait.
unfoldable pub release_one : Ptr → Files → Files
unfolding merge_before reclaim_gap merge_behind mark_free
release_one p f = let r = merge_before p f in mark_free r.0 (merge_behind r.0 (reclaim_gap r.0 r.1))

module _ (settle : Ptr → Files → Files) where
  abbrev await : Bool → Ptr → Files → Files
  await true p f = f
  await false p f = settle p f

  abbrev if_last : Bool → Files → Option Files → Option Files
  if_last true f rest = some f
  if_last false f rest = rest

  -- pffree; `none` where the fuel runs out.
  unfoldable pub pffree : ℕ → Ptr → Files → Option Files
  pffree zero p f = none
  pffree (suc k) p f =
      let l = f.locs p in
      let g = release_one p (await (l.tracker == 0) p f) in
      if_last (is_end l.status) g (pffree k l.link g)

  -- The swap buffer of a chunk is given back.
  unfoldable pub forget_cache : ℕ → ℕ → Files → Option Files
  unfolding pffree
  forget_cache fuel i f =
      let c = f.base.chunks i in
      elim (pffree fuel c.swap_buf f) [
        | none ↦ none
        | some g ↦
            some (put_base (put_chunk i (record (g.base.chunks i) { swap_buf = null }) g.base) g)
      ]

  unfoldable pub invalidate_cache_for : ℕ → ℕ → Files → Option Files
  unfolding forget_cache
  invalidate_cache_for fuel i f =
      if (f.base.chunks i).swap_buf == null then some f else forget_cache fuel i f

  abbrev is_cached : Chunk → Bool
  is_cached c = has_flag c.status mem_allocated && not (c.swap_buf == null)

  -- cleanupCachedElements: the loop over the chunks of the manager, from `cleanedUp` on.
  unfoldable pub cleanup_from : ℕ → ℕ → ℕ → List ℕ → Files → Option (ℕ × Files)
  unfolding forget_cache
  cleanup_from fuel minimum_size cleaned [] f = some (cleaned, f)
  cleanup_from fuel minimum_size cleaned (i ∷ is) f =
      let c = f.base.chunks i in
      let go = λ (n : ℕ) (g : Files). cleanup_from fuel minimum_size n is g in
      if not (minimum_size == 0 || ltb cleaned minimum_size)
      then some (cleaned, f)
      else if is_cached c
      then elim (forget_cache fuel i f) [ none ↦ none | some g ↦ go (add64 cleaned c.size) g ]
      else go cleaned f

  unfoldable pub cleanup_cached_elements : ℕ → ℕ → Files → Option (Bool × Files)
  unfolding cleanup_from
  cleanup_cached_elements fuel minimum_size f =
      elim (cleanup_from fuel minimum_size 0 f.base.mem_chunks f) [
        | none ↦ none
        | some r ↦ some (ltb minimum_size r.0, r.1)
      ]
