-- ===== src/FileSwap/Transfer.antt =====
-- src/managedFileSwap.cpp: scheduleCopy, copyMem, and what happens when a request has arrived.
-- `resize_step` is pageFileSize * swapFileResizeFrac, `ftruncate` its error code, `new_tracker` the
-- address that `new int` returns. The worker threads only pass the requests on.
pub mod Landed
pub mod Arrivals
use rambrain.Prelude.{
  ℕ, zero, suc, ◌+◌, ◌-◌, ◌*◌, ◌/◌, ◌%◌, Bool, true, false, not, ◌&&◌, ◌==◌, ltb, if◌then◌else◌,
  Option, none, some, List, [], ◌∷◌, update,
}
use rambrain.Prelude.Words.{u64, add64, sub64}
use rambrain.Chunk.{
  Chunk, MemoryStatus, mem_swapin, mem_swapout, mem_swapped, mem_allocated,
  mem_allocated_inuse_read,
}
use rambrain.Ring.{Ptr, null}
use rambrain.Heap.{mm_free}
use rambrain.State.{State, put_chunk}
use rambrain.Swap.{claim_usageof, claim_tobefreed}
use rambrain.FileSwap.{Files, Location, PageStatus, is_end, Request, put_loc, put_base}

-- The texts of the exceptions.
pub data FileError : Type 0 where
  out_of_swap_space could_not_resize synchronization_broken unknown_aio_error aio_error
        could_not_open :
      FileError

-- `unending` is a chain of parts that is longer than the fuel.
pub data Run {ℓ} (A : Type ℓ) : Type ℓ where
  finished : A → Files → Run A
  failed : FileError → Files → Run A
  unending : Run A

abbrev pub next {ℓ} : {A B : Type ℓ} → Run A → (A → Files → Run B) → Run B
next (finished a f) k = k a f
next (failed e f) k = failed e f
next unending k = unending

-- The bytes that a request moves.
abbrev pub io_length : ℕ → ℕ → ℕ
io_length align size = add64 size (if size % align == 0 then 0 else align - size % align)

abbrev put_tracker : Ptr → ℕ → Files → Files
put_tracker t n f = record f { trackers = update f.trackers t n }

abbrev put_queued : ℕ → Files → Files
put_queued n f = record f { actions_queued = n }

-- The file's size after a resize.
abbrev pub resized : ℕ → ℕ → ℕ
resized resize_step needed =
    if needed % resize_step == 0 then needed else resize_step * (needed / resize_step + 1) % u64

module _ (align resize_step : ℕ) (ftruncate : ℕ → ℕ → ℕ) where
  -- The request itself, when the file is large enough.
  unfoldable pub enqueue : Ptr → ℕ → Ptr → Bool → Files → Files
  enqueue p buffer t reverse f =
      let l = f.locs p in
      record (put_loc p (record l { tracker = t; aio_lock = true }) f) {
        trackers = update f.trackers t (suc (f.trackers t));
        actions_queued = suc f.actions_queued;
        pending =
            record {
              at = p;
              reads = reverse;
              in_file = l.file;
              buffer = buffer;
              length = io_length align l.size;
              from = l.offset;
            }
            ∷ f.pending;
      }

  unfoldable pub schedule_copy : Ptr → ℕ → Ptr → Bool → Files → Run {0} Unit
  unfolding enqueue
  schedule_copy p buffer t reverse f =
      let l = f.locs p in
      let needed = add64 l.size l.offset in
      let wanted = resized resize_step needed in
      if not (ltb (f.current_size l.file) needed)
      then finished tt (enqueue p buffer t reverse f)
      else if not (ftruncate l.file wanted == 0)
      then failed could_not_resize f
      else finished tt (
          enqueue p buffer t reverse
            (record f { current_size = update f.current_size l.file wanted }))

  -- The loop over the parts: the last one.
  unfoldable pub copy_parts : ℕ → Ptr → ℕ → Ptr → Bool → Files → Run Ptr
  unfolding schedule_copy
  copy_parts zero p buffer t reverse f = unending
  copy_parts (suc k) p buffer t reverse f =
      let l = f.locs p in
      next (schedule_copy p buffer t reverse f) (λ u g.
        let rest = copy_parts k l.link (add64 buffer l.size) t reverse g in
        if is_end l.status then finished p g else rest)

-- The chunk whose parts these are.
unfoldable pub chunk_of : ℕ → (Ptr → Location) → Ptr → Option Ptr
chunk_of zero locs p = none
chunk_of (suc k) locs p =
    let l = locs p in
    let rest = chunk_of k locs l.link in if is_end l.status then some l.link else rest

-- completeTransactionOn for the chunk at `i`; the caller holds the lock.
unfoldable pub swapped_in : ℕ → State → State
swapped_in i s =
    let c = s.chunks i in
    let st = if c.use_cnt == 0 then mem_allocated else mem_allocated_inuse_read in
    record (put_chunk i (record c { status = st }) s) {
      acc = claim_usageof c.size false false s.acc;
      stats = record s.stats { swap_in_bytes = add64 s.stats.swap_in_bytes c.size };
    }

unfoldable pub swapped_out : ℕ → State → State
swapped_out i s =
    let c = s.chunks i in
    record (put_chunk i (record c { loc_ptr = null; status = mem_swapped }) s) {
      heap = mm_free c.loc_ptr s.heap;
      acc = claim_tobefreed c.size false (claim_usageof c.size true false s.acc);
      stats = record s.stats { swap_out_bytes = add64 s.stats.swap_out_bytes c.size };
    }

unfoldable pub complete_chunk : MemoryStatus → ℕ → Files → Run {0} Unit
unfolding swapped_in swapped_out
complete_chunk mem_swapin i f = finished tt (put_base (swapped_in i f.base) f)
complete_chunk mem_swapout i f = finished tt (put_base (swapped_out i f.base) f)
complete_chunk st i f = failed synchronization_broken f

abbrev complete_at : Option Ptr → Files → Run {0} Unit
complete_at none f = unending
complete_at (some i) f = complete_chunk (f.base.chunks i).status i f

unfoldable pub complete_transaction_on : ℕ → Ptr → Files → Run {0} Unit
unfolding complete_chunk chunk_of
complete_transaction_on fuel p f = complete_at (chunk_of fuel f.locs p) f

-- copyMem.
unfoldable pub copy_mem :
    ℕ → ℕ → (ℕ → ℕ → ℕ) → (Files → Ptr) → ℕ → Ptr → ℕ → Bool → Files → Run {0} Unit
unfolding copy_parts complete_transaction_on
copy_mem align resize_step ftruncate new_tracker fuel p buffer reverse f =
    let t = new_tracker f in
    let f1 = put_queued (suc f.actions_queued) (put_tracker t 1 f) in
    next (copy_parts align resize_step ftruncate fuel p buffer t reverse f1) (λ last g.
      let trval = g.trackers t in
      let g1 = put_queued (g.actions_queued - 1) (put_tracker t (trval - 1) g) in
      if trval == 1 then complete_transaction_on fuel last g1 else finished tt g1)

-- The location of a request that arrived is no longer waited for; its tracker counts down.
unfoldable pub arrived_at : Ptr → Files → Files
arrived_at p f =
    let l = f.locs p in
    put_tracker l.tracker (f.trackers l.tracker - 1)
      (put_loc p (record l { tracker = null; aio_lock = false }) f)

module _ (align fuel : ℕ) where
  -- asyncIoArrived for an event with `res` bytes and the error `res2`.
  unfoldable pub async_io_arrived : Ptr → ℕ → ℕ → Files → Run {0} Unit
  unfolding arrived_at complete_transaction_on
  async_io_arrived p res res2 f =
      let l = f.locs p in
      let g = arrived_at p f in
      let whole =
        if f.trackers l.tracker == 1 then complete_transaction_on fuel p g else finished tt g in
      if (res2 == 0) && (res == io_length align l.size)
      then next whole (λ u h. finished tt (put_queued (h.actions_queued - 1) h))
      else failed unknown_aio_error f

-- struct io_event; a request is known by the location it is about.
pub record Event : Type 0 where
  pub of : Ptr
  pub res : ℕ
  pub res2 : ℕ

abbrev pub waits_for : Ptr → List Request → Bool
waits_for p [] = false
waits_for p (r ∷ rs) = if r.at == p then true else waits_for p rs

abbrev pub without : Ptr → List Request → List Request
without p [] = []
without p (r ∷ rs) = if r.at == p then rs else r ∷ without p rs

module _ (align fuel : ℕ) where
  -- The loop of checkForAIO over the events; an event that nobody waits for is passed over.
  unfoldable pub take_events : List Event → Files → Run {0} Unit
  unfolding async_io_arrived
  take_events [] f = finished tt f
  take_events (e ∷ es) f =
      if waits_for e.of f.pending
      then next
          (async_io_arrived align fuel e.of e.res e.res2
            (record f { pending = without e.of f.pending }))
          (λ u g. take_events es g)
      else take_events es f

  -- checkForAIO. `is_waiter` says whether the trylock succeeds; `get_events` is io_getevents, with
  -- what other threads do while the wait gives the lock away, and none where it returns an error.
  unfoldable pub check_for_aio : Bool → (Files → Option (List Event × Files)) → Files → Run Bool
  unfolding take_events
  check_for_aio is_waiter get_events f =
      if not is_waiter
      then finished false f
      else if f.actions_queued == 0
      then finished true f
      else elim (get_events f) [
        | none ↦ failed aio_error f
        | some r ↦ next (take_events r.0 r.1) (λ u g. finished true g)
      ]
