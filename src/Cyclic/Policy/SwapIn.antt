-- ===== src/Cyclic/Policy/SwapIn.antt =====
-- src/cyclicManagedMemory.cpp: swapIn and untouch. `fuel` is that of ensureEnoughSpace, `k` that of
-- the walks along the cycle, `end` the address of filterChain's local element.
use rambrain.Prelude.{
  ℕ, ◌+◌, ◌-◌, ◌%◌, Bool, true, false, not, ◌&&◌, ◌==◌, ltb, if◌then◌else◌, [], ◌∷◌, Option, none,
  some, length,
}
use rambrain.Prelude.Words.{u32, add64, sub64}
use rambrain.Chunk.{
  is_resident, is_status, mem_swapin, mem_allocated, mem_allocated_inuse_read,
  mem_allocated_inuse_write, mem_swapped,
}
use rambrain.Ring.{Ptr, null, Links, mutual_connect}
use rambrain.State.{State, Cyclic, swapped_in, put_ring, chunk_at}
use rambrain.Effects.{
  Outcome, returned, thrown, stuck, undefined, after, unlock, Parts, no_swap_in, swap_in_failed,
  SwapErrorCode, err_success, err_swapfull, err_morethantotalram, err_notenoughcandidates,
}
use rambrain.Manager.{ensure_enough_space}
use rambrain.Manager.Use.{wait_for_swapin}
use rambrain.Cyclic.{backlog_add, touch}
use rambrain.Cyclic.Chains.{Chain, insert_before, filter_chain, separate_this}
use rambrain.Cyclic.Policy.{SwapCalls, Fractions, topo_lock, topo_unlock}
use rambrain.Cyclic.Policy.SwapOut.{swap_out}
use rambrain.Cyclic.Policy.Decay.{decay}
use rambrain.Cyclic.Policy.Loading.{
  Bounds, Selecting, Listing, select_loaded, list_loaded, no_volume,
}

-- `justSwappedin`.
abbrev pub just_swappedin : State → Ptr → Bool
just_swappedin s p =
    separate_this
      (mem_swapin ∷ mem_allocated ∷ mem_allocated_inuse_read ∷ mem_allocated_inuse_write ∷ []) none
      (chunk_at s p)

-- Lines 590 to 592 and 616 to 618.
unfoldable pub reclaim_counter : State → State
reclaim_counter s =
    let r = s.ring in
    if is_status (chunk_at s r.counter_active).status mem_swapped
    then put_ring (record r { counter_active = r.active }) s
    else s

-- Lines 594 to 597 and 620 to 623.
abbrev pub count_swap_in : ℕ → State → State
count_swap_in bytes s = record s {
  stats = record s.stats {
    swap_in_scheduled_bytes = add64 s.stats.swap_in_scheduled_bytes bytes;
    n_swap_in = add64 s.stats.n_swap_in 1;
  };
}

-- Lines 566 to 571.
unfoldable pub find_start : Chain → State → Cyclic → Cyclic
find_start filtered s r =
    let first = filtered.from in
    let plain = not (first == null) && not (chunk_at s first).preemptive_loaded in
    if r.preemptive_start == null
    then record r { preemptive_start = if plain then null else first }
    else r

-- Lines 573 to 587.
unfoldable pub reinsert : Ptr → Ptr → Chain → Chain → Cyclic → Cyclic
unfolding insert_before
reinsert next read_el filtered rest r =
    if not (next == null)
    then if not (r.active == null)
      then record r { links = insert_before r.active filtered r.links }
      else record r { active = next; links = insert_before next filtered r.links }
    else record r {
      counter_active = read_el;
      links =
          if not (rest.from == null)
          then insert_before rest.from filtered r.links
          else mutual_connect filtered.to filtered.from r.links;
    }

-- Lines 551 to 555.
unfoldable pub step_active : Bool → Ptr → Cyclic → Cyclic
step_active in_list e r =
    if in_list && r.active == e then record r { active = r.links.next r.active } else r

-- Lines 566 to 599, with what filterChain returned.
unfoldable pub after_filter :
    ℕ → Ptr → Ptr → ℕ → State → Option (Links × Chain × Chain) → Outcome Bool
unfolding find_start reinsert touch reclaim_counter
after_filter i next read_el bytes s none = stuck
after_filter i next read_el bytes s (some (l, filtered, rest)) =
    let r = find_start filtered s (record s.ring { links = l }) in
    let s1 = topo_unlock (put_ring (reinsert next read_el filtered rest r) s) in
    returned true (count_swap_in bytes (reclaim_counter (touch i s1)))

-- Lines 540 to 565.
unfoldable pub reorder_loaded : ℕ → Ptr → ℕ → Ptr → Ptr → ℕ → ℕ → Listing → State → Outcome Bool
unfolding step_active filter_chain after_filter
reorder_loaded k end i e old_border selected bytes r s =
    let more = sub64 selected (s.chunks i).size in
    let ring = record s.ring { preemptive_bytes = add64 s.ring.preemptive_bytes more } in
    let read_el = if r.read_el == old_border then ring.links.next r.read_el else r.read_el in
    let s1 = put_ring (step_active r.active_in_list e ring) s in
    let behind = ring.links.next e in
    let next = if behind == read_el then null else behind in
    let area : Chain = record { from = read_el; to = e } in
    after_filter i next read_el bytes s1 (filter_chain k end (just_swappedin s1) area s1.ring.links)

-- Lines 525 to 599, after the swap has read `bytes`.
unfoldable pub loaded_bytes :
    ℕ → Ptr → ℕ → Ptr → Ptr → Selecting → Listing → ℕ → State → Outcome Bool
unfolding reorder_loaded
loaded_bytes k end i e old_border d r bytes s =
    let selected = d.volume.selected_readin_vol in
    if not (bytes == selected) && not (is_resident (s.chunks i).status)
    then thrown no_swap_in s
    else reorder_loaded k end i e old_border selected bytes r s

-- Lines 523 to 599. The array has `number_selected` places; the swap reads all of them.
unfoldable pub load_listed :
    SwapCalls → ℕ → Ptr → ℕ → Ptr → Ptr → Selecting → Option Listing → Outcome Bool
unfolding loaded_bytes
load_listed swap k end i e old_border d none = stuck
load_listed swap k end i e old_border d (some r) =
    let s =
      put_ring
        (record d.state.ring { preemptive_since_last = (d.number_selected + (u32 - 1)) % u32 })
        d.state in
    if not (length r.chunks == d.number_selected)
    then undefined
    else after (swap.swap_in r.chunks s) (loaded_bytes k end i e old_border d r)

-- Lines 500 to 504.
unfoldable pub load_selected :
    SwapCalls → ℕ → Ptr → ℕ → Ptr → Ptr → Bounds → Option Selecting → Outcome Bool
unfolding list_loaded load_listed
load_selected swap k end i e old_border b none = stuck
load_selected swap k end i e old_border b (some d) = load_listed swap k end i e old_border d (
    list_loaded k b old_border d.state
      (record { read_el = e; volume = no_volume; chunks = []; active_in_list = false }))

abbrev pub succeeded : SwapErrorCode → Bool
succeeded err_success = true
succeeded err_swapfull = false
succeeded err_morethantotalram = false
succeeded err_notenoughcandidates = false

-- Lines 609 to 630, after the swap has read `bytes`.
unfoldable pub loaded_one : ℕ → ℕ → State → Outcome Bool
unfolding touch reclaim_counter
loaded_one i bytes s =
    let size = (s.chunks i).size in
    if bytes == size
    then returned true (topo_unlock (count_swap_in size (reclaim_counter (topo_lock (touch i s)))))
    else thrown swap_in_failed (unlock s)

module _ (swap : SwapCalls) (f : Fractions) (p : Parts) (fuel k : ℕ) (end : Ptr) where
  -- Lines 398 to 401.
  unfoldable pub decay_before : ℕ → State → Outcome {0} Unit
  unfolding decay
  decay_before max_preemptive s =
      let r = s.ring in
      if f.time_to_decay r.consecutive_preemptive_transactions r.preemptive_since_last
      then decay swap k end (f.preemptive_reduction (sub64 max_preemptive r.preemptive_bytes)) s
      else returned tt s

  -- Lines 440 to 443 and 447 to 451: `none` where the chunk has arrived meanwhile.
  unfoldable pub ensure_target : ℕ → ℕ → ℕ → State → Outcome (Option ℕ)
  unfolding wait_for_swapin
  ensure_target i bytes target s =
      after (ensure_enough_space p fuel bytes (some i) s) (λ (there : Bool) (s1 : State).
        if there
        then after (wait_for_swapin p fuel i s1) (λ (b : Bool) (s2 : State). returned none s2)
        else returned (some target) s1)

  -- Lines 434 to 451: the target volume for which there is room.
  unfoldable pub ensure_volume : ℕ → ℕ → SwapErrorCode → State → Outcome (Option ℕ)
  unfolding ensure_target
  ensure_volume i target err s =
      let size = (s.chunks i).size in
      if succeeded err
      then ensure_target i target target s
      else after (ensure_target i size size s) (λ (t : Option ℕ) (s1 : State). elim t [
        | none ↦ returned none s1
        | some target1 ↦ ensure_target i target1 target1 s1
      ])

  -- Lines 420 to 452.
  unfoldable pub target_volume : ℕ → State → Outcome (Option ℕ)
  unfolding swap_out ensure_volume
  target_volume i s =
      let size = (s.chunks i).size in
      let loaded = s.ring.preemptive_bytes in
      let target = f.target_readin_vol size s.acc.memory_max loaded in
      let more = f.target_swapout_vol size s.acc.memory_max loaded in
      if ltb s.acc.memory_max (add64 target s.acc.memory_used)
      then after (swap_out swap f.alloc_target k end more s) (ensure_volume i more)
      else returned (some target) s

  -- Lines 459 to 599.
  unfoldable pub load_target : ℕ → Ptr → ℕ → Option ℕ → State → Outcome Bool
  unfolding select_loaded load_selected
  load_target i old_border max_preemptive none s = returned true s
  load_target i old_border max_preemptive (some target) s =
      let s1 = topo_lock s in
      let e = (s.chunks i).sched_buf in
      let b : Bounds = record {
        max_preemptive = sub64 max_preemptive s.ring.preemptive_bytes;
        target_readin_vol = target;
        memory_used = s.acc.memory_used;
        memory_max = s.acc.memory_max;
      } in
      load_selected swap k end i e old_border b (
        select_loaded k b old_border
          (record { state = s1; cur = e; volume = no_volume; number_selected = 0 }))

  -- Lines 605 to 630.
  unfoldable pub load_one : ℕ → State → Outcome Bool
  unfolding loaded_one
  load_one i s =
      after (ensure_enough_space p fuel (s.chunks i).size (some i) s)
        (λ (there : Bool) (s1 : State).
          if there then returned true s1 else after (swap.swap_in_one i s1) (loaded_one i))

  -- Lines 402 to 631.
  unfoldable pub load : ℕ → ℕ → State → Outcome Bool
  unfolding target_volume load_target load_one
  load i max_preemptive s =
      let s1 = put_ring (record s.ring { consecutive_preemptive_transactions = 0 }) s in
      let old_border = s1.ring.counter_active in
      if s1.ring.preemtive_swap_in && f.preemptive_autoon s1.acc.swap_free s1.acc.swap_size
      then after (target_volume i s1) (load_target i old_border max_preemptive)
      else load_one i s1

  unfoldable pub swap_in : ℕ → State → Outcome Bool
  unfolding backlog_add decay_before load
  swap_in i s =
      let s1 = put_ring (backlog_add swapped_in i s.ring) s in
      let max_preemptive = f.max_preemptive s1.acc.memory_max in
      if is_resident (s1.chunks i).status
      then returned true s1
      else after (decay_before max_preemptive s1)
          (λ (u : Unit) (s2 : State). load i max_preemptive s2)

  -- untouch looks at the accounts only, not at the chunk.
  unfoldable pub untouch : State → Outcome {0} Unit
  unfolding swap_out
  untouch s =
      let a = s.acc in
      let needed =
        if s.ring.preemtive_swap_in
        then f.total_preemptive_needed a.memory_max s.ring.preemptive_bytes
        else 0 in
      let currently_free = add64 (sub64 a.memory_max a.memory_used) a.memory_tobefreed in
      let desired_free = add64 needed (f.keep_free_for_user a.memory_max) in
      if not s.ring.preemtive_swap_out
      then returned tt s
      else if ltb currently_free desired_free
      then after (swap_out swap f.alloc_target k end (sub64 desired_free currently_free) s)
          (λ (c : SwapErrorCode) (s1 : State). returned tt s1)
      else returned tt s
