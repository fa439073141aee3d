-- ===== src/Cyclic/Policy/SwapOut.antt =====
-- src/cyclicManagedMemory.cpp: swapOut. `alloc_target` is the product `memory_max * swapOutFrac`;
-- `end` the address of filterChain's local element; `k` fuel for the walks along the cycle.
use rambrain.Prelude.{
  ℕ, zero, suc, ◌-◌, ◌%◌, Bool, true, false, ◌&&◌, ◌==◌, ltb, leb, if◌then◌else◌, [], ◌∷◌, Option,
  none, some, length,
}
use rambrain.Prelude.Words.{u32, add64}
use rambrain.Chunk.{is_resident, mem_swapout, mem_swapped}
use rambrain.Ring.{Ptr, null, Links, mutual_connect}
use rambrain.State.{State, Cyclic, swapped_out, put_ring, chunk_at}
use rambrain.Effects.{
  Outcome, returned, thrown, stuck, undefined, after, unlock, nothing_to_swap_out, SwapErrorCode,
  err_success, err_swapfull, err_morethantotalram, err_notenoughcandidates,
}
use rambrain.Cyclic.{backlog_add}
use rambrain.Cyclic.Chains.{Chain, insert_before, filter_chain, separate_this}
use rambrain.Cyclic.Policy.{SwapCalls, topo_lock, topo_unlock}
use rambrain.Cyclic.Policy.Unloading.{Tally, Unloading, count_round, unload_round}

-- Lines 912 to 924: whether there is swap for `min_size` bytes, if need be after a clean-up and
-- an extension.
unfoldable pub make_swap_room : SwapCalls → ℕ → State → Outcome Bool
make_swap_room swap min_size s =
    if leb min_size s.acc.swap_free
    then returned true s
    else after (swap.cleanup_cached_elements (min_size - s.acc.swap_free) s)
        (λ (u : Unit) (s1 : State).
          if leb min_size s1.acc.swap_free
          then returned true s1
          else swap.extend_swap_by_policy (min_size - s1.acc.swap_free) s1)

-- Lines 926 to 930: the bytes to swap out.
unfoldable pub mem_swap : ℕ → ℕ → State → ℕ
mem_swap mem_alloc_max min_size s =
    let used = s.acc.memory_used in
    let mem_swap_min = if ltb mem_alloc_max used then used - mem_alloc_max else 0 in
    let wanted = if ltb mem_swap_min min_size then min_size else mem_swap_min in
    if ltb s.acc.swap_free wanted then min_size else wanted

-- `notAllowed`.
abbrev pub not_allowed : State → Ptr → Bool
not_allowed s p = separate_this (mem_swapout ∷ mem_swapped ∷ []) none (chunk_at s p)

-- Lines 1032 to 1049: where the filtered elements and counterActive go. `none` is a NULL pointer
-- followed.
unfoldable pub put_back : Ptr → Ptr → Links × Chain × Chain → Cyclic → Option Cyclic
unfolding insert_before
put_back next before (l, filtered, rest) r =
    if rest.from == null
    then if next == null
      then some (record r {
        links = mutual_connect filtered.to filtered.from l;
        counter_active = r.active;
      })
      else some (record r { links = insert_before next filtered l; counter_active = before })
    else if filtered.from == null
    then none
    else let pos = if next == null then l.next rest.to else next in
      let l1 = insert_before pos filtered l in
      some (record r { links = l1; counter_active = l1.prev filtered.from })

abbrev pub put_in_place : State → Option Cyclic → Outcome {0} Unit
put_in_place s none = undefined
put_in_place s (some r) = returned tt (put_ring r s)

abbrev pub put_filtered : Ptr → Ptr → State → Option (Links × Chain × Chain) → Outcome {0} Unit
put_filtered next before s none = stuck
put_filtered next before s (some f) = put_in_place s (put_back next before f s.ring)

-- Lines 1023 to 1049: from `from_pos` to counterActive, what is swapped out goes to the end.
unfoldable pub regroup : ℕ → Ptr → Ptr → State → Outcome {0} Unit
unfolding filter_chain put_back
regroup k end from_pos s =
    let r = s.ring in
    let behind = r.links.next r.counter_active in
    let next = if behind == from_pos then null else behind in
    let area : Chain = record { from = from_pos; to = r.counter_active } in
    put_filtered next (r.links.prev from_pos) s (filter_chain k end (not_allowed s) area r.links)

-- Lines 1050 to 1062.
unfoldable pub settle_active : State → State
settle_active s =
    let r = s.ring in
    let c = chunk_at s r.active in
    if c.preemptive_loaded
    then put_ring (record r { active = r.links.next r.active }) s
    else if is_resident c.status
    then s
    else put_ring (record r { active = r.counter_active }) s

-- Lines 1066 to 1068.
unfoldable pub walk_back : ℕ → State → Ptr → Option Ptr
walk_back zero s cur = none
walk_back (suc k) s cur =
    let before = s.ring.links.prev cur in
    let rest = walk_back k s before in
    if (chunk_at s before).preemptive_loaded then rest else some cur

abbrev pub start_at : State → Option Ptr → Outcome {0} Unit
start_at s none = stuck
start_at s (some cur) =
    let start = if cur == s.ring.active then null else cur in
    returned tt (put_ring (record s.ring { preemptive_start = start }) s)

-- Lines 1063 to 1070.
unfoldable pub restart_preemptive : ℕ → Bool → State → Outcome {0} Unit
unfolding walk_back
restart_preemptive k false s = returned tt s
restart_preemptive k true s = start_at s (walk_back k s s.ring.active)

-- Lines 1077 to 1092.
abbrev pub verdict : ℕ → ℕ → ℕ → SwapErrorCode
verdict min_size goal real =
    if leb goal real
    then err_success
    else if leb min_size real
    then err_success
    else err_notenoughcandidates

-- Lines 1073 to 1076.
abbrev pub count_swap_out : ℕ → State → State
count_swap_out real s = record s {
  stats = record s.stats {
    swap_out_scheduled_bytes = add64 s.stats.swap_out_scheduled_bytes real;
    n_swap_out = add64 s.stats.n_swap_out 1;
  };
}

-- Lines 1009 to 1092, after the swap has taken `real` bytes.
unfoldable pub after_unload : ℕ → Ptr → ℕ → ℕ → Unloading → ℕ → State → Outcome SwapErrorCode
unfolding regroup settle_active restart_preemptive
after_unload k end min_size goal v real s =
    if ltb real goal && real == 0
    then returned err_notenoughcandidates (topo_unlock s)
    else after (regroup k end (s.ring.links.next v.from_pos) s) (λ (u : Unit) (s1 : State).
      after (restart_preemptive k v.reset_preemptive_start (settle_active s1))
        (λ (u1 : Unit) (s2 : State).
          returned (verdict min_size goal real) (count_swap_out real (topo_unlock s2))))

-- Where the second round starts, lines 932, 935, 975 and 980.
unfoldable pub unload_start : State → Unloading
unload_start s = record {
  state = s;
  from_pos = s.ring.counter_active;
  unload_size2 = 0;
  unloadlist = [];
  reset_preemptive_start = false;
}

abbrev pub empty_tally : Tally
empty_tally = record { unload_size = 0; unload = 0 }

-- Lines 936 to 965.
abbrev pub measured : ℕ → State → Option Tally
measured goal s =
    count_round (length s.mem_chunks % u32) goal s.acc.swap_free s s.ring.counter_active empty_tally

-- Lines 979 to 1006.
abbrev pub listed : Tally → State → Unloading
listed t s = unload_round (length s.mem_chunks % u32) t.unload_size s.acc.swap_free (unload_start s)

-- Lines 974 to 1007. The list has `unload` places; the swap reads all of them.
unfoldable pub unload_list : SwapCalls → ℕ → Ptr → ℕ → ℕ → Tally → State → Outcome SwapErrorCode
unfolding unload_round unload_start after_unload
unload_list swap k end min_size goal t s =
    let v = listed t s in
    if length v.unloadlist == t.unload
    then after (swap.swap_out v.unloadlist v.state) (after_unload k end min_size goal v)
    else undefined

-- Lines 966 to 1007, after the first round.
unfoldable pub unload_counted :
    SwapCalls → ℕ → Ptr → ℕ → ℕ → State → Option Tally → Outcome SwapErrorCode
unfolding unload_list
unload_counted swap k end min_size goal s none = stuck
unload_counted swap k end min_size goal s (some t) =
    if t.unload_size == 0
    then returned err_notenoughcandidates (topo_unlock s)
    else unload_list swap k end min_size goal t s

-- Lines 932 to 1092.
unfoldable pub unload_some : SwapCalls → ℕ → Ptr → ℕ → ℕ → State → Outcome SwapErrorCode
unfolding count_round unload_counted
unload_some swap k end min_size goal s = unload_counted swap k end min_size goal s (measured goal s)

-- Lines 900 and 901.
abbrev pub enter : ℕ → State → State
enter min_size s = topo_lock (put_ring (backlog_add swapped_out min_size s.ring) s)

-- Lines 918 to 1092, with what the making of room returned.
unfoldable pub unload_if_room :
    SwapCalls → (ℕ → ℕ) → ℕ → Ptr → ℕ → Bool → State → Outcome SwapErrorCode
unfolding mem_swap unload_some
unload_if_room swap alloc_target k end min_size false s = returned err_swapfull (topo_unlock s)
unload_if_room swap alloc_target k end min_size true s =
    unload_some swap k end min_size (mem_swap (alloc_target s.acc.memory_max) min_size s) s

-- An exception of the swap passes through, and cyclicTopoLock stays locked.
unfoldable pub swap_out : SwapCalls → (ℕ → ℕ) → ℕ → Ptr → ℕ → State → Outcome SwapErrorCode
unfolding make_swap_room unload_if_room
swap_out swap alloc_target k end min_size s =
    let s1 = enter min_size s in
    if s1.ring.counter_active == null
    then thrown nothing_to_swap_out (topo_unlock (unlock s1))
    else if ltb s1.acc.memory_max min_size
    then returned err_morethantotalram (topo_unlock s1)
    else after (make_swap_room swap min_size s1) (unload_if_room swap alloc_target k end min_size)
