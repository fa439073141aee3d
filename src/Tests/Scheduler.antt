-- ===== src/Tests/Scheduler.antt =====
-- A cycle of three chunks, of which the second is loaded preemptively and the third swapped out.
use rambrain.Prelude.{
  ℕ, ◌≡◌, ◌≢◌, refl, Bool, true, false, if◌then◌else◌, ◌==◌, List, [], ◌∷◌, arith, ◌∈◌, inr, update,
  some, none, count, ◌≤◌, ◌*◌, ◌%◌,
}
use rambrain.Chunk.{Chunk, MemoryStatus, mem_allocated, mem_swapped, is_status}
use rambrain.Ring.{Ptr, Links, mutual_connect}
use rambrain.Ring.Linked.{Linked}
use rambrain.State.{State, chunk_at, unknown}
use rambrain.Cyclic.{
  scheduler_register, scheduler_delete, touch, to_front, step_preemptive_start, count_touched,
}
use rambrain.Cyclic.Invariant.{Scheduled, Cycle}
use rambrain.Cyclic.Chains.{Chain, separate_this, insert_before, filter_chain}
use rambrain.Cyclic.Chains.Whole.{chain_of}
use rambrain.Cyclic.Chains.Results.{
  Returns, filter_chain_stretch, filter_chain-Cycle, insert_before-Linked,
}
use rambrain.Cyclic.Keeps.{
  touch-Scheduled, scheduler_delete-Scheduled, scheduler_register-Scheduled,
}

abbrev chunk : ℕ → MemoryStatus → Bool → Ptr → Chunk
chunk i st p e = record {
  status = st;
  use_cnt = 0;
  loc_ptr = if is_status st mem_swapped then 0 else 1000 * i;
  size = 100 * i;
  id = i;
  preemptive_loaded = p;
  sched_buf = e;
  swap_buf = if is_status st mem_swapped then 1000 * i else 0;
}

abbrev pub three_chunks : ℕ → Chunk
three_chunks i =
    if i == 1
    then chunk 1 mem_allocated false 11
    else if i == 2
    then chunk 2 mem_allocated true 12
    else if i == 3
    then chunk 3 mem_swapped false 13
    else chunk i mem_allocated false 0

abbrev pub three_links : Links
three_links = record {
  next = λ p. if p == 11 then 12 else if p == 12 then 13 else 11;
  prev = λ p. if p == 11 then 13 else if p == 12 then 11 else 12;
}

abbrev pub three : State
three = record {
  chunks = three_chunks;
  mem_chunks = 1 ∷ 2 ∷ 3 ∷ [];
  ring = record {
    links = three_links;
    chunk = λ p. if p == 11 then 1 else if p == 12 then 2 else 3;
    active = 11;
    counter_active = 12;
    preemptive_start = 12;
    preemtive_swap_in = true;
    preemtive_swap_out = true;
    preemptive_bytes = 200;
    consecutive_preemptive_transactions = 0;
    preemptive_since_last = 0;
    backlog = λ k. record { action = unknown; value = 0 };
    backlog_pos = 99;
  };
  acc = record {
    memory_max = 1000;
    memory_used = 300;
    memory_swapped = 300;
    memory_tobefreed = 0;
    swap_size = 1000;
    swap_used = 300;
    swap_free = 700;
  };
  heap = record {
    bytes = λ a. a % 256;
    live =
        record { at = 1000; size = 100 }
        ∷ record { at = 2000; size = 200 }
        ∷ record { at = 3000; size = 300 }
        ∷ [];
  };
  stats = record {
    swap_hits = 0;
    swap_misses = 0;
    swap_out_bytes = 0;
    swap_in_bytes = 0;
    n_swap_out = 0;
    n_swap_in = 0;
    swap_out_scheduled_bytes = 0;
    swap_in_scheduled_bytes = 0;
  };
  memory_alignment = 1;
  out_of_swap_is_fatal = true;
  mem_id_pace = 4;
  locked = false;
  topo_locked = false;
}

abbrev elements : List Ptr
elements = 11 ∷ 12 ∷ 13 ∷ []

three-back : (p : Ptr) → p ∈ elements → (three.chunks (three.ring.chunk p)).sched_buf ≡ p
three-back p m = ground arith

three-Scheduled : Scheduled three elements
three-Scheduled = record {
  ring = record {
    cycle = (refl, refl, (refl, refl, (refl, refl)));
    active = refl;
    distinct = (refl, (refl, (refl, tt)));
    nonnull = refl;
    counter = refl;
    start = inr refl;
  };
  back = three-back;
}

-- The last element of the cycle is touched.
touch-Scheduled_example : Scheduled (touch 3 three) (13 ∷ 11 ∷ 12 ∷ [])
touch-Scheduled_example =
    touch-Scheduled three elements 3 three-Scheduled (record { member = refl; owner = refl })

-- The element that is both `counterActive` and `preemptiveStart` leaves.
scheduler_delete-Scheduled_example : Scheduled (scheduler_delete 2 three) (11 ∷ 13 ∷ [])
scheduler_delete-Scheduled_example =
    scheduler_delete-Scheduled three elements 2 three-Scheduled
      (record { member = refl; owner = refl })

fresh_id : (p : Ptr) → p ∈ elements → three.ring.chunk p ≢ 4
fresh_id p m = ground arith

scheduler_register-Scheduled_example :
    Scheduled (scheduler_register 14 4 three) (14 ∷ 11 ∷ 12 ∷ 13 ∷ [])
scheduler_register-Scheduled_example =
    scheduler_register-Scheduled three elements 14 4 three-Scheduled (omega arith) refl fresh_id

touch_order : (touch 3 three).ring.links.next 13 ≡ 11
unfolding touch to_front step_preemptive_start count_touched
touch_order = refl

-- Between 11 and itself stand 12 and 13; 12 is filtered out.
swapped_filter : Ptr → Bool
swapped_filter p = separate_this (mem_swapped ∷ []) none (chunk_at three p)

apart : (y : Ptr) → count y (99 ∷ 12 ∷ 13 ∷ []) ≤ 1
apart y = ground arith

filter_chain_stretch_example :
    (r : Links × Chain × Chain) × (filter_chain 2 99 swapped_filter
        (chain_of (12 ∷ 13 ∷ []))
        three_links
      ≡ some r)
    × Linked r.0 11 (12 ∷ []) 11
    × Returns r (12 ∷ []) (13 ∷ [])
unfolding swapped_filter separate_this
filter_chain_stretch_example =
    filter_chain_stretch 2 99 swapped_filter three_links 11 12 (13 ∷ []) 11
      (record { apart = apart; nonnull = refl }) refl refl (refl, refl, (refl, refl, (refl, refl)))
      (omega arith)

apart_all : (y : Ptr) → count y (99 ∷ 11 ∷ 12 ∷ 13 ∷ []) ≤ 1
apart_all y = ground arith

filter_chain-Cycle_example :
    (r : Links × Chain × Chain) × (filter_chain 3 99 swapped_filter (chain_of elements) three_links
      ≡ some r)
    × Cycle r.0 (11 ∷ 12 ∷ [])
    × Returns r (11 ∷ 12 ∷ []) (13 ∷ [])
unfolding swapped_filter separate_this
filter_chain-Cycle_example =
    filter_chain-Cycle 3 99 swapped_filter three_links 11 (12 ∷ 13 ∷ [])
      (record { apart = apart_all; nonnull = refl }) (refl, refl, (refl, refl, (refl, refl)))
      (omega arith)

-- 14 and 15, linked to one another, go in front of 11.
chained : Links
chained = mutual_connect 14 15 three_links

insert_before-Linked_example :
    Linked (insert_before 11 (chain_of (14 ∷ 15 ∷ [])) chained) 11 (12 ∷ 13 ∷ 14 ∷ 15 ∷ []) 11
unfolding chained mutual_connect update
insert_before-Linked_example =
    insert_before-Linked chained 11 (12 ∷ 13 ∷ []) 11 (14 ∷ 15 ∷ [])
      (refl, (refl, (refl, (refl, (refl, tt))))) refl refl (refl, refl, (refl, refl, (refl, refl)))
      (refl, refl, tt)
