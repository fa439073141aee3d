-- ===== src/Cyclic.antt =====
-- src/cyclicManagedMemory.cpp: the scheduler's cycle. Of two threads only one holds
-- `stateChangeMutex` and `cyclicTopoLock`, so each operation is one step.
pub mod Invariant
pub mod Hooks
pub mod Front
pub mod Steps
pub mod Keeps
pub mod Chains
pub mod Policy
use rambrain.Prelude.{ℕ, ◌+◌, ◌%◌, Bool, true, false, not, ◌&&◌, ◌||◌, ◌==◌, if◌then◌else◌, update}
use rambrain.Prelude.Words.{u32, sub64}
use rambrain.Chunk.{Chunk, is_out}
use rambrain.Ring.{Ptr, null, Links, mutual_connect}
use rambrain.State.{
  State, Cyclic, BacklogAction, registered, deleted, touched, put_chunk, put_ring, chunk_at,
}

-- BACKLOG_ADD_ID and BACKLOG_ADD_SIZE.
unfoldable pub backlog_add : BacklogAction → ℕ → Cyclic → Cyclic
backlog_add a v r = record r {
  backlog = update r.backlog r.backlog_pos (record { action = a; value = v });
  backlog_pos = (r.backlog_pos + 1) % 100;
}

-- schedulerRegister, lines 61 to 70: the first element, or one in front of `active`.
unfoldable pub hook_in : Ptr → Cyclic → Cyclic
hook_in neu r =
    if r.active == null
    then record r { links = mutual_connect neu neu r.links; counter_active = neu }
    else record r {
      links = mutual_connect neu r.active (mutual_connect (r.links.prev r.active) neu r.links);
    }

-- schedulerRegister, lines 54 to 59; `neu` is the address that `new cyclicAtime` returned.
unfoldable pub couple : Ptr → ℕ → State → State
unfolding backlog_add
couple neu i s = record s {
  chunks = update s.chunks i (record (s.chunks i) { sched_buf = neu });
  ring = record (backlog_add registered i s.ring) { chunk = update s.ring.chunk neu i };
}

-- Lines 71 to 74.
unfoldable pub claim_front : Ptr → State → State
claim_front neu s =
    let r = s.ring in
    let caught = (r.counter_active == r.active) && is_out (chunk_at s r.counter_active).status in
    put_ring (record r { counter_active = if caught then neu else r.counter_active; active = neu })
      s

unfoldable pub scheduler_register : Ptr → ℕ → State → State
scheduler_register neu i s =
    let s1 = couple neu i s in claim_front neu (put_ring (hook_in neu s1.ring) s1)

-- schedulerDelete and touch: `preemptiveStart` steps over the element of chunk `i`.
unfoldable pub step_preemptive_start : ℕ → Cyclic → Cyclic
step_preemptive_start i r =
    let start = r.preemptive_start in
    let after = r.links.next start in
    if not (start == null) && (i == r.chunk start)
    then record r { preemptive_start = if after == r.active then null else after }
    else r

-- schedulerDelete, lines 98 to 121.
unfoldable pub hook_out : Ptr → Cyclic → Cyclic
hook_out e r =
    let l = r.links in
    let after = l.next e in
    let before = l.prev e in
    if after == e then record r { active = null; counter_active = null } else record r {
      links =
          if after == before then mutual_connect after after l else mutual_connect before after l;
      active = if r.active == e then after else r.active;
      counter_active = if r.counter_active == e then before else r.counter_active;
    }

-- schedulerDelete, lines 82 to 91: a chunk in memory no longer counts as loaded preemptively.
unfoldable pub uncount_deleted : ℕ → State → State
unfolding backlog_add
uncount_deleted i s =
    let c = s.chunks i in
    let r = backlog_add deleted i s.ring in
    if not (is_out c.status) && c.preemptive_loaded
    then put_chunk i (record c { preemptive_loaded = false })
        (put_ring (record r { preemptive_bytes = sub64 r.preemptive_bytes c.size }) s)
    else put_ring r s

unfoldable pub scheduler_delete : ℕ → State → State
scheduler_delete i s =
    let s1 = uncount_deleted i s in
    put_ring (hook_out (s1.chunks i).sched_buf (step_preemptive_start i s1.ring)) s1

-- touch, lines 149 to 188: the element goes to the front of the loop.
unfoldable pub to_front : Ptr → Cyclic → Cyclic
to_front e r =
    let l = r.links in
    let act = r.active in
    let counter = if r.counter_active == e then l.prev e else r.counter_active in
    if act == e
    then r
    else if l.prev act == e
    then record r { counter_active = counter; active = e }
    else if l.next act == e
    then record r {
      links =
          mutual_connect act (l.next e) (mutual_connect e act (mutual_connect (l.prev act) e l));
      counter_active = counter;
      active = e;
    }
    else record r {
      links =
          mutual_connect e act
            (mutual_connect (l.prev act) e (mutual_connect (l.prev e) (l.next e) l));
      counter_active = counter;
      active = e;
    }

-- touch, lines 131 to 139: whether this was a chunk that the scheduler had guessed.
unfoldable pub count_touched : ℕ → State → State
unfolding backlog_add
count_touched i s =
    let c = s.chunks i in
    let r = backlog_add touched i s.ring in
    if c.preemptive_loaded
    then put_chunk i (record c { preemptive_loaded = false })
        (put_ring
          (record r {
            consecutive_preemptive_transactions = (r.consecutive_preemptive_transactions + 1) % u32;
            preemptive_bytes = sub64 r.preemptive_bytes c.size;
          })
          s)
    else put_ring (record r { consecutive_preemptive_transactions = 0 }) s

unfoldable pub touch : ℕ → State → State
touch i s =
    let s1 = count_touched i s in
    put_ring (to_front (s1.chunks i).sched_buf (step_preemptive_start i s1.ring)) s1

-- The setters return the old value.
pub set_preemptive_loading : Bool → State → Bool × State
set_preemptive_loading b s =
    (s.ring.preemtive_swap_in, put_ring (record s.ring { preemtive_swap_in = b }) s)

pub set_preemptive_unloading : Bool → State → Bool × State
set_preemptive_unloading b s =
    (s.ring.preemtive_swap_out, put_ring (record s.ring { preemtive_swap_out = b }) s)
