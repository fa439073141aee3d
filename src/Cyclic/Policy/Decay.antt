-- ===== src/Cyclic/Policy/Decay.antt =====
-- src/cyclicManagedMemory.cpp: decay, which swaps out what was loaded preemptively and not used.
-- `k` is fuel for the walks, `end` the address of filterChain's local element.
use rambrain.Prelude.{
  ℕ, zero, suc, ◌+◌, ◌%◌, Bool, true, false, not, ◌&&◌, ◌==◌, ltb, if◌then◌else◌, List, [], ◌∷◌,
  ◌++◌, Option, none, some, length,
}
use rambrain.Prelude.Words.{u32, add64, sub64}
use rambrain.Chunk.{Chunk, mem_allocated, is_status}
use rambrain.Ring.{Ptr, null, Links}
use rambrain.State.{State, decayed, put_chunk, put_ring}
use rambrain.Effects.{Outcome, returned, thrown, stuck, undefined, after, swap_refused}
use rambrain.Cyclic.{backlog_add}
use rambrain.Cyclic.Chains.{Chain, insert_before, filter_chain}
use rambrain.Cyclic.Policy.{SwapCalls, topo_lock, topo_unlock}
use rambrain.Cyclic.Policy.SwapOut.{not_allowed, count_swap_out}

-- std::min.
abbrev pub min : ℕ → ℕ → ℕ
min a b = if ltb b a then b else a

-- The condition of both walks, `n` bytes being selected already.
unfoldable pub is_decaying : ℕ → ℕ → Chunk → Bool
unfolding add64
is_decaying swapleft n c =
    ltb (add64 c.size n) swapleft && is_status c.status mem_allocated && c.use_cnt == 0

-- The variables of the first walk.
pub record Decaying : Type 0 where
  pub state : State
  pub cur : Ptr
  pub bytesselected : ℕ
  pub chunks : ℕ
  pub consecutive : Bool

unfoldable pub decay_step : ℕ → Decaying → Decaying
unfolding is_decaying add64
decay_step swapleft d =
    let i = d.state.ring.chunk d.cur in
    let c = d.state.chunks i in
    let next = d.state.ring.links.next d.cur in
    if is_decaying swapleft d.bytesselected c
    then record d {
      state = put_chunk i (record c { preemptive_loaded = false }) d.state;
      cur = next;
      bytesselected = add64 d.bytesselected c.size;
      chunks = (d.chunks + 1) % u32;
    }
    else record d { cur = next; consecutive = false }

unfoldable pub decay_walk : ℕ → ℕ → ℕ → Decaying → Option Decaying
unfolding decay_step
decay_walk zero bytes swapleft d = none
decay_walk (suc k) bytes swapleft d =
    let rest = decay_walk k bytes swapleft (decay_step swapleft d) in
    if not (d.cur == d.state.ring.active) && ltb d.bytesselected bytes then rest else some d

-- The second walk's variables: the bytes and the list.
unfoldable pub list_step : ℕ → ℕ → Chunk → ℕ × List ℕ → ℕ × List ℕ
unfolding is_decaying add64
list_step swapleft i c (n, chunklist) =
    if is_decaying swapleft n c then (add64 n c.size, chunklist ++ i ∷ []) else (n, chunklist)

-- From `cur2` up to `cur`.
unfoldable pub list_walk : ℕ → ℕ → ℕ → State → Ptr → Ptr → ℕ × List ℕ → Option (ℕ × List ℕ)
unfolding list_step
list_walk zero bytes swapleft s cur cur2 p = none
list_walk (suc k) bytes swapleft s cur cur2 p =
    let i = s.ring.chunk cur2 in
    let rest =
      list_walk k bytes swapleft s cur (s.ring.links.next cur2)
        (list_step swapleft i (s.chunks i) p) in
    if not (cur2 == cur) && ltb p.0 bytes then rest else some p

-- Lines 319 to 322.
unfoldable pub decay_start : State → Decaying
decay_start s = record {
  state = s;
  cur = s.ring.preemptive_start;
  bytesselected = 0;
  chunks = 0;
  consecutive = true;
}

-- Lines 365 to 368, with what filterChain returned.
unfoldable pub rejoin : Ptr → Option (Links × Chain × Chain) → State → Outcome {0} Unit
unfolding insert_before
rejoin before none s = stuck
rejoin before (some (l, separated, rest)) s =
    let start = l.next before in
    returned tt (
      topo_unlock (
        put_ring
          (record s.ring {
            links = insert_before start separated l;
            preemptive_start = if start == s.ring.active then null else start;
          })
          s))

-- Lines 357 to 376: where preemptiveStart goes.
unfoldable pub after_decay : ℕ → Ptr → Ptr → Bool → State → Outcome {0} Unit
unfolding filter_chain rejoin
after_decay k end cur true s =
    let start = if cur == s.ring.active then null else cur in
    returned tt (topo_unlock (topo_lock (put_ring (record s.ring { preemptive_start = start }) s)))
after_decay k end cur false s =
    let r = s.ring in
    let area : Chain = record { from = r.preemptive_start; to = cur } in
    rejoin (r.links.prev r.preemptive_start) (filter_chain k end (not_allowed s) area r.links)
      (topo_lock s)

-- Lines 348 to 376, after the swap has taken `real` of the `n` bytes.
unfoldable pub decay_taken : ℕ → Ptr → Decaying → ℕ → ℕ → State → Outcome {0} Unit
unfolding after_decay
decay_taken k end d n real s =
    let s1 =
      count_swap_out n
        (put_ring (record s.ring { preemptive_bytes = sub64 s.ring.preemptive_bytes n }) s) in
    if not (real == n) then thrown swap_refused s else after_decay k end d.cur d.consecutive s1

-- Lines 348 to 376. The list has `chunks` places; the swap reads all of them.
unfoldable pub decay_list : SwapCalls → ℕ → Ptr → Decaying → Option (ℕ × List ℕ) → Outcome {0} Unit
unfolding decay_taken
decay_list swap k end d none = stuck
decay_list swap k end d (some (n, chunklist)) =
    if not (length chunklist == d.chunks)
    then undefined
    else after (swap.swap_out chunklist d.state) (decay_taken k end d n)

-- Lines 333 to 376.
unfoldable pub decay_selected : SwapCalls → ℕ → Ptr → ℕ → ℕ → Option Decaying → Outcome {0} Unit
unfolding list_walk decay_list
decay_selected swap k end bytes swapleft none = stuck
decay_selected swap k end bytes swapleft (some d) =
    let start = d.state.ring.preemptive_start in
    if d.cur == start
    then returned tt d.state
    else decay_list swap k end d (list_walk k bytes swapleft d.state d.cur start (0, []))

unfoldable pub decay : SwapCalls → ℕ → Ptr → ℕ → State → Outcome {0} Unit
unfolding decay_walk decay_start decay_selected
decay swap k end bytes s =
    let s1 = put_ring (backlog_add decayed bytes s.ring) s in
    let preemptive = s1.ring.preemptive_bytes in
    let wanted = min s1.acc.swap_free (min preemptive bytes) in
    let swapleft = min preemptive s1.acc.swap_free in
    if s1.ring.preemptive_start == null
    then returned tt s1
    else decay_selected swap k end wanted swapleft (decay_walk k wanted swapleft (decay_start s1))
