-- ===== src/Cyclic/Policy/Check.antt =====
-- src/cyclicManagedMemory.cpp: checkCycle, the scheduler's test of itself. What it prints is left
-- out; `k` is fuel for the walks along the cycle.
use rambrain.Prelude.{
  ℕ, zero, suc, ◌+◌, ◌%◌, Bool, true, false, not, ◌&&◌, ◌||◌, ◌==◌, if◌then◌else◌, Option, none,
  some, length,
}
use rambrain.Prelude.Words.{u32, add64}
use rambrain.Chunk.{
  Chunk, mem_allocated, mem_swapin, mem_swapout, mem_swapped, is_status, has_flag, is_out,
}
use rambrain.Ring.{Ptr, null}
use rambrain.State.{State, checked, put_ring, chunk_at}
use rambrain.Effects.{Outcome, returned, stuck, lock, unlock}
use rambrain.Cyclic.{backlog_add}
use rambrain.Cyclic.Policy.{topo_lock, topo_unlock}

-- The variables of the round along the cycle.
pub record Check : Type 0 where
  pub encountered : ℕ
  pub cur : Ptr
  pub used_bytes : ℕ
  pub tobef : ℕ
  pub swapped_bytes : ℕ
  pub in_active_only_section : Bool
  pub in_swapsection : Bool
  pub memerror : Bool
  pub has_preemptives : Bool

-- Lines 691 to 702: what the chunk `c` counts for.
unfoldable pub check_bytes : Chunk → Check → Check
unfolding add64
check_bytes c k =
    let inside = has_flag c.status mem_allocated || is_status c.status mem_swapin in
    let leaves = is_status c.status mem_swapout in
    record k {
      has_preemptives = c.preemptive_loaded || k.has_preemptives;
      used_bytes = if inside || leaves then add64 k.used_bytes c.size else k.used_bytes;
      tobef = if not inside && leaves then add64 k.tobef c.size else k.tobef;
      swapped_bytes =
          if is_status c.status mem_swapped || is_status c.status mem_swapin || leaves
          then add64 k.swapped_bytes c.size
          else k.swapped_bytes;
    }

-- Lines 709 to 726: what is swapped out stands in one stretch behind counterActive.
unfoldable pub check_sections : Chunk → Bool → Check → Check
check_sections old is_counter k =
    let away = is_out old.status in
    let isolated = is_status old.status mem_swapped && not k.in_swapsection in
    record k {
      memerror = (if k.in_active_only_section then away else isolated) || k.memerror;
      in_swapsection = if not k.in_active_only_section && not away then false else k.in_swapsection;
      in_active_only_section = if is_counter then false else k.in_active_only_section;
    }

-- Lines 688 to 726.
unfoldable pub check_step : State → Check → Check
unfolding check_bytes check_sections
check_step s k =
    let l = s.ring.links in
    let oldcur = k.cur in
    let cur = l.next oldcur in
    let k1 =
      check_bytes (chunk_at s cur)
        (record k { encountered = (k.encountered + 1) % u32; cur = cur }) in
    let k2 = record k1 { memerror = not (oldcur == l.prev cur) || k1.memerror } in
    check_sections (chunk_at s oldcur) (oldcur == s.ring.counter_active) k2

unfoldable pub check_round : ℕ → State → Check → Option Check
unfolding check_step
check_round zero s k = none
check_round (suc fuel) s k =
    let k1 = check_step s k in
    let rest = check_round fuel s k1 in if k1.cur == s.ring.active then some k1 else rest

-- Lines 663 to 670 and 683 to 686.
unfoldable pub check_start : State → Check
check_start s = record {
  encountered = 0;
  cur = s.ring.active;
  used_bytes = 0;
  tobef = 0;
  swapped_bytes = 0;
  in_active_only_section = not (is_out (chunk_at s s.ring.active).status);
  in_swapsection = true;
  memerror = false;
  has_preemptives = false;
}

abbrev pub with_test : Bool → Option Bool → Option Bool
with_test true o = o
with_test false none = none
with_test false (some b) = some false

-- The loops of lines 748 to 761 and 768 to 781: whether each chunk from `cur` up to `stop` is
-- loaded preemptively just if `loaded` says so.
unfoldable pub all_loaded : ℕ → Bool → State → Ptr → Ptr → Option Bool
all_loaded zero loaded s stop cur = none
all_loaded (suc fuel) loaded s stop cur =
    let rest = all_loaded fuel loaded s stop (s.ring.links.next cur) in
    let here = (chunk_at s cur).preemptive_loaded in
    let fine = if loaded then here else not here in
    if cur == stop then some true else with_test fine rest

abbrev pub both : Option Bool → Option Bool → Option Bool
both (some a) (some b) = some (a && b)
both (some a) none = none
both none b = none

-- Lines 744 to 793: whether the chunks loaded preemptively are those from preemptiveStart to active.
unfoldable pub check_preemptives : ℕ → State → Bool → Option Bool
unfolding all_loaded
check_preemptives fuel s has_preemptives =
    let start = s.ring.preemptive_start in
    let act = s.ring.active in
    if start == null
    then some (not has_preemptives)
    else both (all_loaded fuel true s act start) (all_loaded fuel false s start act)

-- Lines 730 to 741.
unfoldable pub check_accounts : State → Check → Bool
check_accounts s k =
    k.used_bytes == s.acc.memory_used
    && k.tobef == s.acc.memory_tobefreed
    && k.swapped_bytes == s.acc.swap_used

abbrev pub leave_check : State → State
leave_check s = unlock (topo_unlock s)

-- Lines 797 to 809.
unfoldable pub judge_check : ℕ → State → Check → Option Bool → Outcome Bool
unfolding check_accounts
judge_check no_reg s k none = stuck
judge_check no_reg s k (some fine) =
    returned (not k.memerror && check_accounts s k && fine && k.encountered == no_reg)
      (leave_check s)

unfoldable pub check_elements : ℕ → ℕ → State → Option Check → Outcome Bool
unfolding judge_check check_preemptives
check_elements fuel no_reg s none = stuck
check_elements fuel no_reg s (some k) =
    judge_check no_reg s k (check_preemptives fuel s k.has_preemptives)

unfoldable pub check_cycle : ℕ → State → Outcome Bool
unfolding check_round check_start check_elements
check_cycle fuel s =
    let s1 = topo_lock (lock s) in
    let s2 = put_ring (backlog_add checked 0 s1.ring) s1 in
    let no_reg = length s.mem_chunks % u32 in
    if s.ring.active == null
    then returned (no_reg == 0 && s.ring.counter_active == null) (leave_check s2)
    else check_elements fuel no_reg s2 (check_round fuel s2 (check_start s2))
