-- ===== src/Cyclic/Policy/Unloading.antt =====
-- src/cyclicManagedMemory.cpp, swapOut: the two rounds that select the chunks to be swapped out.
-- A walk goes backwards from counterActive; `left` is `allelements - passed`.
use rambrain.Prelude.{
  ℕ, zero, suc, ◌+◌, ◌%◌, Bool, false, not, ◌&&◌, ◌||◌, ◌==◌, ltb, leb, if◌then◌else◌, List, [],
  ◌∷◌, ◌++◌, Option, none, some,
}
use rambrain.Prelude.Words.{u32, add64, sub64}
use rambrain.Chunk.{Chunk, mem_allocated, is_status}
use rambrain.Ring.{Ptr, null}
use rambrain.State.{State, Cyclic, put_chunk, put_ring, chunk_at}

-- The condition of both rounds at a chunk, `n` bytes being selected already.
unfoldable pub is_candidate : ℕ → ℕ → Chunk → Bool
unfolding add64
is_candidate swap_free n c =
    is_status c.status mem_allocated && leb (add64 n c.size) swap_free && c.use_cnt == 0

-- What the first round counts.
pub record Tally : Type 0 where
  pub unload_size : ℕ
  pub unload : ℕ

unfoldable pub count_candidate : ℕ → Chunk → Tally → Tally
unfolding is_candidate add64
count_candidate swap_free c t =
    if is_candidate swap_free t.unload_size c
    then record { unload_size = add64 t.unload_size c.size; unload = (t.unload + 1) % u32 }
    else t

-- The first round; `none` is a walk that goes on although no chunk is registered.
unfoldable pub count_round : ℕ → ℕ → ℕ → State → Ptr → Tally → Option Tally
unfolding count_candidate
count_round zero mem_swap swap_free s count_pos t =
    if ltb t.unload_size mem_swap then none else some t
count_round (suc left) mem_swap swap_free s count_pos t =
    let t1 = count_candidate swap_free (chunk_at s count_pos) t in
    let rest = count_round left mem_swap swap_free s (s.ring.links.prev count_pos) t1 in
    if ltb t.unload_size mem_swap then (if left == 0 then some t1 else rest) else some t

-- The variables of the second round.
pub record Unloading : Type 0 where
  pub state : State
  pub from_pos : Ptr
  pub unload_size2 : ℕ
  pub unloadlist : List ℕ
  pub reset_preemptive_start : Bool

-- Lines 991 to 996: a chunk that was loaded preemptively no longer counts as such.
unfoldable pub uncount_preemptive : ℕ → State → State
unfolding sub64
uncount_preemptive i s =
    let c = s.chunks i in
    if c.preemptive_loaded
    then put_chunk i (record c { preemptive_loaded = false })
        (put_ring (record s.ring { preemptive_bytes = sub64 s.ring.preemptive_bytes c.size }) s)
    else s

-- Lines 1000 to 1002.
unfoldable pub leave_chunk : ℕ → Cyclic → Cyclic
leave_chunk i r = if r.chunk r.active == i then record r { active = r.links.prev r.active } else r

-- Lines 985 to 1002: the candidate `i` goes to the end of the list.
unfoldable pub unload_chunk : ℕ → Unloading → Unloading
unfolding uncount_preemptive leave_chunk add64
unload_chunk i w =
    let s = uncount_preemptive i w.state in
    let start = s.ring.preemptive_start in
    record w {
      state = put_ring (leave_chunk i s.ring) s;
      unload_size2 = add64 w.unload_size2 (w.state.chunks i).size;
      unloadlist = w.unloadlist ++ i ∷ [];
      reset_preemptive_start =
          (not (start == null) && i == s.ring.chunk start) || w.reset_preemptive_start;
    }

unfoldable pub unload_step : ℕ → Unloading → Unloading
unfolding unload_chunk is_candidate
unload_step swap_free w =
    let i = w.state.ring.chunk w.from_pos in
    let before = w.state.ring.links.prev w.from_pos in
    let w1 =
      if is_candidate swap_free w.unload_size2 (w.state.chunks i) then unload_chunk i w else w in
    record w1 { from_pos = before }

-- The second round.
unfoldable pub unload_round : ℕ → ℕ → ℕ → Unloading → Unloading
unfolding unload_step
unload_round zero unload_size swap_free w = w
unload_round (suc left) unload_size swap_free w =
    let rest = unload_round left unload_size swap_free (unload_step swap_free w) in
    if ltb w.unload_size2 unload_size then rest else w
