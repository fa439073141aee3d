-- ===== src/Cyclic/Policy/Loading.antt =====
-- src/cyclicManagedMemory.cpp, swapIn: the two walks that select the chunks to be read, the wanted
-- one and those that are guessed to be wanted next.
use rambrain.Prelude.{
  ℕ, zero, suc, ◌+◌, ◌%◌, Bool, ◌&&◌, ◌||◌, ◌==◌, ltb, leb, if◌then◌else◌, List, [], ◌∷◌, ◌++◌,
  Option, none, some,
}
use rambrain.Prelude.Words.{u32, add64}
use rambrain.Chunk.{Chunk, mem_swapped, is_status}
use rambrain.Ring.{Ptr}
use rambrain.State.{State, put_chunk}

-- What both walks count: the bytes, those of them that are guessed, and the chunks.
pub record Volume : Type 0 where
  pub selected_readin_vol : ℕ
  pub preemtively_selected : ℕ

-- `max_preemptive`, `target` and `memory_used`, `memory_max`.
pub record Bounds : Type 0 where
  pub max_preemptive : ℕ
  pub target_readin_vol : ℕ
  pub memory_used : ℕ
  pub memory_max : ℕ

unfoldable pub is_loadable : Bounds → Volume → Chunk → Bool
unfolding add64
is_loadable b v c =
    leb (add64 (add64 v.selected_readin_vol c.size) b.memory_used) b.memory_max
    && is_status c.status mem_swapped
    && (v.selected_readin_vol == 0 || leb (add64 v.preemtively_selected c.size) b.max_preemptive)

unfoldable pub add_volume : Chunk → Volume → Volume
unfolding add64
add_volume c v = record {
  selected_readin_vol = add64 v.selected_readin_vol c.size;
  preemtively_selected =
      if ltb 0 v.selected_readin_vol
      then add64 v.preemtively_selected c.size
      else v.preemtively_selected;
}

-- Lines 490 and 517.
unfoldable pub is_enough : Bounds → Volume → Bool
is_enough b v =
    leb b.target_readin_vol v.selected_readin_vol
    || ltb 0 v.selected_readin_vol && v.preemtively_selected == b.max_preemptive

pub record Selecting : Type 0 where
  pub state : State
  pub cur : Ptr
  pub volume : Volume
  pub number_selected : ℕ

-- Lines 482 to 489.
unfoldable pub select_chunk : Selecting → Selecting
unfolding add_volume
select_chunk r =
    let i = r.state.ring.chunk r.cur in
    let c = r.state.chunks i in
    record r {
      state =
          put_chunk i (record c { preemptive_loaded = ltb 0 r.volume.selected_readin_vol }) r.state;
      volume = add_volume c r.volume;
      number_selected = (r.number_selected + 1) % u32;
    }

-- Lines 476 to 498.
unfoldable pub select_loaded : ℕ → Bounds → Ptr → Selecting → Option Selecting
unfolding is_loadable select_chunk is_enough
select_loaded zero b old_border r = none
select_loaded (suc k) b old_border r =
    let taken = is_loadable b r.volume (r.state.chunks (r.state.ring.chunk r.cur)) in
    let r1 = if taken then select_chunk r else r in
    let before = r.state.ring.links.prev r.cur in
    let r2 : Selecting = record r1 { cur = before } in
    let rest = select_loaded k b old_border r2 in
    if taken && is_enough b r1.volume
    then some r1
    else if before == old_border
    then some r2
    else rest

pub record Listing : Type 0 where
  pub read_el : Ptr
  pub volume : Volume
  pub chunks : List ℕ
  pub active_in_list : Bool

-- Lines 511 to 516.
unfoldable pub list_chunk : State → Listing → Listing
unfolding add_volume
list_chunk s r =
    let i = s.ring.chunk r.read_el in
    record r { volume = add_volume (s.chunks i) r.volume; chunks = r.chunks ++ i ∷ [] }

-- Lines 506 to 522.
unfoldable pub list_loaded : ℕ → Bounds → Ptr → State → Listing → Option Listing
unfolding is_loadable list_chunk is_enough
list_loaded zero b old_border s r = none
list_loaded (suc k) b old_border s r =
    let taken = is_loadable b r.volume (s.chunks (s.ring.chunk r.read_el)) in
    let r0 : Listing = record r {
      active_in_list = r.read_el == s.ring.active || r.active_in_list;
    } in
    let r1 = if taken then list_chunk s r0 else r0 in
    let before = s.ring.links.prev r.read_el in
    let r2 : Listing = record r1 { read_el = before } in
    let rest = list_loaded k b old_border s r2 in
    if taken && is_enough b r1.volume
    then some r1
    else if before == old_border
    then some r2
    else rest

abbrev pub no_volume : Volume
no_volume = record { selected_readin_vol = 0; preemtively_selected = 0 }
