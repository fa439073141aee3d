-- ===== src/Tests/Managing.antt =====
-- The manager on the state of Scheduler, with the scheduler's own operations and the dummy swap.
use rambrain.Prelude.{
  ℕ, ◌+◌, ◌*◌, ◌/◌, ◌≡◌, ◌==◌, refl, sym, ap, subst, ◌∙◌, Bool, Bool-cases, if◌then◌else◌, true,
  false, none, inr, inl, arith, ◌∈◌, ◌∉◌, update,
}
use rambrain.Prelude.Words.{add64, sub64}
use rambrain.Chunk.{Chunk, mem_allocated_inuse_write}
use rambrain.State.{State}
use rambrain.Ring.{mutual_connect}
use rambrain.Cyclic.{
  touch, scheduler_register, scheduler_delete, count_touched, couple, claim_front, backlog_add,
}
use rambrain.Cyclic.Chains.{filter_loop, filter_step, separate_this, filter_start, last_cut, tie_up}
use rambrain.Cyclic.Policy.{Fractions, topo_unlock}
use rambrain.Cyclic.Policy.SwapOut.{swap_out, enter}
use rambrain.Cyclic.Policy.SwapIn.{swap_in, untouch}
use rambrain.Swap.Dummy
use rambrain.Swap.Dummy.{swap_delete}
use rambrain.Swap.Books.{Balanced}
use rambrain.Effects.{
  Outcome, returned, thrown, stuck, undefined, Parts, lock, SwapErrorCode, err_success,
  malloc_failed, no_swap_in, nothing_to_swap_out,
}
use rambrain.Manager.{ensure_enough_space, enrol, mmalloc, mfree}
use rambrain.Manager.Use.{set_use, unset_use}
use rambrain.Manager.Room.{missing}
use rambrain.Manager.Locks.{IsReleased, uses-IsReleased}
use rambrain.Manager.Counts.{
  IsInUse, KeepsUse, SparesUse, Granted, Unset, set_use-Granted, unset_use-Unset,
}
use rambrain.Manager.Limit.{LimitSet, set_memory_limit, set_memory_limit-LimitSet}
use rambrain.Manager.Books.{cyclic_with_dummy, mfree-Balanced}
use rambrain.Manager.Allocation.{KeepsAccounts, Allocated, mmalloc-fits, mmalloc-malloc_failed}
use rambrain.Tests.Scheduler.{three}
use rambrain.Tests.Swapping.{three-Balanced}
use rambrain.Tests.Policy.{dummy}

-- `bytes` is the address that the allocator returns; swapOut and untouch are the scheduler's own.
abbrev parts : ℕ → Parts
parts bytes = record {
  swap_out = swap_out dummy (λ m. m * 8 / 10) 5 99;
  swap_in = λ i s. if i == 3 then thrown no_swap_in s else returned true s;
  touch = touch;
  untouch = λ i s. if s.ring.active == 0 then thrown nothing_to_swap_out s else returned tt s;
  scheduler_register = λ i. scheduler_register (100 + i) i;
  scheduler_delete = scheduler_delete;
  swap_delete = λ i s. returned tt (swap_delete i s);
  invalidate_cache_for = λ i s. returned tt s;
  cleanup_cached_elements = λ s. returned tt s;
  wait_for_aio = λ s. returned tt s;
  mm_malloc = λ n s. bytes;
}

-- With the scheduler's own swapIn and untouch, on top of these.
abbrev fractions : Fractions
fractions = record {
  alloc_target = λ m. m * 8 / 10;
  max_preemptive = λ m. m / 10;
  time_to_decay = λ a b. true;
  preemptive_reduction = λ n. n;
  preemptive_autoon = λ a b. true;
  target_readin_vol = λ a b c. a;
  target_swapout_vol = λ a b c. a;
  keep_free_for_user = λ n. n / 4;
  total_preemptive_needed = λ a b. a / 4;
}

abbrev cyclic : ℕ → Parts
cyclic bytes = record (parts bytes) {
  swap_in = swap_in dummy fractions (parts bytes) 5 5 99;
  untouch = λ i. untouch dummy fractions (parts bytes) 5 5 99;
}

touch_acc : (i : ℕ) (s : State) → (touch i s).acc ≡ s.acc
unfolding touch count_touched
touch_acc i s = ground arith

register_acc : (e i : ℕ) (s : State) → (scheduler_register e i s).acc ≡ s.acc
unfolding scheduler_register couple claim_front
register_acc e i s = refl

touch_status : (i j : ℕ) (s : State) → ((touch i s).chunks j).status ≡ (s.chunks j).status
unfolding touch count_touched update
touch_status i j s = ground arith

touch_use_cnt : (i j : ℕ) (s : State) → ((touch i s).chunks j).use_cnt ≡ (s.chunks j).use_cnt
unfolding touch count_touched update
touch_use_cnt i j s = ground arith

parts-KeepsAccounts : (b : ℕ) → KeepsAccounts (parts b)
parts-KeepsAccounts b = record { register = λ i s. register_acc (100 + i) i s; touch = touch_acc }

state_of : State → Outcome {0} Unit → State
state_of d (returned u x) = x
state_of d (thrown e x) = d
state_of d stuck = d
state_of d undefined = d

-- A call that returns a state returns no other.
same_chunk :
    (i : ℕ) (s t : State) (o : Outcome {0} Unit)
    → o ≡ returned tt s
    → o ≡ returned tt t
    → t.chunks i ≡ s.chunks i
unfolding state_of
same_chunk i s t o h e = ap (λ (x : Outcome {0} Unit). (state_of s x).chunks i) (sym e ∙ h)

parts-KeepsUse : (b i : ℕ) → KeepsUse (parts b) i
parts-KeepsUse b i = record {
  touch = λ s. (touch_status i i s, touch_use_cnt i i s);
  invalidate = λ s t st e.
      let same = same_chunk i s t ((parts b).invalidate_cache_for i s) refl e in
      (ap (λ (c : Chunk). c.status) same, ap (λ (c : Chunk). c.use_cnt) same);
}

is_returned : Outcome {0} Unit → Bool
is_returned (returned u s) = true
is_returned (thrown e s) = false
is_returned stuck = false
is_returned undefined = false

-- untouch of these parts returns only without a change.
untouch_same :
    (b i : ℕ) (s t : State) → (parts b).untouch i s ≡ returned tt t → t.chunks i ≡ s.chunks i
unfolding is_returned
untouch_same b i s t e = elim (Bool-cases (s.ring.active == 0)) [
  | inl empty ↦
      let h : (parts b).untouch i s ≡ thrown nothing_to_swap_out s = rw empty refl in
      let no : false ≡ true = ap is_returned (sym h ∙ e) in absurd (cc)
  | inr chunks ↦
      let h : (parts b).untouch i s ≡ returned tt s = rw chunks refl in
      same_chunk i s t ((parts b).untouch i s) h e
]

parts-SparesUse : (b i : ℕ) → SparesUse (parts b) i
parts-SparesUse b i = record {
  uses = λ s t e. ap (λ (c : Chunk). c.use_cnt) (untouch_same b i s t e);
  used = λ s t e h. subst IsInUse (sym (ap (λ (c : Chunk). c.status) (untouch_same b i s t e))) h;
}

-- 300 of 1000 bytes are in use and 800 wanted: the scheduler swaps out 200.
abbrev state_after : State → Outcome SwapErrorCode → State
state_after d (returned c x) = x
state_after d (thrown e x) = d
state_after d stuck = d
state_after d undefined = d

abbrev roomier : State
roomier = state_after three ((parts 0).swap_out 100 three)

swapped_out : (parts 0).swap_out (missing 800 three) three ≡ returned err_success roomier
unfolding swap_out backlog_add Dummy.swap_out update filter_loop filter_step separate_this
    filter_start mutual_connect last_cut tie_up add64 sub64
swapped_out = refl

-- The swap has 10 bytes left.
abbrev full : State
full = record three { acc = record three.acc { swap_free = 10 } }

abbrev refused_once : State
refused_once = topo_unlock (enter 200 full)

abbrev refused_twice : State
refused_twice = topo_unlock (enter 200 refused_once)

-- 500 bytes fit at once.
room_made :
    (b : ℕ) → ensure_enough_space (parts b) 1 500 none (lock three) ≡ returned false (lock three)
unfolding add64 rambrain.Manager.ensure_from rambrain.Manager.ensure_round
room_made b = refl

mmalloc-fits_example : Allocated 4 (mmalloc (parts 5000) 1 500 three)
mmalloc-fits_example =
    mmalloc-fits (parts 5000) (parts-KeepsAccounts 5000) 1 500 three (lock three) false
      (room_made 5000) (inr (omega arith))

kept_lock : (enrol (parts 0) 500 (lock three)).locked ≡ true
unfolding enrol touch count_touched scheduler_register couple claim_front update
kept_lock = refl

mmalloc-malloc_failed_example :
    (s' : State) × (mmalloc (parts 0) 1 500 three ≡ thrown malloc_failed s')
    × (s'.locked ≡ true)
    × (4 ∈ s'.mem_chunks)
    × (s'.acc.memory_used ≡ add64 300 500)
mmalloc-malloc_failed_example =
    mmalloc-malloc_failed (parts 0) (parts-KeepsAccounts 0) 1 500 three (lock three) false
      (room_made 0) refl kept_lock (omega arith) refl

mfree-Balanced_example :
    (s' : State) × (mfree (cyclic_with_dummy (parts 0)) 3 false three ≡ returned tt s')
    × Balanced s'
    × (3 ∉ s'.mem_chunks)
mfree-Balanced_example =
    mfree-Balanced (parts 0) false three 3 three-Balanced refl (inr (refl, omega arith))

uses-IsReleased_example :
    IsReleased (cyclic 0) (set_use (cyclic 0) 10 3 true three)
    × IsReleased (cyclic 0) (unset_use (cyclic 0) 3 1 three)
    × IsReleased (cyclic 0) (mfree (cyclic 0) 3 true three)
uses-IsReleased_example = uses-IsReleased (cyclic 0) 10 3 1 true three

set_use-Granted_example : Granted (parts 0) 1 true 1 (set_use (parts 0) 10 1 true three)
set_use-Granted_example =
    set_use-Granted (parts 0) 10 1 (parts-KeepsUse 0 1) three true (inl (refl, refl)) (omega arith)

-- A chunk that is used twice is given back once.
abbrev twice : State
twice = record three {
  chunks = λ i. record (three.chunks i) { status = mem_allocated_inuse_write; use_cnt = 2 };
}

unset_use-Unset_example : Unset (parts 0) 1 1 (unset_use (parts 0) 1 1 twice)
unset_use-Unset_example =
    unset_use-Unset (parts 0) 10 1 (parts-SparesUse 0 1) twice 1 (inr (inr refl, omega arith))
      (omega arith) (omega arith)

-- The limit goes below what is in use.
set_memory_limit-LimitSet_example :
    LimitSet (parts 0) 200 three (set_memory_limit (parts 0) 200 three)
set_memory_limit-LimitSet_example = set_memory_limit-LimitSet (parts 0) 200 three
