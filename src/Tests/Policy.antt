-- ===== src/Tests/Policy.antt =====
-- The scheduler's policy on the cycle of three chunks, with the dummy swap.
use rambrain.Prelude.{
  ◌∈◌, last, ◌≢◌, ◌++◌, ℕ, ◌≡◌, ◌≤◌, ◌⊎◌, refl, true, false, List, [], ◌∷◌, arith, some, ◌*◌, ◌/◌,
  ◌%◌, ◌==◌, if◌then◌else◌, length, update,
}
use rambrain.Prelude.Words.{u32, add64}
use rambrain.Ring.{Ptr, null, mutual_connect}
use rambrain.State.{State, put_ring, checked}
use rambrain.Effects.{lock, Outcome, returned, thrown, stuck, undefined, SwapErrorCode}
use rambrain.Swap.Dummy
use rambrain.Cyclic.{backlog_add}
use rambrain.Cyclic.Chains.{filter_loop, filter_step, separate_this, filter_start, last_cut, tie_up}
use rambrain.Swap.Dummy.{swap_in, swap_out_all, swap_in_all}
use rambrain.Cyclic.Policy.{SwapCalls, topo_lock}
use rambrain.Cyclic.Policy.Unloading.{Tally}
use rambrain.Cyclic.Policy.Rounds.{SizesFit, Positive}
use rambrain.Cyclic.Policy.SwapOut.{
  unload_start, not_allowed, regroup, swap_out, enter, measured, listed,
}
use rambrain.Chunk.{mem_swapped, is_out}
use rambrain.Cyclic.Policy.Together.{Together, unloaded-Together}
use rambrain.Cyclic.Policy.Unloading.{unload_round}
use rambrain.Ring.Linked.{Linked}
use rambrain.Cyclic.Chains.Rounds.{select, reject}
use rambrain.Cyclic.Chains.Results.{Fresh}
use rambrain.Cyclic.Invariant.{Cycle}
use rambrain.Cyclic.Policy.RegroupWhole.{regroup-Cycle}
use rambrain.Cyclic.Policy.Regroup.{regroup-Linked}
use rambrain.Cyclic.Policy.Answers.{Answers, swap_out-Answers}
use rambrain.Cyclic.Policy.Filled.{unload_round_filled, unload_round_inside}
use rambrain.Cyclic.Policy.Decay.{Decaying, decay_walk, list_walk, decay_start}
use rambrain.Cyclic.Policy.DecayRounds.{decay_walks_agree}
use rambrain.Cyclic.Policy.Check.{check_cycle, leave_check}
use rambrain.Cyclic.Policy.Healthy.{Healthy, check_cycle-Healthy}
use rambrain.Cyclic.Policy.Loading.{
  Bounds, Selecting, Listing, select_loaded, list_loaded, no_volume,
}
use rambrain.Cyclic.Policy.LoadRounds.{load_walks_agree}
use rambrain.Tests.Scheduler.{three}

abbrev pub with_state : ℕ × State → Outcome ℕ
with_state (n, s) = returned n s

abbrev pub dummy : SwapCalls
dummy = record {
  swap_out = λ is s. with_state (swap_out_all (λ h n a. 5000) is s);
  swap_in = λ is s. with_state (swap_in_all (λ h n a. 5000) is s);
  swap_in_one = λ i s. with_state (swap_in (λ h n a. 5000) i s);
  cleanup_cached_elements = λ n s. returned tt s;
  extend_swap_by_policy = λ n s. returned false s;
}

-- What a run of swapOut leaves: the pointers and the RAM in use.
abbrev left_by : Outcome SwapErrorCode → ℕ × ℕ × ℕ × ℕ
left_by (returned c s) =
    (s.ring.active, s.ring.counter_active, s.ring.preemptive_start, s.acc.memory_used)
left_by (thrown e s) = (0, 0, 0, 0)
left_by stuck = (0, 0, 0, 1)
left_by undefined = (0, 0, 0, 2)

-- swapOut of 150 bytes takes the chunk of 200 bytes that was loaded preemptively.
swap_out_run : left_by (swap_out dummy (λ m. m * 8 / 10) 5 99 150 three) ≡ (11, 11, 0, 100)
unfolding swap_out backlog_add Dummy.swap_out update filter_loop filter_step separate_this
    filter_start mutual_connect last_cut tie_up
swap_out_run = refl

-- A chunk of 0 bytes is counted, but not listed: the swap would follow an unwritten pointer.
abbrev with_empty : State
with_empty = record three { chunks = update three.chunks 1 (record (three.chunks 1) { size = 0 }) }

unfilled_run : left_by (swap_out dummy (λ m. m * 8 / 10) 5 99 250 with_empty) ≡ (0, 0, 0, 2)
unfolding swap_out backlog_add update
unfilled_run = refl

swap_out-Answers_example :
    Answers dummy
      (λ m. m * 8 / 10)
      150
      (enter 150 three)
      (swap_out dummy (λ m. m * 8 / 10) 5 99 150 three)
swap_out-Answers_example = swap_out-Answers dummy (λ m. m * 8 / 10) 5 99 150 three

three-SizesFit : SizesFit 700 three
three-SizesFit p = ground arith

three-Positive : Positive three
three-Positive p = ground arith

unload_round_filled_example :
    (t : Tally) × (measured 250 three ≡ some t)
    × ((listed t three).unload_size2 ≡ t.unload_size)
    × (length (listed t three).unloadlist ≡ t.unload)
unload_round_filled_example =
    unload_round_filled 250 three (omega arith) (omega arith) three-SizesFit three-Positive

unload_round_inside_example :
    (t : Tally) × (measured 250 three ≡ some t)
    × ((listed t three).unload_size2 ≡ t.unload_size)
    × (length (listed t three).unloadlist ≤ t.unload)
unload_round_inside_example =
    unload_round_inside 250 three (omega arith) (omega arith) three-SizesFit

decay_walks_agree_example :
    (d : Decaying) × (decay_walk 5 150 700 (decay_start three) ≡ some d)
    × (q : ℕ × List ℕ) × (list_walk 5 150 700 d.state d.cur d.state.ring.preemptive_start (0, [])
        ≡ some q)
    × (d.bytesselected ≡ q.0)
    × (length q.1 ≡ d.chunks)
decay_walks_agree_example =
    decay_walks_agree 5 150 700 three (13 ∷ []) (refl, refl, (refl, refl)) (refl, (refl, tt)) refl
      (omega arith) (omega arith)

-- The swapped chunk stands behind counterActive, and the one loaded preemptively behind that.
abbrev in_order : State
in_order = record three {
  ring = record three.ring {
    links = record {
      next = λ p. if p == 11 then 13 else if p == 13 then 12 else 11;
      prev = λ p. if p == 11 then 12 else if p == 12 then 13 else 11;
    };
    counter_active = 11;
  };
}

abbrev approved : State
approved = leave_check (put_ring (backlog_add checked 0 in_order.ring) (topo_lock (lock in_order)))

check_cycle_run : check_cycle 5 in_order ≡ returned true approved
unfolding check_cycle add64 backlog_add
check_cycle_run = refl

check_cycle-Healthy_example :
    ((in_order.ring.active ≡ null)
      × (in_order.ring.counter_active ≡ null)
      × (length in_order.mem_chunks % u32 ≡ 0))
    ⊎ ((xs : List Ptr) × Healthy in_order xs)
check_cycle-Healthy_example = check_cycle-Healthy 5 in_order approved check_cycle_run

abbrev room : Bounds
room = record {
  max_preemptive = 100;
  target_readin_vol = 400;
  memory_used = 300;
  memory_max = 1000;
}

load_walks_agree_example :
    let start : Selecting = record {
      state = three;
      cur = 13;
      volume = no_volume;
      number_selected = 0;
    } in
    let listing : Listing = record {
      read_el = 13;
      volume = no_volume;
      chunks = [];
      active_in_list = false;
    } in
    (d : Selecting) × (r : Listing) × (select_loaded 5 room 11 start ≡ some d)
    × (list_loaded 5 room 11 d.state listing ≡ some r)
    × (r.volume ≡ d.volume)
    × (length r.chunks ≡ d.number_selected)
    × (r.read_el ≡ d.cur)
load_walks_agree_example =
    load_walks_agree 5 room 11 13 (12 ∷ []) three (refl, refl) (omega arith) (omega arith)

-- The second chunk has gone to the swap.
abbrev taken : State
taken = record three {
  chunks = update three.chunks 2 (record (three.chunks 2) { status = mem_swapped });
}

cycle-Fresh : Fresh 99 (13 ∷ 11 ∷ 12 ∷ [])
cycle-Fresh = record { apart = λ y. ground arith; nonnull = refl }

taken-some_gone : select (not_allowed taken) (11 ∷ 12 ∷ []) ≢ []
unfolding separate_this update
taken-some_gone e = absurd (ground (arith, e))

regroup-Linked_example :
    let kept = reject (not_allowed taken) (11 ∷ 12 ∷ []) in
    let gone = select (not_allowed taken) (11 ∷ 12 ∷ []) in
    (s' : State) × (regroup 5 99 11 taken ≡ returned tt s')
    × Linked s'.ring.links 13 (([] ++ kept) ++ gone) 13
    × (s'.ring.counter_active ≡ last 13 ([] ++ kept))
regroup-Linked_example =
    regroup-Linked 5 99 taken 13 [] 11 (12 ∷ []) refl cycle-Fresh
      (refl, refl, (refl, refl, (refl, refl))) (omega arith) taken-some_gone

whole-some_gone : select (not_allowed taken) (13 ∷ 11 ∷ 12 ∷ []) ≢ []
unfolding separate_this update
whole-some_gone e = absurd (ground (arith, e))

regroup-Cycle_example :
    let kept = reject (not_allowed taken) (13 ∷ 11 ∷ 12 ∷ []) in
    let gone = select (not_allowed taken) (13 ∷ 11 ∷ 12 ∷ []) in
    (s' : State) × (regroup 5 99 13 taken ≡ returned tt s')
    × Cycle s'.ring.links (kept ++ gone)
    × (s'.ring.counter_active ≡ last taken.ring.active kept)
regroup-Cycle_example =
    regroup-Cycle 5 99 taken 13 (11 ∷ 12 ∷ []) refl cycle-Fresh
      (refl, refl, (refl, refl, (refl, refl))) (omega arith) whole-some_gone

abbrev one_chunk : Tally
one_chunk = record { unload_size = 200; unload = 1 }

abbrev after_swap : State
after_swap =
    (swap_out_all (λ h n a. 5000) (listed one_chunk three).unloadlist
      (listed one_chunk three).state).1

after_swap_call :
    dummy.swap_out (listed one_chunk three).unloadlist (listed one_chunk three).state
    ≡ returned 200 after_swap
unfolding Dummy.swap_out update unload_round unload_start
after_swap_call = refl

after_swap_ring : after_swap.ring ≡ (listed one_chunk three).state.ring
unfolding Dummy.swap_out update unload_round unload_start
after_swap_ring = refl

second_listed : 2 ∈ (listed one_chunk three).unloadlist
unfolding update unload_round unload_start
second_listed = refl

second_out : is_out (after_swap.chunks 2).status ≡ true
unfolding Dummy.swap_out update unload_round unload_start
second_out = refl

three-Fresh : Fresh 99 (12 ∷ 13 ∷ 11 ∷ [])
three-Fresh = record { apart = λ y. ground arith; nonnull = refl }

unloaded-Together_example :
    Together 5 99
      (after_swap.ring.links.next (listed one_chunk three).from_pos)
      after_swap
      (12 ∷ 13 ∷ 11 ∷ [])
unloaded-Together_example =
    unloaded-Together 5 99 dummy one_chunk three after_swap 200 12 (13 ∷ 11 ∷ []) 2 refl
      (refl, refl, (refl, refl, (refl, refl))) three-Fresh (omega arith) (omega arith) (omega arith)
      (omega arith) after_swap_call after_swap_ring second_listed second_out
