-- ===== src/Cyclic/Policy/Answers.antt =====
-- src/cyclicManagedMemory.cpp, swapOut: what its codes and its exceptions come from.
use rambrain.Prelude.{
  ℕ, ◌≤◌, ◌<◌, ◌≡◌, ◌⊎◌, refl, subst, Bool, true, false, Bool-cases, inl, inr, ltb, leb, ◌&&◌, ◌==◌,
  ◌%◌, Option, none, some, length, arith,
}
use rambrain.Prelude.Words.{u32}
use rambrain.Ring.{Ptr, null}
use rambrain.State.{State, Cyclic, put_ring}
use rambrain.Effects.{
  Outcome, returned, thrown, stuck, undefined, after, unlock, Exception, nothing_to_swap_out,
  SwapErrorCode, err_success, err_swapfull, err_morethantotalram, err_notenoughcandidates,
}
use rambrain.Cyclic.Policy.{SwapCalls, topo_unlock}
use rambrain.Cyclic.Policy.Unloading.{Tally, Unloading}
use rambrain.Cyclic.Policy.SwapOut.{
  make_swap_room, mem_swap, measured, listed, unload_counted, enter, settle_active,
  restart_preemptive, verdict, count_swap_out, after_unload, unload_start, unload_list, unload_some,
  unload_if_room, swap_out,
}
use rambrain.Cyclic.Policy.OnlyRing.{OnlyRing, regroup-OnlyRing, restart-OnlyRing, settle-OnlyRing}
use rambrain.Cyclic.Policy.Idle.{Idle, unload_round-Idle, start-Idle}

-- Where swapOut stands after the first round: the state in which there is room in the swap, the bytes
-- it aims at, and what it has counted.
pub record Counted (swap : SwapCalls) (alloc_target : ℕ → ℕ) (min_size : ℕ) (s : State)
    : Type 0 where
  pub room : State
  pub tally : Tally
  pub made : make_swap_room swap min_size s ≡ returned true room
  pub counted :
      measured (mem_swap (alloc_target room.acc.memory_max) min_size room) room ≡ some tally

-- The bytes that it aims at, and what the second round lists.
abbrev pub aim : {swap : SwapCalls} {t : ℕ → ℕ} {n : ℕ} {s : State} → Counted swap t n s → ℕ
aim {swap} {t} {n} {s} c = mem_swap (t c.room.acc.memory_max) n c.room

abbrev pub second_round :
    {swap : SwapCalls} {t : ℕ → ℕ} {n : ℕ} {s : State} → Counted swap t n s → Unloading
second_round {swap} {t} {n} {s} c = listed c.tally c.room

-- The call of the swap with the list of the second round, of chunks that nobody uses, and its result.
pub record Handed (swap : SwapCalls) (alloc_target : ℕ → ℕ) (min_size : ℕ) (s : State)
    (o : Outcome ℕ) : Type 0 where
  pub before : Counted swap alloc_target min_size s
  pub idle : Idle (second_round before).state (second_round before).unloadlist
  pub call : swap.swap_out (second_round before).unloadlist (second_round before).state ≡ o

-- The swap returned `real` and `s1`, of which the end of swapOut changes the ring and the counters.
pub record Unloaded (swap : SwapCalls) (alloc_target : ℕ → ℕ) (min_size real : ℕ) (s s' : State)
    : Type 0 where
  pub after_call : State
  pub handed : Handed swap alloc_target min_size s (returned real after_call)
  pub acc : s'.acc ≡ after_call.acc
  pub chunks : s'.chunks ≡ after_call.chunks
  pub heap : s'.heap ≡ after_call.heap

-- The codes, for a call with `min_size` in the state `s`.
abbrev pub Means : SwapCalls → (ℕ → ℕ) → ℕ → State → SwapErrorCode → State → Type 0
Means swap t min_size s err_success s' =
    (real : ℕ) × Unloaded swap t min_size real s s' × (min_size ≤ real)
Means swap t min_size s err_notenoughcandidates s' =
    ((c : Counted swap t min_size s) × (c.tally.unload_size ≡ 0) × (s' ≡ topo_unlock c.room))
    ⊎ ((real : ℕ) × Unloaded swap t min_size real s s' × ((real ≡ 0) ⊎ (real < min_size)))
Means swap t min_size s err_morethantotalram s' =
    (s.acc.memory_max < min_size) × (s' ≡ topo_unlock s)
Means swap t min_size s err_swapfull s' =
    (full : State) × (make_swap_room swap min_size s ≡ returned false full)
    × (s' ≡ topo_unlock full)
    × (s.acc.swap_free < min_size)

-- An exception is swapOut's own, on an empty cycle, or one that the swap threw.
abbrev pub Throws : SwapCalls → (ℕ → ℕ) → ℕ → State → Exception → State → Type 0
Throws swap t min_size s e s' =
    ((s.ring.counter_active ≡ null) × (e ≡ nothing_to_swap_out) × (s' ≡ topo_unlock (unlock s)))
    ⊎ (make_swap_room swap min_size s ≡ thrown e s')
    ⊎ Handed swap t min_size s (thrown e s')

pub mem_swap_enough : (max min_size : ℕ) (s : State) → min_size ≤ mem_swap max min_size s
unfolding mem_swap
mem_swap_enough max min_size s = ground arith

-- How swapOut ends, from the state in which it has logged the call and locked cyclicTopoLock.
abbrev pub Answers : SwapCalls → (ℕ → ℕ) → ℕ → State → Outcome SwapErrorCode → Type 0
Answers swap t min_size s (returned code s') =
    (s'.topo_locked ≡ false) × Means swap t min_size s code s'
Answers swap t min_size s (thrown e s') = Throws swap t min_size s e s'
Answers swap t min_size s stuck = Unit
Answers swap t min_size s undefined = Unit

module _ (swap : SwapCalls) (alloc_target : ℕ → ℕ) (k : ℕ) (end : Ptr) (min_size : ℕ)
    (s : State) where
  Ends : Outcome SwapErrorCode → Type 0
  Ends o = Answers swap alloc_target min_size s o

  -- A step that only changes the ring, with what comes after it.
  Ends-after :
      (s1 : State) (o : Outcome {0} Unit) (f : Unit → State → Outcome SwapErrorCode)
      → OnlyRing s1 o
      → ((r : Cyclic) → Ends (f tt (put_ring r s1)))
      → Ends (after o f)
  unfolding Ends
  Ends-after s1 (returned a s2) f (r, e) h = rw e (h r)
  Ends-after s1 (thrown e s2) f n h = absurd n
  Ends-after s1 stuck f n h = tt
  Ends-after s1 undefined f n h = tt

  verdict-Means :
      (real goal : ℕ) (s' : State)
      → Unloaded swap alloc_target min_size real s s'
      → min_size ≤ goal
      → Means swap alloc_target min_size s (verdict min_size goal real) s'
  verdict-Means real goal s' u enough = elim (Bool-cases (leb goal real)) [
    | inl reached ↦ rw reached (real, u, ground (arith, reached, enough))
    | inr missed ↦ elim (Bool-cases (leb min_size real)) [
      | inl least ↦ rw (missed, least) (real, u, ground (arith, least))
      | inr less ↦ rw (missed, less) (inr (real, u, inr (ground (arith, less))))
    ]
  ]

  module _ (c : Counted swap alloc_target min_size s)
      (idle : Idle (second_round c).state (second_round c).unloadlist) where
    after_unload-Ends :
        (real : ℕ) (s1 : State)
        → swap.swap_out (second_round c).unloadlist (second_round c).state ≡ returned real s1
        → Ends (after_unload k end min_size (aim c) (second_round c) real s1)
    unfolding after_unload Ends
    after_unload-Ends real s1 call =
        let goal = aim c in
        let v = second_round c in
        let enough : min_size ≤ goal =
          mem_swap_enough (alloc_target c.room.acc.memory_max) min_size c.room in
        let handed : Handed swap alloc_target min_size s (returned real s1) = record {
          before = c;
          idle = idle;
          call = call;
        } in
        let restart = λ (x : State). restart_preemptive k v.reset_preemptive_start x in
        elim (Bool-cases (ltb real goal && real == 0)) [
          | inl nothing ↦ rw nothing (
            refl,
            inr (
              real,
              record { after_call = s1; handed = handed; acc = refl; chunks = refl; heap = refl },
              inl (ground (arith, nothing)),
            ),
          )
          | inr something ↦ rw something (
              Ends-after s1 _ _ (regroup-OnlyRing k end _ s1) (λ r.
                let settled = settle-OnlyRing (put_ring r s1) in
                Ends-after (put_ring settled.0 s1) _ _
                  (subst (λ (x : State). OnlyRing x (restart (settle_active (put_ring r s1))))
                    settled.1
                    (restart-OnlyRing k v.reset_preemptive_start (settle_active (put_ring r s1))))
                  (λ r2.
                    let u : Unloaded swap alloc_target min_size real s
                        (count_swap_out real (topo_unlock (put_ring r2 s1))) =
                      record {
                        after_call = s1;
                        handed = handed;
                        acc = refl;
                        chunks = refl;
                        heap = refl;
                      } in
                    (refl, verdict-Means real goal _ u enough))))
        ]

    -- The swap's result, whichever it is.
    swapped-Ends :
        (o : Outcome ℕ)
        → swap.swap_out (second_round c).unloadlist (second_round c).state ≡ o
        → Ends (after o (after_unload k end min_size (aim c) (second_round c)))
    unfolding Ends
    swapped-Ends (returned real s1) call = after_unload-Ends real s1 call
    swapped-Ends (thrown e s1) call = inr (inr (record { before = c; idle = idle; call = call }))
    swapped-Ends stuck call = tt
    swapped-Ends undefined call = tt

  unload_counted-Ends :
      (room : State)
      → make_swap_room swap min_size s ≡ returned true room
      → (o : Option Tally)
      → measured (mem_swap (alloc_target room.acc.memory_max) min_size room) room ≡ o
      → Ends (
          unload_counted swap k end min_size
            (mem_swap (alloc_target room.acc.memory_max) min_size room)
            room
            o)
  unfolding unload_counted unload_list Ends
  unload_counted-Ends room made none e = tt
  unload_counted-Ends room made (some t) e =
      let v = listed t room in
      let c : Counted swap alloc_target min_size s = record {
        room = room;
        tally = t;
        made = made;
        counted = e;
      } in
      let idle =
        unload_round-Idle (length room.mem_chunks % u32) t.unload_size room.acc.swap_free
          (unload_start room) (start-Idle room) in
      elim (Bool-cases (t.unload_size == 0)) [
        | inl nothing ↦ rw nothing (refl, inl (c, ground (arith, nothing), refl))
        | inr something ↦ elim (Bool-cases (length v.unloadlist == t.unload)) [
          | inr unfilled ↦ rw (something, unfilled) tt
          | inl filled ↦
              rw (something, filled) (swapped-Ends c idle (swap.swap_out v.unloadlist v.state) refl)
        ]
      ]

  no_room :
      (full : State)
      → make_swap_room swap min_size s ≡ returned false full
      → s.acc.swap_free < min_size
  unfolding make_swap_room
  no_room full e = elim (Bool-cases (leb min_size s.acc.swap_free)) [
    | inl fits ↦ absurd (ground (arith, fits, e))
    | inr short ↦ ground (arith, short)
  ]

  if_room-Ends :
      (o : Outcome Bool)
      → make_swap_room swap min_size s ≡ o
      → Ends (after o (unload_if_room swap alloc_target k end min_size))
  unfolding Ends unload_if_room unload_some
  if_room-Ends (returned true room) made =
      unload_counted-Ends room made
        (measured (mem_swap (alloc_target room.acc.memory_max) min_size room) room) refl
  if_room-Ends (returned false full) made = (refl, (full, made, refl, no_room full made))
  if_room-Ends (thrown e s') made = inr (inl made)
  if_room-Ends stuck made = tt
  if_room-Ends undefined made = tt

-- If swapOut returns, cyclicTopoLock is free and the code says what happened. Success: the swap was
-- handed the list of the second round, of chunks that nobody used, and moved `min_size` bytes at
-- least. Not enough candidates: the first round counted no byte, or the swap moved none or fewer than
-- `min_size` of that list. More than total RAM: `min_size` is above the limit. Swap full: the free
-- swap was less than `min_size`, and neither clean-up nor extension made the room. With either of
-- the first two after a call of the swap, the accounts, chunks and memory are as that call left them.
-- If swapOut throws, the cycle was empty and both mutexes are free, or the exception is the one that
-- the making of room or that call of the swap threw, in the state in which it left everything.
pub swap_out-Answers :
    (swap : SwapCalls) (alloc_target : ℕ → ℕ) (k : ℕ) (end : Ptr) (min_size : ℕ) (s : State)
    → Answers swap alloc_target min_size
        (enter min_size s)
        (swap_out swap alloc_target k end min_size s)
unfolding swap_out Ends
swap_out-Answers swap alloc_target k end min_size s =
    let s1 = enter min_size s in
    elim (Bool-cases (s1.ring.counter_active == null)) [
      | inl empty ↦ rw empty (inl (ground (arith, empty), refl, refl))
      | inr some_chunk ↦ elim (Bool-cases (ltb s1.acc.memory_max min_size)) [
        | inl huge ↦ rw (some_chunk, huge) (refl, (ground (arith, huge), refl))
        | inr fits ↦
            rw (some_chunk, fits)
              (if_room-Ends swap alloc_target k end min_size s1 (make_swap_room swap min_size s1)
                refl)
      ]
    ]
