-- ===== src/Cyclic/Keeps.antt =====
-- schedulerRegister, schedulerDelete and touch on the whole state.
use rambrain.Prelude.{
  ℕ, ◌≡◌, ◌≢◌, ◌⊎◌, List, Distinct, [], ◌∷◌, arith, ◌∈◌, ◌∉◌, update, erase, has-erase_ne, refl,
  sym, ap, ◌∙◌,
}
use rambrain.Ring.{Ptr, null}
use rambrain.State.{State, Cyclic, put_ring}
use rambrain.Cyclic.{
  hook_in, hook_out, to_front, step_preemptive_start, scheduler_register, scheduler_delete, touch,
  count_touched, uncount_deleted, couple, claim_front,
}
use rambrain.Cyclic.Invariant.{Cycle, IsRing, IsRing-same, Scheduled}
use rambrain.Cyclic.Hooks.{hook_in-Cycle, hook_out-IsRing}
use rambrain.Cyclic.Front.{to_front-IsRing}
use rambrain.Cyclic.Steps.{
  step_preemptive_start-IsRing, step_preemptive_start-ne, count_touched-Scheduled,
  uncount_deleted-Scheduled,
}

-- Chunk `i` is known to the scheduler: its element stands in the cycle and leads back to it.
pub record Known (s : State) (xs : List Ptr) (i : ℕ) : Type 0 where
  pub member : (s.chunks i).sched_buf ∈ xs
  pub owner : s.ring.chunk (s.chunks i).sched_buf ≡ i

step_preemptive_start-chunk : (i : ℕ) (r : Cyclic) → (step_preemptive_start i r).chunk ≡ r.chunk
unfolding step_preemptive_start
step_preemptive_start-chunk i r = ground arith

to_front-chunk : (e : Ptr) (r : Cyclic) → (to_front e r).chunk ≡ r.chunk
unfolding to_front
to_front-chunk e r = ground arith

hook_out-chunk : (e : Ptr) (r : Cyclic) → (hook_out e r).chunk ≡ r.chunk
unfolding hook_out
hook_out-chunk e r = ground arith

mem_of_front : (p e : Ptr) (xs : List Ptr) → e ∈ xs → p ∈ (e ∷ erase e xs) → p ∈ xs
mem_of_front p e xs m h = ground (arith, has-erase_ne p e xs)

mem_of_erase : (p e : Ptr) (xs : List Ptr) → e ∈ xs → p ∈ erase e xs → p ∈ xs
mem_of_erase p e xs m h = ground (arith, has-erase_ne p e xs)

module _ (s : State) (xs : List Ptr) (i : ℕ) (v : Scheduled s xs) (k : Known s xs i) where
  abbrev element : Ptr
  element = (s.chunks i).sched_buf

  count_touched-buf : ((count_touched i s).chunks i).sched_buf ≡ element
  unfolding count_touched update
  count_touched-buf = ground arith

  count_touched-chunk : (count_touched i s).ring.chunk ≡ s.ring.chunk
  unfolding count_touched
  count_touched-chunk = ground arith

  uncount_deleted-buf : ((uncount_deleted i s).chunks i).sched_buf ≡ element
  unfolding uncount_deleted update
  uncount_deleted-buf = ground arith

  uncount_deleted-chunk : (uncount_deleted i s).ring.chunk ≡ s.ring.chunk
  unfolding uncount_deleted
  uncount_deleted-chunk = ground arith

  -- touch moves the element of the chunk to the front, and keeps the order of the others.
  pub touch-Scheduled : Scheduled (touch i s) (element ∷ erase element xs)
  unfolding touch
  touch-Scheduled =
      let w = count_touched-Scheduled s xs i v in
      let s1 = count_touched i s in
      rw count_touched-buf (record {
        ring =
            to_front-IsRing (step_preemptive_start i s1.ring) element xs
              (step_preemptive_start-IsRing s1.ring xs i w.ring) k.member;
        back = λ p m.
            rw
              (
                to_front-chunk element (step_preemptive_start i s1.ring),
                step_preemptive_start-chunk i s1.ring,
              )
              (w.back p (mem_of_front p element xs k.member m));
      })

  -- schedulerDelete takes it out.
  pub scheduler_delete-Scheduled : Scheduled (scheduler_delete i s) (erase element xs)
  unfolding scheduler_delete
  scheduler_delete-Scheduled =
      let w = uncount_deleted-Scheduled s xs i v in
      let s1 = uncount_deleted i s in
      rw uncount_deleted-buf (record {
        ring =
            hook_out-IsRing (step_preemptive_start i s1.ring) element xs
              (step_preemptive_start-IsRing s1.ring xs i w.ring) k.member
              (step_preemptive_start-ne s1.ring xs i element w.ring k.member
                (rw uncount_deleted-chunk k.owner)
                (λ p m o.
                  sym (v.back p m)
                  ∙ ap (λ j. (s.chunks j).sched_buf) (rw uncount_deleted-chunk at o)));
        back = λ p m.
            rw
              (
                hook_out-chunk element (step_preemptive_start i s1.ring),
                step_preemptive_start-chunk i s1.ring,
              )
              (w.back p (mem_of_erase p element xs k.member m));
      })

module _ (s : State) (xs : List Ptr) (neu : Ptr) (i : ℕ) where
  couple-IsRing : IsRing s.ring xs → IsRing (couple neu i s).ring xs
  unfolding couple
  couple-IsRing v = IsRing-same s.ring (couple neu i s).ring xs refl refl refl v.start v

  couple-back :
      Scheduled s xs
      → neu ∉ xs
      → ((p : Ptr) → p ∈ xs → s.ring.chunk p ≢ i)
      → (p : Ptr) → p ∈ (neu ∷ xs)
      → ((couple neu i s).chunks ((couple neu i s).ring.chunk p)).sched_buf ≡ p
  unfolding couple update
  couple-back v k fresh p m = ground (arith, v.back p, fresh p)

hook_in-chunk : (e : Ptr) (r : Cyclic) → (hook_in e r).chunk ≡ r.chunk
unfolding hook_in
hook_in-chunk e r = ground arith

hook_in-PointsInto :
    (neu : Ptr) (r : Cyclic) (xs : List Ptr)
    → IsRing r xs
    → (hook_in neu r).counter_active ∈ (neu ∷ xs)
unfolding hook_in
hook_in-PointsInto neu r [] v = ground (arith, v.active)
hook_in-PointsInto neu r (a ∷ xs) v = ground (arith, v.active, v.counter, v.nonnull)

hook_in-start : (neu : Ptr) (r : Cyclic) → (hook_in neu r).preemptive_start ≡ r.preemptive_start
unfolding hook_in
hook_in-start neu r = ground arith

claim_front-IsRing :
    (neu : Ptr) (s : State) (xs : List Ptr)
    → Cycle s.ring.links (neu ∷ xs)
    → Distinct (neu ∷ xs)
    → null ∉ (neu ∷ xs)
    → s.ring.counter_active ∈ (neu ∷ xs)
    → (s.ring.preemptive_start ≡ null) ⊎ (s.ring.preemptive_start ∈ xs)
    → IsRing (claim_front neu s).ring (neu ∷ xs)
unfolding claim_front
claim_front-IsRing neu s xs c d n m st = record {
  cycle = c;
  active = refl;
  distinct = d;
  nonnull = n;
  counter = ground arith;
  start = ground arith;
}

claim_front-back :
    (neu : Ptr) (s : State)
    → ((claim_front neu s).ring.chunk ≡ s.ring.chunk) × ((claim_front neu s).chunks ≡ s.chunks)
unfolding claim_front
claim_front-back neu s = (refl, refl)

-- schedulerRegister puts a new element in front of the others.
pub scheduler_register-Scheduled :
    (s : State) (xs : List Ptr) (neu : Ptr) (i : ℕ)
    → Scheduled s xs
    → neu ≢ null
    → neu ∉ xs
    → ((p : Ptr) → p ∈ xs → s.ring.chunk p ≢ i)
    → Scheduled (scheduler_register neu i s) (neu ∷ xs)
unfolding scheduler_register
scheduler_register-Scheduled s xs neu i v h k fresh =
    let s1 = couple neu i s in
    let w = couple-IsRing s xs neu i v.ring in
    let s2 = put_ring (hook_in neu s1.ring) s1 in
    let b = claim_front-back neu s2 in
    record {
      ring =
          claim_front-IsRing neu s2 xs (hook_in-Cycle neu s1.ring xs w k) (k, v.ring.distinct)
            (ground (arith, v.ring.nonnull)) (hook_in-PointsInto neu s1.ring xs w)
            (rw (hook_in-start neu s1.ring) w.start);
      back = λ p m. rw (b.0, b.1, hook_in-chunk neu s1.ring) (couple-back s xs neu i v k fresh p m);
    }
