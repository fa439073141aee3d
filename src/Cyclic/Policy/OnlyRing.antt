-- ===== src/Cyclic/Policy/OnlyRing.antt =====
-- src/cyclicManagedMemory.cpp, the end of swapOut: steps that only change the scheduler's fields.
use rambrain.Prelude.{ℕ, ◌≡◌, refl, Bool, true, false, Bool-cases, inl, inr, Option, none, some}
use rambrain.Chunk.{is_resident}
use rambrain.Ring.{Ptr, Links}
use rambrain.State.{State, Cyclic, put_ring, chunk_at}
use rambrain.Effects.{Outcome, returned, thrown, stuck, undefined}
use rambrain.Cyclic.Chains.{Chain, filter_chain}
use rambrain.Cyclic.Policy.SwapOut.{
  not_allowed, put_back, put_in_place, put_filtered, start_at, regroup, settle_active, walk_back,
  restart_preemptive,
}

-- Only the scheduler's fields change, and cyclicTopoLock is free at the end.
abbrev pub OnlyRing : State → Outcome {0} Unit → Type 0
OnlyRing s (returned a s1) = (r : Cyclic) × (s1 ≡ put_ring r s)
OnlyRing s (thrown e s1) = ⊥
OnlyRing s stuck = Unit
OnlyRing s undefined = Unit

pub put_in_place-OnlyRing : (s : State) (o : Option Cyclic) → OnlyRing s (put_in_place s o)
put_in_place-OnlyRing s none = tt
put_in_place-OnlyRing s (some r) = (r, refl)

pub put_filtered-OnlyRing :
    (next before : Ptr) (s : State) (o : Option (Links × Chain × Chain))
    → OnlyRing s (put_filtered next before s o)
put_filtered-OnlyRing next before s none = tt
put_filtered-OnlyRing next before s (some f) =
    put_in_place-OnlyRing s (put_back next before f s.ring)

pub regroup-OnlyRing : (k : ℕ) (end p : Ptr) (s : State) → OnlyRing s (regroup k end p s)
unfolding regroup
regroup-OnlyRing k end p s = put_filtered-OnlyRing _ _ s (filter_chain k end (not_allowed s) _ _)

pub start_at-OnlyRing : (s : State) (o : Option Ptr) → OnlyRing s (start_at s o)
start_at-OnlyRing s none = tt
start_at-OnlyRing s (some p) = (_, refl)

pub restart-OnlyRing : (k : ℕ) (b : Bool) (s : State) → OnlyRing s (restart_preemptive k b s)
unfolding restart_preemptive
restart-OnlyRing k false s = (s.ring, refl)
restart-OnlyRing k true s = start_at-OnlyRing s (walk_back k s s.ring.active)

pub settle-OnlyRing : (s : State) → (r : Cyclic) × (settle_active s ≡ put_ring r s)
unfolding settle_active
settle-OnlyRing s = elim (Bool-cases (chunk_at s s.ring.active).preemptive_loaded) [
  | inl loaded ↦ rw loaded (_, refl)
  | inr plain ↦ elim (Bool-cases (is_resident (chunk_at s s.ring.active).status)) [
    | inl here ↦ rw (plain, here) (s.ring, refl)
    | inr away ↦ rw (plain, away) (_, refl)
  ]
]
