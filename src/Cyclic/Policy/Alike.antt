-- ===== src/Cyclic/Policy/Alike.antt =====
-- src/cyclicManagedMemory.cpp, swapOut: what its rounds leave as it is.
use rambrain.Prelude.{ℕ, ◌≡◌, refl, arith, update}
use rambrain.Ring.{Ptr}
use rambrain.State.{State}
use rambrain.Cyclic.Policy.Unloading.{Unloading, uncount_preemptive, leave_chunk, unload_chunk}

-- What no round writes: the links, whose chunk an element is, and what makes a candidate.
pub record Alike (s s' : State) : Type 0 where
  pub prev : (p : Ptr) → s'.ring.links.prev p ≡ s.ring.links.prev p
  pub chunk : (p : Ptr) → s'.ring.chunk p ≡ s.ring.chunk p
  pub size : (i : ℕ) → (s'.chunks i).size ≡ (s.chunks i).size
  pub status : (i : ℕ) → (s'.chunks i).status ≡ (s.chunks i).status
  pub use_cnt : (i : ℕ) → (s'.chunks i).use_cnt ≡ (s.chunks i).use_cnt

pub Alike-refl : (s : State) → Alike s s
Alike-refl s = record {
  prev = λ p. refl;
  chunk = λ p. refl;
  size = λ i. refl;
  status = λ i. refl;
  use_cnt = λ i. refl;
}

pub unload_chunk-Alike :
    (s : State) (i : ℕ) (w : Unloading) → Alike s w.state → Alike s (unload_chunk i w).state
unfolding unload_chunk uncount_preemptive leave_chunk update
unload_chunk-Alike s i w a = record {
  prev = λ p. ground (arith, a.prev p);
  chunk = λ p. ground (arith, a.chunk p);
  size = λ j. ground (arith, a.size j);
  status = λ j. ground (arith, a.status j);
  use_cnt = λ j. ground (arith, a.use_cnt j);
}
