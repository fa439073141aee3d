-- ===== src/Cyclic/Policy.antt =====
-- src/cyclicManagedMemory.cpp: the scheduler's policy, which chunks it moves to and from the swap.
-- What it takes from elsewhere: the swap, and the products with the fractions, which are
-- floating-point numbers.
pub mod Unloading
pub mod Alike
pub mod Rounds
pub mod SwapOut
pub mod Idle
pub mod Stretch
pub mod Regroup
pub mod RegroupWhole
pub mod Together
pub mod OnlyRing
pub mod Answers
pub mod Filled
pub mod Decay
pub mod DecayRounds
pub mod Check
pub mod CheckSound
pub mod Healthy
pub mod Loading
pub mod LoadStep
pub mod LoadRounds
pub mod SwapIn
use rambrain.Prelude.{ℕ, Bool, true, false, List}
use rambrain.State.{State}
use rambrain.Effects.{Outcome}

-- The calls of managedSwap's virtual methods, with the bytes that were moved. Each of them may throw.
pub record SwapCalls : Type 0 where
  pub swap_out : List ℕ → State → Outcome ℕ
  pub swap_in : List ℕ → State → Outcome ℕ
  pub swap_in_one : ℕ → State → Outcome ℕ
  pub cleanup_cached_elements : ℕ → State → Outcome {0} Unit
  pub extend_swap_by_policy : ℕ → State → Outcome Bool

abbrev pub topo_lock : State → State
topo_lock s = record s { topo_locked = true }

abbrev pub topo_unlock : State → State
topo_unlock s = record s { topo_locked = false }

-- The numbers that are computed with the fractions, from `memory_max` and what else they depend on.
pub record Fractions : Type 0 where
  pub alloc_target : ℕ → ℕ
  pub max_preemptive : ℕ → ℕ
  pub time_to_decay : ℕ → ℕ → Bool
  pub preemptive_reduction : ℕ → ℕ
  pub preemptive_autoon : ℕ → ℕ → Bool
  pub target_readin_vol : ℕ → ℕ → ℕ → ℕ
  pub target_swapout_vol : ℕ → ℕ → ℕ → ℕ
  pub keep_free_for_user : ℕ → ℕ
  pub total_preemptive_needed : ℕ → ℕ → ℕ
