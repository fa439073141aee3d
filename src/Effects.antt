-- ===== src/Effects.antt =====
-- How the operations of src/managedMemory.cpp end, and what they call: the scheduler (virtual
-- methods) and the swap.
use rambrain.Prelude.{ℕ, Bool, true, false}
use rambrain.State.{State}

-- The exceptions, by their texts; `swap_failed` is any of the swap's own.
pub data Exception : Type 0 where
  object_bigger_than_ram too_much_used swap_full unknown_reason : Exception
  malloc_failed zero_unsets unset_unused free_in_use : Exception
  no_swap_in nothing_to_swap_out swap_refused swap_in_failed swap_failed : Exception

-- `stuck` is a loop that ran out of fuel, `undefined` a NULL pointer followed.
pub data Outcome {ℓ} (A : Type ℓ) : Type ℓ where
  returned : A → State → Outcome A
  thrown : Exception → State → Outcome A
  stuck undefined : Outcome A

abbrev pub after {ℓ} : {A B : Type ℓ} → Outcome A → (A → State → Outcome B) → Outcome B
after (returned a s) f = f a s
after (thrown e s) f = thrown e s
after stuck f = stuck
after undefined f = undefined

-- enum swapErrorCode.
pub data SwapErrorCode : Type 0 where
  err_success err_swapfull err_morethantotalram err_notenoughcandidates : SwapErrorCode

-- `wait_for_aio` is what other threads and arriving events change while waitForAIO waits.
pub record Parts : Type 0 where
  pub swap_out : ℕ → State → Outcome SwapErrorCode
  pub swap_in : ℕ → State → Outcome Bool
  pub touch : ℕ → State → State
  pub untouch : ℕ → State → Outcome {0} Unit
  pub scheduler_register : ℕ → State → State
  pub scheduler_delete : ℕ → State → State
  pub swap_delete : ℕ → State → Outcome {0} Unit
  pub invalidate_cache_for : ℕ → State → Outcome {0} Unit
  pub cleanup_cached_elements : State → Outcome {0} Unit
  pub wait_for_aio : State → Outcome {0} Unit
  pub mm_malloc : ℕ → State → ℕ

abbrev pub lock : State → State
lock s = record s { locked = true }

abbrev pub unlock : State → State
unlock s = record s { locked = false }
