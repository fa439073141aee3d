-- ===== src/Manager/Locks.antt =====
-- src/managedMemory.cpp: where `stateChangeMutex` is given back, returns and exceptions alike.
use rambrain.Prelude.{
  ℕ, zero, suc, ◌≡◌, ◌⊎◌, refl, Bool, true, false, Bool-cases, inl, inr, not, ◌&&◌, ◌||◌, ◌==◌, ltb,
  if◌then◌else◌, has,
}
use rambrain.Chunk.{
  has_flag, mem_allocated_inuse, mem_allocated, MemoryStatus, is_status, mem_swapin, mem_swapout,
  mem_swapped, mem_root, mem_allocated_inuse_read, mem_allocated_inuse_write,
}
use rambrain.State.{State}
use rambrain.Effects.{
  Outcome, Exception, returned, thrown, stuck, undefined, after, Parts, lock, unlock,
}
use rambrain.Manager.{mfree, discard, release_ram}
use rambrain.Manager.Use.{
  set_use, unset_use, switch_use, grant, hand_out, await_use, fetch_use, wait_while, fetch,
  after_swapout, prepare_use, wait_for_swapin, wait_for_swapout, set_status,
}

-- A call of the scheduler or the swap threw the exception and left the state.
pub data Threw (p : Parts) (e : Exception) (s : State) : Type 0 where
  by_swap_in : (i : ℕ) (t : State) → p.swap_in i t ≡ thrown e s → Threw p e s
  by_untouch : (i : ℕ) (t : State) → p.untouch i t ≡ thrown e s → Threw p e s
  by_wait : (t : State) → p.wait_for_aio t ≡ thrown e s → Threw p e s
  by_invalidate : (i : ℕ) (t : State) → p.invalidate_cache_for i t ≡ thrown e s → Threw p e s
  by_swap_delete : (i : ℕ) (t : State) → p.swap_delete i t ≡ thrown e s → Threw p e s

-- The mutex is free, or an exception of a call passes through in the state in which it was thrown.
abbrev pub IsReleased {ℓ} : {A : Type ℓ} → Parts → Outcome A → Type 0
IsReleased p (returned a s) = s.locked ≡ false
IsReleased p (thrown e s) = (s.locked ≡ false) ⊎ Threw p e s
IsReleased p stuck = Unit
IsReleased p undefined = Unit

-- A part of an operation, which throws nothing of its own.
abbrev IsPassing {ℓ} : {A : Type ℓ} → Parts → Outcome A → Type 0
IsPassing p (returned a s) = Unit
IsPassing p (thrown e s) = Threw p e s
IsPassing p stuck = Unit
IsPassing p undefined = Unit

module _ (p : Parts) where
  IsReleased-after {ℓ} :
      {A B : Type ℓ} (o : Outcome A) (f : A → State → Outcome B)
      → IsPassing p o
      → ((a : A) (s : State) → IsReleased p (f a s))
      → IsReleased p (after o f)
  IsReleased-after (returned a s) f h g = g a s
  IsReleased-after (thrown e s) f h g = inr h
  IsReleased-after stuck f h g = tt
  IsReleased-after undefined f h g = tt

  IsPassing-after {ℓ} :
      {A B : Type ℓ} (o : Outcome A) (f : A → State → Outcome B)
      → IsPassing p o
      → ((a : A) (s : State) → IsPassing p (f a s))
      → IsPassing p (after o f)
  IsPassing-after (returned a s) f h g = g a s
  IsPassing-after (thrown e s) f h g = h
  IsPassing-after stuck f h g = tt
  IsPassing-after undefined f h g = tt

  swap_in-IsPassing : (i : ℕ) (t : State) (o : Outcome Bool) → p.swap_in i t ≡ o → IsPassing p o
  swap_in-IsPassing i t (returned b s) e = tt
  swap_in-IsPassing i t (thrown x s) e = by_swap_in i t e
  swap_in-IsPassing i t stuck e = tt
  swap_in-IsPassing i t undefined e = tt

  -- A call that returns nothing.
  unit-IsPassing :
      (o : Outcome {0} Unit)
      → ((e : Exception) (s : State) → o ≡ thrown e s → Threw p e s)
      → IsPassing p o
  unit-IsPassing (returned u s) h = tt
  unit-IsPassing (thrown e s) h = h e s refl
  unit-IsPassing stuck h = tt
  unit-IsPassing undefined h = tt

  wait_while-IsPassing :
      (fuel : ℕ) (st : MemoryStatus) (i : ℕ) (s : State) → IsPassing p (wait_while p fuel st i s)
  wait_while-IsPassing zero st i s = tt
  wait_while-IsPassing (suc fuel) st i s = elim (Bool-cases (is_status (s.chunks i).status st)) [
    | inl same ↦ rw same (
        IsPassing-after (p.wait_for_aio s) _
          (unit-IsPassing (p.wait_for_aio s) (λ e t h. by_wait s h))
          (λ u t. wait_while-IsPassing fuel st i t))
    | inr other ↦ rw other tt
  ]

  wait_for_swapin-IsPassing : (fuel i : ℕ) (s : State) → IsPassing p (wait_for_swapin p fuel i s)
  unfolding wait_for_swapin
  wait_for_swapin-IsPassing fuel i s =
      let st = (s.chunks i).status in
      elim (Bool-cases (is_status st mem_swapout || is_status st mem_swapped)) [
        | inl out ↦ rw out tt
        | inr going ↦
            rw going (IsPassing-after _ _ (wait_while-IsPassing fuel mem_swapin i s) (λ u t. tt))
      ]

  wait_for_swapout-IsPassing : (fuel i : ℕ) (s : State) → IsPassing p (wait_for_swapout p fuel i s)
  unfolding wait_for_swapout
  wait_for_swapout-IsPassing fuel i s =
      let st = (s.chunks i).status in
      elim (Bool-cases (is_status st mem_swapin || has_flag st mem_allocated)) [
        | inl there ↦ rw there tt
        | inr going ↦
            rw going (IsPassing-after _ _ (wait_while-IsPassing fuel mem_swapout i s) (λ u t. tt))
      ]

  fetch-IsPassing : (i : ℕ) (s : State) → IsPassing p (fetch p i s)
  fetch-IsPassing i s = swap_in-IsPassing i _ (fetch p i s) refl

  after_swapout-IsPassing : (i : ℕ) (b : Bool) (s : State) → IsPassing p (after_swapout p i b s)
  after_swapout-IsPassing i true s = fetch-IsPassing i s
  after_swapout-IsPassing i false s = tt

  prepare_use-IsPassing : (fuel i : ℕ) (s : State) → IsPassing p (prepare_use p fuel i s)
  unfolding prepare_use
  prepare_use-IsPassing fuel i s = elim (Bool-cases (is_status (s.chunks i).status mem_swapout)) [
    | inl leaving ↦
        rw leaving
          (IsPassing-after _ _ (wait_for_swapout-IsPassing fuel i s) (after_swapout-IsPassing i))
    | inr other ↦ elim (Bool-cases (is_status (s.chunks i).status mem_swapped)) [
      | inl out ↦ rw (other, out) (fetch-IsPassing i s)
      | inr here ↦ rw (other, here) tt
    ]
  ]

  grant-IsReleased : (i : ℕ) (w : Bool) (s : State) → IsReleased p (grant p i w s)
  unfolding grant hand_out
  grant-IsReleased i true s =
      let t = set_status i mem_allocated_inuse_write s in
      IsReleased-after (p.invalidate_cache_for i t) _
        (unit-IsPassing (p.invalidate_cache_for i t) (λ e u h. by_invalidate i t h)) (λ u v. refl)
  grant-IsReleased i false s = refl

  await_use-IsReleased : (fuel i : ℕ) (w : Bool) (s : State) → IsReleased p (await_use p fuel i w s)
  unfolding await_use
  await_use-IsReleased fuel i w s =
      IsReleased-after _ _ (wait_for_swapin-IsPassing fuel i s) λ b s1.
        elim (Bool-cases (not b && not (has_flag (s1.chunks i).status mem_allocated))) [
          | inl failed ↦ rw failed refl
          | inr there ↦ rw there (grant-IsReleased i w (set_status i mem_allocated_inuse_read s1))
        ]

  fetched-IsReleased :
      (fuel i : ℕ) (w b : Bool) (s : State)
      → IsReleased p (if b then await_use p fuel i w s else returned false (unlock s))
  fetched-IsReleased fuel i w true s = await_use-IsReleased fuel i w s
  fetched-IsReleased fuel i w false s = refl

  fetch_use-IsReleased : (fuel i : ℕ) (w : Bool) (s : State) → IsReleased p (fetch_use p fuel i w s)
  fetch_use-IsReleased fuel i w s =
      IsReleased-after _ _ (prepare_use-IsPassing fuel i s) (fetched-IsReleased fuel i w)

  switch_use-IsReleased :
      (fuel i : ℕ) (w : Bool) (st : MemoryStatus) (s : State)
      → IsReleased p (switch_use p fuel i w st s)
  unfolding hand_out
  switch_use-IsReleased fuel i w mem_swapout s = fetch_use-IsReleased fuel i w s
  switch_use-IsReleased fuel i w mem_swapped s = fetch_use-IsReleased fuel i w s
  switch_use-IsReleased fuel i w mem_swapin s = await_use-IsReleased fuel i w s
  switch_use-IsReleased fuel i w mem_allocated s = grant-IsReleased i w _
  switch_use-IsReleased fuel i w mem_allocated_inuse s = grant-IsReleased i w s
  switch_use-IsReleased fuel i w mem_allocated_inuse_read s = grant-IsReleased i w s
  switch_use-IsReleased fuel i w mem_allocated_inuse_write s = refl
  switch_use-IsReleased fuel i w mem_root s = refl

  untouched-IsReleased :
      (i : ℕ) (t : State) (o : Outcome {0} Unit)
      → p.untouch i t ≡ o
      → IsReleased p (after o (λ (u : Unit) (s : State). returned true (unlock s)))
  untouched-IsReleased i t (returned u s) e = refl
  untouched-IsReleased i t (thrown x s) e = inr (by_untouch i t e)
  untouched-IsReleased i t stuck e = tt
  untouched-IsReleased i t undefined e = tt

  unset_use-IsReleased : (i n : ℕ) (s : State) → IsReleased p (unset_use p i n s)
  unfolding unset_use
  unset_use-IsReleased i n s = elim (Bool-cases (n == 0)) [
    | inl zero_uses ↦ rw zero_uses (inl refl)
    | inr some ↦ elim (Bool-cases (ltb (s.chunks i).use_cnt n)) [
      | inl few ↦ rw (some, few) (inl refl)
      | inr enough ↦ rw (some, enough) (untouched-IsReleased i _ _ refl)
    ]
  ]

  discard-IsReleased : (i : ℕ) (b : Bool) (s : State) → IsReleased p (discard p i b s)
  unfolding discard
  discard-IsReleased i b s =
      let t = release_ram p i b s in
      elim (Bool-cases ((t.chunks i).swap_buf == 0)) [
        | inl none ↦ rw none refl
        | inr some ↦ rw some (
            IsReleased-after (p.swap_delete i t) _
              (unit-IsPassing (p.swap_delete i t) (λ e u h. by_swap_delete i t h)) (λ u v. refl))
      ]

  mfree-IsReleased : (i : ℕ) (b : Bool) (s : State) → IsReleased p (mfree p i b s)
  unfolding mfree
  mfree-IsReleased i b s = elim (Bool-cases (has i s.mem_chunks)) [
    | inl known ↦ elim (Bool-cases (has_flag (s.chunks i).status mem_allocated_inuse)) [
      | inl used ↦ rw (known, used) (inl refl)
      | inr unused ↦ rw (known, unused) (discard-IsReleased i b (lock s))
    ]
    | inr unknown ↦ rw unknown tt
  ]

  -- Where setUse, unsetUse or mfree returns, the mutex is free. Where one of them throws, the mutex is
  -- free too, or the exception is one that a call of the scheduler or the swap threw, and the state,
  -- mutex included, is as that call left it.
  pub uses-IsReleased :
      (fuel i n : ℕ) (b : Bool) (s : State)
      → IsReleased p (set_use p fuel i b s)
        × IsReleased p (unset_use p i n s)
        × IsReleased p (mfree p i b s)
  unfolding set_use
  uses-IsReleased fuel i n b s = (
    switch_use-IsReleased fuel i b (s.chunks i).status _,
    unset_use-IsReleased i n s,
    mfree-IsReleased i b s,
  )
