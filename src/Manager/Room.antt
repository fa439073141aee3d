-- ===== src/Manager/Room.antt =====
-- src/managedMemory.cpp: how ensureEnoughSpace ends.
use rambrain.Prelude.{
  ℕ, zero, suc, ◌<◌, ◌≡◌, ◌⊎◌, refl, Bool, true, false, Bool-cases, inl, inr, not, ◌||◌, ltb,
  Option, ◌==◌, if◌then◌else◌,
}
use rambrain.Prelude.Words.{add64, sub64}
use rambrain.State.{State}
use rambrain.Effects.{
  Outcome, returned, thrown, stuck, undefined, after, Parts, SwapErrorCode, unlock,
}
use rambrain.Manager.{
  Round, finished, again, ensure_from, ensure_round, judge_swap_out, linger, lacks_room, arrived,
  is_success, reason,
}

why_done : (l b : Bool) → (not l || b) ≡ true → (b ≡ true) ⊎ (l ≡ false)
why_done false b h = inr refl
why_done true b h = inl h

-- What a returned result says.
abbrev pub HasRoom : ℕ → Option ℕ → Outcome Bool → Type 0
HasRoom sizereq ori (returned b s) =
    (b ≡ arrived ori s) × ((b ≡ true) ⊎ (lacks_room sizereq s ≡ false))
HasRoom sizereq ori (thrown e s) = Unit
HasRoom sizereq ori stuck = Unit
HasRoom sizereq ori undefined = Unit

-- There is neither room nor the chunk, and what is about to become free does not make the room.
pub record MustSwap (sizereq : ℕ) (ori : Option ℕ) (s : State) : Type 0 where
  pub lack : lacks_room sizereq s ≡ true
  pub away : arrived ori s ≡ false
  pub more : s.acc.memory_max < sub64 (add64 sizereq s.acc.memory_used) s.acc.memory_tobefreed

-- The bytes for which ensureEnoughSpace calls swapOut.
abbrev pub missing : ℕ → State → ℕ
missing sizereq s =
    let a = s.acc in sub64 (sub64 sizereq (sub64 a.memory_max a.memory_used)) a.memory_tobefreed

-- What the end of a round does: nothing with room, else a wait that returns.
abbrev pub Lingered : Parts → ℕ → State → State → Type 0
Lingered p sizereq s t =
    ((lacks_room sizereq s ≡ false) × (t ≡ s))
    ⊎ ((lacks_room sizereq s ≡ true) × (p.wait_for_aio s ≡ returned tt t))

module _ (p : Parts) (sizereq : ℕ) (ori : Option ℕ) where
  -- Room, or the chunk.
  abbrev Done : State → Type 0
  Done s = (lacks_room sizereq s ≡ false) ⊎ (arrived ori s ≡ true)

  -- A round never finishes without room or the chunk.
  abbrev RoundHasRoom : Outcome Round → Type 0
  RoundHasRoom (returned (finished b) s) = HasRoom sizereq ori (returned b s)
  RoundHasRoom (returned (again c) s) = Unit
  RoundHasRoom (thrown e s) = Unit
  RoundHasRoom stuck = Unit
  RoundHasRoom undefined = Unit

  after_unit :
      (o : Outcome {0} Unit) (f : State → Outcome Round)
      → ((s : State) → RoundHasRoom (f s))
      → RoundHasRoom (after o (λ (u : Unit) (s : State). f s))
  after_unit (returned u s) f h = h s
  after_unit (thrown e s) f h = tt
  after_unit stuck f h = tt
  after_unit undefined f h = tt

  after_code :
      (o : Outcome SwapErrorCode) (f : SwapErrorCode → State → Outcome Round)
      → ((e : SwapErrorCode) (s : State) → RoundHasRoom (f e s))
      → RoundHasRoom (after o f)
  after_code (returned e s) f h = h e s
  after_code (thrown e s) f h = tt
  after_code stuck f h = tt
  after_code undefined f h = tt

  either :
      (b : Bool) (x y : Outcome Round)
      → RoundHasRoom x
      → RoundHasRoom y
      → RoundHasRoom (if b then x else y)
  either true x y hx hy = hx
  either false x y hx hy = hy

  linger-HasRoom : (c : Bool) (s : State) → RoundHasRoom (linger p sizereq c s)
  linger-HasRoom c s =
      either (lacks_room sizereq s) _ _ (after_unit (p.wait_for_aio s) _ (λ t. tt)) tt

  judge-HasRoom :
      (c : Bool) (e : SwapErrorCode) (s : State) → RoundHasRoom (judge_swap_out p sizereq c e s)
  unfolding judge_swap_out
  judge-HasRoom c e s =
      either (is_success e || not (s.acc.memory_tobefreed == 0)) _ _ (linger-HasRoom c s) (
        either (not c) _ _ (after_unit (p.cleanup_cached_elements s) _ (λ t. tt)) (
          either s.out_of_swap_is_fatal (thrown (reason e) (unlock s)) _ tt
            (after_unit (p.cleanup_cached_elements s) (linger p sizereq c) (linger-HasRoom c))))

  round-HasRoom : (c : Bool) (s : State) → RoundHasRoom (ensure_round p sizereq ori c s)
  unfolding ensure_round
  round-HasRoom c s = elim (Bool-cases (not (lacks_room sizereq s) || arrived ori s)) [
    | inl done ↦ rw done (refl, why_done (lacks_room sizereq s) (arrived ori s) done)
    | inr on ↦ rw on (
        either
          (ltb s.acc.memory_max (sub64 (add64 sizereq s.acc.memory_used) s.acc.memory_tobefreed)) _
          _
          (after_code (p.swap_out (missing sizereq s) s) (judge_swap_out p sizereq c)
            (judge-HasRoom c))
          (linger-HasRoom c s))
  ]

  follow :
      (k : ℕ) (r : Outcome Round)
      → RoundHasRoom r
      → ((c : Bool) (s1 : State) → HasRoom sizereq ori (ensure_from p k sizereq ori c s1))
      → HasRoom sizereq ori (
          after r λ x s1. elim x [
            | finished b ↦ returned b s1
            | again c ↦ ensure_from p k sizereq ori c s1
          ])
  follow k (returned (again c) s1) on go = go c s1
  follow k (returned (finished b) s1) on go = on
  follow k (thrown e s1) on go = tt
  follow k stuck on go = tt
  follow k undefined on go = tt

  pub ensure_from-HasRoom :
      (k : ℕ) (c : Bool) (s : State) → HasRoom sizereq ori (ensure_from p k sizereq ori c s)
  unfolding ensure_from
  ensure_from-HasRoom zero c s = tt
  ensure_from-HasRoom (suc k) c s =
      follow k (ensure_round p sizereq ori c s) (round-HasRoom c s) (ensure_from-HasRoom k)
