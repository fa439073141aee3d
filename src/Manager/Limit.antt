-- ===== src/Manager/Limit.antt =====
-- src/managedMemory.cpp: setMemoryLimit.
use rambrain.Prelude.{
  ℕ, ◌≡◌, ◌<◌, ◌≤◌, ◌⊎◌, arith, refl, Bool, true, false, Bool-cases, inl, inr, ltb, if◌then◌else◌,
}
use native.Mathlib.Decide.{dec_lt}
use rambrain.Prelude.Words.{sub64}
use rambrain.State.{State}
use rambrain.Effects.{
  Outcome, returned, thrown, stuck, undefined, after, SwapErrorCode, err_success, err_swapfull,
  err_morethantotalram, err_notenoughcandidates, Parts, lock, unlock,
}
use rambrain.Manager.{is_success}

abbrev pub limited : ℕ → State → State
limited size s = record s { acc = record s.acc { memory_max = size } }

module _ (p : Parts) where
  -- What follows the first swapOut. The second one need not succeed.
  unfoldable pub settle_limit : ℕ → SwapErrorCode → State → Outcome Bool
  settle_limit size err s =
      let second = after (p.swap_out 0 (limited size s)) (λ e s2. returned true (unlock s2)) in
      if is_success err then second else returned false (unlock s)

  unfoldable pub set_memory_limit : ℕ → State → Outcome Bool
  unfolding settle_limit
  set_memory_limit size s0 =
      let s = lock s0 in
      if ltb s.acc.memory_max size
      then returned true (unlock (limited size s))
      else if ltb size s.acc.memory_used
      then after (p.swap_out (sub64 s.acc.memory_used size) s) (settle_limit size)
      else returned true (unlock (limited size s))

-- What setMemoryLimit answers with the result of the first swapOut, then with that of the second:
-- success of the first sets the limit, whatever code the second returns, and another code leaves all.
-- An exception passes through, with the mutex as swapOut left it.
abbrev pub Second : ℕ → Outcome SwapErrorCode → Outcome Bool → Type 0
Second size (returned code s) o = o ≡ returned true (unlock s)
Second size (thrown e s) o = o ≡ thrown e s
Second size stuck o = o ≡ stuck
Second size undefined o = o ≡ undefined

abbrev pub First : Parts → ℕ → Outcome SwapErrorCode → Outcome Bool → Type 0
First p size (returned err_success s) o = Second size (p.swap_out 0 (limited size s)) o
First p size (returned err_swapfull s) o = o ≡ returned false (unlock s)
First p size (returned err_morethantotalram s) o = o ≡ returned false (unlock s)
First p size (returned err_notenoughcandidates s) o = o ≡ returned false (unlock s)
First p size (thrown e s) o = o ≡ thrown e s
First p size stuck o = o ≡ stuck
First p size undefined o = o ≡ undefined

-- With what is in use within the new limit, the limit is set at once.
abbrev pub LimitSet : Parts → ℕ → State → Outcome Bool → Type 0
LimitSet p size s o =
    (((s.acc.memory_max < size) ⊎ (s.acc.memory_used ≤ size))
      × (o ≡ returned true (record s { acc = record s.acc { memory_max = size }; locked = false })))
    ⊎ ((size ≤ s.acc.memory_max)
        × (size < s.acc.memory_used)
        × First p size (p.swap_out (sub64 s.acc.memory_used size) (lock s)) o)

answer_twice :
    (size : ℕ) (o : Outcome SwapErrorCode)
    → Second size o (after o (λ e s. returned true (unlock s)))
answer_twice size (returned code s) = refl
answer_twice size (thrown e s) = refl
answer_twice size stuck = refl
answer_twice size undefined = refl

module _ (p : Parts) (size : ℕ) where
  answer_once : (o : Outcome SwapErrorCode) → First p size o (after o (settle_limit p size))
  unfolding settle_limit
  answer_once (returned err_success s) = answer_twice size (p.swap_out 0 (limited size s))
  answer_once (returned err_swapfull s) = refl
  answer_once (returned err_morethantotalram s) = refl
  answer_once (returned err_notenoughcandidates s) = refl
  answer_once (thrown e s) = refl
  answer_once stuck = refl
  answer_once undefined = refl

  raised :
      (s : State)
      → (s.acc.memory_max < size) ⊎ (s.acc.memory_used ≤ size)
      → set_memory_limit p size s
        ≡ returned true (record s { acc = record s.acc { memory_max = size }; locked = false })
  unfolding set_memory_limit
  raised s (inl more) = let e : ltb s.acc.memory_max size ≡ true = ground (arith, more) in rw e refl
  raised s (inr fits) =
      let e : ltb size s.acc.memory_used ≡ false = ground (arith, fits) in
      elim (Bool-cases (ltb s.acc.memory_max size)) [
        | inl more ↦ rw more refl
        | inr less ↦ rw (less, e) refl
      ]

  lowered :
      (s : State)
      → size ≤ s.acc.memory_max
      → size < s.acc.memory_used
      → First p size
          (p.swap_out (sub64 s.acc.memory_used size) (lock s))
          (set_memory_limit p size s)
  unfolding set_memory_limit
  lowered s below short =
      let e1 : ltb s.acc.memory_max size ≡ false = ground (arith, below) in
      let e2 : ltb size s.acc.memory_used ≡ true = ground (arith, short) in
      rw (e1, e2) (answer_once (p.swap_out (sub64 s.acc.memory_used size) (lock s)))

-- setMemoryLimit sets a limit above the old one, or one within which lies what is in use, at once and
-- returns true. Otherwise it calls swapOut for the excess: after success it sets the limit, calls
-- swapOut for 0 bytes and returns true, whatever code that returns; after any other code it returns
-- false, in the state that swapOut left, so that it sets no limit. The mutex is free where it returns.
-- An exception of either swapOut passes through, in the state that swapOut left.
pub set_memory_limit-LimitSet :
    (p : Parts) (size : ℕ) (s : State) → LimitSet p size s (set_memory_limit p size s)
set_memory_limit-LimitSet p size s = elim (dec_lt s.acc.memory_max size) [
  | yes more ↦ inl (inl more, raised p size s (inl more))
  | no less ↦ elim (dec_lt size s.acc.memory_used) [
    | no fits ↦
        let within : s.acc.memory_used ≤ size = omega (arith, fits) in
        inl (inr within, raised p size s (inr within))
    | yes short ↦
        let below : size ≤ s.acc.memory_max = omega (arith, less) in
        inr (below, short, lowered p size s below short)
  ]
]
