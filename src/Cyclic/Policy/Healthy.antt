-- ===== src/Cyclic/Policy/Healthy.antt =====
-- src/cyclicManagedMemory.cpp, checkCycle: a state that it approves of.
use rambrain.Prelude.{
  ℕ, zero, suc, ◌+◌, ◌%◌, ◌≡◌, ◌⊎◌, refl, sym, Bool, true, false, not, Bool-cases, inl, inr, ◌==◌,
  ◌&&◌, List, [], ◌∷◌, Option, none, some, length, arith, ◌∉◌, if◌then◌else◌,
}
use rambrain.Prelude.Words.{u64, u32}
use rambrain.Ring.{Ptr, null}
use rambrain.Ring.Linked.{Linked, Onwards}
use rambrain.State.{State, chunk_at, put_ring, checked}
use rambrain.Effects.{returned, lock}
use rambrain.FileSwap.Moves.Weights.{holds_ram, holds_swap, leaving}
use rambrain.Cyclic.{backlog_add}
use rambrain.Cyclic.Policy.{topo_lock}
use rambrain.Cyclic.Policy.Check.{
  Check, check_round, check_start, all_loaded, with_test, check_preemptives, check_accounts,
  judge_check, check_elements, check_cycle, both,
}
use rambrain.Cyclic.Policy.CheckSound.{Small, AllLoaded, bytes_of, check_round-Rounded}

-- The chunks from preemptiveStart up to active are loaded preemptively, and no others.
abbrev pub PreemptiveStretch : State → List Ptr → Type 0
PreemptiveStretch s xs =
    ((s.ring.preemptive_start ≡ null) × AllLoaded false s (s.ring.active ∷ xs))
    ⊎ ((ys : List Ptr) × (zs : List Ptr) × Onwards s.ring.links s.ring.preemptive_start ys
          s.ring.active
        × AllLoaded true s ys
        × Onwards s.ring.links s.ring.active zs s.ring.preemptive_start
        × AllLoaded false s zs)

-- The cycle consists of `active` and `xs`, and the accounts are the bytes of its chunks.
pub record Healthy (s : State) (xs : List Ptr) : Type 0 where
  pub linked : Linked s.ring.links s.ring.active xs s.ring.active
  pub once : s.ring.active ∉ xs
  pub number : (length xs + 1) % u32 ≡ length s.mem_chunks % u32
  pub ram : s.acc.memory_used ≡ bytes_of holds_ram s (s.ring.active ∷ xs) % u64
  pub tobefreed : s.acc.memory_tobefreed ≡ bytes_of leaving s (s.ring.active ∷ xs) % u64
  pub swap : s.acc.swap_used ≡ bytes_of holds_swap s (s.ring.active ∷ xs) % u64
  pub preemptive : PreemptiveStretch s xs

with_test-true :
    (b : Bool) (o : Option Bool) → with_test b o ≡ some true → (b ≡ true) × (o ≡ some true)
with_test-true true o e = (refl, e)
with_test-true false none e = absurd (cc)
with_test-true false (some b) e = absurd (ground (arith, e))

both-true : (o p : Option Bool) → both o p ≡ some true → (o ≡ some true) × (p ≡ some true)
both-true none p e = absurd (cc)
both-true (some a) none e = absurd (cc)
both-true (some true) (some true) e = (refl, refl)
both-true (some true) (some false) e = absurd (ground (arith, e))
both-true (some false) (some b) e = absurd (ground (arith, e))

as_wanted : (b l : Bool) → (if b then l else not l) ≡ true → l ≡ b
as_wanted true l e = e
as_wanted false true e = absurd (cc)
as_wanted false false e = refl

all_loaded-AllLoaded :
    (fuel : ℕ) (b : Bool) (s : State) (stop cur : Ptr)
    → all_loaded fuel b s stop cur ≡ some true
    → (ys : List Ptr) × Onwards s.ring.links cur ys stop × AllLoaded b s ys
unfolding all_loaded
all_loaded-AllLoaded zero b s stop cur e = absurd (cc)
all_loaded-AllLoaded (suc fuel) b s stop cur e = elim (Bool-cases (cur == stop)) [
  | inl over ↦ ([], ground (arith, over), tt)
  | inr goes ↦
      let here = (chunk_at s cur).preemptive_loaded in
      let t =
        with_test-true (if b then here else not here)
          (all_loaded fuel b s stop (s.ring.links.next cur)) (ground (arith, e, goes)) in
      let r = all_loaded-AllLoaded fuel b s stop (s.ring.links.next cur) t.1 in
      (cur ∷ r.0, (refl, r.1), (as_wanted b here t.0, r.2))
]

check_preemptives-Stretch :
    (fuel : ℕ) (s : State) (has : Bool) (xs : List Ptr)
    → check_preemptives fuel s has ≡ some true
    → (has ≡ false → AllLoaded false s (s.ring.active ∷ xs))
    → PreemptiveStretch s xs
unfolding check_preemptives
check_preemptives-Stretch fuel s has xs e plain =
    let start = s.ring.preemptive_start in
    let act = s.ring.active in
    elim (Bool-cases (start == null)) [
      | inl nothing ↦ inl (ground (arith, nothing), plain (ground (arith, e, nothing)))
      | inr something ↦
          let b =
            both-true (all_loaded fuel true s act start) (all_loaded fuel false s start act)
              (ground (arith, e, something)) in
          let y = all_loaded-AllLoaded fuel true s act start b.0 in
          let z = all_loaded-AllLoaded fuel false s start act b.1 in
          inr (y.0, z.0, y.1, y.2, z.1, z.2)
    ]

-- A verdict without an error.
judge_true :
    (no_reg : ℕ) (s s' : State) (k : Check) (o : Option Bool)
    → judge_check no_reg s k o ≡ returned true s'
    → (o ≡ some true)
      × (k.memerror ≡ false)
      × (k.encountered ≡ no_reg)
      × (k.used_bytes ≡ s.acc.memory_used)
      × (k.tobef ≡ s.acc.memory_tobefreed)
      × (k.swapped_bytes ≡ s.acc.swap_used)
unfolding judge_check check_accounts
judge_true no_reg s s' k none e = absurd (cc)
judge_true no_reg s s' k (some fine) e =
    let good : (not k.memerror
          && (k.used_bytes == s.acc.memory_used
              && k.tobef == s.acc.memory_tobefreed
              && k.swapped_bytes == s.acc.swap_used)
          && fine
          && k.encountered == no_reg)
        ≡ true =
      ground (arith, e) in
    (
      ground (arith, good),
      ground (arith, good),
      ground (arith, good),
      ground (arith, good),
      ground (arith, good),
      ground (arith, good),
    )

check_elements-Healthy :
    (fuel : ℕ) (s s' : State) (o : Option Check)
    → o ≡ check_round fuel s (check_start s)
    → check_elements fuel (length s.mem_chunks % u32) s o ≡ returned true s'
    → (xs : List Ptr) × Healthy s xs
unfolding check_elements check_start
check_elements-Healthy fuel s s' none r e = absurd (cc)
check_elements-Healthy fuel s s' (some k) r e =
    let j =
      judge_true (length s.mem_chunks % u32) s s' k (check_preemptives fuel s k.has_preemptives)
        e in
    let small : Small (check_start s) = record {
      used_bytes = omega arith;
      tobef = omega arith;
      swapped_bytes = omega arith;
    } in
    let w = check_round-Rounded fuel s (check_start s) k small (sym r) j.1 in
    let q = w.1 in
    (
      w.0,
      record {
        linked = q.linked;
        once = q.once;
        number = omega (arith, q.encountered, j.2);
        ram = omega (arith, q.used_bytes, j.3);
        tobefreed = omega (arith, q.tobef, j.4);
        swap = omega (arith, q.swapped_bytes, j.5);
        preemptive =
            check_preemptives-Stretch fuel s k.has_preemptives w.0 j.0 (λ h. (q.plain h).1);
      },
    )

-- Where checkCycle returns true, the cycle is empty, with no chunk registered, or its elements are
-- linked to one another both ways, as many as there are chunks (modulo 2 ^ 32), the accounts are the
-- bytes of their chunks (modulo 2 ^ 64), and the chunks from preemptiveStart up to active, and none
-- from active up to preemptiveStart, are loaded preemptively.
pub check_cycle-Healthy :
    (fuel : ℕ) (s s' : State)
    → check_cycle fuel s ≡ returned true s'
    → ((s.ring.active ≡ null) × (s.ring.counter_active ≡ null) × (length s.mem_chunks % u32 ≡ 0))
      ⊎ ((xs : List Ptr) × Healthy s xs)
unfolding check_cycle backlog_add
check_cycle-Healthy fuel s s' e = elim (Bool-cases (s.ring.active == null)) [
  | inl empty ↦
      let good : (length s.mem_chunks % u32 == 0 && s.ring.counter_active == null) ≡ true =
        ground (arith, e, empty) in
      inl (ground (arith, empty), ground (arith, good), ground (arith, good))
  | inr some_chunk ↦
      let s1 = topo_lock (lock s) in
      let s2 = put_ring (backlog_add checked 0 s1.ring) s1 in
      let o = check_round fuel s2 (check_start s2) in
      let h = check_elements-Healthy fuel s2 s' o refl (ground (arith, e, some_chunk)) in
      inr (
        h.0,
        record {
          linked = h.1.linked;
          once = h.1.once;
          number = h.1.number;
          ram = h.1.ram;
          tobefreed = h.1.tobefreed;
          swap = h.1.swap;
          preemptive = h.1.preemptive;
        },
      )
]
