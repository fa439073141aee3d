-- ===== src/Cyclic/Policy/Together.antt =====
-- src/cyclicManagedMemory.cpp, swapOut: from the second round to the cycle put together again.
use rambrain.Prelude.{
  ℕ, ◌+◌, ◌≤◌, ◌<◌, ◌≡◌, ◌≢◌, refl, sym, subst, ◌∙◌, ap, Bool, true, Bool-cases, inl, inr, ◌%◌,
  List, [], ◌∷◌, ◌++◌, length, last, last-append, count, arith, ◌∈◌, count-append, none, ◌==◌,
}
use mathlib.Core.List.{append_assoc, append-nil}
use rambrain.Prelude.Words.{u32}
use rambrain.Chunk.{Chunk, is_out, mem_swapout, mem_swapped}
use rambrain.Cyclic.Policy.{SwapCalls}
use rambrain.Ring.{Ptr, null, Links}
use rambrain.Ring.Linked.{Linked, first, Linked-append}
use rambrain.State.{State, Cyclic}
use rambrain.Effects.{returned}
use rambrain.Cyclic.Invariant.{Cycle}
use rambrain.Cyclic.Chains.{separate_this}
use rambrain.Cyclic.Chains.Rounds.{select, reject}
use rambrain.Cyclic.Chains.Results.{Fresh, count-select}
use rambrain.Cyclic.Policy.Unloading.{Tally}
use rambrain.Cyclic.Policy.SwapOut.{not_allowed, regroup, listed}
use rambrain.Cyclic.Policy.Stretch.{listed-Visited}
use rambrain.Cyclic.Policy.DecayRounds.{length-append_one}
use rambrain.Cyclic.Policy.Regroup.{regroup-Linked, regrouped-count}
use rambrain.Cyclic.Policy.RegroupWhole.{regroup-Cycle}

select_some :
    (sep : Ptr → Bool) (p : Ptr) (zs : List Ptr) → p ∈ zs → sep p ≡ true → select sep zs ≢ []
select_some sep p [] m t e = cc
select_some sep p (z ∷ zs) m t e = elim (Bool-cases (sep z)) [
  | inl taken ↦ absurd (ground (arith, e, taken))
  | inr passed ↦ elim (Bool-cases (p == z)) [
    | inl same ↦ absurd (let h : p ≡ z = ground arith in cc)
    | inr other ↦ select_some sep p zs (ground (arith, m, other)) t (ground (arith, e, passed))
  ]
]

-- The same cycle, from the element behind `c` on.
turned :
    (l : Links) (c u : Ptr) (zs : List Ptr) → Linked l c (u ∷ zs) c → Linked l u (zs ++ c ∷ []) u
turned l c u zs s = Linked-append l u zs c [] u s.2 (s.0, s.1)

-- What regroup leaves: one cycle of the same elements.
abbrev pub Together : ℕ → Ptr → Ptr → State → List Ptr → Type 0
Together k end p s es =
    (s' : State) × (fs : List Ptr) × (regroup k end p s ≡ returned tt s')
    × Cycle s'.ring.links fs
    × ((y : Ptr) → count y fs ≡ count y es)

length-append : (us vs : List Ptr) → length (us ++ vs) ≡ length us + length vs
length-append [] vs = omega arith
length-append (u ∷ us) vs = omega (arith, length-append us vs)

Fresh-count :
    (end : Ptr) (es fs : List Ptr)
    → ((y : Ptr) → count y fs ≡ count y es)
    → Fresh end es
    → Fresh end fs
Fresh-count end es fs h v = record {
  apart = λ y. omega (arith, h y, v.apart y);
  nonnull = omega (arith, h null, v.nonnull);
}

module _ (k : ℕ) (end : Ptr) (s : State) (es : List Ptr) (p : Ptr) where
  whole-Together :
      (x : Ptr) (xs : List Ptr)
      → last x xs ≡ s.ring.counter_active
      → Fresh end es
      → ((y : Ptr) → count y (x ∷ xs) ≡ count y es)
      → Linked s.ring.links x xs x
      → length xs < k
      → p ∈ (x ∷ xs)
      → not_allowed s p ≡ true
      → Together k end x s es
  whole-Together x xs at_c v h cycle fuel m out =
      let sep = not_allowed s in
      let kept = reject sep (x ∷ xs) in
      let gone = select sep (x ∷ xs) in
      let r =
        regroup-Cycle k end s x xs at_c (Fresh-count end es (x ∷ xs) h v) cycle fuel
          (select_some sep p (x ∷ xs) m out) in
      (
        r.0,
        kept ++ gone,
        r.1,
        r.2,
        λ y. omega (arith, count-append y kept gone, count-select sep y (x ∷ xs), h y),
      )

  stretch-Together :
      (u : Ptr) (us : List Ptr) (x : Ptr) (xs : List Ptr)
      → last x xs ≡ s.ring.counter_active
      → Fresh end es
      → ((y : Ptr) → count y (u ∷ us ++ x ∷ xs) ≡ count y es)
      → Linked s.ring.links u (us ++ x ∷ xs) u
      → length xs < k
      → p ∈ (x ∷ xs)
      → not_allowed s p ≡ true
      → Together k end x s es
  stretch-Together u us x xs at_c v h cycle fuel m out =
      let sep = not_allowed s in
      let area = x ∷ xs in
      let r =
        regroup-Linked k end s u us x xs at_c (Fresh-count end es (u ∷ us ++ x ∷ xs) h v) cycle fuel
          (select_some sep p area m out) in
      (
        r.0,
        u ∷ (us ++ reject sep area) ++ select sep area,
        r.1,
        r.2,
        λ y. regrouped-count sep y u us area ∙ h y,
      )

-- The stretch behind `us`, which ends with `c`.
regroup-Together :
    (k : ℕ) (end : Ptr) (s : State) (c : Ptr) (us vs : List Ptr) (p : Ptr)
    → s.ring.counter_active ≡ c
    → Fresh end (c ∷ us ++ vs)
    → Linked s.ring.links c (us ++ vs) c
    → length (us ++ vs) < k
    → p ∈ (vs ++ c ∷ [])
    → not_allowed s p ≡ true
    → Together k end (first (vs ++ c ∷ []) null) s (c ∷ us ++ vs)
regroup-Together k end s c [] [] p at_c v cycle fuel m out =
    whole-Together k end s (c ∷ []) p c [] (sym at_c) v (λ y. refl) cycle fuel m out
regroup-Together k end s c [] (w ∷ vs) p at_c v cycle fuel m out =
    whole-Together k end s (c ∷ w ∷ vs) p w (vs ++ c ∷ []) (last-append w vs c [] ∙ sym at_c) v
      (λ y. omega (arith, count-append y vs (c ∷ []))) (turned s.ring.links c w vs cycle)
      (omega (arith, fuel, length-append_one vs c)) m out
regroup-Together k end s c (u ∷ us) [] p at_c v cycle fuel m out =
    stretch-Together k end s (c ∷ (u ∷ us) ++ []) p u us c [] (sym at_c) v
      (λ y. omega (arith, count-append y us (c ∷ []), count-append y us []))
      (subst (λ (zs : List Ptr). Linked s.ring.links u (zs ++ c ∷ []) u) (append-nil us)
        (turned s.ring.links c u (us ++ []) cycle))
      (omega (arith, fuel)) m out
regroup-Together k end s c (u ∷ us) (w ∷ vs) p at_c v cycle fuel m out =
    stretch-Together k end s (c ∷ (u ∷ us) ++ w ∷ vs) p u us w (vs ++ c ∷ [])
      (last-append w vs c [] ∙ sym at_c) v
      (λ y. omega (
        arith,
        count-append y us (w ∷ vs ++ c ∷ []),
        count-append y us (w ∷ vs),
        count-append y vs (c ∷ []),
      ))
      (subst (λ (zs : List Ptr). Linked s.ring.links u zs u) (append_assoc us (w ∷ vs) (c ∷ []))
        (turned s.ring.links c u (us ++ w ∷ vs) cycle))
      (omega (arith, fuel, length-append_one vs c, length-append us (w ∷ vs))) m out

next_place :
    (l : Links) (a : Ptr) (us vs : List Ptr) (c : Ptr)
    → Linked l a (us ++ vs) c
    → l.next (last a us) ≡ first (vs ++ c ∷ []) null
next_place l a [] [] c s = s.0
next_place l a [] (v ∷ vs) c s = s.0
next_place l a (u ∷ us) vs c s = next_place l u us vs c s.2

out_not_allowed :
    (c : Chunk)
    → is_out c.status ≡ true
    → separate_this (mem_swapout ∷ mem_swapped ∷ []) none c ≡ true
unfolding separate_this
out_not_allowed c h = ground (arith, h)

-- Where the cycle consists of counterActive, `c`, and `ws`, all distinct and no fewer than there
-- are chunks, the swap returns, leaves the scheduler's fields as they are and has taken one chunk
-- of the list at least, and the fuel is more than the elements of `ws`, swapOut puts the stretch
-- that it has visited back together with the others: filterChain ends, no NULL pointer is followed,
-- and one cycle of the same elements is left.
pub unloaded-Together :
    (k : ℕ) (end : Ptr) (swap : SwapCalls) (t : Tally) (s s1 : State) (real : ℕ) (c : Ptr)
    (ws : List Ptr) (i : ℕ)
    → s.ring.counter_active ≡ c
    → Linked s.ring.links c ws c
    → Fresh end (c ∷ ws)
    → length ws < k
    → 1 ≤ length s.mem_chunks % u32
    → length s.mem_chunks % u32 ≤ length ws + 1
    → 1 ≤ t.unload_size
    → let v = listed t s in
      swap.swap_out v.unloadlist v.state ≡ returned real s1
      → s1.ring ≡ v.state.ring
      → i ∈ v.unloadlist
      → is_out (s1.chunks i).status ≡ true
      → Together k end (s1.ring.links.next v.from_pos) s1 (c ∷ ws)
unloaded-Together k end swap t s s1 real c ws i at_c cycle fresh fuel some_chunk few goal call
      kept_ring listed_i out =
    let v = listed t s in
    let w = listed-Visited t s c ws at_c cycle some_chunk few goal in
    let us = w.0 in
    let vs = w.1 in
    let links1 : s1.ring.links ≡ s.ring.links =
      ap (λ (r : Cyclic). r.links) kept_ring ∙ w.3.links in
    let chunk1 : s1.ring.chunk ≡ s.ring.chunk =
      ap (λ (r : Cyclic). r.chunk) kept_ring ∙ w.3.chunk_of in
    let counter1 : s1.ring.counter_active ≡ c =
      ap (λ (r : Cyclic). r.counter_active) kept_ring ∙ w.3.counter in
    let q = w.3.seen i listed_i in
    let at : s1.ring.chunk q.0 ≡ i = ap (λ (f : Ptr → ℕ). f q.0) chunk1 ∙ q.2 in
    let gone : not_allowed s1 q.0 ≡ true =
      out_not_allowed (s1.chunks (s1.ring.chunk q.0))
        (subst (λ (j : ℕ). is_out (s1.chunks j).status ≡ true) (sym at) out) in
    let split : Linked s1.ring.links c (us ++ vs) c =
      subst (λ (l : Links). Linked l c (us ++ vs) c) (sym links1)
        (subst (λ (zs : List Ptr). Linked s.ring.links c zs c) w.2 cycle) in
    let r =
      regroup-Together k end s1 c us vs q.0 counter1
        (subst (λ (zs : List Ptr). Fresh end (c ∷ zs)) w.2 fresh) split
        (subst (λ (zs : List Ptr). length zs < k) w.2 fuel) q.1 gone in
    let place : s1.ring.links.next v.from_pos ≡ first (vs ++ c ∷ []) null =
      ap s1.ring.links.next w.3.place ∙ next_place s1.ring.links c us vs c split in
    subst (λ (x : Ptr). Together k end x s1 (c ∷ ws)) (sym place)
      (subst (λ (zs : List Ptr). Together k end (first (vs ++ c ∷ []) null) s1 (c ∷ zs)) (sym w.2)
        r)
