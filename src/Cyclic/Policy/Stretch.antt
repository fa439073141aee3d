-- ===== src/Cyclic/Policy/Stretch.antt =====
-- src/cyclicManagedMemory.cpp, swapOut: the stretch of the cycle that the second round visits.
use rambrain.Prelude.{
  ℕ, zero, suc, ◌+◌, ◌≤◌, ◌≡◌, ◌⊎◌, refl, sym, subst, last-append, ◌∙◌, ap, true, Bool-cases, inl,
  inr, ltb, ◌==◌, ◌%◌, List, [], ◌∷◌, ◌++◌, length, last, arith, ◌∈◌, has-append,
}
use mathlib.Core.List.{append_assoc, append-nil}
use rambrain.Prelude.Words.{u32}
use rambrain.Ring.{Ptr, Links}
use rambrain.Ring.Linked.{Linked, Linked-prev, Linked-split}
use rambrain.State.{State}
use rambrain.Cyclic.Policy.Unloading.{
  Tally, Unloading, is_candidate, unload_chunk, unload_step, unload_round, uncount_preemptive,
  leave_chunk,
}
use rambrain.Cyclic.Policy.SwapOut.{unload_start, listed}

-- The last element, taken off.
snoc_of :
    (u : Ptr) (us : List Ptr)
    → (vs : List Ptr) × (v : Ptr) × (u ∷ us ≡ vs ++ v ∷ []) × (length vs ≡ length us)
snoc_of u [] = ([], u, refl, refl)
snoc_of u (w ∷ us) =
    let r = snoc_of w us in (u ∷ r.0, r.1, ap (λ (xs : List Ptr). u ∷ xs) r.2, omega (arith, r.3))

-- The links and the chunks of the elements, which no step writes, and the place.
step_ring :
    (swap_free : ℕ) (w : Unloading)
    → let w1 = unload_step swap_free w in
      (w1.state.ring.links ≡ w.state.ring.links)
      × (w1.state.ring.chunk ≡ w.state.ring.chunk)
      × (w1.from_pos ≡ w.state.ring.links.prev w.from_pos)
      × (w1.state.ring.counter_active ≡ w.state.ring.counter_active)
unfolding unload_step unload_chunk uncount_preemptive leave_chunk
step_ring swap_free w = ground arith

step_list :
    (swap_free : ℕ) (w : Unloading) (i : ℕ)
    → i ∈ (unload_step swap_free w).unloadlist
    → (i ∈ w.unloadlist) ⊎ (i ≡ w.state.ring.chunk w.from_pos)
unfolding unload_step unload_chunk
step_list swap_free w i m =
    let j = w.state.ring.chunk w.from_pos in
    elim (Bool-cases (is_candidate swap_free w.unload_size2 (w.state.chunks j))) [
      | inr passed ↦ inl (ground (arith, m, passed))
      | inl taken ↦ elim (Bool-cases (i == j)) [
        | inl same ↦ inr (ground arith)
        | inr other ↦ inl (ground (arith, m, taken, other, has-append i w.unloadlist (j ∷ [])))
      ]
    ]

-- The round has come back to the last of `us`, and its list holds chunks of `vs` and `c` only.
pub record Visited (l : Links) (chunk : Ptr → ℕ) (c : Ptr) (us vs : List Ptr) (w : Unloading)
    : Type 0 where
  pub links : w.state.ring.links ≡ l
  pub chunk_of : w.state.ring.chunk ≡ chunk
  pub counter : w.state.ring.counter_active ≡ c
  pub place : w.from_pos ≡ last c us
  pub seen : (i : ℕ) → i ∈ w.unloadlist → (p : Ptr) × (p ∈ (vs ++ c ∷ [])) × (chunk p ≡ i)

-- One step from `p`, to the element before it.
step-Visited :
    (swap_free : ℕ) (l : Links) (chunk : Ptr → ℕ) (c p : Ptr) (us vs ws : List Ptr) (w : Unloading)
    → w.state.ring.links ≡ l
    → w.state.ring.chunk ≡ chunk
    → w.state.ring.counter_active ≡ c
    → w.from_pos ≡ p
    → l.prev p ≡ last c us
    → p ∈ (ws ++ c ∷ [])
    → ((q : Ptr) → q ∈ (vs ++ c ∷ []) → q ∈ (ws ++ c ∷ []))
    → ((i : ℕ) → i ∈ w.unloadlist → (q : Ptr) × (q ∈ (vs ++ c ∷ [])) × (chunk q ≡ i))
    → Visited l chunk c us ws (unload_step swap_free w)
step-Visited swap_free l chunk c p us vs ws w links chunk_of counter place back here more seen =
    let r = step_ring swap_free w in
    record {
      links = r.0 ∙ links;
      chunk_of = r.1 ∙ chunk_of;
      counter = r.3 ∙ counter;
      place = r.2 ∙ rw (links, place) back;
      seen = λ i m. elim (step_list swap_free w i m) [
        | inl old ↦ let q = seen i old in (q.0, more q.0 q.1, q.2)
        | inr new ↦ (p, here, sym (new ∙ rw (chunk_of, place) refl))
      ];
    }

round-Visited :
    (left unload_size swap_free : ℕ) (l : Links) (chunk : Ptr → ℕ) (c : Ptr) (us vs : List Ptr)
    (w : Unloading)
    → Linked l c (us ++ vs) c
    → left ≤ length us
    → Visited l chunk c us vs w
    → (xs : List Ptr) × (ys : List Ptr) × (us ++ vs ≡ xs ++ ys)
      × Visited l chunk c xs ys (unload_round left unload_size swap_free w)
unfolding unload_round
round-Visited zero unload_size swap_free l chunk c us vs w s few v = (us, vs, refl, v)
round-Visited (suc left) unload_size swap_free l chunk c [] vs w s few v =
    absurd (omega (arith, few))
round-Visited (suc left) unload_size swap_free l chunk c (u ∷ us) vs w s few v =
    elim (Bool-cases (ltb w.unload_size2 unload_size)) [
      | inr full ↦ (u ∷ us, vs, refl, rw full v)
      | inl short ↦
          let t = snoc_of u us in
          let xs = t.0 in
          let p = t.1 in
          let whole : (u ∷ us) ++ vs ≡ xs ++ p ∷ vs =
            ap (λ (zs : List Ptr). zs ++ vs) t.2 ∙ append_assoc xs (p ∷ []) vs in
          let s1 : Linked l c (xs ++ p ∷ vs) c =
            subst (λ (zs : List Ptr). Linked l c zs c) whole s in
          let at : w.from_pos ≡ p = v.place ∙ ap (last c) t.2 ∙ last-append c xs p [] in
          let b = Linked-prev l c xs p (Linked-split l c xs p vs c s1).0 in
          let v1 =
            step-Visited swap_free l chunk c p xs vs (p ∷ vs) w v.links v.chunk_of v.counter at b
              (ground arith) (λ q m. ground (arith, m)) v.seen in
          let r =
            round-Visited left unload_size swap_free l chunk c xs (p ∷ vs) (unload_step swap_free w)
              s1 (omega (arith, few, t.3)) v1 in
          (r.0, r.1, whole ∙ r.2, rw short r.3)
    ]

-- `n` rounds from counterActive.
start-Visited :
    (n unload_size swap_free : ℕ) (s : State) (c : Ptr) (ws : List Ptr)
    → s.ring.counter_active ≡ c
    → Linked s.ring.links c ws c
    → 1 ≤ n
    → n ≤ length ws + 1
    → 1 ≤ unload_size
    → (us : List Ptr) × (vs : List Ptr) × (ws ≡ us ++ vs)
      × Visited s.ring.links s.ring.chunk c us vs
          (unload_round n unload_size swap_free (unload_start s))
unfolding unload_start unload_round
start-Visited zero unload_size swap_free s c ws at_c cycle some_chunk few goal =
    absurd (omega (arith, some_chunk))
start-Visited (suc left) unload_size swap_free s c ws at_c cycle some_chunk few goal =
    let b = Linked-prev s.ring.links c ws c cycle in
    let w1 = unload_step swap_free (unload_start s) in
    let v1 =
      step-Visited swap_free s.ring.links s.ring.chunk c c ws [] [] (unload_start s) refl refl at_c
        at_c b (ground arith) (λ q m. m) (λ i m. absurd (cc)) in
    let short : ltb 0 unload_size ≡ true = ground (arith, goal) in
    let r =
      round-Visited left unload_size swap_free s.ring.links s.ring.chunk c ws [] w1
        (subst (λ (zs : List Ptr). Linked s.ring.links c zs c) (sym (append-nil ws)) cycle)
        (omega (arith, few)) v1 in
    (r.0, r.1, sym (append-nil ws) ∙ r.2, rw short r.3)

-- Where the cycle consists of counterActive, `c`, and `ws`, the second round visits `c` and the
-- elements before it, down to some place in `ws`.
pub listed-Visited :
    (t : Tally) (s : State) (c : Ptr) (ws : List Ptr)
    → s.ring.counter_active ≡ c
    → Linked s.ring.links c ws c
    → 1 ≤ length s.mem_chunks % u32
    → length s.mem_chunks % u32 ≤ length ws + 1
    → 1 ≤ t.unload_size
    → (us : List Ptr) × (vs : List Ptr) × (ws ≡ us ++ vs)
      × Visited s.ring.links s.ring.chunk c us vs (listed t s)
listed-Visited t s c ws at_c cycle some_chunk few goal =
    start-Visited (length s.mem_chunks % u32) t.unload_size s.acc.swap_free s c ws at_c cycle
      some_chunk few goal
