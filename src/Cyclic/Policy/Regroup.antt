-- ===== src/Cyclic/Policy/Regroup.antt =====
-- src/cyclicManagedMemory.cpp, swapOut: how the cycle is put together again after the swap has
-- taken the chunks of a stretch.
use rambrain.Prelude.{
  ℕ, ◌+◌, ◌≤◌, ◌<◌, ◌≡◌, ◌≢◌, refl, sym, ◌∙◌, ap, Bool, false, Bool-cases, inl, inr, ◌==◌,
  if◌then◌else◌, List, [], ◌∷◌, ◌++◌, some, length, count, last, arith, ◌∈◌, ◌∉◌, Distinct,
  has-last, has-append, count-append, count-last, Distinct-of_count, not-has_of_count, count_of_has,
}
use mathlib.Core.List.{append-nil}
use rambrain.Ring.{Ptr, null, Links}
use rambrain.Ring.Linked.{Linked, Run, Linked-prev, Linked-Run, Linked-split}
use rambrain.State.{State, Cyclic, put_ring}
use rambrain.Effects.{Outcome, returned}
use rambrain.Cyclic.Chains.{Chain, insert_before, filter_chain}
use rambrain.Cyclic.Chains.Loop.{RunOf}
use rambrain.Cyclic.Chains.Rounds.{select, reject}
use rambrain.Cyclic.Chains.Whole.{chain_of}
use rambrain.Cyclic.Chains.Results.{
  Fresh, Returns, filter_chain_stretch, insert_before-Linked, count-select, Run-last,
}
use rambrain.Cyclic.Chains.Frame.{filter_chain-Outside}
use rambrain.Cyclic.Policy.SwapOut.{not_allowed, put_back, put_in_place, put_filtered, regroup}

-- A run that keeps its inner pointers is a run.
Run-same :
    (l l1 : Links) (a : Ptr) (us : List Ptr)
    → Distinct (a ∷ us)
    → ((p : Ptr) → p ∈ (a ∷ us) → (p == last a us) ≡ false → l1.next p ≡ l.next p)
    → ((p : Ptr) → p ∈ us → l1.prev p ≡ l.prev p)
    → Run l a us
    → Run l1 a us
Run-same l l1 a [] d n q r = tt
Run-same l l1 a (u ∷ us) d n q r =
    let inner : (a == last u us) ≡ false = ground (arith, d.0, has-last u us) in
    (
      n a (ground arith) inner ∙ r.0,
      q u (ground arith) ∙ r.1,
      Run-same l l1 u us d.1 (λ p m e. n p (ground (arith, m)) e) (λ p m. q p (ground (arith, m)))
          r.2,
    )

Run-Linked :
    (l : Links) (a : Ptr) (us ks : List Ptr) (b : Ptr)
    → Run l a us
    → Linked l (last a us) ks b
    → Linked l a (us ++ ks) b
Run-Linked l a [] ks b r s = s
Run-Linked l a (u ∷ us) ks b r s = (r.0, r.1, Run-Linked l u us ks b r.2 s)

-- A stretch with the element before it.
stretch_of :
    (l : Links) (u : Ptr) (us : List Ptr) (x : Ptr) (xs : List Ptr)
    → Linked l u us x
    → Linked l x xs u
    → Linked l (last u us) (x ∷ xs) u
stretch_of l u us x xs s r = (Run-last l u us x s, Linked-prev l u us x s, r)

-- What filterChain returned for a stretch before `u`, put back: the chunks that went out stand
-- behind the others.
put_back-Linked :
    (r0 : Cyclic) (l : Links) (u before : Ptr) (us kept : List Ptr) (g : Ptr) (gs : List Ptr)
    → Distinct (u ∷ (us ++ kept) ++ g ∷ gs)
    → u ∉ ((us ++ kept) ++ g ∷ gs)
    → null ∉ (u ∷ (us ++ kept) ++ g ∷ gs)
    → before ≡ last u us
    → Linked l u (us ++ kept) u
    → RunOf l (g ∷ gs)
    → (r : Cyclic) × (put_back u before (l, chain_of (g ∷ gs), chain_of kept) r0 ≡ some r)
      × Linked r.links u ((us ++ kept) ++ g ∷ gs) u
      × (r.counter_active ≡ last u (us ++ kept))
unfolding put_back
put_back-Linked r0 l u before us [] g gs d out nonnull b s run =
    let xs = us ++ [] in
    let real : (u == null) ≡ false = ground (arith, nonnull) in
    let gone : null ∉ (g ∷ gs) = ground (arith, nonnull, has-append null xs (g ∷ gs)) in
    let l1 = insert_before u (chain_of (g ∷ gs)) l in
    (
      record r0 { links = l1; counter_active = before },
      rw real refl,
      insert_before-Linked l u xs u (g ∷ gs) d out gone s run,
      b ∙ ap (last u) (sym (append-nil us)),
    )
put_back-Linked r0 l u before us (k ∷ ks) g gs d out nonnull b s run =
    let xs = us ++ k ∷ ks in
    let real : (u == null) ≡ false = ground (arith, nonnull) in
    let gone : null ∉ (g ∷ gs) = ground (arith, nonnull, has-append null xs (g ∷ gs)) in
    let kept : null ∉ (k ∷ ks) =
      ground (arith, nonnull, has-append null xs (g ∷ gs), has-append null us (k ∷ ks)) in
    let g_real : (g == null) ≡ false = ground (arith, gone) in
    let k_real : (k == null) ≡ false = ground (arith, kept) in
    let l1 = insert_before u (chain_of (g ∷ gs)) l in
    let done = insert_before-Linked l u xs u (g ∷ gs) d out gone s run in
    (
      record r0 { links = l1; counter_active = l1.prev g },
      rw (k_real, g_real, real) refl,
      done,
      Linked-prev l1 u xs g (Linked-split l1 u xs g gs u done).0,
    )

not_same : (p u : Ptr) (us : List Ptr) → p ∈ us → u ∉ us → (p == u) ≡ false
not_same p u us m out = elim (Bool-cases (p == u)) [
  | inl same ↦ absurd (let e : p ≡ u = ground arith in cc)
  | inr other ↦ other
]

put_back-gone :
    (r0 : Cyclic) (r : Links × Chain × Chain) (u before : Ptr) (us kept gone : List Ptr)
    → Distinct (u ∷ (us ++ kept) ++ gone)
    → null ∉ (u ∷ (us ++ kept) ++ gone)
    → Linked r.0 u (us ++ kept) u
    → Returns r kept gone
    → gone ≢ []
    → before ≡ last u us
    → (q : Cyclic) × (put_back u before r r0 ≡ some q)
      × Linked q.links u ((us ++ kept) ++ gone) u
      × (q.counter_active ≡ last u (us ++ kept))
put_back-gone r0 r u before us kept [] d n s w some_gone b = absurd (some_gone refl)
put_back-gone r0 r u before us kept (g ∷ gs) d n s w some_gone b =
    let p = put_back-Linked r0 r.0 u before us kept g gs d d.0 n b s w.2 in
    (p.0, rw (w.0, w.1) p.1, p.2, p.3)

-- regroup, where filterChain returns.
regroup_run :
    (k : ℕ) (end : Ptr) (s : State) (x c u before : Ptr) (r : Links × Chain × Chain)
    → s.ring.counter_active ≡ c
    → s.ring.links.next c ≡ u
    → s.ring.links.prev x ≡ before
    → (u == x) ≡ false
    → filter_chain k end (not_allowed s) (record { from = x; to = c }) s.ring.links ≡ some r
    → regroup k end x s ≡ put_in_place s (put_back u before r s.ring)
unfolding regroup
regroup_run k end s x c u before r at_c behind prior open_ended e =
    let run : Ptr → Outcome {0} Unit = λ (q : Ptr).
      put_filtered (if s.ring.links.next q == x then null else s.ring.links.next q)
        (s.ring.links.prev x) s
        (filter_chain k end (not_allowed s) (record { from = x; to = q }) s.ring.links) in
    let first_step : regroup k end x s ≡ run c = ap run at_c in
    first_step ∙ rw (behind, prior, open_ended, e) refl

-- The elements of the cycle, as often as they stand in it: none moves in or out.
pub regrouped-count :
    (sep : Ptr → Bool) (y u : Ptr) (us area : List Ptr)
    → count y (u ∷ (us ++ reject sep area) ++ select sep area) ≡ count y (u ∷ us ++ area)
regrouped-count sep y u us area = omega (
  arith,
  count-append y (us ++ reject sep area) (select sep area),
  count-append y us (reject sep area),
  count-append y us area,
  count-select sep y area,
)

-- The elements outside the stretch remain linked.
others_run :
    (k : ℕ) (end : Ptr) (s : State) (u : Ptr) (us : List Ptr) (x : Ptr) (xs : List Ptr)
    (r : Links × Chain × Chain)
    → Fresh end (u ∷ us ++ x ∷ xs)
    → Linked s.ring.links u (us ++ x ∷ xs) u
    → filter_chain k end (not_allowed s) (chain_of (x ∷ xs)) s.ring.links ≡ some r
    → Run r.0 u us
others_run k end s u us x xs r v cycle e =
    let l = s.ring.links in
    let area = x ∷ xs in
    let parts = Linked-split l u us x xs u cycle in
    let behind = Run-last l x xs u parts.1 in
    let prior = Linked-prev l u us x parts.0 in
    let cnt : (y : Ptr) → count y (u ∷ us) + count y area ≡ count y (u ∷ us ++ area) =
      λ y. count-append y (u ∷ us) area in
    let once : Distinct (u ∷ us) =
      Distinct-of_count (u ∷ us) (λ y. omega (arith, cnt y, v.apart y)) in
    let open_ended : (l.next (last x xs) == x) ≡ false =
      rw behind (ground (arith, v.apart u, cnt u)) in
    let apart : (p : Ptr) → p ∈ (u ∷ us) → p ∉ (end ∷ area) = λ p m.
      not-has_of_count p (end ∷ area)
        (omega (arith, v.apart p, cnt p, count_of_has p (u ∷ us) m)) in
    let frame : (p : Ptr)
        → p ∈ (u ∷ us)
        → (((p == l.prev x) ≡ false) → r.0.next p ≡ l.next p)
          × (((p == l.next (last x xs)) ≡ false) → r.0.prev p ≡ l.prev p) =
      λ p m.
        filter_chain-Outside k end (not_allowed s) l x xs r (Linked-Run l x xs u parts.1) open_ended
          e p (apart p m) in
    Run-same l r.0 u us once (λ p m h. (frame p m).0 (rw prior h))
      (λ p m. (frame p (ground (arith, m))).1 (rw behind (not_same p u us m once.0)))
      (Linked-Run l u us x parts.0)

-- On a cycle of distinct elements, where some of the chunks from `x` up to counterActive have gone to
-- the swap, and others stand before them, `u` being the one behind counterActive, and with fuel for
-- the stretch, the cycle is put together again: first the others, then what is left of the stretch,
-- then what has gone; counterActive is the element before that.
pub regroup-Linked :
    (k : ℕ) (end : Ptr) (s : State) (u : Ptr) (us : List Ptr) (x : Ptr) (xs : List Ptr)
    → last x xs ≡ s.ring.counter_active
    → Fresh end (u ∷ us ++ x ∷ xs)
    → Linked s.ring.links u (us ++ x ∷ xs) u
    → length xs < k
    → select (not_allowed s) (x ∷ xs) ≢ []
    → let kept = reject (not_allowed s) (x ∷ xs) in
      let gone = select (not_allowed s) (x ∷ xs) in
      (s' : State) × (regroup k end x s ≡ returned tt s')
      × Linked s'.ring.links u ((us ++ kept) ++ gone) u
      × (s'.ring.counter_active ≡ last u (us ++ kept))
regroup-Linked k end s u us x xs at_counter v cycle fuel some_gone =
    let l = s.ring.links in
    let sep = not_allowed s in
    let area = x ∷ xs in
    let before = last u us in
    let parts = Linked-split l u us x xs u cycle in
    let neighbours : Linked l before area u = stretch_of l u us x xs parts.0 parts.1 in
    let cnt : (y : Ptr) → count y (u ∷ us) + count y area ≡ count y (u ∷ us ++ area) =
      λ y. count-append y (u ∷ us) area in
    let fresh : Fresh end area = record {
      apart = λ y. omega (arith, v.apart y, cnt y);
      nonnull = omega (arith, v.nonnull, cnt null);
    } in
    let hb : count before area ≡ 0 = omega (arith, v.apart before, cnt before, count-last u us) in
    let hu : count u area ≡ 0 = ground (arith, v.apart u, cnt u) in
    let w = filter_chain_stretch k end sep l before x xs u fresh hb hu neighbours fuel in
    let r = w.0 in
    let c = last x xs in
    let behind = Run-last l x xs u parts.1 in
    let open_ended : (u == x) ≡ false = ground (arith, hu) in
    let all_once : (y : Ptr) → count y (u ∷ (us ++ reject sep area) ++ select sep area) ≤ 1 =
      λ y. omega (arith, regrouped-count sep y u us area, v.apart y) in
    let d = Distinct-of_count (u ∷ (us ++ reject sep area) ++ select sep area) all_once in
    let nonnull =
      not-has_of_count null (u ∷ (us ++ reject sep area) ++ select sep area)
        (omega (arith, regrouped-count sep null u us area, v.nonnull)) in
    let run0 : Run r.0 u us = others_run k end s u us x xs r v cycle w.1 in
    let joined = Run-Linked r.0 u us (reject sep area) u run0 w.2 in
    let p =
      put_back-gone s.ring r u before us (reject sep area) (select sep area) d nonnull joined w.3
        some_gone refl in
    (
      put_ring p.0 s,
      regroup_run k end s x c u before r (sym at_counter) behind neighbours.1 open_ended w.1
          ∙ ap (put_in_place s) p.1,
      p.2,
      p.3,
    )
