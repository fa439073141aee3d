-- ===== src/Cyclic/Policy/RegroupWhole.antt =====
-- src/cyclicManagedMemory.cpp, swapOut: how the cycle is put together again where the stretch is all
-- of it.
use rambrain.Prelude.{
  ℕ, ◌<◌, ◌≡◌, ◌≢◌, refl, sym, ◌∙◌, ap, true, false, ◌==◌, if◌then◌else◌, List, [], ◌∷◌, ◌++◌, some,
  length, count, last, arith, ◌∉◌, Distinct, has-append, count-append, Distinct-of_count,
  not-has_of_count,
}
use rambrain.Ring.{Ptr, null, Links, mutual_connect}
use rambrain.Ring.Linked.{Linked, Linked-prev, Linked-split, relink_end}
use rambrain.State.{State, Cyclic, put_ring}
use rambrain.Effects.{Outcome, returned}
use rambrain.Cyclic.Invariant.{Cycle}
use rambrain.Cyclic.Chains.{Chain, insert_before, filter_chain}
use rambrain.Cyclic.Chains.Rounds.{select, reject}
use rambrain.Cyclic.Chains.Whole.{chain_of}
use rambrain.Cyclic.Chains.Results.{
  Fresh, Returns, filter_chain-Cycle, insert_before-Linked, count-select, Run-last,
}
use rambrain.Cyclic.Policy.SwapOut.{not_allowed, put_back, put_in_place, put_filtered, regroup}

put_back-Cycle :
    (r0 : Cyclic) (r : Links × Chain × Chain) (before : Ptr) (kept gone : List Ptr)
    → Distinct (kept ++ gone)
    → null ∉ (kept ++ gone)
    → Cycle r.0 kept
    → Returns r kept gone
    → gone ≢ []
    → (q : Cyclic) × (put_back null before r r0 ≡ some q)
      × Cycle q.links (kept ++ gone)
      × (q.counter_active ≡ last r0.active kept)
unfolding put_back
put_back-Cycle r0 r before kept [] d n c w some_gone = absurd (some_gone refl)
put_back-Cycle r0 r before [] (g ∷ gs) d n c w some_gone =
    let l1 = mutual_connect (last g gs) g r.0 in
    (
      record r0 { links = l1; counter_active = r0.active },
      rw (w.0, w.1) refl,
      relink_end r.0 g gs g d d.0 w.2,
      refl,
    )
put_back-Cycle r0 r before (k ∷ ks) (g ∷ gs) d n c w some_gone =
    let gone : null ∉ (g ∷ gs) = ground (arith, n, has-append null (k ∷ ks) (g ∷ gs)) in
    let g_real : (g == null) ≡ false = ground (arith, gone) in
    let k_real : (k == null) ≡ false = ground (arith, n) in
    let l1 = insert_before k (chain_of (g ∷ gs)) r.0 in
    let around : r.0.next (last k ks) ≡ k = Run-last r.0 k ks k c in
    let done = insert_before-Linked r.0 k ks k (g ∷ gs) d d.0 gone c w.2 in
    (
      record r0 { links = l1; counter_active = l1.prev g },
      rw (w.0, w.1, k_real, g_real, around) refl,
      done,
      Linked-prev l1 k ks g (Linked-split l1 k ks g gs k done).0,
    )

whole_run :
    (k : ℕ) (end : Ptr) (s : State) (x c : Ptr) (r : Links × Chain × Chain)
    → s.ring.counter_active ≡ c
    → s.ring.links.next c ≡ x
    → filter_chain k end (not_allowed s) (record { from = x; to = c }) s.ring.links ≡ some r
    → regroup k end x s ≡ put_in_place s (put_back null (s.ring.links.prev x) r s.ring)
unfolding regroup
whole_run k end s x c r at_c behind e =
    let run : Ptr → Outcome {0} Unit = λ (q : Ptr).
      put_filtered (if s.ring.links.next q == x then null else s.ring.links.next q)
        (s.ring.links.prev x) s
        (filter_chain k end (not_allowed s) (record { from = x; to = q }) s.ring.links) in
    let first_step : regroup k end x s ≡ run c = ap run at_c in
    let same : (x == x) ≡ true = ground arith in first_step ∙ rw (behind, same, e) refl

-- On a cycle of distinct elements, where the stretch is all of it and some of its chunks have gone to
-- the swap, and with fuel for it, these stand behind the others in one cycle, and counterActive is
-- the last of the others, or active if there are none.
pub regroup-Cycle :
    (k : ℕ) (end : Ptr) (s : State) (x : Ptr) (xs : List Ptr)
    → last x xs ≡ s.ring.counter_active
    → Fresh end (x ∷ xs)
    → Linked s.ring.links x xs x
    → length xs < k
    → select (not_allowed s) (x ∷ xs) ≢ []
    → let kept = reject (not_allowed s) (x ∷ xs) in
      let gone = select (not_allowed s) (x ∷ xs) in
      (s' : State) × (regroup k end x s ≡ returned tt s')
      × Cycle s'.ring.links (kept ++ gone)
      × (s'.ring.counter_active ≡ last s.ring.active kept)
regroup-Cycle k end s x xs at_counter v cycle fuel some_gone =
    let l = s.ring.links in
    let sep = not_allowed s in
    let area = x ∷ xs in
    let w = filter_chain-Cycle k end sep l x xs v cycle fuel in
    let r = w.0 in
    let cnt : (y : Ptr) → count y (reject sep area ++ select sep area) ≡ count y area = λ y.
      omega (arith, count-append y (reject sep area) (select sep area), count-select sep y area) in
    let d =
      Distinct-of_count (reject sep area ++ select sep area)
        (λ y. omega (arith, cnt y, v.apart y)) in
    let nonnull =
      not-has_of_count null (reject sep area ++ select sep area)
        (omega (arith, cnt null, v.nonnull)) in
    let p =
      put_back-Cycle s.ring r (l.prev x) (reject sep area) (select sep area) d nonnull w.2 w.3
        some_gone in
    (
      put_ring p.0 s,
      whole_run k end s x (last x xs) r (sym at_counter) (Run-last l x xs x cycle) w.1
          ∙ ap (put_in_place s) p.1,
      p.2,
      p.3,
    )
