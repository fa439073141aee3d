-- ===== src/Cyclic/Hooks.antt =====
-- How an element enters the cycle, leaves it, and goes to its front.
use rambrain.Prelude.{
  ◌≡◌, ◌≢◌, inl, inr, List, [], ◌∷◌, ◌++◌, ◌==◌, ◌||◌, arith, ◌∈◌, ◌∉◌, has, last, update,
  Bool-cases, ==_iff, erase, split_of_has, has-append, has-last, Distinct-cut, subst,
}
use rambrain.Ring.{Ptr, null, mutual_connect}
use rambrain.Ring.Linked.{
  Linked, first, Linked-prev, Linked-next, Linked-split, relink_end, Linked-Run,
}
use rambrain.Ring.Relink.{push_front, cut, parts}
use rambrain.State.{Cyclic}
use rambrain.Cyclic.{hook_in, hook_out}
use rambrain.Cyclic.Invariant.{Cycle, IsRing}

hook_in-links :
    (neu : Ptr) (r : Cyclic) (a : Ptr) (xs : List Ptr)
    → IsRing r (a ∷ xs)
    → mutual_connect neu a (mutual_connect (last a xs) neu r.links) ≡ (hook_in neu r).links
unfolding hook_in
hook_in-links neu r a xs v = ground (arith, Linked-prev r.links a xs a v.cycle, v.nonnull)

pub hook_in-Cycle :
    (neu : Ptr) (r : Cyclic) (xs : List Ptr)
    → IsRing r xs
    → neu ∉ xs
    → Cycle (hook_in neu r).links (neu ∷ xs)
unfolding hook_in mutual_connect update
hook_in-Cycle neu r [] v h = (ground arith, ground arith)
hook_in-Cycle neu r (a ∷ xs) v h =
    subst (λ l. Linked l neu (a ∷ xs) neu) (hook_in-links neu r a xs v)
      (push_front r.links a xs neu v.distinct h v.cycle)

-- Out of a cycle of two or more.
hook_out-links :
    (r : Cyclic) (a : Ptr) (ys : List Ptr) (e : Ptr) (zs : List Ptr)
    → IsRing r (a ∷ ys ++ e ∷ zs)
    → mutual_connect (last a ys) (first zs a) r.links ≡ (hook_out e r).links
unfolding hook_out
hook_out-links r a ys e zs v =
    let s = Linked-split r.links a ys e zs a v.cycle in
    let p = parts a ys e zs v.distinct in
    ground (
      arith,
      Linked-prev r.links a ys e s.0,
      Linked-next r.links e zs a s.1,
      p.last_left,
      p.out,
      p.right,
      p.left,
    )

hook_out_inner :
    (r : Cyclic) (a : Ptr) (ys : List Ptr) (e : Ptr) (zs : List Ptr)
    → IsRing r (a ∷ ys ++ e ∷ zs)
    → r.preemptive_start ≢ e
    → IsRing (hook_out e r) (a ∷ ys ++ zs)
unfolding hook_out
hook_out_inner r a ys e zs v h =
    let s = Linked-split r.links a ys e zs a v.cycle in
    let p = parts a ys e zs v.distinct in
    let old : (x : Ptr) → has x (ys ++ e ∷ zs) ≡ (has x ys || has x (e ∷ zs)) =
      λ x. has-append x ys (e ∷ zs) in
    let new : (x : Ptr) → has x (ys ++ zs) ≡ (has x ys || has x zs) = λ x. has-append x ys zs in
    let before = Linked-prev r.links a ys e s.0 in
    let after = Linked-next r.links e zs a s.1 in
    record {
      cycle =
          subst (λ l. Linked l a (ys ++ zs) a) (hook_out-links r a ys e zs v)
            (cut r.links a ys e zs a v.distinct (ground (arith, v.distinct)) v.cycle);
      active = ground (arith, before, after, v.active, p.last_left, p.out);
      distinct = (Distinct-cut (a ∷ ys) e zs v.distinct).1;
      nonnull = ground (arith, v.nonnull, old null, new null);
      counter = ground (
        arith,
        v.counter,
        before,
        after,
        p.last_left,
        has-last a ys,
        old r.counter_active,
        new r.counter_active,
        new (last a ys),
      );
      start = ground (
        arith,
        v.start,
        before,
        after,
        p.last_left,
        p.out,
        old r.preemptive_start,
        new r.preemptive_start,
      );
    }

hook_out_head-links :
    (r : Cyclic) (a : Ptr) (y : Ptr) (ys : List Ptr)
    → IsRing r (a ∷ y ∷ ys)
    → mutual_connect (last y ys) y r.links ≡ (hook_out a r).links
unfolding hook_out
hook_out_head-links r a y ys v =
    ground (arith, Linked-prev r.links a (y ∷ ys) a v.cycle, v.cycle.0, v.distinct.0)

hook_out_head :
    (r : Cyclic) (a : Ptr) (y : Ptr) (ys : List Ptr)
    → IsRing r (a ∷ y ∷ ys)
    → r.preemptive_start ≢ a
    → IsRing (hook_out a r) (y ∷ ys)
unfolding hook_out
hook_out_head r a y ys v h =
    let before = Linked-prev r.links a (y ∷ ys) a v.cycle in
    let at_end = has-last y ys in
    record {
      cycle =
          subst (λ l. Linked l y ys y) (hook_out_head-links r a y ys v)
            (relink_end r.links y ys y v.distinct.1 v.distinct.1.0
              (Linked-Run r.links y ys a v.cycle.2));
      active = ground (arith, before, v.cycle.0, v.active, v.distinct.0, at_end);
      distinct = v.distinct.1;
      nonnull = ground (arith, v.nonnull);
      counter = ground (arith, v.counter, before, v.cycle.0, at_end, v.distinct.0);
      start = ground (arith, v.start, before, v.cycle.0, at_end, v.distinct.0);
    }

hook_out_only :
    (r : Cyclic) (a : Ptr) → IsRing r (a ∷ []) → r.preemptive_start ≢ a → IsRing (hook_out a r) []
unfolding hook_out
hook_out_only r a v h = record {
  cycle = tt;
  active = ground (arith, v.cycle.0);
  distinct = tt;
  nonnull = ground arith;
  counter = ground (arith, v.cycle.0);
  start = ground (arith, v.start, v.cycle.0);
}

-- `schedulerDelete` leaves the other elements in their order, and no pointer to `e`.
pub hook_out-IsRing :
    (r : Cyclic) (e : Ptr) (xs : List Ptr)
    → IsRing r xs
    → e ∈ xs
    → r.preemptive_start ≢ e
    → IsRing (hook_out e r) (erase e xs)
hook_out-IsRing r e [] v m h = cc
hook_out-IsRing r e (a ∷ xs) v m h = elim (Bool-cases (e == a)) [
  | inl same ↦ rw same (head_case r e a xs ((==_iff e a).0 same) v h)
  | inr other ↦
      let p = split_of_has e xs (ground arith) in
      rw (other, p.3) (hook_out_inner r a p.0 e p.1 (subst (λ zs. IsRing r (a ∷ zs)) p.2 v) h)
]
  where
    head_case :
        (r : Cyclic) (e a : Ptr) (xs : List Ptr)
        → e ≡ a
        → IsRing r (a ∷ xs)
        → r.preemptive_start ≢ e
        → IsRing (hook_out e r) xs
    head_case r e a [] same v h = rw same (hook_out_only r a v (ground arith))
    head_case r e a (y ∷ ys) same v h = rw same (hook_out_head r a y ys v (ground arith))
