-- ===== src/Cyclic/Front.antt =====
-- `touch` moves an element to the front of the cycle and leaves the others in their order.
use rambrain.Prelude.{
  ◌≡◌, inl, inr, List, [], ◌∷◌, ◌++◌, ◌==◌, ◌||◌, arith, ◌∈◌, has, last, update, Bool-cases, ==_iff,
  erase, split_of_has, has-append, has-last, last-append, Distinct-cut, sym, subst,
}
use mathlib.Core.List.{append-nil}
use rambrain.Ring.{Ptr, null, mutual_connect}
use rambrain.Ring.Linked.{Linked, Linked-prev, Linked-split, Linked-frame, relink_end, Linked-Run}
use rambrain.Ring.Relink.{rotate, push_front, cut, parts}
use rambrain.State.{Cyclic}
use rambrain.Cyclic.{to_front}
use rambrain.Cyclic.Invariant.{IsRing}

module _ (r : Cyclic) (a e z : Ptr) (zs : List Ptr) where
  -- The element after `active`: lines 169 to 178.
  to_front_next-links :
      IsRing r (a ∷ e ∷ z ∷ zs)
      → mutual_connect a z (mutual_connect e a (mutual_connect (last z zs) e r.links))
        ≡ (to_front e r).links
  unfolding to_front
  to_front_next-links v = ground (
    arith,
    v.cycle.2.0,
    v.cycle.0,
    Linked-prev r.links a (e ∷ z ∷ zs) a v.cycle,
    v.active,
    v.distinct.0,
    v.distinct.1.0,
    has-last z zs,
  )

  to_front_next-Cycle : IsRing r (a ∷ e ∷ z ∷ zs) → Linked (to_front e r).links e (a ∷ z ∷ zs) e
  unfolding mutual_connect update
  to_front_next-Cycle v =
      let l1 = mutual_connect (last z zs) e r.links in
      let l2 = mutual_connect e a l1 in
      let last_in = has-last z zs in
      let t1 =
        relink_end r.links z zs e v.distinct.1.1 (ground (arith, v.distinct.1.0))
          (Linked-Run r.links z zs a v.cycle.2.2) in
      let t2 =
        Linked-frame l1 e a z zs e (ground (arith, v.distinct.1.0)) (ground (arith, v.distinct.0))
          (ground (arith, v.distinct.0)) t1 in
      let t3 =
        Linked-frame l2 a z z zs e (ground (arith, v.distinct.0)) v.distinct.1.1.0
          (ground (arith, v.distinct.1.0)) t2 in
      subst (λ l. Linked l e (a ∷ z ∷ zs) e) (to_front_next-links v)
        (
          ground (arith, v.distinct.0),
          ground (arith, v.distinct.0),
          (ground (arith, v.distinct.0), ground (arith, v.distinct.0), t3),
        )

-- The element before `active`: lines 161 to 165 only turn the cycle.
to_front_prev-links :
    (r : Cyclic) (a : Ptr) (ys : List Ptr) (e : Ptr)
    → IsRing r (a ∷ ys ++ e ∷ [])
    → r.links ≡ (to_front e r).links
unfolding to_front
to_front_prev-links r a ys e v =
    ground (arith, Linked-prev r.links a (ys ++ e ∷ []) a v.cycle, last-append a ys e [], v.active)

-- Any other element: lines 180 to 188.
module _ (r : Cyclic) (a y : Ptr) (ys : List Ptr) (e z : Ptr) (zs : List Ptr) where
  to_front_far-links :
      IsRing r (a ∷ (y ∷ ys) ++ e ∷ z ∷ zs)
      → mutual_connect e a (
          mutual_connect
            (last a ((y ∷ ys) ++ z ∷ zs))
            e
            (mutual_connect (last a (y ∷ ys)) z r.links))
        ≡ (to_front e r).links
  unfolding to_front
  to_front_far-links v =
      let s = Linked-split r.links a (y ∷ ys) e (z ∷ zs) a v.cycle in
      let p = parts a (y ∷ ys) e (z ∷ zs) v.distinct in
      ground (
        arith,
        v.active,
        v.cycle.0,
        s.1.0,
        Linked-prev r.links a (y ∷ ys) e s.0,
        Linked-prev r.links e (z ∷ zs) a s.1,
        last-append a (y ∷ ys) z zs,
        has-last z zs,
        p.right.0,
        p.out,
      )

  to_front_far-Cycle :
      IsRing r (a ∷ (y ∷ ys) ++ e ∷ z ∷ zs)
      → Linked (to_front e r).links e (a ∷ (y ∷ ys) ++ z ∷ zs) e
  to_front_far-Cycle v =
      let d = Distinct-cut (a ∷ y ∷ ys) e (z ∷ zs) v.distinct in
      subst (λ l. Linked l e (a ∷ (y ∷ ys) ++ z ∷ zs) e) (to_front_far-links v)
        (push_front (mutual_connect (last a (y ∷ ys)) z r.links) a ((y ∷ ys) ++ z ∷ zs) e d.1 d.0
          (cut r.links a (y ∷ ys) e (z ∷ zs) a v.distinct v.distinct.0 v.cycle))

to_front-Cycle :
    (r : Cyclic) (a : Ptr) (ys : List Ptr) (e : Ptr) (zs : List Ptr)
    → IsRing r (a ∷ ys ++ e ∷ zs)
    → Linked (to_front e r).links e (a ∷ ys ++ zs) e
to_front-Cycle r a ys e [] v =
    subst (λ l. Linked l e (a ∷ ys ++ []) e) (to_front_prev-links r a ys e v)
      (subst (λ us. Linked r.links e (a ∷ us) e) (sym (append-nil ys))
        (rotate r.links a ys e v.cycle))
to_front-Cycle r a [] e (z ∷ zs) v = to_front_next-Cycle r a e z zs v
to_front-Cycle r a (y ∷ ys) e (z ∷ zs) v = to_front_far-Cycle r a y ys e z zs v

to_front_inner :
    (r : Cyclic) (a : Ptr) (ys : List Ptr) (e : Ptr) (zs : List Ptr)
    → IsRing r (a ∷ ys ++ e ∷ zs)
    → IsRing (to_front e r) (e ∷ a ∷ ys ++ zs)
unfolding to_front
to_front_inner r a ys e zs v =
    let s = Linked-split r.links a ys e zs a v.cycle in
    let p = parts a ys e zs v.distinct in
    let old : (x : Ptr) → has x (ys ++ e ∷ zs) ≡ (has x ys || has x (e ∷ zs)) =
      λ x. has-append x ys (e ∷ zs) in
    let new : (x : Ptr) → has x (ys ++ zs) ≡ (has x ys || has x zs) = λ x. has-append x ys zs in
    record {
      cycle = to_front-Cycle r a ys e zs v;
      active = ground (arith, v.active, p.out);
      distinct = Distinct-cut (a ∷ ys) e zs v.distinct;
      nonnull = ground (arith, v.nonnull, old null, new null);
      counter = ground (
        arith,
        v.counter,
        v.active,
        p.out,
        Linked-prev r.links a ys e s.0,
        has-last a ys,
        old r.counter_active,
        new r.counter_active,
        new (last a ys),
      );
      start = ground (arith, v.start, old r.preemptive_start, new r.preemptive_start);
    }

to_front_self : (r : Cyclic) (e : Ptr) → r.active ≡ e → to_front e r ≡ r
unfolding to_front
to_front_self r e h = ground arith

pub to_front-IsRing :
    (r : Cyclic) (e : Ptr) (xs : List Ptr)
    → IsRing r xs
    → e ∈ xs
    → IsRing (to_front e r) (e ∷ erase e xs)
to_front-IsRing r e [] v m = cc
to_front-IsRing r e (a ∷ xs) v m = elim (Bool-cases (e == a)) [
  | inl same ↦ let i = (==_iff e a).0 same in rw (same, i, to_front_self r a v.active) v
  | inr other ↦
      let p = split_of_has e xs (ground arith) in
      rw (other, p.3) (to_front_inner r a p.0 e p.1 (subst (λ zs. IsRing r (a ∷ zs)) p.2 v))
]
