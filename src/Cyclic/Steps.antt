-- ===== src/Cyclic/Steps.antt =====
-- schedulerRegister, schedulerDelete and touch keep the cycle and its pointers.
use rambrain.Prelude.{
  ℕ, ◌≡◌, ◌≢◌, ◌⊎◌, inl, inr, List, [], ◌∷◌, ◌++◌, ◌==◌, arith, ◌∈◌, ◌∉◌, update, Bool-cases,
  split_of_has, has-append, sym, subst,
}
use rambrain.Ring.{Ptr, null}
use rambrain.Ring.Linked.{Linked-next, Linked-split}
use rambrain.Ring.Relink.{parts}
use rambrain.State.{State, Cyclic}
use rambrain.Cyclic.{step_preemptive_start, count_touched, uncount_deleted}
use rambrain.Cyclic.Invariant.{IsRing, IsRing-same, Scheduled}

-- The element after one of a cycle: where it leads back to that one, it is `active`.
nonnull_of_mem : (e : Ptr) (xs : List Ptr) → null ∉ xs → e ∈ xs → e ≢ null
nonnull_of_mem e xs h m = ground arith

next_inner :
    (r : Cyclic) (a : Ptr) (ys : List Ptr) (e : Ptr) (zs : List Ptr)
    → IsRing r (a ∷ ys ++ e ∷ zs)
    → (r.links.next e ∈ (a ∷ ys ++ e ∷ zs)) × (r.links.next e ≢ e)
next_inner r a ys e zs v =
    let s = Linked-split r.links a ys e zs a v.cycle in
    let p = parts a ys e zs v.distinct in
    let after = Linked-next r.links e zs a s.1 in
    (
      ground (arith, after, has-append (r.links.next e) ys (e ∷ zs)),
      ground (arith, after, p.out, p.right),
    )

pub next_of_mem :
    (r : Cyclic) (xs : List Ptr) (e : Ptr)
    → IsRing r xs
    → e ∈ xs
    → (r.links.next e ∈ xs) × ((r.links.next e ≡ r.active) ⊎ (r.links.next e ≢ e))
next_of_mem r [] e v m = cc
next_of_mem r (a ∷ xs) e v m = elim (Bool-cases (e == a)) [
  | inl same ↦ (
    ground (arith, Linked-next r.links a xs a v.cycle),
    ground (arith, Linked-next r.links a xs a v.cycle, v.active, v.distinct),
  )
  | inr other ↦
      let p = split_of_has e xs (ground arith) in
      let w = next_inner r a p.0 e p.1 (subst (λ zs. IsRing r (a ∷ zs)) p.2 v) in
      (subst (λ zs. r.links.next e ∈ (a ∷ zs)) (sym p.2) w.0, inr w.1)
]

pub step_preemptive_start-IsRing :
    (r : Cyclic) (xs : List Ptr) (i : ℕ) → IsRing r xs → IsRing (step_preemptive_start i r) xs
unfolding step_preemptive_start
step_preemptive_start-IsRing r xs i v =
    IsRing-same r (step_preemptive_start i r) xs (ground arith) (ground arith) (ground arith)
      (ground (arith, v.start, next_of_mem r xs r.preemptive_start v)) v

pub step_preemptive_start-ne :
    (r : Cyclic) (xs : List Ptr) (i : ℕ) (e : Ptr)
    → IsRing r xs
    → e ∈ xs
    → r.chunk e ≡ i
    → ((p : Ptr) → p ∈ xs → r.chunk p ≡ i → p ≡ e)
    → (step_preemptive_start i r).preemptive_start ≢ e
unfolding step_preemptive_start
step_preemptive_start-ne r xs i e v m owner only = ground (
  arith,
  v.start,
  next_of_mem r xs e v m,
  only r.preemptive_start,
  owner,
  nonnull_of_mem e xs v.nonnull m,
)

module _ (s : State) (xs : List Ptr) (i : ℕ) where
  pub count_touched-Scheduled : Scheduled s xs → Scheduled (count_touched i s) xs
  unfolding count_touched update
  count_touched-Scheduled v = record {
    ring =
        IsRing-same s.ring (count_touched i s).ring xs (ground arith) (ground arith) (ground arith)
          (ground (arith, v.ring.start)) v.ring;
    back = λ p m. ground (arith, v.back p m);
  }

  pub uncount_deleted-Scheduled : Scheduled s xs → Scheduled (uncount_deleted i s) xs
  unfolding uncount_deleted update
  uncount_deleted-Scheduled v = record {
    ring =
        IsRing-same s.ring (uncount_deleted i s).ring xs (ground arith) (ground arith)
          (ground arith) (ground (arith, v.ring.start)) v.ring;
    back = λ p m. ground (arith, v.back p m);
  }
