-- ===== src/Cyclic/Invariant.antt =====
-- What the scheduler keeps: one cycle of distinct elements, and its pointers into it.
use rambrain.Prelude.{◌≡◌, ◌⊎◌, sym, subst, ◌∙◌, List, [], ◌∷◌, ◌∈◌, ◌∉◌, Distinct}
use rambrain.Ring.{Ptr, null, Links}
use rambrain.Ring.Linked.{Linked, first}
use rambrain.State.{State, Cyclic}

-- The elements, from the first one round to it again.
abbrev pub Cycle : Links → List Ptr → Type 0
Cycle l [] = Unit
Cycle l (a ∷ xs) = Linked l a xs a

-- A pointer into a cycle, NULL where the cycle is empty.
abbrev pub PointsInto : Ptr → List Ptr → Type 0
PointsInto p [] = p ≡ null
PointsInto p (a ∷ xs) = p ∈ (a ∷ xs)

-- `xs` are the elements from `active` on; no pointer of the scheduler dangles.
pub record IsRing (r : Cyclic) (xs : List Ptr) : Type 0 where
  pub cycle : Cycle r.links xs
  pub active : r.active ≡ first xs null
  pub distinct : Distinct xs
  pub nonnull : null ∉ xs
  pub counter : PointsInto r.counter_active xs
  pub start : (r.preemptive_start ≡ null) ⊎ (r.preemptive_start ∈ xs)

-- Only the links and the three pointers matter.
pub IsRing-same :
    (r r' : Cyclic) (xs : List Ptr)
    → r.links ≡ r'.links
    → r.active ≡ r'.active
    → r.counter_active ≡ r'.counter_active
    → (r'.preemptive_start ≡ null) ⊎ (r'.preemptive_start ∈ xs)
    → IsRing r xs
    → IsRing r' xs
IsRing-same r r' xs same_links same_active same_counter start v = record {
  cycle = subst (λ l. Cycle l xs) same_links v.cycle;
  active = sym same_active ∙ v.active;
  distinct = v.distinct;
  nonnull = v.nonnull;
  counter = subst (λ p. PointsInto p xs) same_counter v.counter;
  start = start;
}

-- Each element belongs to one chunk, and that chunk points back to it.
pub record Scheduled (s : State) (xs : List Ptr) : Type 0 where
  pub ring : IsRing s.ring xs
  pub back : (p : Ptr) → p ∈ xs → (s.chunks (s.ring.chunk p)).sched_buf ≡ p
