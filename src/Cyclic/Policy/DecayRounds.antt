-- ===== src/Cyclic/Policy/DecayRounds.antt =====
-- src/cyclicManagedMemory.cpp, decay: the second walk against the first.
use rambrain.Prelude.{
  ℕ, zero, suc, ◌+◌, ◌≤◌, ◌<◌, ◌≡◌, ◌⊎◌, refl, sym, ◌∙◌, ap, true, false, not, Bool-cases, inl, inr,
  ltb, ◌==◌, ◌&&◌, List, [], ◌∷◌, ◌++◌, Option, some, length, arith, update, ◌∈◌, ◌∉◌, Distinct,
  if◌then◌else◌,
}
use rambrain.Prelude.Words.{u32}
use rambrain.Ring.{Ptr, Links}
use rambrain.Ring.Linked.{Linked, Onwards}
use rambrain.State.{State, Cyclic}
use rambrain.Cyclic.Policy.Decay.{
  Decaying, is_decaying, decay_step, decay_walk, list_step, list_walk, decay_start,
}

-- What the first walk does not write.
pub record Steady (s s' : State) : Type 0 where
  pub ring : s'.ring ≡ s.ring
  pub size : (i : ℕ) → (s'.chunks i).size ≡ (s.chunks i).size
  pub status : (i : ℕ) → (s'.chunks i).status ≡ (s.chunks i).status
  pub use_cnt : (i : ℕ) → (s'.chunks i).use_cnt ≡ (s.chunks i).use_cnt

decay_step-Steady :
    (swapleft : ℕ) (s : State) (d : Decaying)
    → Steady s d.state
    → Steady s (decay_step swapleft d).state
unfolding decay_step update
decay_step-Steady swapleft s d a = record {
  ring = ground (arith, a.ring);
  size = λ j. ground (arith, a.size j);
  status = λ j. ground (arith, a.status j);
  use_cnt = λ j. ground (arith, a.use_cnt j);
}

is_decaying-Steady :
    (s s' : State) (i swapleft n : ℕ)
    → Steady s s'
    → is_decaying swapleft n (s'.chunks i) ≡ is_decaying swapleft n (s.chunks i)
unfolding is_decaying
is_decaying-Steady s s' i swapleft n a = rw (a.size i, a.status i, a.use_cnt i) refl

list_step-Steady :
    (swapleft i : ℕ) (s s' : State) (q : ℕ × List ℕ)
    → Steady s s'
    → list_step swapleft i (s'.chunks i) q ≡ list_step swapleft i (s.chunks i) q
unfolding list_step
list_step-Steady swapleft i s s' q a = rw (is_decaying-Steady s s' i swapleft q.0 a, a.size i) refl

pub Steady-refl : (s : State) → Steady s s
Steady-refl s = record { ring = refl; size = λ i. refl; status = λ i. refl; use_cnt = λ i. refl }

pub length-append_one : (xs : List ℕ) (i : ℕ) → length (xs ++ i ∷ []) ≡ length xs + 1
length-append_one [] i = refl
length-append_one (x ∷ xs) i = omega (arith, length-append_one xs i)

-- The two walks at the same element of `s`, having chosen the same.
record Abreast (s : State) (p : Ptr) (d : Decaying) (q : ℕ × List ℕ) : Type 0 where
  steady : Steady s d.state
  cur : d.cur ≡ p
  bytesselected : d.bytesselected ≡ q.0
  chunks : length q.1 ≡ d.chunks

decay_step-Abreast :
    (swapleft : ℕ) (s : State) (p : Ptr) (d : Decaying) (q : ℕ × List ℕ)
    → d.chunks + 1 < u32
    → Abreast s p d q
    → let i = s.ring.chunk p in
      let d1 = decay_step swapleft d in
      Abreast s (s.ring.links.next p) d1 (list_step swapleft i (s.chunks i) q)
      × (d1.chunks ≤ d.chunks + 1)
unfolding decay_step list_step
decay_step-Abreast swapleft s p d q few a =
    let i = s.ring.chunk p in
    let here : d.state.ring.chunk d.cur ≡ i = rw (a.cur, a.steady.ring) refl in
    let ahead : d.state.ring.links.next d.cur ≡ s.ring.links.next p =
      rw (a.cur, a.steady.ring) refl in
    let kept = decay_step-Steady swapleft s d a.steady in
    let same : is_decaying swapleft d.bytesselected (d.state.chunks (d.state.ring.chunk d.cur))
        ≡ is_decaying swapleft q.0 (s.chunks i) =
      rw (here, a.bytesselected) (is_decaying-Steady s d.state i swapleft q.0 a.steady) in
    let size : (d.state.chunks (d.state.ring.chunk d.cur)).size ≡ (s.chunks i).size =
      rw here (a.steady.size i) in
    elim (Bool-cases (is_decaying swapleft q.0 (s.chunks i))) [
      | inl taken ↦
          let so = same ∙ taken in
          (
            record {
              steady = kept;
              cur = rw so ahead;
              bytesselected = rw (so, taken, a.bytesselected, size) refl;
              chunks = rw (so, taken, length-append_one q.1 i, a.chunks) (omega (arith, few));
            },
            rw so (omega (arith, few)),
          )
      | inr passed ↦
          let so = same ∙ passed in
          (
            record {
              steady = kept;
              cur = rw so ahead;
              bytesselected = rw (so, passed) a.bytesselected;
              chunks = rw (so, passed) a.chunks;
            },
            rw so (omega arith),
          )
    ]

-- An element that the walk has left is not the one where it stops.
left_behind :
    (p y cur b : Ptr) (ys : List Ptr)
    → p ≡ y
    → y ∉ ys
    → b ∉ (y ∷ ys)
    → (cur ≡ b) ⊎ (cur ∈ ys)
    → ((p == cur) ≡ false) × ((cur ≡ b) ⊎ (cur ∈ (y ∷ ys)))
left_behind p y cur b ys e once out (inl same) = (ground (arith, e, out, same), inl same)
left_behind p y cur b ys e once out (inr inside) = elim (Bool-cases (p == cur)) [
  | inl same ↦ absurd (let here : y ≡ cur = ground arith in cc)
  | inr other ↦ (other, inr (ground (arith, inside)))
]

-- Both walks end; the second has chosen what the first has counted.
decay_walk-Agrees :
    (k bytes swapleft : ℕ) (s : State) (p : Ptr) (ys : List Ptr) (d : Decaying) (q : ℕ × List ℕ)
    → Onwards s.ring.links p ys s.ring.active
    → Distinct ys
    → s.ring.active ∉ ys
    → length ys < k
    → d.chunks + length ys < u32
    → Abreast s p d q
    → (e : Decaying) × (decay_walk k bytes swapleft d ≡ some e)
      × ((e.cur ≡ s.ring.active) ⊎ (e.cur ∈ ys))
      × (q1 : ℕ × List ℕ) × (list_walk k bytes swapleft s e.cur p q ≡ some q1)
      × (e.bytesselected ≡ q1.0)
      × (length q1.1 ≡ e.chunks)
      × Steady s e.state
unfolding decay_walk list_walk
decay_walk-Agrees zero bytes swapleft s p ys d q o u n fuel few a = absurd (omega (arith, fuel))
decay_walk-Agrees (suc k) bytes swapleft s p [] d q o u n fuel few a =
    let at_end : d.cur == d.state.ring.active ≡ true =
      rw (a.steady.ring, a.cur, o) (ground arith) in
    let stops : p == d.cur ≡ true = rw a.cur (ground arith) in
    (d, rw at_end refl, inl (a.cur ∙ o), q, rw stops refl, a.bytesselected, a.chunks, a.steady)
decay_walk-Agrees (suc k) bytes swapleft s p (y ∷ ys) d q o u n fuel few a =
    let inside : d.cur == d.state.ring.active ≡ false =
      rw (a.steady.ring, a.cur, o.0) (ground (arith, n)) in
    elim (Bool-cases (ltb d.bytesselected bytes)) [
      | inr full ↦
          let stops : p == d.cur ≡ true = rw a.cur (ground arith) in
          (
            d,
            rw (inside, full) refl,
            inr (rw (a.cur, o.0) (ground arith)),
            q,
            rw stops refl,
            a.bytesselected,
            a.chunks,
            a.steady,
          )
      | inl short ↦
          let b = decay_step-Abreast swapleft s p d q (omega (arith, few)) a in
          let i = s.ring.chunk p in
          let r =
            decay_walk-Agrees k bytes swapleft s (s.ring.links.next p) ys (decay_step swapleft d)
              (list_step swapleft i (s.chunks i) q) o.1 u.1 (ground (arith, n))
              (omega (arith, fuel)) (omega (arith, few, b.1)) b.0 in
          let apart = left_behind p y r.0.cur s.ring.active ys o.0 u.0 n r.2 in
          let more : ltb q.0 bytes ≡ true = rw (sym a.bytesselected) short in
          (r.0, rw (inside, short) r.1, apart.1, r.3, rw (apart.0, more) r.4, r.5, r.6, r.7)
    ]

list_walk-Steady :
    (k bytes swapleft : ℕ) (s s' : State) (cur p : Ptr) (q : ℕ × List ℕ)
    → Steady s s'
    → list_walk k bytes swapleft s' cur p q ≡ list_walk k bytes swapleft s cur p q
unfolding list_walk
list_walk-Steady zero bytes swapleft s s' cur p q a = refl
list_walk-Steady (suc k) bytes swapleft s s' cur p q a =
    let i = s.ring.chunk p in
    let step : list_step swapleft i (s'.chunks i) q ≡ list_step swapleft i (s.chunks i) q =
      list_step-Steady swapleft i s s' q a in
    let same_chunk : s'.ring.chunk p ≡ i = ap (λ (r : Cyclic). r.chunk p) a.ring in
    let same_next : s'.ring.links.next p ≡ s.ring.links.next p =
      ap (λ (r : Cyclic). r.links.next p) a.ring in
    rw (same_chunk, same_next, step)
      (ap (λ (o : Option (ℕ × List ℕ)). if not (p == cur) && ltb q.0 bytes then o else some q)
        (list_walk-Steady k bytes swapleft s s' cur (s.ring.links.next p)
          (list_step swapleft i (s.chunks i) q) a))

Linked-Onwards :
    (l : Links) (a : Ptr) (xs : List Ptr) (b : Ptr) → Linked l a xs b → Onwards l a (a ∷ xs) b
Linked-Onwards l a [] b s = (refl, s.0)
Linked-Onwards l a (x ∷ xs) b s = (refl, rw s.0 (Linked-Onwards l x xs b s.2))

-- Where the elements from preemptiveStart on lead to active, each of them once, and the fuel, at most
-- 2 ^ 32, is more than their number, both of decay's walks end: the second one chooses the bytes that
-- the first one has counted, and fills the list with as many chunks.
pub decay_walks_agree :
    (k bytes swapleft : ℕ) (s : State) (xs : List Ptr)
    → let start = s.ring.preemptive_start in
      Linked s.ring.links start xs s.ring.active
      → Distinct (start ∷ xs)
      → s.ring.active ∉ (start ∷ xs)
      → length xs + 1 < k
      → k ≤ u32
      → (d : Decaying) × (decay_walk k bytes swapleft (decay_start s) ≡ some d)
        × (q : ℕ × List ℕ) × (list_walk k bytes swapleft d.state d.cur d.state.ring.preemptive_start
              (0, [])
            ≡ some q)
        × (d.bytesselected ≡ q.0)
        × (length q.1 ≡ d.chunks)
unfolding decay_start
decay_walks_agree k bytes swapleft s xs l u n fuel few =
    let start = s.ring.preemptive_start in
    let r =
      decay_walk-Agrees k bytes swapleft s start (start ∷ xs) (decay_start s) (0, [])
        (Linked-Onwards s.ring.links start xs s.ring.active l) u n (omega (arith, fuel))
        (omega (arith, fuel, few))
        (record { steady = Steady-refl s; cur = refl; bytesselected = refl; chunks = refl }) in
    let same : r.0.state.ring.preemptive_start ≡ start = rw r.7.ring refl in
    (
      r.0,
      r.1,
      r.3,
      rw (same, list_walk-Steady k bytes swapleft s r.0.state r.0.cur start (0, []) r.7) r.4,
      r.5,
      r.6,
    )
