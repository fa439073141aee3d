-- ===== src/Cyclic/Policy/CheckSound.antt =====
-- src/cyclicManagedMemory.cpp, checkCycle: what holds where it finds no error.
use rambrain.Prelude.{
  ℕ, zero, suc, ◌+◌, ◌%◌, ◌<◌, ◌≡◌, refl, sym, subst, ◌∙◌, ap, Bool, true, false, not, Bool-cases,
  inl, inr, ◌==◌, ◌&&◌, ◌||◌, List, [], ◌∷◌, map, some, length, arith, ◌∉◌, if◌then◌else◌,
}
use rambrain.Prelude.Words.{u64, u32, add64}
use rambrain.Chunk.{
  Chunk, MemoryStatus, has_flag, is_status, mem_root, mem_allocated_inuse_read,
  mem_allocated_inuse_write, mem_allocated_inuse, mem_allocated, mem_swapped, mem_swapin,
  mem_swapout,
}
use rambrain.Ring.{Ptr}
use rambrain.Ring.Linked.{Linked}
use rambrain.State.{State, chunk_at}
use rambrain.Swap.Totals.{total, weight}
use rambrain.FileSwap.Moves.Weights.{holds_ram, holds_swap, leaving}
use rambrain.Cyclic.Policy.Check.{Check, check_bytes, check_sections, check_step, check_round}

leaves_lem :
    (st : MemoryStatus)
    → (not (has_flag st mem_allocated || is_status st mem_swapin) && is_status st mem_swapout)
      ≡ leaving st
leaves_lem mem_root = refl
leaves_lem mem_allocated_inuse_read = refl
leaves_lem mem_allocated_inuse_write = refl
leaves_lem mem_allocated_inuse = refl
leaves_lem mem_allocated = refl
leaves_lem mem_swapped = refl
leaves_lem mem_swapin = refl
leaves_lem mem_swapout = refl

ram_lem :
    (st : MemoryStatus)
    → ((has_flag st mem_allocated || is_status st mem_swapin) || is_status st mem_swapout)
      ≡ holds_ram st
ram_lem st = ground arith

-- The three sums of the round are below 2 ^ 64.
pub record Small (k : Check) : Type 0 where
  pub used_bytes : k.used_bytes < u64
  pub tobef : k.tobef < u64
  pub swapped_bytes : k.swapped_bytes < u64

-- What a step adds to the sums for the chunk `c`.
record Counts (c : Chunk) (k k1 : Check) : Type 0 where
  used_bytes : k1.used_bytes ≡ (k.used_bytes + weight holds_ram c) % u64
  tobef : k1.tobef ≡ (k.tobef + weight leaving c) % u64
  swapped_bytes : k1.swapped_bytes ≡ (k.swapped_bytes + weight holds_swap c) % u64

added :
    (b : Bool) (n size : ℕ)
    → n < u64
    → (if b then add64 n size else n) ≡ (n + (if b then size else 0)) % u64
unfolding add64
added true n size h = refl
added false n size h = omega (arith, h)

check_bytes-Counts : (c : Chunk) (k : Check) → Small k → Counts c k (check_bytes c k)
unfolding check_bytes
check_bytes-Counts c k v = record {
  used_bytes = rw (ram_lem c.status) (added (holds_ram c.status) k.used_bytes c.size v.used_bytes);
  tobef = rw (leaves_lem c.status) (added (leaving c.status) k.tobef c.size v.tobef);
  swapped_bytes = added (holds_swap c.status) k.swapped_bytes c.size v.swapped_bytes;
}

Counts-Small : (c : Chunk) (k k1 : Check) → Counts c k k1 → Small k1
Counts-Small c k k1 n = record {
  used_bytes = omega (arith, n.used_bytes);
  tobef = omega (arith, n.tobef);
  swapped_bytes = omega (arith, n.swapped_bytes);
}

-- What counting a chunk leaves as it is.
check_bytes_rest :
    (c : Chunk) (k : Check)
    → ((check_bytes c k).cur ≡ k.cur)
      × ((check_bytes c k).encountered ≡ k.encountered)
      × ((check_bytes c k).memerror ≡ k.memerror)
      × ((check_bytes c k).has_preemptives ≡ (c.preemptive_loaded || k.has_preemptives))
unfolding check_bytes
check_bytes_rest c k = (refl, refl, refl, refl)

-- One step of the round.
record Stepped (s : State) (k k1 : Check) : Type 0 where
  counts : Counts (chunk_at s (s.ring.links.next k.cur)) k k1
  cur : k1.cur ≡ s.ring.links.next k.cur
  encountered : k1.encountered ≡ (k.encountered + 1) % u32
  fine :
      k1.memerror ≡ false
      → (k.memerror ≡ false) × (s.ring.links.prev (s.ring.links.next k.cur) ≡ k.cur)
  plain :
      k1.has_preemptives ≡ false
      → (k.has_preemptives ≡ false)
        × ((chunk_at s (s.ring.links.next k.cur)).preemptive_loaded ≡ false)

check_step-Stepped : (s : State) (k : Check) → Small k → Stepped s k (check_step s k)
unfolding check_step check_sections
check_step-Stepped s k v =
    let cur = s.ring.links.next k.cur in
    let k1 : Check = record k { encountered = (k.encountered + 1) % u32; cur = cur } in
    let small : Small k1 = record {
      used_bytes = v.used_bytes;
      tobef = v.tobef;
      swapped_bytes = v.swapped_bytes;
    } in
    let n = check_bytes-Counts (chunk_at s cur) k1 small in
    let r = check_bytes_rest (chunk_at s cur) k1 in
    record {
      counts = record {
        used_bytes = n.used_bytes;
        tobef = n.tobef;
        swapped_bytes = n.swapped_bytes;
      };
      cur = r.0;
      encountered = r.1;
      fine = λ h. ground (arith, h, r.2);
      plain = λ h. ground (arith, h, r.3);
    }

-- The chunks of some elements are all loaded preemptively, or none of them is.
abbrev pub AllLoaded : Bool → State → List Ptr → Type 0
AllLoaded loaded s [] = Unit
AllLoaded loaded s (p ∷ ps) = ((chunk_at s p).preemptive_loaded ≡ loaded) × AllLoaded loaded s ps

abbrev pub bytes_of : (MemoryStatus → Bool) → State → List Ptr → ℕ
bytes_of test s ps = total test s.chunks (map s.ring.chunk ps)

-- The round from `k` on: it has visited `xs` and `active`.
pub record Rounded (s : State) (k e : Check) (xs : List Ptr) : Type 0 where
  pub linked : Linked s.ring.links k.cur xs s.ring.active
  pub once : s.ring.active ∉ xs
  pub encountered : e.encountered ≡ (k.encountered + length xs + 1) % u32
  pub used_bytes : e.used_bytes ≡ (k.used_bytes + bytes_of holds_ram s (s.ring.active ∷ xs)) % u64
  pub tobef : e.tobef ≡ (k.tobef + bytes_of leaving s (s.ring.active ∷ xs)) % u64
  pub swapped_bytes :
      e.swapped_bytes ≡ (k.swapped_bytes + bytes_of holds_swap s (s.ring.active ∷ xs)) % u64
  pub fine : k.memerror ≡ false
  pub plain :
      e.has_preemptives ≡ false
      → (k.has_preemptives ≡ false) × AllLoaded false s (s.ring.active ∷ xs)

pub check_round-Rounded :
    (fuel : ℕ) (s : State) (k e : Check)
    → Small k
    → check_round fuel s k ≡ some e
    → e.memerror ≡ false
    → (xs : List Ptr) × Rounded s k e xs
unfolding check_round
check_round-Rounded zero s k e v r good = absurd (cc)
check_round-Rounded (suc fuel) s k e v r good =
    let k1 = check_step s k in
    let st = check_step-Stepped s k v in
    let cur = s.ring.links.next k.cur in
    elim (Bool-cases (k1.cur == s.ring.active)) [
      | inl over ↦
          let same : k1 ≡ e = ground (arith, r, over) in
          let ends : cur ≡ s.ring.active = ground (arith, over, st.cur) in
          let f = st.fine (ap (λ (c : Check). c.memerror) same ∙ good) in
          (
            [],
            record {
              linked = (ends, rw (sym ends) f.1);
              once = refl;
              encountered = rw (sym same) (omega (arith, st.encountered));
              used_bytes = rw (sym same, sym ends) (omega (arith, st.counts.used_bytes));
              tobef = rw (sym same, sym ends) (omega (arith, st.counts.tobef));
              swapped_bytes = rw (sym same, sym ends) (omega (arith, st.counts.swapped_bytes));
              fine = f.0;
              plain = λ h.
                  let p = st.plain (ap (λ (c : Check). c.has_preemptives) same ∙ h) in
                  (p.0, (rw (sym ends) p.1, tt));
            },
          )
      | inr goes ↦
          let rest : check_round fuel s k1 ≡ some e = ground (arith, r, goes) in
          let small = Counts-Small (chunk_at s cur) k k1 st.counts in
          let w = check_round-Rounded fuel s k1 e small rest good in
          let q = w.1 in
          let f = st.fine q.fine in
          (
            cur ∷ w.0,
            record {
              linked = (
                refl,
                f.1,
                subst (λ (p : Ptr). Linked s.ring.links p w.0 s.ring.active) st.cur q.linked,
              );
              once = ground (arith, goes, st.cur, q.once);
              encountered = omega (arith, q.encountered, st.encountered);
              used_bytes = omega (arith, q.used_bytes, st.counts.used_bytes);
              tobef = omega (arith, q.tobef, st.counts.tobef);
              swapped_bytes = omega (arith, q.swapped_bytes, st.counts.swapped_bytes);
              fine = f.0;
              plain =
                  λ h. let p = q.plain h in let p1 = st.plain p.0 in (p1.0, (p.1.0, (p1.1, p.1.1)));
            },
          )
    ]
