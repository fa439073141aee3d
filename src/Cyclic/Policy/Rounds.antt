-- ===== src/Cyclic/Policy/Rounds.antt =====
-- src/cyclicManagedMemory.cpp, swapOut: the second round against the first.
use rambrain.Prelude.{
  ℕ, zero, suc, ◌+◌, ◌≤◌, ◌<◌, ◌⊎◌, ◌≡◌, refl, sym, ap, true, false, Bool-cases, inl, inr, ltb,
  ◌==◌, List, [], ◌∷◌, ◌++◌, some, length, arith,
}
use rambrain.Prelude.Words.{u64, u32, add64}
use rambrain.Chunk.{Chunk}
use rambrain.Ring.{Ptr}
use rambrain.State.{State, chunk_at}
use rambrain.Cyclic.Policy.Unloading.{
  Tally, Unloading, is_candidate, count_candidate, count_round, unload_step, unload_round,
}
use rambrain.Cyclic.Policy.Alike.{Alike, unload_chunk-Alike}

-- The free swap and the size of a chunk of the cycle do not add up to 2 ^ 64.
abbrev pub SizesFit : ℕ → State → Type 0
SizesFit swap_free s = (p : Ptr) → swap_free + (chunk_at s p).size < u64

candidate_fits :
    (swap_free n : ℕ) (c : Chunk)
    → swap_free + c.size < u64
    → n ≤ swap_free
    → is_candidate swap_free n c ≡ true
    → (add64 n c.size ≡ n + c.size) × (n + c.size ≤ swap_free)
unfolding is_candidate add64
candidate_fits swap_free n c fits room yes_it_is = ground (arith, fits, room, yes_it_is)

-- Every chunk of the cycle has some bytes.
abbrev pub Positive : State → Type 0
Positive s = (p : Ptr) → 1 ≤ (chunk_at s p).size

-- From `t` on, `t1` is a tally that may follow.
abbrev Grown : ℕ → State → Tally → Tally → Type 0
Grown swap_free s t t1 =
    (t.unload_size ≤ t1.unload_size)
    × (t1.unload_size ≤ swap_free)
    × (t.unload ≤ t1.unload)
    × (Positive s → t1.unload + t.unload_size ≤ t.unload + t1.unload_size)

count_candidate-Grown :
    (swap_free : ℕ) (s : State) (p : Ptr) (t : Tally)
    → SizesFit swap_free s
    → t.unload_size ≤ swap_free
    → t.unload + 1 < u32
    → let t1 = count_candidate swap_free (chunk_at s p) t in
      Grown swap_free s t t1 × (t1.unload ≤ t.unload + 1)
unfolding count_candidate
count_candidate-Grown swap_free s p t fits room few =
    let c = chunk_at s p in
    elim (Bool-cases (is_candidate swap_free t.unload_size c)) [
      | inl taken ↦
          let e = candidate_fits swap_free t.unload_size c (fits p) room taken in
          rw (taken, e.0)
            (
              (omega arith, e.1, omega (arith, few), λ pos. omega (arith, few, pos p)),
              omega (arith, few),
            )
      | inr passed ↦ rw passed ((omega arith, room, omega arith, λ pos. omega arith), omega arith)
    ]

-- How the first round goes on from one element.
count_round-next :
    (left mem_swap swap_free : ℕ) (s : State) (p : Ptr) (t T : Tally)
    → count_round (suc left) mem_swap swap_free s p t ≡ some T
    → let t1 = count_candidate swap_free (chunk_at s p) t in
      (t ≡ T)
      ⊎ (((left ≡ 0) × (t1 ≡ T))
          ⊎ (count_round left mem_swap swap_free s (s.ring.links.prev p) t1 ≡ some T))
unfolding count_round
count_round-next left mem_swap swap_free s p t T e =
    elim (Bool-cases (ltb t.unload_size mem_swap)) [
      | inr full ↦ inl (ground (arith, e, full))
      | inl short ↦ elim (Bool-cases (left == 0)) [
        | inl ends ↦ inr (inl (ground arith, ground (arith, e, short, ends)))
        | inr goes ↦ inr (inr (ground (arith, e, short, goes)))
      ]
    ]

count_round-Grown :
    (left mem_swap swap_free : ℕ) (s : State) (p : Ptr) (t T : Tally)
    → SizesFit swap_free s
    → t.unload_size ≤ swap_free
    → t.unload + left < u32
    → count_round left mem_swap swap_free s p t ≡ some T
    → Grown swap_free s t T
unfolding count_round
count_round-Grown zero mem_swap swap_free s p t T fits room few e =
    elim (Bool-cases (ltb t.unload_size mem_swap)) [
      | inl short ↦ absurd (ground (arith, e, short))
      | inr full ↦
          let same : t ≡ T = ground (arith, e, full) in
          rw (sym same) (omega arith, room, omega arith, λ pos. omega arith)
    ]
count_round-Grown (suc left) mem_swap swap_free s p t T fits room few e =
    let t1 = count_candidate swap_free (chunk_at s p) t in
    let g = count_candidate-Grown swap_free s p t fits room (omega (arith, few)) in
    elim (count_round-next left mem_swap swap_free s p t T e) [
      | inl same ↦ rw (sym same) (omega arith, room, omega arith, λ pos. omega arith)
      | inr (inl ends) ↦ rw (sym ends.1) g.0
      | inr (inr goes) ↦
          let h =
            count_round-Grown left mem_swap swap_free s (s.ring.links.prev p) t1 T fits g.0.1
              (omega (arith, few, g.1)) goes in
          (
            omega (arith, g.0.0, h.0),
            h.1,
            omega (arith, g.0.2, h.2),
            λ pos. omega (arith, g.0.3 pos, h.3 pos),
          )
    ]

-- The second round at the place of the first.
pub record Abreast (s : State) (p : Ptr) (t : Tally) (w : Unloading) : Type 0 where
  pub alike : Alike s w.state
  pub from_pos : w.from_pos ≡ p
  pub unload_size2 : w.unload_size2 ≡ t.unload_size
  pub unloadlist : length w.unloadlist ≡ t.unload

length-append_one : (xs : List ℕ) (i : ℕ) → length (xs ++ i ∷ []) ≡ length xs + 1
length-append_one [] i = refl
length-append_one (x ∷ xs) i = omega (arith, length-append_one xs i)

is_candidate-Alike :
    (s s' : State) (i swap_free n : ℕ)
    → Alike s s'
    → is_candidate swap_free n (s'.chunks i) ≡ is_candidate swap_free n (s.chunks i)
unfolding is_candidate
is_candidate-Alike s s' i swap_free n a = rw (a.size i, a.status i, a.use_cnt i) refl

unload_step-Abreast :
    (swap_free : ℕ) (s : State) (p : Ptr) (t : Tally) (w : Unloading)
    → t.unload + 1 < u32
    → Abreast s p t w
    → Abreast s
        (s.ring.links.prev p)
        (count_candidate swap_free (chunk_at s p) t)
        (unload_step swap_free w)
unfolding count_candidate unload_step
unload_step-Abreast swap_free s p t w few a =
    let i = s.ring.chunk p in
    let here : w.state.ring.chunk w.from_pos ≡ i = rw a.from_pos (a.alike.chunk p) in
    let back : w.state.ring.links.prev w.from_pos ≡ s.ring.links.prev p =
      rw a.from_pos (a.alike.prev p) in
    let size : (w.state.chunks i).size ≡ (s.chunks i).size = a.alike.size i in
    let same : is_candidate swap_free w.unload_size2 (w.state.chunks i)
        ≡ is_candidate swap_free t.unload_size (s.chunks i) =
      rw a.unload_size2 (is_candidate-Alike s w.state i swap_free t.unload_size a.alike) in
    elim (Bool-cases (is_candidate swap_free t.unload_size (s.chunks i))) [
      | inl taken ↦
          rw (here, same, taken)
            record {
              alike = unload_chunk-Alike s i w a.alike;
              from_pos = back;
              unload_size2 = rw (a.unload_size2, size) refl;
              unloadlist = rw (length-append_one w.unloadlist i, a.unloadlist) (omega (arith, few));
            }
      | inr passed ↦
          rw (here, same, passed)
            record {
              alike = a.alike;
              from_pos = back;
              unload_size2 = a.unload_size2;
              unloadlist = a.unloadlist;
            }
    ]

-- The bytes agree, and the list has no more places than it needs.
abbrev pub Agrees : State → Tally → Unloading → Type 0
Agrees s t v =
    (v.unload_size2 ≡ t.unload_size)
    × (length v.unloadlist ≤ t.unload)
    × (Positive s → length v.unloadlist ≡ t.unload)

-- Where no bytes are missing, the second round is over.
Agrees-here :
    (swap_free : ℕ) (s : State) (p : Ptr) (t T : Tally) (w : Unloading)
    → Abreast s p t w
    → Grown swap_free s t T
    → ltb w.unload_size2 T.unload_size ≡ false
    → Agrees s T w
Agrees-here swap_free s p t T w a g full =
    let same : w.unload_size2 ≡ T.unload_size = ground (arith, a.unload_size2, g.0, full) in
    (
      same,
      omega (arith, a.unloadlist, g.2),
      λ pos. omega (arith, a.unloadlist, g.2, g.3 pos, same, a.unload_size2),
    )

pub unload_round-Agrees :
    (left mem_swap swap_free : ℕ) (s : State) (p : Ptr) (t T : Tally) (w : Unloading)
    → SizesFit swap_free s
    → t.unload_size ≤ swap_free
    → t.unload + left < u32
    → Abreast s p t w
    → count_round left mem_swap swap_free s p t ≡ some T
    → Agrees s T (unload_round left T.unload_size swap_free w)
unfolding unload_round count_round
unload_round-Agrees zero mem_swap swap_free s p t T w fits room few a e =
    elim (Bool-cases (ltb t.unload_size mem_swap)) [
      | inl short ↦ absurd (ground (arith, e, short))
      | inr full ↦
          let same : t ≡ T = ground (arith, e, full) in
          rw (sym same) (a.unload_size2, omega (arith, a.unloadlist), λ pos. a.unloadlist)
    ]
unload_round-Agrees (suc left) mem_swap swap_free s p t T w fits room few a e =
    let g = count_round-Grown (suc left) mem_swap swap_free s p t T fits room few e in
    elim (Bool-cases (ltb w.unload_size2 T.unload_size)) [
      | inr full ↦ rw full (Agrees-here swap_free s p t T w a g full)
      | inl short ↦
          let t1 = count_candidate swap_free (chunk_at s p) t in
          let next = s.ring.links.prev p in
          let g1 = count_candidate-Grown swap_free s p t fits room (omega (arith, few)) in
          let b = unload_step-Abreast swap_free s p t w (omega (arith, few)) a in
          elim (count_round-next left mem_swap swap_free s p t T e) [
            | inl same ↦
                absurd
                  (ground (arith, short, a.unload_size2, ap (λ (u : Tally). u.unload_size) same))
            | inr (inl ends) ↦
                rw (short, ends.0, sym ends.1)
                  (b.unload_size2, omega (arith, b.unloadlist), λ pos. b.unloadlist)
            | inr (inr goes) ↦ rw short (
                unload_round-Agrees left mem_swap swap_free s next t1 T (unload_step swap_free w)
                  fits g1.0.1 (omega (arith, few, g1.1)) b goes)
          ]
    ]

-- The first round ends where some chunk is registered.
pub count_round_ends :
    (left mem_swap swap_free : ℕ) (s : State) (p : Ptr) (t : Tally)
    → 1 ≤ left
    → (T : Tally) × (count_round left mem_swap swap_free s p t ≡ some T)
unfolding count_round
count_round_ends zero mem_swap swap_free s p t h = absurd (omega (arith, h))
count_round_ends (suc left) mem_swap swap_free s p t h =
    let t1 = count_candidate swap_free (chunk_at s p) t in
    elim (Bool-cases (ltb t.unload_size mem_swap)) [
      | inr full ↦ (t, rw full refl)
      | inl short ↦ elim (Bool-cases (left == 0)) [
        | inl ends ↦ (t1, rw (short, ends) refl)
        | inr goes ↦
            let r =
              count_round_ends left mem_swap swap_free s (s.ring.links.prev p) t1
                (ground (arith, goes)) in
            (r.0, rw (short, goes) r.1)
      ]
    ]
