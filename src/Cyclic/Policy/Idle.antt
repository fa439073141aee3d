-- ===== src/Cyclic/Policy/Idle.antt =====
-- src/cyclicManagedMemory.cpp, swapOut: it selects only chunks that nobody uses.
use rambrain.Prelude.{
  ℕ, zero, suc, ◌≡◌, refl, ◌∙◌, true, Bool-cases, inl, inr, ltb, List, [], ◌∷◌, arith, ◌∈◌,
  has-append,
}
use rambrain.Chunk.{Chunk, MemoryStatus, is_status, mem_allocated}
use rambrain.State.{State}
use rambrain.Cyclic.Policy.Unloading.{
  Unloading, is_candidate, unload_chunk, unload_step, unload_round,
}
use rambrain.Cyclic.Policy.Alike.{Alike-refl, unload_chunk-Alike}
use rambrain.Cyclic.Policy.SwapOut.{unload_start}

-- All chunks of a list lie in the memory, and nobody uses them.
abbrev pub Idle : State → List ℕ → Type 0
Idle s is = (i : ℕ) → i ∈ is → ((s.chunks i).status ≡ mem_allocated) × ((s.chunks i).use_cnt ≡ 0)

allocated_of_is_status :
    (st : MemoryStatus) → is_status st mem_allocated ≡ true → st ≡ mem_allocated
allocated_of_is_status mem_allocated e = refl
allocated_of_is_status st e = absurd (ground arith)

candidate_idle :
    (swap_free n : ℕ) (c : Chunk)
    → is_candidate swap_free n c ≡ true
    → (c.status ≡ mem_allocated) × (c.use_cnt ≡ 0)
unfolding is_candidate
candidate_idle swap_free n c e =
    (allocated_of_is_status c.status (ground (arith, e)), ground (arith, e))

unload_chunk-Idle :
    (i : ℕ) (w : Unloading)
    → ((w.state.chunks i).status ≡ mem_allocated) × ((w.state.chunks i).use_cnt ≡ 0)
    → Idle w.state w.unloadlist
    → let w1 = unload_chunk i w in Idle w1.state w1.unloadlist
unfolding unload_chunk
unload_chunk-Idle i w new idle j m =
    let a = unload_chunk-Alike w.state i w (Alike-refl w.state) in
    let known : ((w.state.chunks j).status ≡ mem_allocated) × ((w.state.chunks j).use_cnt ≡ 0) =
      ground (arith, m, new, idle j, has-append j w.unloadlist (i ∷ [])) in
    (a.status j ∙ known.0, a.use_cnt j ∙ known.1)

unload_step-Idle :
    (swap_free : ℕ) (w : Unloading)
    → Idle w.state w.unloadlist
    → let w1 = unload_step swap_free w in Idle w1.state w1.unloadlist
unfolding unload_step
unload_step-Idle swap_free w idle =
    let i = w.state.ring.chunk w.from_pos in
    elim (Bool-cases (is_candidate swap_free w.unload_size2 (w.state.chunks i))) [
      | inr passed ↦ rw passed idle
      | inl taken ↦ rw taken (
          unload_chunk-Idle i w (candidate_idle swap_free w.unload_size2 (w.state.chunks i) taken)
            idle)
    ]

pub unload_round-Idle :
    (left unload_size swap_free : ℕ) (w : Unloading)
    → Idle w.state w.unloadlist
    → let v = unload_round left unload_size swap_free w in Idle v.state v.unloadlist
unfolding unload_round
unload_round-Idle zero unload_size swap_free w idle = idle
unload_round-Idle (suc left) unload_size swap_free w idle =
    elim (Bool-cases (ltb w.unload_size2 unload_size)) [
      | inr full ↦ rw full idle
      | inl short ↦ rw short (
          unload_round-Idle left unload_size swap_free (unload_step swap_free w)
            (unload_step-Idle swap_free w idle))
    ]

pub start-Idle : (s : State) → Idle (unload_start s).state (unload_start s).unloadlist
unfolding unload_start
start-Idle s i m = absurd (cc)
