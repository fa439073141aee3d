-- ===== src/Swap/RoundTrip.antt =====
-- src/managedDummySwap.cpp: what is swapped out and in again is as before, byte for byte, and no
-- other buffer changes.
use rambrain.Prelude.{
  ℕ, ◌+◌, ◌<◌, ◌≡◌, ◌≢◌, refl, ◌∙◌, false, Bool-cases, inl, inr, ◌==◌, ltb, List, [], ◌∷◌, arith,
  update, ◌∈◌,
}
use rambrain.Prelude.Words.{add64}
use rambrain.Chunk.{mem_allocated, mem_swapped}
use rambrain.Heap.{Malloc, Block, IsFresh, InUse, Apart_of_InUse, memcpy, memcpy_other, release}
use rambrain.State.{State}
use rambrain.Swap.Dummy.{move_out, move_in, swap_out, swap_in}
use rambrain.Swap.Books.{Balanced}
use rambrain.Swap.Batch.{swap_out-Balanced, swap_in-Balanced}

InUse-release : (p n q : ℕ) (bs : List Block) → p ≢ q → InUse p n bs → InUse p n (release q bs)
InUse-release p n q [] other none = none
InUse-release p n q (b ∷ bs) other (inl here) =
    let e : (b.at == q) ≡ false = ground arith in rw e (inl here)
InUse-release p n q (b ∷ bs) other (inr there) = elim (Bool-cases (b.at == q)) [
  | inl gone ↦ rw gone there
  | inr kept ↦ rw kept (inr (InUse-release p n q bs other there))
]

module _ (mm_malloc : Malloc) where
  -- When swapOut returns the chunk's size, it has a buffer.
  swap_out_moved :
      (i : ℕ) (s : State)
      → 0 < (s.chunks i).size
      → (swap_out mm_malloc i s).0 ≡ (s.chunks i).size
      → (swap_out mm_malloc i s).1
        ≡ move_out (mm_malloc s.heap (s.chunks i).size s.memory_alignment) i s
  unfolding swap_out
  swap_out_moved i s some done =
      elim (Bool-cases (ltb s.acc.swap_size (add64 (s.chunks i).size s.acc.swap_used))) [
        | inl full ↦ ground arith
        | inr room ↦ ground arith
      ]

  swap_in_moved :
      (i : ℕ) (s : State)
      → 0 < (s.chunks i).size
      → (swap_in mm_malloc i s).0 ≡ (s.chunks i).size
      → (swap_in mm_malloc i s).1
        ≡ move_in (mm_malloc s.heap (s.chunks i).size s.memory_alignment) i s
  unfolding swap_in
  swap_in_moved i s some done = ground arith

-- The chunk is in RAM again with the bytes it had, and the accounts are what they were.
pub record Restored (i : ℕ) (s s' : State) : Type 0 where
  pub status : (s'.chunks i).status ≡ mem_allocated
  pub size : (s'.chunks i).size ≡ (s.chunks i).size
  pub bytes :
      (k : ℕ)
      → k < (s.chunks i).size
      → s'.heap.bytes ((s'.chunks i).loc_ptr + k) ≡ s.heap.bytes ((s.chunks i).loc_ptr + k)
  pub ram : s'.acc.memory_used ≡ s.acc.memory_used
  pub swapped : s'.acc.memory_swapped ≡ s.acc.memory_swapped
  pub books : Balanced s'

moved_bytes :
    (b1 b2 i k : ℕ) (s : State)
    → k < (s.chunks i).size
    → let s' = move_in b2 i (move_out b1 i s) in
      s'.heap.bytes ((s'.chunks i).loc_ptr + k) ≡ s.heap.bytes ((s.chunks i).loc_ptr + k)
unfolding move_out move_in update memcpy
moved_bytes b1 b2 i k s small = ground arith

moved_size : (b1 i : ℕ) (s : State) → ((move_out b1 i s).chunks i).size ≡ (s.chunks i).size
unfolding move_out update
moved_size b1 i s = ground arith

moved_status : (b1 i : ℕ) (s : State) → ((move_out b1 i s).chunks i).status ≡ mem_swapped
unfolding move_out update
moved_status b1 i s = ground arith

back_status : (b2 i : ℕ) (s : State) → ((move_in b2 i s).chunks i).status ≡ mem_allocated
unfolding move_in update
back_status b2 i s = ground arith

back_size : (b2 i : ℕ) (s : State) → ((move_in b2 i s).chunks i).size ≡ (s.chunks i).size
unfolding move_in update
back_size b2 i s = ground arith

moved_keys : (b i : ℕ) (s : State) → (move_out b i s).mem_chunks ≡ s.mem_chunks
unfolding move_out
moved_keys b i s = refl

module _ (mm_malloc : Malloc) (i : ℕ) (s : State) (v : Balanced s) (known : i ∈ s.mem_chunks)
    (here : (s.chunks i).status ≡ mem_allocated) (some : 0 < (s.chunks i).size)
    (done : (swap_out mm_malloc i s).0 ≡ (s.chunks i).size)
    (back : (swap_in mm_malloc i (swap_out mm_malloc i s).1).0 ≡ (s.chunks i).size) where
  -- Where the accounts match the chunks, a chunk of some bytes in RAM that swapOut and then swapIn
  -- report to have moved has the bytes, the size, the status and the RAM and swap accounts it had before.
  pub swap_in-swap_out : Restored i s (swap_in mm_malloc i (swap_out mm_malloc i s).1).1
  swap_in-swap_out =
      let n = (s.chunks i).size in
      let b1 = mm_malloc s.heap n s.memory_alignment in
      let s1 = (swap_out mm_malloc i s).1 in
      let e1 = swap_out_moved mm_malloc i s some done in
      let z1 : (s1.chunks i).size ≡ n = rw e1 (moved_size b1 i s) in
      let b2 = mm_malloc s1.heap (s1.chunks i).size s1.memory_alignment in
      let e2 = swap_in_moved mm_malloc i s1 (rw z1 some) (rw z1 back) in
      let one = swap_out-Balanced mm_malloc i s v known here in
      let two =
        swap_in-Balanced mm_malloc i s1 one.0 (rw (e1, moved_keys b1 i s) known)
          (rw e1 (moved_status b1 i s)) in
      record {
        status = rw e2 (back_status b2 i s1);
        size = rw e2 (back_size b2 i s1 ∙ z1);
        bytes = λ k small. rw (e2, e1) (moved_bytes b1 _ i k s small);
        ram = omega (arith, one, two, done, back);
        swapped = omega (arith, one, two, done, back);
        books = two.0;
      }

module _ (mm_malloc : Malloc) (fresh : IsFresh mm_malloc) where
  -- If the allocator returns fresh blocks, swapOut leaves every other block that is in use, and its
  -- bytes, as it is.
  pub swap_out_other_blocks :
      (i : ℕ) (s : State) (p n : ℕ)
      → InUse p n s.heap.live
      → p ≢ (s.chunks i).loc_ptr
      → let s' = (swap_out mm_malloc i s).1 in
        InUse p n s'.heap.live × ((k : ℕ) → k < n → s'.heap.bytes (p + k) ≡ s.heap.bytes (p + k))
  unfolding swap_out move_out
  swap_out_other_blocks i s p n used other =
      let size = (s.chunks i).size in
      let buf = mm_malloc s.heap size s.memory_alignment in
      elim (Bool-cases (ltb s.acc.swap_size (add64 size s.acc.swap_used))) [
        | inl full ↦ rw full (used, λ k small. refl)
        | inr room ↦ elim (Bool-cases (buf == 0)) [
          | inl none ↦ rw (room, none) (used, λ k small. refl)
          | inr got ↦
              let far =
                Apart_of_InUse buf size p n s.heap.live
                  (fresh s.heap size s.memory_alignment (ground arith)) used in
              rw (room, got)
                (
                  InUse-release p n (s.chunks i).loc_ptr
                      (record { at = buf; size = size } ∷ s.heap.live) other (inr used),
                  λ k small.
                      memcpy_other buf (s.chunks i).loc_ptr size (p + k) s.heap
                        (ground (arith, far)),
                )
        ]
      ]
