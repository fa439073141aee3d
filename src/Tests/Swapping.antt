-- ===== src/Tests/Swapping.antt =====
-- The dummy swap on the state of Scheduler, with an allocator that never uses an address again.
use rambrain.Prelude.{ℕ, ◌+◌, ◌≤◌, ◌<◌, ◌≡◌, ◌≢◌, refl, List, [], ◌∷◌, inr, inl, arith}
use rambrain.Heap.{Block, Malloc, IsFresh, ApartAll, InUse}
use rambrain.Swap.Dummy.{swap_out, swap_in, swap_out_all, swap_in_all}
use rambrain.Swap.Books.{Balanced}
use rambrain.Swap.Batch.{swap_out_all-Balanced, swap_in_all-Balanced}
use rambrain.Swap.RoundTrip.{Restored, swap_in-swap_out, swap_out_other_blocks}
use rambrain.Tests.Scheduler.{three}

abbrev top : List Block → ℕ
top [] = 1
top (b ∷ bs) = b.at + b.size + top bs

abbrev bump : Malloc
bump h n align = top h.live

bump_apart : (p n : ℕ) (bs : List Block) → top bs ≤ p → ApartAll p n bs
bump_apart p n [] above = tt
bump_apart p n (b ∷ bs) above = (inr (omega arith), bump_apart p n bs (omega arith))

bump-IsFresh : IsFresh bump
bump-IsFresh h n align got = bump_apart (top h.live) n h.live (omega arith)

pub three-Balanced : Balanced three
three-Balanced = record {
  distinct = (refl, (refl, (refl, tt)));
  ram = refl;
  out = refl;
  used = refl;
  free = refl;
  fits = omega arith;
}

-- Two chunks go out.
swap_out_all-Balanced_example :
    Balanced (swap_out_all bump (2 ∷ 1 ∷ []) three).1
    × ((swap_out_all bump (2 ∷ 1 ∷ []) three).1.acc.memory_used
          + (swap_out_all bump (2 ∷ 1 ∷ []) three).0
        ≡ 300)
swap_out_all-Balanced_example =
    swap_out_all-Balanced bump (2 ∷ 1 ∷ []) three three-Balanced
      ((refl, refl, refl, (refl, refl, refl, tt)))

swap_in_all-Balanced_example :
    Balanced (swap_in_all bump (3 ∷ []) three).1
    × ((swap_in_all bump (3 ∷ []) three).1.acc.memory_used
        ≡ 300 + (swap_in_all bump (3 ∷ []) three).0)
swap_in_all-Balanced_example =
    swap_in_all-Balanced bump (3 ∷ []) three three-Balanced (refl, refl, refl, tt)

out_done : (swap_out bump 2 three).0 ≡ 200
unfolding swap_out rambrain.Prelude.Words.add64
out_done = refl

back_done : (swap_in bump 2 (swap_out bump 2 three).1).0 ≡ 200
unfolding swap_out swap_in rambrain.Prelude.Words.add64 rambrain.Prelude.update
back_done = refl

swap_in-swap_out_example : Restored 2 three (swap_in bump 2 (swap_out bump 2 three).1).1
swap_in-swap_out_example =
    swap_in-swap_out bump 2 three three-Balanced refl refl (omega arith) out_done back_done

-- The other chunk in RAM, while the second goes out.
swap_out_other_blocks_example :
    InUse 1000 100 (swap_out bump 2 three).1.heap.live
    × ((k : ℕ)
        → k < 100
        → (swap_out bump 2 three).1.heap.bytes (1000 + k) ≡ three.heap.bytes (1000 + k))
swap_out_other_blocks_example =
    swap_out_other_blocks bump bump-IsFresh 2 three 1000 100 (inl (refl, refl)) (omega arith)
