-- ===== src/Tests/Moving.antt =====
-- A swapped chunk comes back: the steps, and the code.
use rambrain.Prelude.{◌≡◌, refl, inl, arith, update}
use rambrain.Chunk.{mem_swapin}
use rambrain.State.{State}
use rambrain.Ring.{Ptr}
use rambrain.FileSwap.{Location, page_end}
use rambrain.FileSwap.Transfer.{swapped_in, chunk_of}
use rambrain.FileSwap.Moves.{Outside, start_swap_in, swap_in}
use rambrain.FileSwap.Moves.Counted.{Counted}
use rambrain.FileSwap.Moves.Steps.{here, step, reading, read, Reach-Counted}
use rambrain.FileSwap.Moves.Copies.{Ends}
use rambrain.FileSwap.Moves.Refines.{Known, Reached, swap_in-Reached}
use rambrain.Tests.Scheduler.{three}
use rambrain.Tests.Paging.{pages, at_page}

three-Counted : Counted three
three-Counted = record {
  distinct = (refl, (refl, (refl, tt)));
  ram = refl;
  out = refl;
  tobefreed = refl;
  used = refl;
  fits = omega arith;
}

abbrev halfway : State
halfway = start_swap_in 7 3 three

arriving : (halfway.chunks 3).status ≡ mem_swapin
unfolding start_swap_in update
arriving = refl

Reach-Counted_example : Counted (swapped_in 3 (start_swap_in 7 3 three))
unfolding start_swap_in
Reach-Counted_example =
    Reach-Counted (step (step here (reading 7 3 three refl refl)) (read 3 halfway refl arriving))
      three-Counted

abbrev outside : Outside
outside = record {
  overhead = 48;
  align = 1;
  resize_step = 100;
  new_location = λ f. 4;
  new_tracker = λ f. 9;
  settle = λ p f. f;
  ftruncate = λ n size. 0;
  mm_malloc = λ h n align. 700;
}

abbrev one_part : Ptr → Location
one_part p = record (at_page 0 0 300) { status = page_end; link = 3 }

one_part-Known : Known 9 3 (record pages { base = three; locs = one_part })
unfolding Known chunk_of
one_part-Known = inl (refl, refl)

swap_in-Reached_example :
    Ends
      (Reached (record pages { base = three; locs = one_part }))
      (Reached (record pages { base = three; locs = one_part }))
      (swap_in outside 9 3 (record pages { base = three; locs = one_part }))
swap_in-Reached_example =
    swap_in-Reached outside 9 3 (record pages { base = three; locs = one_part }) refl one_part-Known
